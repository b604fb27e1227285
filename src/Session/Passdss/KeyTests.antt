-- ===== src/Session/Passdss/KeyTests.antt =====
-- A key file of tspc-advanced/src/tsp/tsp_auth_passdss.c with one host, to which another is added.
use gw6c.Base.{
  codes, ℕ, ltb, ◌&&◌, Bool, false, All, ◌<◌, ◌≡◌, refl, true, length, ◌≤◌, List, [], ◌∷◌, some,
  arith, done, ◌=s◌, if◌then◌else◌,
}
use gw6c.Base64.{char_of, encode_binary}
use gw6c.Base64.RoundTrip.{IsByte}
use gw6c.Buffer.Aux.{put_32bit}
use gw6c.Session.Digest.{string_of}
use gw6c.Session.Passdss.Layout.{dss_key}
use gw6c.Session.Passdss.{Key}
use gw6c.Session.Passdss.Keys.{absent, is_dsakey_in_keyfile, add_dsakey_to_keyfile}
use gw6c.Session.Passdss.Known.{IsKey, compared}
use gw6c.Session.Passdss.Table.{Entry, IsEntry, print, lookup}
use gw6c.Session.Passdss.Remembers.{add_dsakey_to_keyfile-Remembers}
use gw6c.Session.Passdss.Tests.{toy, zeros, place}

abbrev bytes_only : List ℕ → Bool
bytes_only [] = true
bytes_only (x ∷ xs) = ltb x 256 && bytes_only xs

small_enough : (x : ℕ) (rest : Bool) → (ltb x 256 && rest) ≡ true → (x < 256) × (rest ≡ true)
small_enough x true h = ground arith
small_enough x false h = ground arith

bytes_only-IsByte : (xs : List ℕ) → bytes_only xs ≡ true → All IsByte xs
bytes_only-IsByte [] h = tt
bytes_only-IsByte (x ∷ xs) h =
    let (small, others) = small_enough x (bytes_only xs) h in (small, bytes_only-IsByte xs others)

abbrev small : Key (List ℕ)
small = record { p = 1 ∷ []; q = 2 ∷ []; g = 3 ∷ []; pub_key = 4 ∷ [] }

abbrev montreal : Entry (List ℕ)
montreal = record { host = codes "montreal"; key = small }

abbrev broker : Entry (List ℕ)
broker = record { host = codes "broker"; key = small }

small-IsKey : IsKey zeros toy small
unfolding put_32bit
small-IsKey = record {
  p = omega arith;
  q = omega arith;
  g = omega arith;
  z = omega arith;
  all_bytes = bytes_only-IsByte (dss_key toy small) refl;
}

montreal-IsEntry : IsEntry zeros toy montreal
unfolding put_32bit encode_binary string_of char_of
montreal-IsEntry = record {
  key = small-IsKey;
  plain = (refl, (refl, (refl, (refl, (refl, (refl, (refl, (refl, tt))))))));
  some_host = omega arith;
  fits = omega arith;
}

broker-IsEntry : IsEntry zeros toy broker
unfolding put_32bit encode_binary string_of char_of
broker-IsEntry = record {
  key = small-IsKey;
  plain = (refl, (refl, (refl, (refl, (refl, (refl, tt))))));
  some_host = omega arith;
  fits = omega arith;
}

nothing_left : (behind : List ℕ) → length (string_of (place.left behind)) ≤ 3000
unfolding string_of
nothing_left behind = omega arith

add_dsakey_to_keyfile-Remembers_example :
    (f : List ℕ) × (add_dsakey_to_keyfile zeros toy place small
        (codes "broker")
        (some (print zeros toy (montreal ∷ [])))
      ≡ done (some (true, some f)))
    × (is_dsakey_in_keyfile zeros toy place small (codes "broker") (some f)
        ≡ done (
            if codes "broker" =s codes "broker"
            then compared zeros toy small small
            else lookup zeros toy small (codes "broker") absent (montreal ∷ [])))
add_dsakey_to_keyfile-Remembers_example =
    add_dsakey_to_keyfile-Remembers zeros toy place small (codes "broker") (montreal ∷ []) small
      (codes "broker") refl refl nothing_left (montreal-IsEntry, tt) broker-IsEntry (refl, tt)
