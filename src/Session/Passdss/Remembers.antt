-- ===== src/Session/Passdss/Remembers.antt =====
-- What `add_dsakey_to_keyfile` of tspc-advanced/src/tsp/tsp_auth_passdss.c writes is found again.
use mathlib.Core.List.{append_assoc}
use gw6c.Base.{
  codes, ℕ, ◌≤◌, ◌≡◌, refl, sym, ap, ◌∙◌, true, false, ◌=s◌, List, [], ◌∷◌, ◌++◌, some, All,
  All-append, length, done, if◌then◌else◌,
}
use gw6c.Buffer.{Memory}
use gw6c.Session.Digest.{string_of}
use gw6c.Session.Passdss.{Crypto, Key}
use gw6c.Session.Passdss.Keys.{
  Place, Found, absent, is_dsakey_in_keyfile, entry, add_found, add_dsakey_to_keyfile,
}
use gw6c.Session.Passdss.Known.{written, write_key-written, compared}
use gw6c.Session.Passdss.Table.{Entry, line, IsEntry, print, lookup, is_dsakey_in_keyfile-lookup}

module _ (raw : Memory) (c : Crypto) where
  open c use {bn}

  lookup-last :
      (dsa : Key bn.Num) (host : List ℕ) (found : Found) (es : List (Entry bn.Num))
      (e : Entry bn.Num)
      → lookup raw c dsa host found (es ++ (e ∷ []))
        ≡ (if host =s e.host then compared raw c dsa e.key else lookup raw c dsa host found es)
  unfolding lookup
  lookup-last dsa host found [] e = refl
  lookup-last dsa host found (d ∷ es) e =
      lookup-last dsa host (if host =s d.host then compared raw c dsa d.key else found) es e

  lookup-absent :
      (dsa : Key bn.Num) (host : List ℕ) (found : Found) (es : List (Entry bn.Num))
      → All (λ (e : Entry bn.Num). (host =s e.host) ≡ false) es
      → lookup raw c dsa host found es ≡ found
  unfolding lookup
  lookup-absent dsa host found [] are = refl
  lookup-absent dsa host found (e ∷ es) are = rw (are.0, lookup-absent dsa host found es are.1)

  print-last :
      (es : List (Entry bn.Num)) (host : List ℕ) (k : Key bn.Num)
      → print raw c es ++ entry raw c host (written raw c k)
        ≡ print raw c (es ++ (record { host = host; key = k } ∷ []))
  unfolding print
  print-last [] host k =
      let str = written raw c k in
      sym (
        append_assoc host (codes " ssh-dss " ++ str) (b'\n' ∷ [])
        ∙ ap (λ t. host ++ t) (append_assoc (codes " ssh-dss ") str (b'\n' ∷ [])))
  print-last (e ∷ es) host k =
      append_assoc (line raw c e) (b'\n' ∷ print raw c es) (entry raw c host (written raw c k))
      ∙ ap (λ t. line raw c e ++ (b'\n' ∷ t)) (print-last es host k)

  -- The key file is a table of hosts, in one token each, and keys, of numbers of at most 1 KiB, with
  -- lines of less than 4095 bytes, and of what earlier lines leave behind a line at most 3000 bytes
  -- are read. If the host is not in it, the user lets the key in, and the file can be written, then
  -- a line for the key is added, and every look-up of the host, with any key, compares with that
  -- key, while that of another host finds what it found before.
  pub add_dsakey_to_keyfile-Remembers :
      (place : Place) (k : Key bn.Num) (host : List ℕ) (es : List (Entry bn.Num)) (dsa : Key bn.Num)
      (asked : List ℕ)
      → place.answer ≡ true
      → place.can_write ≡ true
      → ((behind : List ℕ) → length (string_of (place.left behind)) ≤ 3000)
      → All (IsEntry raw c) es
      → IsEntry raw c (record { host = host; key = k })
      → All (λ (e : Entry bn.Num). (host =s e.host) ≡ false) es
      → (f : List ℕ) × (add_dsakey_to_keyfile raw c place k host (some (print raw c es))
          ≡ done (some (true, some f)))
        × (is_dsakey_in_keyfile raw c place dsa asked (some f)
            ≡ done
                (if asked =s host then compared raw c dsa k else lookup raw c dsa asked absent es))
  unfolding add_dsakey_to_keyfile add_found
  add_dsakey_to_keyfile-Remembers place k host es dsa asked agreed writes left are is new =
      let e : Entry bn.Num = record { host = host; key = k } in
      let missing =
        is_dsakey_in_keyfile-lookup raw c place k host left es are
        ∙ ap done (lookup-absent k host absent es new) in
      let all_are = All-append (IsEntry raw c) es (e ∷ []) are (is, tt) in
      (
        print raw c (es ++ (e ∷ [])),
        rw (missing, agreed, write_key-written raw c k is.key, writes, print-last es host k),
        is_dsakey_in_keyfile-lookup raw c place dsa asked left (es ++ (e ∷ [])) all_are
            ∙ ap done (lookup-last dsa asked absent es e),
      )
