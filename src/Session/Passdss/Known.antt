-- ===== src/Session/Passdss/Known.antt =====
-- What `add_dsakey_to_keyfile` of tspc-advanced/src/tsp/tsp_auth_passdss.c writes, is found again.
use mathlib.Core.Path.{subst}
use mathlib.Core.List.{append_assoc}
use gw6c.Base.{
  codes, ℕ, zero, suc, ◌+◌, ◌-◌, ◌≤◌, ◌≡◌, refl, sym, ap, ◌∙◌, Bool, true, false, ◌=s◌, ltb, List,
  [], ◌∷◌, ◌++◌, some, All, arith, length, take, length-append, length-take, Run, done,
  if◌then◌else◌, le→ltb,
}
use gw6c.Base64.{encode_binary}
use gw6c.Base64.RoundTrip.{IsByte}
use gw6c.Base64.Behind.{Plain, encode_binary-Plain, encode_binary-longer, decode-line}
use gw6c.Buffer.{Memory, Buffer, read, init, append}
use gw6c.Buffer.Holds.{append-Sized, init-Sized, max_piece}
use gw6c.Buffer.Aux.{put_cstring}
use gw6c.Buffer.Aux.RoundTrip.{get_string-Reads}
use gw6c.Buffer.Aux.Numbers.{
  string, mpint, IsShort, get_bignum-Reads, put_string-Sized, put_bignum-Sized,
}
use gw6c.Session.Digest.{string_of}
use gw6c.Session.Passdss.{Crypto, Key, bytes}
use gw6c.Session.Passdss.Keys.{
  Found, other, matching, different, verdict, is_same, compare_key, third_token, second_token,
  check_line, write_key, until_blank, strtok,
}
use gw6c.Session.Passdss.Tokens.{
  until_blank-last, strtok-Plain, strtok-word, length-until_blank, string_of-Plain,
}
use gw6c.Session.Passdss.Layout.{dss_key}
use gw6c.Session.Passdss.Reads.{moved, unwrapped, gathered}
use gw6c.Session.Passdss.Follows.{bytes-eq}

take-longer :
    (s more : List ℕ) (n : ℕ) → length s ≤ n → take n (s ++ more) ≡ s ++ take (n - length s) more
take-longer [] more n h = ap (λ (k : ℕ). take k more) (omega arith)
take-longer (c ∷ s) more zero h = absurd (omega arith)
take-longer (c ∷ s) more (suc n) h =
    ap (λ r. c ∷ r)
      (take-longer s more n (omega arith) ∙ ap (λ (k : ℕ). s ++ take k more) (omega arith))

done_branch :
    {A : Type 0} (b : Bool) {x : A} (y : A) {r : Run A}
    → r ≡ done x
    → (if b then r else done y) ≡ done (if b then x else y)
done_branch true y e = e
done_branch false y e = refl

module _ (raw : Memory) (c : Crypto) where
  open c use {bn, same}

  -- A key whose numbers are bytes, at most 1 KiB of them.
  pub record IsKey (k : Key bn.Num) : Type 0 where
    pub p : IsShort bn k.p
    pub q : IsShort bn k.q
    pub g : IsShort bn k.g
    pub z : IsShort bn k.pub_key
    pub all_bytes : All IsByte (dss_key c k)

  compare_key-verdict :
      (dsa k : Key bn.Num) (t behind : List ℕ)
      → IsKey k
      → encode_binary (dss_key c k) ≡ t ++ (0 ∷ [])
      → length (dss_key c k) ≤ length t
      → length (t ++ (b'\n' ∷ behind)) ≤ max_piece
      → compare_key raw c dsa (t ++ (b'\n' ∷ behind))
        ≡ done (verdict (if is_same raw c dsa k then matching else different))
  unfolding compare_key gw6c.Buffer.Aux.put_32bit
  compare_key-verdict dsa k t behind is e enough short =
      let s = dss_key c k in
      let text = t ++ (b'\n' ∷ behind) in
      let size = length text in
      let junk = (0 ∷ []) ++ read raw 0 size in
      let piece = s ++ take (size - length s) junk in
      let longer : length s ≤ size = omega (arith, length-append t (b'\n' ∷ behind)) in
      let cut : take size ((s ++ (0 ∷ [])) ++ read raw 0 size) ≡ piece =
        ap (take size) (append_assoc s (0 ∷ []) (read raw 0 size))
        ∙ take-longer s junk size longer in
      let fits : length piece ≤ max_piece = omega (
        arith,
        length-append s (take (size - length s) junk),
        length-take (size - length s) junk,
        longer,
      ) in
      let (b₁, e₁, s₁) = append-Sized raw piece fits (omega arith) (init-Sized raw) in
      let rest = take (size - length s) junk in
      let (b₂, e₂, k₂) =
        get_string-Reads
          (mpint bn k.p ++ (mpint bn k.q ++ (mpint bn k.g ++ (mpint bn k.pub_key ++ rest))))
          (codes "ssh-dss") (omega arith)
          (moved
            (unwrapped (string (codes "ssh-dss")) (mpint bn k.p) (mpint bn k.q) (mpint bn k.g)
              (mpint bn k.pub_key) rest)
            s₁.holds) in
      let (b₃, e₃, k₃) = get_bignum-Reads bn raw _ k.p is.p k₂ in
      let (b₄, e₄, k₄) = get_bignum-Reads bn raw _ k.q is.q k₃ in
      let (b₅, e₅, k₅) = get_bignum-Reads bn raw _ k.g is.g k₄ in
      let (b₆, e₆, k₆) = get_bignum-Reads bn raw rest k.pub_key is.z k₅ in
      let some_bytes : ltb (length s) 1 ≡ false = le→ltb (length s) 1 (omega arith) in
      rw (decode-line s t behind is.all_bytes e, some_bytes, cut, e₁, e₂, e₃, e₄, e₅, e₆)

  -- The key as `fprintf` has it in the file.
  abbrev pub written : Key bn.Num → List ℕ
  written k = string_of (encode_binary (dss_key c k))

  pub write_key-written : (k : Key bn.Num) → IsKey k → write_key raw c k ≡ done (written k)
  unfolding write_key put_cstring
  write_key-written k is =
      let (b₁, e₁, s₁) =
        put_string-Sized bn raw (omega arith) (init-Sized raw) (codes "ssh-dss") (omega arith) in
      let (b₂, e₂, s₂) = put_bignum-Sized bn raw (omega arith) s₁ k.p is.p in
      let (b₃, e₃, s₃) = put_bignum-Sized bn raw (omega arith) s₂ k.q is.q in
      let (b₄, e₄, s₄) = put_bignum-Sized bn raw (omega arith) s₃ k.g is.g in
      let (b₅, e₅, s₅) = put_bignum-Sized bn raw (omega arith) s₄ k.pub_key is.z in
      let held : bytes b₅ ≡ dss_key c k =
        bytes-eq s₅
        ∙ gathered (string (codes "ssh-dss")) (mpint bn k.p) (mpint bn k.q) (mpint bn k.g)
            (mpint bn k.pub_key) in
      rw (e₁, e₂, e₃, e₄, e₅, held)

  -- Between the host and the key.
  abbrev ending : List ℕ → List ℕ
  ending behind = b'\n' ∷ b'\n' ∷ behind

  abbrev pub compared : (dsa k : Key bn.Num) → Found
  compared dsa k = if is_same raw c dsa k then matching else different

  pub written-Plain :
      (k : Key bn.Num)
      → IsKey k
      → (encode_binary (dss_key c k) ≡ written k ++ (0 ∷ []))
        × All Plain (written k)
        × (length (dss_key c k) ≤ length (written k))
  written-Plain k is =
      let (t, e, plain) = encode_binary-Plain (dss_key c k) is.all_bytes in
      let text : written k ≡ t = rw (e, string_of-Plain t plain) in
      (
        e ∙ sym (ap (λ s. s ++ (0 ∷ [])) text),
        subst (λ s. All Plain s) (sym text) plain,
        subst (λ s. length (dss_key c k) ≤ length s) (sym text)
            (encode_binary-longer (dss_key c k) t e),
      )

  some_key : (k : Key bn.Num) → 1 ≤ length (dss_key c k)
  unfolding gw6c.Buffer.Aux.put_32bit
  some_key k = omega arith

  module _ (dsa : Key bn.Num) (text w rest : List ℕ) (e : strtok text ≡ some (w, rest)) where
    third_token-token : third_token raw c dsa text ≡ compare_key raw c dsa w
    unfolding third_token
    third_token-token = rw (third_token, e)

    second_token-token :
        second_token raw c dsa text
        ≡ (if codes "ssh-dss" =s w then third_token raw c dsa rest else done other)
    unfolding second_token
    second_token-token = rw (second_token, e)

    check_line-token :
        (host : List ℕ)
        → check_line raw c dsa host text
          ≡ (if host =s w then second_token raw c dsa rest else done other)
    unfolding check_line
    check_line-token host = rw (check_line, e)

  third_token-key :
      (dsa k : Key bn.Num) (t behind : List ℕ)
      → IsKey k
      → encode_binary (dss_key c k) ≡ t ++ (0 ∷ [])
      → All Plain t
      → length (dss_key c k) ≤ length t
      → length t + length behind ≤ 8000
      → third_token raw c dsa (t ++ ending behind) ≡ done (verdict (compared dsa k))
  unfolding until_blank
  third_token-key dsa k t behind is e plain longer short =
      let token = b'\n' ∷ (b'\n' ∷ (until_blank behind).0) in
      let size : length (t ++ token) ≤ max_piece =
        omega (arith, length-append t token, length-until_blank behind) in
      let split : until_blank (t ++ ending behind) ≡ (t ++ token, (until_blank behind).1) =
        until_blank-last t (ending behind) plain in
      let taken : strtok (t ++ ending behind) ≡ some (t ++ token, (until_blank behind).1) =
        strtok-Plain t (ending behind) plain (omega (arith, some_key k)) ∙ ap some split in
      third_token-token dsa (t ++ ending behind) (t ++ token) (until_blank behind).1 taken
      ∙ compare_key-verdict dsa k t (b'\n' ∷ (until_blank behind).0) is e longer size

  -- A line of the file, as `freadline` leaves it in the buffer.
  pub check_line-entry :
      (dsa k : Key bn.Num) (host name behind : List ℕ)
      → IsKey k
      → All Plain name
      → 1 ≤ length name
      → length (written k) + length behind ≤ 8000
      → check_line raw c dsa host (name ++ (codes " ssh-dss " ++ (written k ++ ending behind)))
        ≡ done (if host =s name then verdict (compared dsa k) else other)
  check_line-entry dsa k host name behind is plain some_name short =
      let (e, all_plain, longer) = written-Plain k is in
      let key = written k ++ ending behind in
      let third = third_token-key dsa k (written k) behind is e all_plain longer short in
      let second : second_token raw c dsa (codes "ssh-dss " ++ key)
          ≡ done (verdict (compared dsa k)) =
        second_token-token dsa (codes "ssh-dss " ++ key) (codes "ssh-dss") key (
          strtok-word (codes "ssh-dss") key
            (refl, (refl, (refl, (refl, (refl, (refl, (refl, tt))))))) (omega arith))
        ∙ third in
      check_line-token dsa (name ++ (codes " ssh-dss " ++ key)) name (codes "ssh-dss " ++ key)
        (strtok-word name (codes "ssh-dss " ++ key) plain some_name) host
      ∙ done_branch (host =s name) other second
