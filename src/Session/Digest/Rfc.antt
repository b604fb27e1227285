-- ===== src/Session/Digest/Rfc.antt =====
-- The values that `AuthDIGEST_MD5` of tspc-advanced/src/tsp/tsp_auth.c computes, and those of
-- RFC 2831, which its comment quotes.
use gw6c.Base.{
  decimal, decimal_from, codes, ℕ, zero, suc, ◌+◌, ◌-◌, ◌*◌, ◌/◌, ◌%◌, ◌^◌, ◌≤◌, ◌<◌, ◌≡◌, refl, ap,
  ap₂, ◌∙◌, List, [], ◌∷◌, ◌++◌, Bool, true, false, ltb, lt→ltb, ◌&&◌, ◌||◌, Bool-cases, inl, inr,
  length, length-append, take-length, arith,
}
use mathlib.Core.Path.{subst}
use native.Mathlib.Nat.{pow-succ'}
use gw6c.Session.Digest.{
  Account, hex, snprintf, is_above, string_of, hash_uri, hash_secret, challenge_response,
}

-- What is joined by colons.
abbrev colon : List ℕ → List ℕ → List ℕ
colon s t = s ++ (b':' ∷ t)

module _ (hash : List ℕ → List ℕ) where
  -- `HEX(H(s))`, and `HEX(KD(k, s))`.
  abbrev pub hex_hash : List ℕ → List ℕ
  hex_hash s = hex (hash s)

  abbrev pub keyed : List ℕ → List ℕ → List ℕ
  keyed k s = hex_hash (colon k s)

  -- `A1` without authzid, and `A2` for qop "auth", with the method or with nothing before the
  -- colon, for the service tsp.
  abbrev pub a1_of : Account → (realm nonce cnonce : List ℕ) → List ℕ
  a1_of a realm nonce cnonce =
      colon (hash (colon a.userid (colon realm a.passwd))) (colon nonce cnonce)

  abbrev pub a2_of : (method server : List ℕ) → List ℕ
  a2_of method server = colon method (codes "tsp/" ++ server)

  abbrev pub rfc_response : Account → (realm nonce cnonce qop method : List ℕ) → List ℕ
  rfc_response a realm nonce cnonce qop method = keyed (hex_hash (a1_of a realm nonce cnonce)) (
      colon nonce
        (colon (codes "00000001") (colon cnonce (colon qop (hex_hash (a2_of method a.server))))))

-- A text that fits is printed whole.
fits : (len : ℕ) (text : List ℕ) → length text < len → snprintf len text ≡ text
fits len text lt = take-length (len - 1) text (omega arith)

and_false : (b : Bool) → (b && false) ≡ false
and_false true = refl
and_false false = refl

length-hex : (bytes : List ℕ) → length (hex bytes) ≡ 2 * length bytes
unfolding hex
length-hex [] = refl
length-hex (c ∷ cs) = omega (arith, length-hex cs)

pow_succ : (k : ℕ) → 10 ^ suc k ≡ 10 ^ k * 10
pow_succ k = pow-succ' 10 k ∙ omega arith

tenth : (n m : ℕ) → n < m * 10 → n / 10 < m
tenth n m lt = omega arith

length-decimal_from :
    (k n d : ℕ) (rest : List ℕ)
    → n < 10 ^ suc d
    → length (decimal_from k n rest) ≤ suc d + length rest
unfolding decimal_from
length-decimal_from zero n d rest lt = omega arith
length-decimal_from (suc k) n zero rest lt = rw (lt→ltb n 10 lt) (omega arith)
length-decimal_from (suc k) n (suc d) rest lt = elim (Bool-cases (ltb n 10)) [
  | inl small ↦ rw small (omega arith)
  | inr large ↦ rw large (
      omega (
        arith,
        length-decimal_from k (n / 10) d ((n % 10 + b'0') ∷ rest)
            (tenth n (10 ^ suc d) (subst (λ m. n < m) (pow_succ (suc d)) lt)),
      ))
]

-- Brokers after version 2.0.0 of the protocol are given the hash of the whole of `A1`.
abbrev pub is_later : List ℕ → Bool
is_later version = ltb 5 (length version) || is_above version (codes "2.0.0")

-- A time has 15 digits at most.
abbrev pub InTime : ℕ → Type 0
InTime cnonce = cnonce < 10 ^ 15

length-decimal : (n : ℕ) → InTime n → length (decimal n) ≤ 15
length-decimal n lt = omega (arith, length-decimal_from (suc n) n 14 [] lt)

module _ (hash : List ℕ → List ℕ) (sixteen : (s : List ℕ) → length (hash s) ≡ 16) where
  pub hash_uri-Rfc :
      (word server : List ℕ)
      → length word ≤ 12
      → hash_uri hash word server ≡ hex_hash hash (a2_of hash word server)
  unfolding hash_uri
  hash_uri-Rfc word server short = ap (hex_hash hash) (
      fits (length (codes "%s:tsp/%s") + 12 + length server + 1) (word ++ (codes ":tsp/" ++ server))
        (omega (arith, length-append word (codes ":tsp/" ++ server))))

  pub hash_secret-Rfc :
      (version : List ℕ) (a : Account) (realm nonce : List ℕ) (cnonce : ℕ)
      → is_later version ≡ true
      → InTime cnonce
      → hash_secret hash version a realm nonce cnonce
        ≡ hex_hash hash (a1_of hash a realm nonce (decimal cnonce))
  unfolding hash_secret
  hash_secret-Rfc version a realm nonce cnonce later time =
      let first = a.userid ++ (b':' ∷ (realm ++ (b':' ∷ a.passwd))) in
      let second = b':' ∷ (nonce ++ (b':' ∷ decimal cnonce)) in
      let whole₁ =
        fits (length (codes "%s:%s:%s") + length a.userid + length realm + length a.passwd + 1)
          first
          (omega (
            arith,
            length-append a.userid (b':' ∷ (realm ++ (b':' ∷ a.passwd))),
            length-append realm (b':' ∷ a.passwd),
          )) in
      let whole₂ =
        fits (16 + 1 + length nonce + 16 + 1 - 16) second (
          omega (arith, length-append nonce (b':' ∷ decimal cnonce), length-decimal cnonce time)) in
      rw
        (
          later,
          and_false (
              ltb
                (length (
                  string_of (
                    hash (
                      snprintf
                        (length (codes "%s:%s:%s")
                          + length a.userid
                          + length realm
                          + length a.passwd
                          + 1)
                        first))))
                16),
        )
        (ap (hex_hash hash) (ap₂ (λ x y. hash x ++ y) whole₁ whole₂))

  pub challenge_response-Rfc :
      (a : Account) (realm nonce : List ℕ) (cnonce : ℕ) (qop word : List ℕ)
      → InTime cnonce
      → challenge_response hash
          (hex_hash hash (a1_of hash a realm nonce (decimal cnonce)))
          nonce
          cnonce
          qop
          (hex_hash hash (a2_of hash word a.server))
        ≡ rfc_response hash a realm nonce (decimal cnonce) qop word
  unfolding challenge_response
  challenge_response-Rfc a realm nonce cnonce qop word time =
      let a1 = hex_hash hash (a1_of hash a realm nonce (decimal cnonce)) in
      let a2 = hex_hash hash (a2_of hash word a.server) in
      let end = qop ++ (b':' ∷ a2) in
      ap (hex_hash hash) (
        fits
          (length (codes "%s:%s:00000001:%lu:%s:%s") + 32 + length nonce + 16 + length qop + 32 + 1)
          (a1 ++ (b':' ∷ (nonce ++ (codes ":00000001:" ++ (decimal cnonce ++ (b':' ∷ end))))))
          (omega (
            arith,
            length-append a1
                (b':' ∷ (nonce ++ (codes ":00000001:" ++ (decimal cnonce ++ (b':' ∷ end))))),
            length-append nonce (codes ":00000001:" ++ (decimal cnonce ++ (b':' ∷ end))),
            length-append (decimal cnonce) (b':' ∷ end),
            length-append qop (b':' ∷ a2),
            length-hex (hash (a1_of hash a realm nonce (decimal cnonce))),
            sixteen (a1_of hash a realm nonce (decimal cnonce)),
            length-hex (hash (a2_of hash word a.server)),
            sixteen (a2_of hash word a.server),
            length-decimal cnonce time,
          )))
