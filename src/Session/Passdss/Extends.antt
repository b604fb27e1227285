-- ===== src/Session/Passdss/Extends.antt =====
-- The transcript of `AuthPASSDSS_3DES_1` of tspc-advanced/src/tsp/tsp_auth_passdss.c, whatever the
-- server has sent: bytes are only added to it.
use mathlib.Core.List.{append_assoc}
use gw6c.Base.{
  ℕ, ◌+◌, ◌/◌, ◌≡◌, refl, ◌∙◌, not, ◌==◌, List, ◌++◌, Option, none, some, length, Run, done, exit,
  Always, then_Always, any_Always, if_both, no_fuel,
}
use gw6c.Buffer.{Memory, Buffer, append, get}
use gw6c.Buffer.Holds.{Holds, append-Holds}
use gw6c.Buffer.Aux.{put_int, put_bignum, get_int, get_octet, get_string, get_bignum}
use gw6c.Session.Passdss.{Crypto, Key, Hello, int_below, read_signature, read_hello}

module _ (raw : Memory) (c : Crypto) where
  open c use {bn}

  -- More bytes behind those that were there.
  abbrev pub Extends : List ℕ → Buffer → Type 0
  Extends q b = (more : List ℕ) × Holds b (q ++ more)

  further : (q more : List ℕ) (b : Buffer) → Extends (q ++ more) b → Extends q b
  further q more b (rest, h) =
      (more ++ rest, record { valid = h.valid; bytes = h.bytes ∙ append_assoc q more rest })

  append-Extends :
      (q : List ℕ) (b : Buffer) (xs : List ℕ) → Extends q b → Always (Extends q) (append raw b xs)
  append-Extends q b xs (more, h) = any (append raw b xs) refl
    where
      any : (r : Run Buffer) → append raw b xs ≡ r → Always (Extends q) r
      any (done b') e = further q more b' (xs, append-Holds raw xs h e)
      any (exit n) e = tt
      any no_fuel e = tt

  put_bignum-Extends :
      (q : List ℕ) (b : Buffer) (v : bn.Num)
      → Extends q b
      → Always (Extends q) (put_bignum raw bn b v)
  unfolding put_bignum put_int
  put_bignum-Extends q b v x =
      if_both (Always (Extends q)) (not (length (bn.bn2bin v) == (bn.num_bits v + 7) / 8)) tt (
        then_Always (Extends q) (Extends q) (append raw b _) _ (append-Extends q b _ x)
          (λ b' e x'. append-Extends q b' _ x'))

  abbrev pub Kept : (Buffer → Type 0) → Option (Hello bn.Num) → Type 0
  Kept P none = Unit
  Kept P (some hello) = P hello.transcript

  read_signature-Kept :
      (P : Buffer → Type 0) (h b : Buffer) (dsa : Key bn.Num) (y : bn.Num)
      → P h
      → Always (Kept P) (read_signature raw c h dsa y b)
  unfolding read_signature
  read_signature-Kept P h b dsa y x =
      let K = Kept P in
      any_Always K (get_octet b) _ (λ (mask, b₁) e₁. any_Always K (get b₁ 3) _ (λ (buf, b₂) e₂.
        any_Always K (get_int b₂) _ (λ (size, b₃) e₃. if_both (Always K) (int_below size 59) tt (
          any_Always K (get_string b₃) _ (λ (s, n, b₄) e₄.
            any_Always K (get_bignum raw bn b₄) _
              (λ (r, b₅) e₅. any_Always K (get_bignum raw bn b₅) _ (λ (s, b₆) e₆. x)))))))

  pub read_hello-Extends :
      (q : List ℕ) (h b : Buffer) → Extends q h → Always (Kept (Extends q)) (read_hello raw c h b)
  unfolding read_hello put_int
  read_hello-Extends q h b x =
      let E = Extends q in
      let K = Kept E in
      any_Always K (get_int b) _ (λ (size, b₁) e₁. if_both (Always K) (int_below size 240) tt (
        then_Always E K (append raw h _) _ (append-Extends q h _ x) (λ h₁ d₁ x₁.
          then_Always E K (append raw h₁ _) _ (append-Extends q h₁ _ x₁) (λ h₂ d₂ x₂.
            any_Always K (get_string b₁) _ (λ (s, n, b₂) e₂.
              any_Always K (get_bignum raw bn b₂) _ (λ (p, b₃) e₃.
                any_Always K (get_bignum raw bn b₃) _ (λ (p', b₄) e₄.
                  any_Always K (get_bignum raw bn b₄) _ (λ (g, b₅) e₅.
                    any_Always K (get_bignum raw bn b₅) _ (λ (z, b₆) e₆.
                      any_Always K (get_bignum raw bn b₆) _ (λ (y, b₇) e₇.
                        then_Always E K (put_bignum raw bn h₂ y) _ (put_bignum-Extends q h₂ y x₂)
                          (λ h₃ d₃ x₃.
                            then_Always E K (append raw h₃ _) _ (append-Extends q h₃ _ x₃)
                              (λ h₄ d₄ x₄. read_signature-Kept E h₄ b₇ _ y x₄))))))))))))
