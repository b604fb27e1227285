-- ===== src/Session/Passdss/Signed.antt =====
-- The hash that `AuthPASSDSS_3DES_1` of tspc-advanced/src/tsp/tsp_auth_passdss.c verifies, whatever
-- the numbers in it.
use mathlib.Core.Path.{subst}
use mathlib.Core.List.{append_assoc}
use gw6c.Base.{
  ℕ, ◌+◌, ◌/◌, ◌^◌, ◌%◌, ◌≡◌, refl, sym, ap, ◌∙◌, not, ◌==◌, List, [], ◌++◌, length, Run, done,
  exit, no_fuel, Always, then_Always, if_both, arith,
}
use gw6c.Buffer.{Memory, Buffer, append, clear}
use gw6c.Buffer.Holds.{Holds, append-Holds, Sized, clear-Sized}
use gw6c.Buffer.Aux.{put_32bit, put_int, put_bignum}
use gw6c.Buffer.Aux.Numbers.{mpint}
use gw6c.Session.Passdss.{Crypto, signed_hash}
use gw6c.Session.Passdss.Follows.{bytes-eq}

pub sized : (b : Buffer) (q : List ℕ) → Holds b q → Sized b q b.alloc
sized b q h = record { holds = h; room = omega arith }

module _ (raw : Memory) (c : Crypto) where
  open c use {bn}

  pub append-Always :
      (b : Buffer) (q xs : List ℕ) → Holds b q → Always (λ b'. Holds b' (q ++ xs)) (append raw b xs)
  append-Always b q xs h = any (append raw b xs) refl
    where
      any : (r : Run Buffer) → append raw b xs ≡ r → Always (λ b'. Holds b' (q ++ xs)) r
      any (done b') e = append-Holds raw xs h e
      any (exit n) e = tt
      any no_fuel e = tt

  four_bytes : (n : ℕ) → put_32bit (n % 2 ^ 32) ≡ put_32bit n
  unfolding put_32bit
  four_bytes n =
      let a : n % 2 ^ 32 / 2 ^ 24 % 256 ≡ n / 2 ^ 24 % 256 = omega arith in
      let b : n % 2 ^ 32 / 2 ^ 16 % 256 ≡ n / 2 ^ 16 % 256 = omega arith in
      let c : n % 2 ^ 32 / 2 ^ 8 % 256 ≡ n / 2 ^ 8 % 256 = omega arith in
      let d : n % 2 ^ 32 % 256 ≡ n % 256 = omega arith in rw (a, b, c, d)

  put_bignum-Always :
      (b : Buffer) (q : List ℕ) (v : bn.Num)
      → Holds b q
      → Always (λ b'. Holds b' (q ++ mpint bn v)) (put_bignum raw bn b v)
  unfolding put_bignum put_int
  put_bignum-Always b q v h =
      let P = λ (b' : Buffer). Holds b' (q ++ mpint bn v) in
      let size = (bn.num_bits v + 7) / 8 in
      if_both (Always P) (not (length (bn.bn2bin v) == size)) tt (
        then_Always (λ b'. Holds b' (q ++ put_32bit (size % 2 ^ 32))) P (append raw b _) _
          (append-Always b q _ h)
          (λ b' e h'.
            subst (λ t. Always (λ b''. Holds b'' t) (append raw b' (bn.bn2bin v)))
              (append_assoc q (put_32bit (size % 2 ^ 32)) (bn.bn2bin v)
                ∙ ap (λ s. q ++ (s ++ bn.bn2bin v))
                    (four_bytes size ∙ ap put_32bit (sym (bn.bn2bin_size v))))
              (append-Always b' (q ++ put_32bit (size % 2 ^ 32)) (bn.bn2bin v) h')))

  pub signed_hash-Always :
      (h b : Buffer) (q p : List ℕ) (k : bn.Num)
      → Holds h q
      → Holds b p
      → Always (λ r. r.0 ≡ c.sha1 (q ++ mpint bn k)) (signed_hash raw c h b k)
  unfolding signed_hash
  signed_hash-Always h b q p k hh hb =
      let P = λ (r : List ℕ × Buffer). r.0 ≡ c.sha1 (q ++ mpint bn k) in
      rw (bytes-eq (sized h q hh)) (
        then_Always (λ b'. Holds b' q) P (append raw (clear b) q) _
          (append-Always (clear b) [] q ((clear-Sized (sized b p hb)).holds))
          (λ b₁ e₁ h₁.
            then_Always (λ b'. Holds b' (q ++ mpint bn k)) P (put_bignum raw bn b₁ k) _
              (put_bignum-Always b₁ q k h₁) (λ b₂ e₂ h₂. ap c.sha1 (bytes-eq (sized b₂ _ h₂)))))
