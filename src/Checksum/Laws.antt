-- ===== src/Checksum/Laws.antt =====
-- What a receiver of the checksum relies on.
use gw6c.Base.{
  ℕ, ◌+◌, ◌-◌, ◌*◌, ◌/◌, ◌%◌, ◌^◌, ◌<◌, ◌≤◌, ◌≡◌, refl, ap, sym, ◌∙◌, ◌⊎◌, inl, inr, List, [], ◌∷◌,
  ◌++◌, arith, All, length,
}
use gw6c.Base.Bits.{bit_and-low}
use gw6c.Checksum.{sum_words, in_cksum}

-- The bytes weighed by turns with `u` and with `v`.
unfoldable pub weigh : (u v : ℕ) → List ℕ → ℕ
weigh u v [] = 0
weigh u v (a ∷ bytes) = a * u + weigh v u bytes

-- The bytes with one of zero behind an odd number of them.
unfoldable pub padded : List ℕ → List ℕ
padded (a ∷ b ∷ rest) = a ∷ b ∷ padded rest
padded (a ∷ []) = a ∷ 0 ∷ []
padded [] = []

module _ (u v : ℕ) (order : ((u ≡ 1) × (v ≡ 256)) ⊎ ((u ≡ 256) × (v ≡ 1))) (load : ℕ → ℕ → ℕ)
    (is_load : (a b : ℕ) → load a b ≡ a * u + b * v) where
  sum_words-weigh : (bytes : List ℕ) → sum_words load bytes ≡ weigh u v bytes
  unfolding sum_words weigh
  sum_words-weigh (a ∷ b ∷ rest) = omega (arith, is_load a b, sum_words-weigh rest)
  sum_words-weigh (a ∷ []) = omega (arith, is_load a 0)
  sum_words-weigh [] = refl

  load-word : (a b : ℕ) → a < 256 → b < 256 → load a b ≤ 65535
  load-word a b ha hb = elim order [
    | inl (one, high) ↦
        omega (arith, is_load a b, ap (λ (k : ℕ). a * k) one, ap (λ (k : ℕ). b * k) high)
    | inr (high, one) ↦
        omega (arith, is_load a b, ap (λ (k : ℕ). a * k) high, ap (λ (k : ℕ). b * k) one)
  ]

  sum_words-le :
      (bytes : List ℕ)
      → All (λ a. a < 256) bytes
      → sum_words load bytes ≤ (length bytes + 1) / 2 * 65535
  unfolding sum_words
  sum_words-le (a ∷ b ∷ rest) h = omega (arith, load-word a b h.0 h.1.0, sum_words-le rest h.1.1)
  sum_words-le (a ∷ []) h = omega (arith, load-word a 0 h.0 (omega arith))
  sum_words-le [] h = omega arith

  sum_words-padded :
      (bytes more : List ℕ)
      → sum_words load (padded bytes ++ more) ≡ sum_words load bytes + sum_words load more
  unfolding sum_words padded
  sum_words-padded (a ∷ b ∷ rest) more = omega (arith, sum_words-padded rest more)
  sum_words-padded (a ∷ []) more = omega arith
  sum_words-padded [] more = omega arith

  in_cksum-sum :
      (bytes : List ℕ)
      → sum_words load bytes < 2 ^ 32 - 2 ^ 17
      → (in_cksum load bytes < 2 ^ 16)
        × ((sum_words load bytes + in_cksum load bytes) % 65535 ≡ 0)
        × (0 < sum_words load bytes + in_cksum load bytes)
  unfolding in_cksum
  in_cksum-sum bytes small = omega (arith, bit_and-low 16 (sum_words load bytes))

  in_cksum-whole :
      (bytes : List ℕ)
      → sum_words load bytes < 2 ^ 32 - 2 ^ 17
      → 0 < sum_words load bytes
      → sum_words load bytes % 65535 ≡ 0
      → in_cksum load bytes ≡ 0
  unfolding in_cksum
  in_cksum-whole bytes small some whole = omega (arith, bit_and-low 16 (sum_words load bytes))

  -- On at most 65,535 bytes, in either byte order, the checksum is a 16-bit word that completes the
  -- bytes, each weighed by its place in its word, to nothing in one's complement, that is modulo
  -- 65535; and if the word is put behind the bytes, and behind a zero if their number is odd, the
  -- checksum of the whole is zero.
  pub in_cksum-verifies :
      (bytes : List ℕ) (a b : ℕ)
      → All (λ a. a < 256) bytes
      → length bytes ≤ 65535
      → load a b ≡ in_cksum load bytes
      → (in_cksum load bytes < 2 ^ 16)
        × ((weigh u v bytes + in_cksum load bytes) % 65535 ≡ 0)
        × (in_cksum load (padded bytes ++ (a ∷ b ∷ [])) ≡ 0)
  in_cksum-verifies bytes a b h short stored =
      let bound = sum_words-le bytes h in
      let (word, completes, some) = in_cksum-sum bytes (omega (arith, bound)) in
      let total : ℕ = sum_words load bytes + in_cksum load bytes in
      let pair : sum_words load (a ∷ b ∷ []) ≡ in_cksum load bytes =
        unfold sum_words in omega (arith, stored) in
      let whole : sum_words load (padded bytes ++ (a ∷ b ∷ [])) ≡ total =
        omega (arith, sum_words-padded bytes (a ∷ b ∷ []), pair) in
      (
        word,
        ap (λ (n : ℕ). (n + in_cksum load bytes) % 65535) (sym (sum_words-weigh bytes)) ∙ completes,
        in_cksum-whole (padded bytes ++ (a ∷ b ∷ [])) (omega (arith, whole, bound, word))
            (omega (arith, whole, some)) (ap (λ (n : ℕ). n % 65535) whole ∙ completes),
      )
