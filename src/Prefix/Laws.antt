-- ===== src/Prefix/Laws.antt =====
-- What a verdict on an address and a prefix means.
use gw6c.Base.{
  same-eq, same_refl, ℕ, zero, suc, ◌+◌, ◌*◌, ◌-◌, ◌/◌, ◌%◌, ◌^◌, ◌≤◌, ◌<◌, ◌≡◌, refl, ◌↔◌, List,
  Option, some, true, leb, ◌==◌, ==_iff, ◌=s◌, Bool-cases, lt→ltb, inl, inr, arith, take, get_or,
}
use gw6c.Session.{pos}
use gw6c.Prefix.{part_of, compare_addresses, compare_resolved, is_address_in_prefix}

whole_bytes : (n : ℕ) (a p : List ℕ) → (compare_addresses n 0 a p ≡ part_of) ↔ (take n a ≡ take n p)
unfolding compare_addresses
whole_bytes n a p = (
  λ e. elim (Bool-cases (take n a =s take n p)) [
    | inl same ↦ same-eq (take n a) (take n p) same
    | inr other ↦ cc (rw other at e)
  ],
  λ same. rw (same, same_refl (take n p)) refl,
)

some_bits :
    (n k : ℕ) (a p : List ℕ)
    → 0 < k
    → compare_addresses n k a p ≡ part_of
    → (take n a ≡ take n p) × (get_or a n 0 / 2 ^ k ≡ get_or p n 0 / 2 ^ k)
unfolding compare_addresses
some_bits n k a p low e = elim (Bool-cases (take n a =s take n p)) [
  | inr other ↦ cc (rw other at e)
  | inl same ↦ elim (Bool-cases (get_or a n 0 / 2 ^ k == get_or p n 0 / 2 ^ k)) [
    | inr differ ↦ cc (rw (same, lt→ltb 0 k low, differ) at e)
    | inl agree ↦ (same-eq (take n a) (take n p) same, (==_iff _ _).0 agree)
  ]
]

first_bits : (k x y : ℕ) → 0 < k → k ≤ 4 → x / 2 ^ k ≡ y / 2 ^ k → x / 2 ^ (8 - k) ≡ y / 2 ^ (8 - k)
first_bits zero x y low few e = absurd (omega arith)
first_bits (suc zero) x y low few e = omega arith
first_bits (suc (suc zero)) x y low few e = omega arith
first_bits (suc (suc (suc zero))) x y low few e = omega arith
first_bits (suc (suc (suc (suc zero)))) x y low few e = e
first_bits (suc (suc (suc (suc (suc k))))) x y low few e = absurd (omega arith)

module _ (resolve : List ℕ → Option (List ℕ)) (address prefix a p : List ℕ)
    (is_a : resolve address ≡ some a) (is_p : resolve prefix ≡ some p) where
  compared :
      (len : ℕ)
      → 0 < len
      → len ≤ 128
      → is_address_in_prefix resolve (some address) (some prefix) (pos len)
        ≡ compare_addresses (len / 8) (len % 8) a p
  unfolding is_address_in_prefix compare_resolved
  compared len low high = rw (lt→ltb 0 len low, high_test, is_a, is_p) refl
    where
      high_test : leb len 128 ≡ true
      high_test = ground arith

  -- For valid addresses and a prefix of whole bytes, the address is part of the prefix exactly if
  -- those bytes are the same.
  pub is_address_in_prefix-whole :
      (n : ℕ)
      → 0 < n
      → n ≤ 16
      → (is_address_in_prefix resolve (some address) (some prefix) (pos (8 * n)) ≡ part_of)
        ↔ (take n a ≡ take n p)
  is_address_in_prefix-whole n low high =
      rw (compared (8 * n) (omega arith) (omega arith), bytes, no_bits) (whole_bytes n a p)
    where
      bytes : 8 * n / 8 ≡ n
      bytes = omega arith

      no_bits : 8 * n % 8 ≡ 0
      no_bits = omega arith

  -- For valid addresses and a prefix that ends one to four bits into a byte, an address that is
  -- reported as part of the prefix has the whole bytes and the first bits of the next in common
  -- with it.
  pub is_address_in_prefix-bits :
      (n k : ℕ)
      → n < 16
      → 0 < k
      → k ≤ 4
      → is_address_in_prefix resolve (some address) (some prefix) (pos (8 * n + k)) ≡ part_of
      → (take n a ≡ take n p) × (get_or a n 0 / 2 ^ (8 - k) ≡ get_or p n 0 / 2 ^ (8 - k))
  is_address_in_prefix-bits n k high low few e =
      let bytes : (8 * n + k) / 8 ≡ n = omega arith in
      let bits : (8 * n + k) % 8 ≡ k = omega arith in
      let r =
        some_bits n k a p low
          (rw (compared (8 * n + k) (omega arith) (omega arith), bytes, bits) at e) in
      (r.0, first_bits k (get_or a n 0) (get_or p n 0) low few r.1)
