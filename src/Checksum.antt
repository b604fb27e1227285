-- ===== src/Checksum.antt =====
-- tspc-advanced/src/net/net_cksm.c, the Internet checksum. The buffer is the list of its bytes;
-- `load` is the host's way to read two of them as an `unsigned short`.
mod Tests
pub mod Laws
use gw6c.Base.{ℕ, ◌+◌, ◌*◌, ◌-◌, ◌/◌, ◌%◌, ◌^◌, ◌<◌, List, [], ◌∷◌, bit_and}

-- The first byte at the lower end, and at the upper.
abbrev pub little_endian : ℕ → ℕ → ℕ
little_endian a b = a + b * 256

abbrev pub big_endian : ℕ → ℕ → ℕ
big_endian a b = a * 256 + b

module _ (load : ℕ → ℕ → ℕ) where
  -- The loop, and the last byte of an odd number, put first in a zero word. `sum` is an `int`;
  -- it is exact below 2^31.
  unfoldable pub sum_words : List ℕ → ℕ
  sum_words (a ∷ b ∷ rest) = load a b + sum_words rest
  sum_words (a ∷ []) = load a 0
  sum_words [] = 0

  unfoldable pub in_cksum : List ℕ → ℕ
  in_cksum bytes =
      let sum = sum_words bytes in
      let folded = sum / 2 ^ 16 + bit_and sum 0xffff in
      let twice = folded + folded / 2 ^ 16 in (2 ^ 32 - 1 - twice) % 2 ^ 16
