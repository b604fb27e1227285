-- ===== src/Prefix/Tests.antt =====
-- Verdicts of `IsAddressInPrefix` of tspc-advanced/src/lib/lib.c, right and wrong.
use gw6c.Base.{ℕ, ◌-◌, ◌/◌, ◌^◌, ◌≡◌, refl, List, [], ◌∷◌, Option, some, take, get_or, arith}
use gw6c.Session.{pos}
use gw6c.Prefix.{part_of, not_part_of, compare_addresses, compare_resolved, is_address_in_prefix}
use gw6c.Prefix.Laws.{is_address_in_prefix-bits}

-- An address by its first byte.
abbrev starting : ℕ → List ℕ
starting n = n ∷ 1 ∷ 0 ∷ 0 ∷ 0 ∷ 0 ∷ 0 ∷ 0 ∷ 0 ∷ 0 ∷ 0 ∷ 0 ∷ 0 ∷ 0 ∷ 0 ∷ 0 ∷ []

-- The text of an address stands for its bytes.
abbrev bytes_of : List ℕ → Option (List ℕ)
bytes_of text = some text

-- The addresses agree on the bit that the prefix has.
short_prefix :
    is_address_in_prefix bytes_of (some (starting 32)) (some (starting 0)) (pos 1) ≡ not_part_of
unfolding is_address_in_prefix compare_resolved compare_addresses
short_prefix = refl

-- The addresses do not agree on the seven bits that the prefix has.
long_prefix :
    is_address_in_prefix bytes_of (some (starting 47)) (some (starting 32)) (pos 7) ≡ part_of
unfolding is_address_in_prefix compare_resolved compare_addresses
long_prefix = refl

is_address_in_prefix-bits_example :
    (take 0 (starting 33) ≡ take 0 (starting 32))
    × (get_or (starting 33) 0 0 / 2 ^ (8 - 3) ≡ get_or (starting 32) 0 0 / 2 ^ (8 - 3))
unfolding is_address_in_prefix compare_resolved compare_addresses
is_address_in_prefix-bits_example =
    is_address_in_prefix-bits bytes_of (starting 33) (starting 32) (starting 33) (starting 32) refl
      refl 0 3 (omega arith) (omega arith) (omega arith) refl
