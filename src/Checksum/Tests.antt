-- ===== src/Checksum/Tests.antt =====
-- The checksum of tspc-advanced/src/net/net_cksm.c on three bytes.
use gw6c.Base.{refl, inl, ◌++◌, ℕ, ◌+◌, ◌%◌, ◌^◌, ◌<◌, ◌≡◌, List, [], ◌∷◌, arith}
use gw6c.Checksum.{little_endian, sum_words, in_cksum}
use gw6c.Checksum.Laws.{weigh, padded, in_cksum-verifies}

abbrev sample : List ℕ
sample = 255 ∷ 254 ∷ 7 ∷ []

in_cksum-verifies_example :
    (in_cksum little_endian sample < 2 ^ 16)
    × ((weigh 1 256 sample + in_cksum little_endian sample) % 65535 ≡ 0)
    × (in_cksum little_endian (padded sample ++ (249 ∷ 0 ∷ [])) ≡ 0)
unfolding in_cksum sum_words
in_cksum-verifies_example =
    in_cksum-verifies 1 256 (inl (refl, refl)) little_endian (λ a b. omega arith) sample 249 0
      (omega arith, (omega arith, (omega arith, tt))) (omega arith) refl
