-- ===== src/Buffer/Aux/Words.antt =====
-- A 32-bit word survives its four bytes.
use gw6c.Base.{ℕ, ◌+◌, ◌*◌, ◌/◌, ◌%◌, ◌^◌, ◌<◌, ◌≡◌, refl, bit_or, arith, ap, ◌∙◌, length}
use gw6c.Base.Bits.{bit_or-shift}
use gw6c.Buffer.Aux.{put_32bit, get_32bit}

-- `|` of four bytes in their places.
bytes-word :
    (a b c d : ℕ)
    → b < 256
    → c < 256
    → d < 256
    → bit_or (bit_or (bit_or (a * 2 ^ 24) (b * 2 ^ 16)) (c * 2 ^ 8)) d
      ≡ a * 2 ^ 24 + b * 2 ^ 16 + c * 2 ^ 8 + d
bytes-word a b c d hb hc hd =
    let two : a * 2 ^ 24 + b * 2 ^ 16 ≡ (a * 2 ^ 8 + b) * 2 ^ 16 = omega arith in
    let three : a * 2 ^ 24 + b * 2 ^ 16 + c * 2 ^ 8 ≡ ((a * 2 ^ 8 + b) * 2 ^ 8 + c) * 2 ^ 8 =
      omega arith in
    rw (bit_or-shift 24 a (b * 2 ^ 16) (omega arith)) (
      ap (λ (t : ℕ). bit_or (bit_or t (c * 2 ^ 8)) d) two
      ∙ ap (λ (t : ℕ). bit_or t d) (bit_or-shift 16 (a * 2 ^ 8 + b) (c * 2 ^ 8) (omega arith))
      ∙ ap (λ (t : ℕ). bit_or t d) (omega (arith, three))
      ∙ bit_or-shift 8 ((a * 2 ^ 8 + b) * 2 ^ 8 + c) d hd
      ∙ omega (arith, three))

-- A word below 2^32 comes back from its four bytes, most significant first.
pub get_32bit-put_32bit : (v : ℕ) → v < 2 ^ 32 → get_32bit (put_32bit v) ≡ v
unfolding get_32bit put_32bit
get_32bit-put_32bit v h =
    bytes-word (v / 2 ^ 24 % 256) (v / 2 ^ 16 % 256) (v / 2 ^ 8 % 256) (v % 256) (omega arith)
      (omega arith) (omega arith)
    ∙ omega arith

pub length-put_32bit : (v : ℕ) → length (put_32bit v) ≡ 4
unfolding put_32bit
length-put_32bit v = refl
