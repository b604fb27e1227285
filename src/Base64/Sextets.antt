-- ===== src/Base64/Sextets.antt =====
-- Three bytes as four numbers below 64, in and out of the alphabet.
use gw6c.Base.{
  ℕ, suc, List, ◌∷◌, ◌+◌, ◌*◌, ◌/◌, ◌%◌, ◌^◌, ◌<◌, ◌≡◌, refl, ap, ap₂, ◌∙◌, bit_and, bit_or, true,
  arith, ◌==◌,
}
use gw6c.Base.Bits.{passes, same_under, bit_and-low, bit_or-shift}
use gw6c.Base64.{six, char_of, first_byte, second_byte, third_byte, nprbytes, pad}

six-char_of : (k : ℕ) → k < 64 → six (char_of k) ≡ k
six-char_of k h = same_under 64 (λ k. six (char_of k)) (λ k. k) k table h
  where
    table : passes (λ k. six (char_of k) == k) 64 ≡ true
    table = unfold passes six char_of in refl

and_f0 : (b : ℕ) → b < 256 → bit_and b 0xf0 / 2 ^ 4 ≡ b / 16
and_f0 b h = same_under 256 (λ b. bit_and b 0xf0 / 2 ^ 4) (λ b. b / 16) b (unfold passes in refl) h

and_c0 : (b : ℕ) → b < 256 → bit_and b 0xc0 / 2 ^ 6 ≡ b / 64
and_c0 b h = same_under 256 (λ b. bit_and b 0xc0 / 2 ^ 6) (λ b. b / 64) b (unfold passes in refl) h

-- The four numbers of three bytes, as the encoder computes them.
module _ (a b c : ℕ) (ha : a < 256) (hb : b < 256) (hc : c < 256) where
  pub sextet₀ : bit_and (a / 2 ^ 2) 0x3f ≡ a / 4
  sextet₀ = bit_and-low 6 (a / 4) ∙ omega arith

  pub sextet₁ : bit_or (bit_and a 0x3 * 2 ^ 4) (bit_and b 0xf0 / 2 ^ 4) ≡ a % 4 * 16 + b / 16
  sextet₁ =
      ap₂ (λ (x y : ℕ). bit_or (x * 2 ^ 4) y) (bit_and-low 2 a) (and_f0 b hb)
      ∙ bit_or-shift 4 (a % 4) (b / 16) (omega arith)

  pub sextet₂ : bit_or (bit_and b 0xf * 2 ^ 2) (bit_and c 0xc0 / 2 ^ 6) ≡ b % 16 * 4 + c / 64
  sextet₂ =
      ap₂ (λ (x y : ℕ). bit_or (x * 2 ^ 2) y) (bit_and-low 4 b) (and_c0 c hc)
      ∙ bit_or-shift 2 (b % 16) (c / 64) (omega arith)

  pub sextet₃ : bit_and c 0x3f ≡ c % 64
  sextet₃ = bit_and-low 6 c

pub sextet₁-last : (a : ℕ) → bit_and a 0x3 * 2 ^ 4 ≡ a % 4 * 16
sextet₁-last a = ap (λ (x : ℕ). x * 2 ^ 4) (bit_and-low 2 a)

pub sextet₂-last : (b : ℕ) → bit_and b 0xf * 2 ^ 2 ≡ b % 16 * 4
sextet₂-last b = ap (λ (x : ℕ). x * 2 ^ 2) (bit_and-low 4 b)

-- The three bytes of four characters of the alphabet.
pub first_byte-char_of :
    (x y : ℕ) (cs : List ℕ)
    → x < 64
    → y < 64
    → first_byte (char_of x ∷ char_of y ∷ cs) ≡ (x * 4 + y / 16) % 256
unfolding first_byte
first_byte-char_of x y cs hx hy =
    rw (six-char_of x hx, six-char_of y hy)
      (ap (λ (t : ℕ). t % 256) (bit_or-shift 2 x (y / 16) (omega arith)))

pub second_byte-char_of :
    (k x y : ℕ) (cs : List ℕ)
    → x < 64
    → y < 64
    → second_byte (k ∷ char_of x ∷ char_of y ∷ cs) ≡ (x * 16 + y / 4) % 256
unfolding second_byte
second_byte-char_of k x y cs hx hy =
    rw (six-char_of x hx, six-char_of y hy)
      (ap (λ (t : ℕ). t % 256) (bit_or-shift 4 x (y / 4) (omega arith)))

pub third_byte-char_of :
    (k l x y : ℕ) (cs : List ℕ)
    → x < 64
    → y < 64
    → third_byte (k ∷ l ∷ char_of x ∷ char_of y ∷ cs) ≡ (x * 64 + y) % 256
unfolding third_byte
third_byte-char_of k l x y cs hx hy =
    rw (six-char_of x hx, six-char_of y hy)
      (ap (λ (t : ℕ). t % 256) (bit_or-shift 6 x y (omega arith)))

-- A character of the alphabet is counted; the padding and the final zero are not.
pub nprbytes-char_of :
    (k : ℕ) (cs : List ℕ) → k < 64 → nprbytes (char_of k ∷ cs) ≡ suc (nprbytes cs)
unfolding nprbytes
nprbytes-char_of k cs h = rw (six-char_of k h) (ground arith)

pub nprbytes-pad : (cs : List ℕ) → nprbytes (pad ∷ cs) ≡ 0
unfolding nprbytes six
nprbytes-pad cs = refl

pub nprbytes-end : (cs : List ℕ) → nprbytes (0 ∷ cs) ≡ 0
unfolding nprbytes six
nprbytes-end cs = refl
