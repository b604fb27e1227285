-- ===== src/Base/Bits.antt =====
-- `&` and `|` at variables: a mask of low ones is a remainder, and `|` of words with no common
-- bits is a sum.
use Prim.Native.Nat.{
  ℕ, zero, suc, ◌+◌, ◌*◌, ◌/◌, ◌%◌, ◌^◌, ◌≤◌, ◌<◌, ◌-◌, min, max, bit_and, bit_or, digits,
  bit_and-bitwise, bit_or-bitwise,
}
use mathlib.Core.Path.{◌≡◌, refl, sym, ap, ◌∙◌}
use native.Mathlib.Omega.{arith}
use native.Mathlib.Decide.{dec_lt}
use native.Mathlib.Nat.{
  two-pow-succ, one-le-pow, div-add-mod, mul-add-mod_self_left, mod-eq_of_lt, mod-lt,
}
use gw6c.Base.Tests.{◌==◌, ==_iff, if◌then◌else◌}
use mathlib.Core.Bool.{Bool, true, false}

-- A test that every number under a bound passes.
unfoldable pub passes : (ℕ → Bool) → ℕ → Bool
passes test zero = true
passes test (suc bound) = if test bound then passes test bound else false

pub passes-each :
    (test : ℕ → Bool) (bound k : ℕ) → k < bound → passes test bound ≡ true → test k ≡ true
unfolding passes
passes-each test zero k lt all = absurd (omega arith)
passes-each test (suc bound) k lt all = ground (arith, passes-each test bound k)

-- An equation between two functions under a bound, by evaluation.
pub same_under :
    (bound : ℕ) (f g : ℕ → ℕ) (k : ℕ)
    → passes (λ k. f k == g k) bound ≡ true
    → k < bound
    → f k ≡ g k
same_under bound f g k all lt = (==_iff (f k) (g k)).0 (passes-each _ bound k lt all)

-- Bitwise operations are defined digit by digit, on fuel. More fuel than the first operand needs
-- makes no difference, and so each operation has a law for its lowest digit.
module _ (rest : ℕ → ℕ) (op : ℕ → ℕ → ℕ) where
  one_more : (n a b : ℕ) → a ≤ n → digits rest op (suc n) a b ≡ digits rest op n a b
  one_more zero zero b fits = refl
  one_more (suc n) zero b fits = refl
  one_more zero (suc a) b fits = absurd (omega arith)
  one_more (suc n) (suc a) b fits =
      ap (λ (t : ℕ). t * 2 + op (suc a % 2) (b % 2)) (one_more n (suc a / 2) (b / 2) (omega arith))

  fuel_of_operand : (n a b : ℕ) → a ≤ n → digits rest op n a b ≡ digits rest op a a b
  fuel_of_operand zero zero b fits = refl
  fuel_of_operand zero (suc a) b fits = absurd (omega arith)
  fuel_of_operand (suc n) a b fits = elim (dec_lt n a) [
    | yes top ↦ let e : a ≡ suc n = omega arith in rw e refl
    | no below ↦ one_more n a b (omega arith) ∙ fuel_of_operand n a b (omega arith)
  ]

  lowest :
      ((b : ℕ) → rest b ≡ rest (b / 2) * 2 + op 0 (b % 2))
      → (a b : ℕ)
      → digits rest op a a b ≡ digits rest op (a / 2) (a / 2) (b / 2) * 2 + op (a % 2) (b % 2)
  lowest law zero b = law b
  lowest law (suc a) b =
      ap (λ (t : ℕ). t * 2 + op (suc a % 2) (b % 2))
        (fuel_of_operand a (suc a / 2) (b / 2) (omega arith))

pub bit_or_step : (a b : ℕ) → bit_or a b ≡ bit_or (a / 2) (b / 2) * 2 + max (a % 2) (b % 2)
bit_or_step a b =
    bit_or-bitwise a b
    ∙ lowest (λ b. b) max (λ b. omega arith) a b
    ∙ ap (λ (t : ℕ). t * 2 + max (a % 2) (b % 2)) (sym (bit_or-bitwise (a / 2) (b / 2)))

pub bit_and_step : (a b : ℕ) → bit_and a b ≡ bit_and (a / 2) (b / 2) * 2 + min (a % 2) (b % 2)
bit_and_step a b =
    bit_and-bitwise a b
    ∙ lowest (λ b. 0) min (λ b. omega arith) a b
    ∙ ap (λ (t : ℕ). t * 2 + min (a % 2) (b % 2)) (sym (bit_and-bitwise (a / 2) (b / 2)))

-- Nothing on the right, with a bound for the induction on halves.
or_nothing : (bound a : ℕ) → a < suc bound → bit_or a 0 ≡ a
or_nothing bound zero lt = refl
or_nothing zero (suc a) lt = absurd (omega arith)
or_nothing (suc bound) (suc a) lt =
    bit_or_step (suc a) 0 ∙ omega (arith, or_nothing bound (suc a / 2) (omega arith))

and_nothing : (bound a : ℕ) → a < suc bound → bit_and a 0 ≡ 0
and_nothing bound zero lt = refl
and_nothing zero (suc a) lt = absurd (omega arith)
and_nothing (suc bound) (suc a) lt =
    bit_and_step (suc a) 0 ∙ omega (arith, and_nothing bound (suc a / 2) (omega arith))

-- `(a << k) | b` is a sum where `b` fits below the shift.
pub bit_or-shift : (k a b : ℕ) → b < 2 ^ k → bit_or (a * 2 ^ k) b ≡ a * 2 ^ k + b
bit_or-shift zero a zero h = omega (arith, or_nothing (a * 1) (a * 1) (omega arith))
bit_or-shift zero a (suc b) h = absurd (omega arith)
bit_or-shift (suc k) a b h =
    let twice : a * 2 ^ suc k ≡ a * 2 ^ k * 2 = rw (two-pow-succ k) (omega arith) in
    omega (
      arith,
      bit_or_step (a * 2 ^ suc k) b,
      twice,
      two-pow-succ k,
      halves (a * 2 ^ suc k) (a * 2 ^ k) b twice,
      bit_or-shift k a (b / 2) (omega (arith, two-pow-succ k)),
    )
  where
    halves : (x y b : ℕ) → x ≡ y * 2 → bit_or (x / 2) (b / 2) ≡ bit_or y (b / 2)
    halves x y b e = let half : x / 2 ≡ y = omega arith in rw half

-- The remainder by twice a number, from the remainder of the half.
mod_twice : (x k : ℕ) → 0 < k → x % (2 * k) ≡ (x / 2) % k * 2 + x % 2
mod_twice x k h =
    let split : x ≡ 2 * k * (x / 2 / k) + ((x / 2) % k * 2 + x % 2) =
      omega (arith, ap (λ (t : ℕ). 2 * t) (div-add-mod (x / 2) k)) in
    ap (λ (t : ℕ). t % (2 * k)) split
    ∙ mul-add-mod_self_left (2 * k) (x / 2 / k) ((x / 2) % k * 2 + x % 2)
    ∙ mod-eq_of_lt (omega (arith, mod-lt (x / 2) h))

-- A mask of `k` low ones.
pub bit_and-low : (k x : ℕ) → bit_and x (2 ^ k - 1) ≡ x % 2 ^ k
bit_and-low zero x = omega (arith, and_nothing x x (omega arith))
bit_and-low (suc k) x =
    let pos : 0 < 2 ^ k = one-le-pow k 2 (omega arith) in
    let e : 2 ^ suc k ≡ 2 * 2 ^ k = omega (arith, two-pow-succ k) in
    let half : (2 * 2 ^ k - 1) / 2 ≡ 2 ^ k - 1 = omega arith in
    rw (e, mod_twice x (2 ^ k) pos, ← bit_and-low k (x / 2), bit_and_step x (2 * 2 ^ k - 1), half)
      (omega arith)
