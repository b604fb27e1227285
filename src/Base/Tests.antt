-- ===== src/Base/Tests.antt =====
-- Boolean tests on the native numbers, the conditional, and the outcome of a call that may end
-- the process.
use Prim.Native.Nat.{ℕ, zero, suc, ◌+◌, ◌/◌, ◌%◌, ◌≤◌, ◌<◌, compare, Ordering}
use mathlib.Core.Path.{ap, ap₂, ◌≡◌, refl}
use mathlib.Core.Logic.{◌↔◌, ◌≢◌, ◌⊎◌, inl, inr}
use mathlib.Core.Bool.{Bool, true, false, ◌&&◌}
use mathlib.Core.List.{List, [], ◌∷◌}
use Prim.Native.Char.{code}
use Prim.Native.String.{String}
use native.Mathlib.Omega.{arith}

abbrev pub ltb : ℕ → ℕ → Bool
ltb a b = elim (compare a b) [ Ordering.lt ↦ true | _ ↦ false ]

abbrev pub leb : ℕ → ℕ → Bool
leb a b = elim (compare a b) [ Ordering.gt ↦ false | _ ↦ true ]

infix 50 ◌==◌
abbrev pub ◌==◌ : ℕ → ℕ → Bool
a == b = elim (compare a b) [ Ordering.eq ↦ true | _ ↦ false ]

infix 1 if◌then◌else◌
abbrev pub if◌then◌else◌ {ℓ} : {A : Type ℓ} → Bool → A → A → A
if true then x else y = x
if false then x else y = y

pub ltb→lt : (a b : ℕ) → ltb a b ≡ true → a < b
ltb→lt a b h = ground arith

pub lt→ltb : (a b : ℕ) → a < b → ltb a b ≡ true
lt→ltb a b h = ground arith

pub le→ltb : (a b : ℕ) → b ≤ a → ltb a b ≡ false
le→ltb a b h = ground arith

pub ltb-false→le : (a b : ℕ) → ltb a b ≡ false → b ≤ a
ltb-false→le a b h = ground arith

pub ==_iff : (a b : ℕ) → ((a == b) ≡ true) ↔ (a ≡ b)
==_iff a b = ground arith

pub ==_refl : (a : ℕ) → (a == a) ≡ true
==_refl a = ground arith

pub ne→== : (a b : ℕ) → a ≢ b → (a == b) ≡ false
ne→== a b h = ground arith

pub Bool-cases : (b : Bool) → (b ≡ true) ⊎ (b ≡ false)
Bool-cases true = inl refl
Bool-cases false = inr refl

-- What holds of both branches holds of the conditional.
pub if_both {ℓ κ} :
    {A : Type ℓ} (P : A → Type κ) (b : Bool) {x y : A} → P x → P y → P (if b then x else y)
if_both P true p q = p
if_both P false p q = q

pub if_where {ℓ κ} :
    {A : Type ℓ} (P : A → Type κ) (b : Bool) {x y : A}
    → (b ≡ true → P x)
    → (b ≡ false → P y)
    → P (if b then x else y)
if_where P true p q = p refl
if_where P false p q = q refl

pub if_true {ℓ} : {A : Type ℓ} {b : Bool} (x y : A) → b ≡ true → (if b then x else y) ≡ x
if_true x y holds = ap (λ b. if b then x else y) holds

pub if_false {ℓ} : {A : Type ℓ} {b : Bool} (x y : A) → b ≡ false → (if b then x else y) ≡ y
if_false x y fails = ap (λ b. if b then x else y) fails

pub and_false : (b : Bool) → (b && false) ≡ false
and_false true = refl
and_false false = refl

-- The code points of a text, which are its bytes.
abbrev pub codes : String → List ℕ
codes String.[] = []
codes (String.◌∷◌ c s) = code c ∷ codes s

-- C strings as lists of bytes, compared as `strcmp` and `memcmp` do.
infix 50 ◌=s◌
abbrev pub ◌=s◌ : List ℕ → List ℕ → Bool
[] =s [] = true
[] =s (y ∷ ys) = false
(x ∷ xs) =s [] = false
(x ∷ xs) =s (y ∷ ys) = (x == y) && (xs =s ys)

pub same-eq : (xs ys : List ℕ) → (xs =s ys) ≡ true → xs ≡ ys
same-eq [] [] h = refl
same-eq [] (y ∷ ys) h = cc
same-eq (x ∷ xs) [] h = cc
same-eq (x ∷ xs) (y ∷ ys) h = elim (Bool-cases (x == y)) [
  | inl e ↦ ap₂ (λ (z : ℕ) (zs : List ℕ). z ∷ zs) ((==_iff x y).0 e) (same-eq xs ys (rw e at h))
  | inr e ↦ cc (rw e at h)
]

pub same_refl : (xs : List ℕ) → (xs =s xs) ≡ true
same_refl [] = refl
same_refl (x ∷ xs) = rw ((==_iff x x).1 refl) (same_refl xs)

-- What a call of C code comes to: a result, `exit` with a status, or a loop that the fuel did
-- not see the end of.
pub data Run {ℓ} (A : Type ℓ) : Type ℓ where
  done : A → Run A
  exit : ℕ → Run A
  no_fuel : Run A

infixl 5 ◌>>=◌
abbrev pub ◌>>=◌ {ℓ κ} : {A : Type ℓ} {B : Type κ} → Run A → (A → Run B) → Run B
done a >>= f = f a
exit c >>= f = exit c
no_fuel >>= f = no_fuel

-- Inversion of a chain that came to its end.
pub >>=-eq-done {ℓ κ} :
    {A : Type ℓ} {B : Type κ} (m : Run A) (f : A → Run B) {b : B}
    → (m >>= f) ≡ done b
    → (a : A) × (m ≡ done a) × (f a ≡ done b)
>>=-eq-done (done a) f h = (a, refl, h)
>>=-eq-done (exit c) f h = cc
>>=-eq-done no_fuel f h = cc

-- The digits of a number, as `%lu` and `%d` print them.
unfoldable pub decimal_from : ℕ → ℕ → List ℕ → List ℕ
decimal_from zero n rest = rest
decimal_from (suc k) n rest =
    let more = decimal_from k (n / 10) ((n % 10 + b'0') ∷ rest) in
    if ltb n 10 then (n + b'0') ∷ rest else more

abbrev pub decimal : ℕ → List ℕ
decimal n = decimal_from (suc n) n []

-- What holds of the result of a call, if it returns one.
abbrev pub Always {ℓ κ} : {A : Type ℓ} → (A → Type κ) → Run A → Type κ
Always P (done a) = P a
Always P (exit c) = Unit
Always P no_fuel = Unit

pub then_Always {ℓ ℓ₁ κ κ₁} :
    {A : Type ℓ} {B : Type ℓ₁} (P : A → Type κ) (Q : B → Type κ₁) (m : Run A) (f : A → Run B)
    → Always P m
    → ((a : A) → m ≡ done a → P a → Always Q (f a))
    → Always Q (m >>= f)
then_Always P Q (done a) f h next = next a refl h
then_Always P Q (exit c) f h next = tt
then_Always P Q no_fuel f h next = tt

pub any_Always {ℓ ℓ₁ κ} :
    {A : Type ℓ} {B : Type ℓ₁} (Q : B → Type κ) (m : Run A) (f : A → Run B)
    → ((a : A) → m ≡ done a → Always Q (f a))
    → Always Q (m >>= f)
any_Always Q (done a) f next = next a refl
any_Always Q (exit c) f next = tt
any_Always Q no_fuel f next = tt
