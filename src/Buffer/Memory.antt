-- ===== src/Buffer/Memory.antt =====
-- Facts about bytes in memory.
use gw6c.Base.{
  ℕ, zero, suc, ◌+◌, ◌<◌, ◌≡◌, refl, ap₂, List, [], ◌∷◌, ◌++◌, arith, length, ◌∙◌, ◌≤◌, ◌-◌, take,
  drop, ap,
}
use gw6c.Buffer.{Memory, store, read}

pub length-read : (m : Memory) (p n : ℕ) → length (read m p n) ≡ n
unfolding read
length-read m p zero = refl
length-read m p (suc n) = ap suc (length-read m (p + 1) n)

pub read-none : (m : Memory) (p n : ℕ) → n ≡ 0 → read m p n ≡ []
unfolding read
read-none m p zero h = refl
read-none m p (suc n) h = absurd (omega arith)

pub read-add : (m : Memory) (p a b : ℕ) → read m p (a + b) ≡ read m p a ++ read m (p + a) b
unfolding read
read-add m p zero b = ap₂ (λ (q k : ℕ). read m q k) (omega arith) (omega arith)
read-add m p (suc a) b =
    let count : suc a + b ≡ suc (a + b) = omega arith in
    let place : p + 1 + a ≡ p + suc a = omega arith in rw (count, read-add m (p + 1) a b, place)

pub read-take : (m : Memory) (p n k : ℕ) → n ≤ k → take n (read m p k) ≡ read m p n
unfolding read
read-take m p zero k h = refl
read-take m p (suc n) zero h = absurd (omega arith)
read-take m p (suc n) (suc k) h = ap (λ r. m p ∷ r) (read-take m (p + 1) n k (omega arith))

pub read-drop : (m : Memory) (p n k : ℕ) → n ≤ k → drop n (read m p k) ≡ read m (p + n) (k - n)
unfolding read
read-drop m p zero k h = ap₂ (λ (q r : ℕ). read m q r) (omega arith) (omega arith)
read-drop m p (suc n) zero h = absurd (omega arith)
read-drop m p (suc n) (suc k) h =
    read-drop m (p + 1) n k (omega arith)
    ∙ ap₂ {B = ℕ} {C = List ℕ} (λ q r. read m q r) (omega arith) (omega arith)

-- Reading sees the addresses from `p` to `p + n` only.
pub read-agree :
    (m m' : Memory) (p p' n : ℕ)
    → ((i : ℕ) → i < n → m (p + i) ≡ m' (p' + i))
    → read m p n ≡ read m' p' n
unfolding read
read-agree m m' p p' zero h = refl
read-agree m m' p p' (suc n) h =
    ap₂ ◌∷◌ (ap m (omega arith) ∙ h 0 (omega arith) ∙ ap m' (omega arith)) (
      read-agree m m' (p + 1) (p' + 1) n
        λ i lt. ap m (omega arith) ∙ h (suc i) (omega arith) ∙ ap m' (omega arith))

pub store-below : (m : Memory) (p i : ℕ) (xs : List ℕ) → i < p → store m p xs i ≡ m i
unfolding store
store-below m p i [] h = refl
store-below m p i (x ∷ xs) h = ground (arith, store-below m (p + 1) i xs)

pub read-store : (m : Memory) (p : ℕ) (xs : List ℕ) → read (store m p xs) p (length xs) ≡ xs
unfolding read store
read-store m p [] = refl
read-store m p (x ∷ xs) = ap₂ ◌∷◌ (ground arith) (
    read-agree (store m p (x ∷ xs)) (store m (p + 1) xs) (p + 1) (p + 1) (length xs)
      (λ i lt. ground arith)
    ∙ read-store m (p + 1) xs)
