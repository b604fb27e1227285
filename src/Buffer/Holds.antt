-- ===== src/Buffer/Holds.antt =====
-- Buffers of tspc-advanced/src/lib/buffer.c by the bytes that they hold.
use mathlib.Core.Path.{subst}
use gw6c.Base.{
  ℕ, ◌+◌, ◌-◌, ◌≤◌, ◌≡◌, refl, sym, ap, ◌∙◌, List, ◌++◌, arith, length, take, drop, length-append,
  take-append, drop-append, Run, done, zero, suc, ◌*◌, exit, no_fuel, ltb, >>=-eq-done, if_both,
  true, false, ◌⊎◌, inl, inr, [], ◌/◌, ◌==◌, Bool-cases,
}
use gw6c.Buffer.{
  Memory, Buffer, append, get, init, restart, append_space, rewind, grow, compact, add_size,
  max_append, max_alloc, clear,
}
use gw6c.Buffer.Memory.{read-take, read-none}
use gw6c.Buffer.Inv.{IsValid, contents, length-contents, init-IsValid}
use gw6c.Buffer.Append.{Appended, append-Appended}
use gw6c.Buffer.Refine.{get-enough, front_gone}

-- A buffer that is valid and holds these bytes.
pub record Holds (b : Buffer) (q : List ℕ) : Type 0 where
  pub valid : IsValid b
  pub bytes : contents b ≡ q

pub append-Holds :
    (raw : Memory) {b b' : Buffer} {q : List ℕ} (xs : List ℕ)
    → Holds b q
    → append raw b xs ≡ done b'
    → Holds b' (q ++ xs)
append-Holds raw {b} xs h e =
    let a : Appended b xs (done _) = subst (Appended b xs) e (append-Appended raw b xs h.valid) in
    record { valid = a.0; bytes = a.1 ∙ ap (λ q. q ++ xs) h.bytes }

-- The outcome of reading `x` from the front with `q` left.
abbrev pub Reads {ℓ} : {A : Type ℓ} → Run (A × Buffer) → A → List ℕ → Type ℓ
Reads r x q = (b : Buffer) × (r ≡ done (x, b)) × Holds b q

pub get-Reads :
    {b : Buffer} (xs ys : List ℕ) (n : ℕ)
    → n ≡ length xs
    → Holds b (xs ++ ys)
    → Reads (get b n) xs ys
get-Reads {b} xs ys n e h = (record b { offset = b.offset + n }, front, holds)
  where
    size : b.end - b.offset ≡ length xs + length ys
    size = sym (length-contents b) ∙ ap length h.bytes ∙ length-append xs ys

    le : n ≤ b.end - b.offset
    le = omega (arith, size, e)

    front : get b n ≡ done (xs, record b { offset = b.offset + n })
    front =
        get-enough n h.valid le
        ∙ ap (λ q. done (q, record b { offset = b.offset + n }))
            (sym (read-take b.buf b.offset n _ le)
              ∙ ap (take n) h.bytes
              ∙ ap (λ (k : ℕ). take k (xs ++ ys)) e
              ∙ take-append xs ys)

    back : contents (record b { offset = b.offset + n }) ≡ ys
    back =
        sym (front_gone n h.valid le)
        ∙ ap (drop n) h.bytes
        ∙ ap (λ (k : ℕ). drop k (xs ++ ys)) e
        ∙ drop-append xs ys

    holds : Holds (record b { offset = b.offset + n }) ys
    holds = record {
      valid = record {
        ordered = omega (arith, le, h.valid.ordered);
        inside = h.valid.inside;
        small = h.valid.small;
      };
      bytes = back;
    }

-- The allocation that `restart` leaves.
abbrev Within : ℕ → Run (ℕ × Buffer) → Type 0
Within n (done (p, b)) = b.alloc ≤ n
Within n (exit c) = Unit
Within n no_fuel = Unit

wider : (m n : ℕ) (r : Run (ℕ × Buffer)) → m ≤ n → Within m r → Within n r
wider m n (done (p, b)) le w = omega arith
wider m n (exit c) le w = tt
wider m n no_fuel le w = tt

restart-Within :
    (raw : Memory) (fuel : ℕ) (b : Buffer) (n : ℕ)
    → Within (b.alloc + fuel * (n + 32768)) (restart raw fuel b n)
unfolding restart compact grow
restart-Within raw zero b n = tt
restart-Within raw (suc fuel) b n =
    let newlen = add_size (add_size b.alloc n) 32768 in
    let more : suc fuel * (n + 32768) ≡ n + 32768 + fuel * (n + 32768) = omega arith in
    if_both W (ltb (add_size b.end n) b.alloc) (omega arith) (
      if_both W (ltb (b.alloc / 2) b.offset)
        (wider _ _ (restart raw fuel (compact b) n) (omega (arith, more))
          (restart-Within raw fuel (compact b) n))
        (if_both W (ltb max_alloc newlen) tt (
          wider _ _ (restart raw fuel (grow raw b newlen) n) (omega (arith, more))
            (restart-Within raw fuel (grow raw b newlen) n))))
  where
    W : Run (ℕ × Buffer) → Type 0
    W r = Within (b.alloc + suc fuel * (n + 32768)) r

-- A buffer that has had at most `count` appends of at most `max_piece` bytes: its allocation has
-- grown by at most three rounds in each.
abbrev pub max_piece : ℕ
max_piece = 8192

pub record Sized (b : Buffer) (q : List ℕ) (count : ℕ) : Type 0 where
  pub holds : Holds b q
  pub room : b.alloc ≤ 4096 + count * 122880

-- The outcome of an append that leaves `q`.
abbrev pub Writes : Run Buffer → List ℕ → ℕ → Type 0
Writes r q count = (b : Buffer) × (r ≡ done b) × Sized b q count

pub init-Sized : (raw : Memory) → Sized (init raw) [] 0
unfolding init
init-Sized raw = record {
  holds = record { valid = init-IsValid raw; bytes = read-none raw 0 0 refl };
  room = omega arith;
}

pub clear-Sized : {b : Buffer} {q : List ℕ} {count : ℕ} → Sized b q count → Sized (clear b) [] count
unfolding clear
clear-Sized {b} s = record {
  holds = record {
    valid = record {
      ordered = omega arith;
      inside = omega (arith, s.holds.valid.inside);
      small = s.holds.valid.small;
    };
    bytes = read-none b.buf 0 0 refl;
  };
  room = s.room;
}

alloc_of : Run Buffer → ℕ
alloc_of (done b) = b.alloc
alloc_of _ = 0

rewound :
    (raw : Memory) (b : Buffer) (n : ℕ)
    → Within (b.alloc + 3 * (n + 32768)) (restart raw 3 (rewind b) n)
unfolding rewind
rewound raw b n =
    wider _ _ (restart raw 3 (rewind b) n) (rewind_alloc b) (restart-Within raw 3 (rewind b) n)
  where
    rewind_alloc : (b : Buffer) → (rewind b).alloc + 3 * (n + 32768) ≤ b.alloc + 3 * (n + 32768)
    rewind_alloc b =
        if_both (λ (c : Buffer). c.alloc + 3 * (n + 32768) ≤ b.alloc + 3 * (n + 32768))
          (b.offset == b.end) (omega arith) (omega arith)

append-Within :
    (raw : Memory) (b b' : Buffer) (xs : List ℕ)
    → append raw b xs ≡ done b'
    → b'.alloc ≤ b.alloc + 3 * (length xs + 32768)
unfolding append append_space alloc_of
append-Within raw b b' xs e =
    let ((p, b₁), e₁, e₂) = >>=-eq-done (append_space raw b (length xs)) _ e in
    spaced (Bool-cases (ltb max_append (length xs))) p b₁ e₁ (ap alloc_of e₂)
  where
    spaced :
        (ltb max_append (length xs) ≡ true) ⊎ (ltb max_append (length xs) ≡ false)
        → (p : ℕ) (b₁ : Buffer) → append_space raw b (length xs) ≡ done (p, b₁)
        → b₁.alloc ≡ b'.alloc
        → b'.alloc ≤ b.alloc + 3 * (length xs + 32768)
    spaced (inl long) p b₁ h same = cc (rw long at h)
    spaced (inr short) p b₁ h same =
        let w : Within _ (done (p, b₁)) =
          subst (Within (b.alloc + 3 * (length xs + 32768))) (rw short at h)
            (rewound raw b (length xs)) in
        omega (arith, w, same)

pub append-Sized :
    (raw : Memory) {b : Buffer} {q : List ℕ} {count : ℕ} (xs : List ℕ)
    → length xs ≤ max_piece
    → count ≤ 80
    → Sized b q count
    → Writes (append raw b xs) (q ++ xs) (suc count)
append-Sized raw {b} {q} {count} xs short few s =
    finish (append raw b xs) refl (append-Appended raw b xs s.holds.valid)
  where
    finish :
        (r : Run Buffer) → append raw b xs ≡ r → Appended b xs r → Writes r (q ++ xs) (suc count)
    finish (done b') e a = (
      b',
      refl,
      record {
        holds = append-Holds raw xs s.holds e;
        room = omega (arith, append-Within raw b b' xs e, s.room);
      },
    )
    finish (exit c) e (same, inl long) = absurd (omega arith)
    finish (exit c) e (same, inr huge) = absurd (omega (arith, s.room))
    finish no_fuel e a = absurd a
