-- ===== src/Buffer/Append.antt =====
-- `buffer_append_space` and `buffer_append`: three rounds of `restart` are enough, and the bytes
-- go behind those that are there.
use gw6c.Base.{
  ℕ, suc, ◌+◌, ◌-◌, ◌/◌, ◌≤◌, ◌<◌, ◌≡◌, refl, ap, ap₂, ◌∙◌, ◌⊎◌, inl, inr, List, ◌++◌, arith,
  length, Bool-cases, Run, done, exit, no_fuel, lt→ltb, le→ltb, ◌==◌, ==_iff, dec_lt, sym, ◌>>=◌,
}
use mathlib.Core.Path.{subst₂}
use gw6c.Buffer.{
  Memory, store, read, Buffer, add_size, failure, max_append, max_alloc, grow, compact, rewind,
  restart, append_space, append,
}
use gw6c.Buffer.Memory.{read-none, read-add, read-agree, store-below, read-store}
use gw6c.Buffer.Inv.{IsValid, contents, sub_size-eq, rewind-IsValid}

-- The space that is handed out: behind the old bytes, which are where they were or have moved.
record Space (old : List ℕ) (n p : ℕ) (b : Buffer) : Type 0 where
  valid : IsValid b
  starts : b.offset ≤ p
  ends : b.end ≡ p + n
  keeps : read b.buf b.offset (p - b.offset) ≡ old

abbrev Spaced : List ℕ → ℕ → ℕ → Run (ℕ × Buffer) → Type 0
Spaced old alloc n (done (p, b)) = Space old n p b
Spaced old alloc n (exit c) = (c ≡ failure) × (max_alloc < alloc + n + 32768)
Spaced old alloc n no_fuel = ⊥

compact-IsValid : {b : Buffer} → IsValid b → IsValid (compact b)
unfolding compact
compact-IsValid v = ground arith

compact-contents : {b : Buffer} → IsValid b → contents (compact b) ≡ contents b
unfolding compact
compact-contents {b} v =
    ap (λ (k : ℕ). read (compact b).buf 0 k) (omega (arith, sub_size-eq v))
    ∙ read-agree (compact b).buf b.buf 0 b.offset (b.end - b.offset)
        (λ i lt. ground (arith, sub_size-eq v))

grow-contents :
    (raw : Memory) {b : Buffer} (n : ℕ) → IsValid b → contents (grow raw b n) ≡ contents b
unfolding grow
grow-contents raw {b} n v =
    read-agree (grow raw b n).buf b.buf b.offset b.offset (b.end - b.offset) (λ i lt. ground arith)

-- The bytes behind a buffer, once the space is there.
abbrev taken : Buffer → ℕ → Buffer
taken b n = record b { end = b.end + n }

taken-Space :
    {b : Buffer} (n : ℕ) → IsValid b → b.end + n < b.alloc → Space (contents b) n b.end (taken b n)
taken-Space n v h = record { valid = ground arith; starts = omega arith; ends = refl; keeps = refl }

module _ (raw : Memory) {b : Buffer} (n : ℕ) (v : IsValid b) (short : n ≤ max_append) where
  restart-fits :
      (fuel : ℕ) → b.end + n < b.alloc → restart raw (suc fuel) b n ≡ done (b.end, taken b n)
  unfolding restart
  restart-fits fuel h = ground arith

  restart-exit :
      (fuel : ℕ)
      → b.alloc ≤ b.end + n
      → b.offset ≤ b.alloc / 2
      → max_alloc < b.alloc + n + 32768
      → restart raw (suc fuel) b n ≡ exit failure
  unfolding restart
  restart-exit fuel full front h = ground arith

  restart-grow :
      (fuel : ℕ)
      → b.alloc ≤ b.end + n
      → b.offset ≤ b.alloc / 2
      → b.alloc + n + 32768 ≤ max_alloc
      → restart raw (suc fuel) b n ≡ restart raw fuel (grow raw b (b.alloc + n + 32768)) n
  unfolding restart
  restart-grow fuel full front h =
      let size : add_size (add_size b.alloc n) 32768 ≡ b.alloc + n + 32768 = omega arith in
      ground (arith, ap (λ (k : ℕ). restart raw fuel (grow raw b k) n) size)

  restart-move :
      (fuel : ℕ)
      → b.alloc ≤ b.end + n
      → b.alloc / 2 < b.offset
      → restart raw (suc fuel) b n ≡ restart raw fuel (compact b) n
  unfolding restart
  restart-move fuel full back = ground arith

module _ (raw : Memory) {b : Buffer} (n : ℕ) (v : IsValid b)
    (h : b.alloc + n + 32768 ≤ max_alloc) where
  grow-IsValid : IsValid (grow raw b (b.alloc + n + 32768))
  unfolding grow
  grow-IsValid = ground arith

  grow-room : let b' = grow raw b (b.alloc + n + 32768) in b'.end + n < b'.alloc
  unfolding grow
  grow-room = omega arith

  grown-Space :
      let b' = grow raw b (b.alloc + n + 32768) in Space (contents b) n b'.end (taken b' n)
  grown-Space =
      rw (← grow-contents raw (b.alloc + n + 32768) v)
        (taken-Space {b = grow raw b (b.alloc + n + 32768)} n grow-IsValid grow-room)

module _ (raw : Memory) {b : Buffer} (n : ℕ) (v : IsValid b) (short : n ≤ max_append) where
  -- No data to move: as it is, or after growing.
  restart-front :
      (fuel : ℕ)
      → b.offset ≤ b.alloc / 2
      → Spaced (contents b) b.alloc n (restart raw (suc (suc fuel)) b n)
  restart-front fuel front = elim (dec_lt (b.end + n) b.alloc) [
    | yes room ↦ rw (restart-fits raw n v short (suc fuel) room) (taken-Space n v room)
    | no full ↦ elim (dec_lt max_alloc (b.alloc + n + 32768)) [
      | yes huge ↦ rw (restart-exit raw n v short (suc fuel) (omega arith) front huge) (refl, huge)
      | no fine ↦
          rw
            (
              restart-grow raw n v short (suc fuel) (omega arith) front (omega arith),
              restart-fits raw n (grow-IsValid raw n v (omega arith)) short fuel
                  (grow-room raw n v (omega arith)),
            )
            (grown-Space raw n v (omega arith))
    ]
  ]

restart-Spaced :
    (raw : Memory) {b : Buffer} (n : ℕ)
    → IsValid b
    → n ≤ max_append
    → Spaced (contents b) b.alloc n (restart raw 3 b n)
unfolding compact
restart-Spaced raw {b} n v short = elim (dec_lt (b.end + n) b.alloc) [
  | yes room ↦ rw (restart-fits raw n v short 2 room) (taken-Space n v room)
  | no full ↦ elim (dec_lt (b.alloc / 2) b.offset) [
    | yes back ↦
        rw (restart-move raw n v short 2 (omega arith) back, ← compact-contents v)
          (restart-front raw n (compact-IsValid v) short 0 (omega arith))
    | no front ↦ restart-front raw n v short 1 (omega arith)
  ]
]

rewind-contents : {b : Buffer} → IsValid b → contents (rewind b) ≡ contents b
unfolding rewind
rewind-contents {b} v = elim (Bool-cases (b.offset == b.end)) [
  | inl same ↦
      let empty : b.end - b.offset ≡ 0 = omega (arith, (==_iff b.offset b.end).0 same) in
      rw same (read-none b.buf 0 (0 - 0) refl ∙ sym (read-none b.buf b.offset _ empty))
  | inr other ↦ rw other
]

rewind-alloc : (b : Buffer) → (rewind b).alloc ≡ b.alloc
unfolding rewind
rewind-alloc b = ground arith

rewound :
    (raw : Memory) {b : Buffer} (n : ℕ)
    → IsValid b
    → n ≤ max_append
    → Spaced (contents b) b.alloc n (restart raw 3 (rewind b) n)
rewound raw {b} n v short =
    subst₂ (λ old alloc. Spaced old alloc n (restart raw 3 (rewind b) n)) (rewind-contents v)
      (rewind-alloc b) (restart-Spaced raw n (rewind-IsValid v) short)

-- What a call of `buffer_append` comes to.
abbrev pub Appended : Buffer → List ℕ → Run Buffer → Type 0
Appended b xs (done b') = IsValid b' × (contents b' ≡ contents b ++ xs)
Appended b xs (exit c) =
    (c ≡ failure) × ((max_append < length xs) ⊎ (max_alloc < b.alloc + length xs + 32768))
Appended b xs no_fuel = ⊥

stored-contents :
    {old : List ℕ} {p : ℕ} {b : Buffer} (xs : List ℕ)
    → Space old (length xs) p b
    → contents (record b { buf = store b.buf p xs }) ≡ old ++ xs
stored-contents {old} {p} {b} xs s =
    ap (λ (k : ℕ). read m b.offset k) (omega (arith, s.starts, s.ends))
    ∙ read-add m b.offset (p - b.offset) (length xs)
    ∙ ap₂ ◌++◌ front back
  where
    m : Memory
    m = store b.buf p xs

    front : read m b.offset (p - b.offset) ≡ old
    front =
        read-agree m b.buf b.offset b.offset (p - b.offset)
          (λ i lt. store-below b.buf p (b.offset + i) xs (omega (arith, s.starts)))
        ∙ s.keeps

    back : read m (b.offset + (p - b.offset)) (length xs) ≡ xs
    back = ap (λ (q : ℕ). read m q (length xs)) (omega (arith, s.starts)) ∙ read-store b.buf p xs

-- `buffer_append` on a valid buffer either puts the bytes behind those that are there and keeps
-- the buffer valid, or ends the process with the failure status, and that only if more than
-- 0x100000 bytes are appended or the grown allocation would pass 0xa00000; three rounds of the
-- loop are enough.
pub append-Appended :
    (raw : Memory) (b : Buffer) (xs : List ℕ) → IsValid b → Appended b xs (append raw b xs)
unfolding append append_space
append-Appended raw b xs v = elim (dec_lt max_append (length xs)) [
  | yes long ↦ rw (lt→ltb max_append (length xs) long) (refl, inl long)
  | no short ↦
      rw (le→ltb max_append (length xs) (omega arith))
        (after (restart raw 3 (rewind b) (length xs)) (rewound raw (length xs) v (omega arith)))
]
  where
    after :
        (r : Run (ℕ × Buffer))
        → Spaced (contents b) b.alloc (length xs) r
        → Appended b xs (r >>= λ (p, b'). done (record b' { buf = store b'.buf p xs }))
    after (done (p, b')) s =
        (record { ordered = ordered; inside = inside; small = small }, stored-contents xs s)
      where
        open s.valid use {ordered, inside, small}
    after (exit c) s = (s.0, inr s.1)
    after no_fuel s = s
