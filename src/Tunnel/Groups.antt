-- ===== src/Tunnel/Groups.antt =====
-- How much of a prefix tspc-advanced/src/tsp/tsp_setup.c hands to the template script: whole groups
-- of four digits.
use gw6c.Base.{
  codes, ℕ, zero, suc, ◌+◌, ◌-◌, ◌*◌, ◌/◌, ◌%◌, ◌≤◌, ◌<◌, ◌≡◌, refl, ap, ◌∙◌, true, false, ◌==◌,
  ==_iff, List, [], ◌∷◌, ◌++◌, some, All, length, take, if_where, arith, length-append, le→ltb, ltb,
}
use gw6c.Session.{pos, atoi}
use gw6c.Tunnel.{State, set, set_env, is_v6, extent, set_prefix, delegate}

-- Groups of four characters, with colons between them.
abbrev pub IsGroup : List ℕ → Type 0
IsGroup g = length g ≡ 4

abbrev pub tail_groups : List (List ℕ) → List ℕ
tail_groups [] = []
tail_groups (g ∷ gs) = b':' ∷ (g ++ tail_groups gs)

abbrev pub groups : List (List ℕ) → List ℕ
groups [] = []
groups (g ∷ gs) = g ++ tail_groups gs

-- The number of groups that hold so many bits.
abbrev pub group_count : ℕ → ℕ
group_count n = (n + 15) / 16

extent-eq : (n : ℕ) → 0 < n → n ≤ 128 → extent (pos n) ≡ group_count n * 5 - 1
unfolding extent
extent-eq n some_bits most =
    if_where (λ (e : ℕ). e ≡ group_count n * 5 - 1) (n % 16 == 0)
      (λ whole. omega (arith, (==_iff (n % 16) 0).0 whole)) (λ part. ground arith)

take-beyond : (xs ys : List ℕ) (n : ℕ) → take (length xs + n) (xs ++ ys) ≡ xs ++ take n ys
take-beyond [] ys n = ap (λ (k : ℕ). take k ys) (omega arith)
take-beyond (x ∷ xs) ys n =
    let more : suc (length xs) + n ≡ suc (length xs + n) = omega arith in
    rw more (ap (λ zs. x ∷ zs) (take-beyond xs ys n))

-- The first groups, each with the colon before it.
take-tail_groups :
    (k : ℕ) (gs : List (List ℕ))
    → All IsGroup gs
    → take (k * 5) (tail_groups gs) ≡ tail_groups (take k gs)
take-tail_groups zero gs h = refl
take-tail_groups (suc k) [] h = let more : suc k * 5 ≡ suc (k * 5 + 4) = omega arith in rw more refl
take-tail_groups (suc k) (g ∷ gs) h =
    let more : suc k * 5 ≡ suc (length g + k * 5) = omega (arith, h.0) in
    rw more (
      ap (λ zs. b':' ∷ zs)
        (take-beyond g (tail_groups gs) (k * 5) ∙ ap (λ zs. g ++ zs) (take-tail_groups k gs h.1)))

take-groups :
    (k : ℕ) (gs : List (List ℕ))
    → All IsGroup gs
    → 0 < k
    → take (k * 5 - 1) (groups gs) ≡ groups (take k gs)
take-groups zero gs h positive = absurd (omega arith)
take-groups (suc k) [] h positive =
    let more : suc k * 5 - 1 ≡ suc (k * 5 + 3) = omega arith in rw more refl
take-groups (suc k) (g ∷ gs) h positive =
    let more : suc k * 5 - 1 ≡ length g + k * 5 = omega (arith, h.0) in
    rw more
      (take-beyond g (tail_groups gs) (k * 5) ∙ ap (λ zs. g ++ zs) (take-tail_groups k gs h.1))

length-tail_groups : (gs : List (List ℕ)) → All IsGroup gs → length (tail_groups gs) ≡ length gs * 5
length-tail_groups [] h = omega arith
length-tail_groups (g ∷ gs) h =
    omega (arith, h.0, length-append g (tail_groups gs), length-tail_groups gs h.1)

length-groups : (gs : List (List ℕ)) → All IsGroup gs → length gs ≡ 8 → length (groups gs) ≡ 39
length-groups [] h eight = absurd (omega arith)
length-groups (g ∷ gs) h eight =
    omega (arith, h.0, length-append g (tail_groups gs), length-tail_groups gs h.1)

-- Of a prefix of eight groups, the template script of an IPv6 tunnel gets the groups that the
-- length in bits reaches into, with nothing written or read outside the texts; the GUI gets these
-- with the length behind a slash. For a length of 1 to 128, in at most eight digits.
pub delegate-groups :
    (type length_text : List ℕ) (gs : List (List ℕ)) (n : ℕ) (s : State)
    → is_v6 type ≡ true
    → atoi length_text ≡ pos n
    → 0 < n
    → n ≤ 128
    → length length_text ≤ 8
    → All IsGroup gs
    → length gs ≡ 8
    → delegate type (groups gs) length_text s
      ≡ set (record s {
        env =
            (codes "TSP_PREFIXLEN", length_text)
            ∷ (codes "TSP_PREFIX", groups (take (group_count n) gs))
            ∷ s.env;
        shown = record s.shown {
          delegated_prefix = some (groups (take (group_count n) gs) ++ (b'/' ∷ length_text));
        };
      })
unfolding delegate set_prefix set_env
delegate-groups type length_text gs n s v6 reads some_bits most digits h eight =
    let size = extent-eq n some_bits most in
    let all = length-groups gs h eight in
    let a : ltb 128 (group_count n * 5 - 1) ≡ false = le→ltb _ _ (omega arith) in
    let b : ltb (length (groups gs) + 1) (group_count n * 5 - 1) ≡ false =
      le→ltb _ _ (omega (arith, all)) in
    let c : (group_count n * 5 - 1 == 128) ≡ false = ground arith in
    let d : ltb 8 (length length_text) ≡ false = le→ltb _ _ digits in
    rw (v6, reads, size, a, b, c, d, take-groups (group_count n) gs h (omega arith))
