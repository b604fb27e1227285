-- ===== src/Xml/Scan.antt =====
-- How the parser of tspc-advanced/src/xml/xmlparse.c reads the pieces of a tag.
use gw6c.Base.{
  ℕ, zero, suc, ◌+◌, ◌<◌, ◌≡◌, refl, ap, ◌∙◌, List, [], ◌∷◌, ◌++◌, Bool, true, false, not, ◌==◌,
  if_true, if_false, length, All, arith,
}
use gw6c.Xml.{
  Slots, read_equals, read_value, Slot, is_alpha, is_name, is_blank, is_value, span, skip_blanks,
  set_attribute, read, after_byte, starts_alpha, read_attributes,
}

abbrev pub Passes : (ℕ → Bool) → List ℕ → Type 0
Passes p = All (λ c. p c ≡ true)

pub span-until :
    (p : ℕ → Bool) (xs : List ℕ) (c : ℕ) (rest : List ℕ)
    → Passes p xs
    → p c ≡ false
    → span p (xs ++ (c ∷ rest)) ≡ (xs, c ∷ rest)
unfolding span
span-until p [] c rest all stops = if_false _ _ stops
span-until p (x ∷ xs) c rest (holds, all) stops =
    if_true _ _ holds
    ∙ ap (λ (r : List ℕ × List ℕ). (x ∷ r.0, r.1)) (span-until p xs c rest all stops)

pub span-whole : (p : ℕ → Bool) (xs : List ℕ) → Passes p xs → span p xs ≡ (xs, [])
unfolding span
span-whole p [] all = refl
span-whole p (x ∷ xs) (holds, all) =
    if_true _ _ holds ∙ ap (λ (r : List ℕ × List ℕ). (x ∷ r.0, r.1)) (span-whole p xs all)

pub skip_blanks-until :
    (at : ℕ) (xs : List ℕ) (c : ℕ) (rest : List ℕ)
    → Passes is_blank xs
    → is_blank c ≡ false
    → skip_blanks at (xs ++ (c ∷ rest)) ≡ (at + length xs, c ∷ rest)
unfolding skip_blanks
skip_blanks-until at xs c rest all stops =
    ap (λ (r : List ℕ × List ℕ). (at + length r.0, r.1)) (span-until is_blank xs c rest all stops)

-- A letter is part of a name and no blank; what ends a name is not part of it.
pub alpha-name : (c : ℕ) → is_alpha c ≡ true → is_name c ≡ true
alpha-name c h = rw h refl

pub alpha-blank : (c : ℕ) → is_alpha c ≡ true → is_blank c ≡ false
alpha-blank c h = ground arith

-- An attribute: a name that starts with a letter, and a value without `<`.
pub record IsAttribute (a : List ℕ × List ℕ) : Type 0 where
  pub starts : starts_alpha a.0 ≡ true
  pub named : Passes is_name a.0
  pub valued : Passes is_value a.1
  pub flat : Passes (λ c. not (c == b'<')) a.1

abbrev pub print_attribute : List ℕ × List ℕ → List ℕ → List ℕ
print_attribute (name, value) rest = name ++ (b'=' ∷ b'"' ∷ (value ++ (b'"' ∷ rest)))

-- Each behind a blank.
abbrev pub print_attributes : List (List ℕ × List ℕ) → List ℕ → List ℕ
print_attributes [] rest = rest
print_attributes (a ∷ more) rest = 32 ∷ print_attribute a (print_attributes more rest)

abbrev pub set_attributes : List (List ℕ × List ℕ) → List (List ℕ × Slot) → List (List ℕ × Slot)
set_attributes [] slots = slots
set_attributes ((name, value) ∷ more) slots = set_attributes more (set_attribute name value slots)

-- A printed attribute starts with a letter.
pub starts_alpha-printed :
    (a : List ℕ × List ℕ) (rest : List ℕ)
    → IsAttribute a
    → starts_alpha (print_attribute a rest) ≡ true
unfolding starts_alpha
starts_alpha-printed ([], value) rest a = cc (a.starts)
starts_alpha-printed (c ∷ name, value) rest a = a.starts

name_part :
    (a : List ℕ × List ℕ) (rest : List ℕ)
    → IsAttribute a
    → span is_name (print_attribute a rest) ≡ (a.0, b'=' ∷ b'"' ∷ (a.1 ++ (b'"' ∷ rest)))
name_part (name, value) rest a =
    span-until is_name name b'=' (b'"' ∷ (value ++ (b'"' ∷ rest))) a.named refl

value_part :
    (a : List ℕ × List ℕ) (rest : List ℕ)
    → IsAttribute a
    → span is_value (a.1 ++ (b'"' ∷ rest)) ≡ (a.1, b'"' ∷ rest)
value_part a rest v = span-until is_value a.1 b'"' rest v.valued refl

-- Behind an attribute the blanks are skipped.
pub skip_blanks-printed :
    (at : ℕ) (a : List ℕ × List ℕ) (rest : List ℕ)
    → IsAttribute a
    → skip_blanks at (32 ∷ print_attribute a rest) ≡ (at + 1, print_attribute a rest)
unfolding starts_alpha
skip_blanks-printed at ([], value) rest a = cc (a.starts)
skip_blanks-printed at (c ∷ name, value) rest a =
    skip_blanks-until at (32 ∷ []) c (name ++ (b'=' ∷ b'"' ∷ (value ++ (b'"' ∷ rest)))) (refl, tt)
      (alpha-blank c a.starts)

no_more :
    (fuel at : ℕ) (s : List ℕ) (slots : List (List ℕ × Slot))
    → starts_alpha s ≡ false
    → read_attributes (suc fuel) at s slots ≡ read at s slots
unfolding read_attributes
no_more fuel at s slots end = if_false _ _ end

-- One pass of the loop on attributes.
one_attribute :
    (a : List ℕ × List ℕ) (fuel at : ℕ) (rest : List ℕ) (slots : List (List ℕ × Slot))
    → IsAttribute a
    → read_attributes (suc fuel) at (print_attribute a rest) slots ≡ (
        let x = skip_blanks (at + length a.0 + 2 + length a.1 + 1) rest in
        read_attributes fuel x.0 x.1 (set_attribute a.0 a.1 slots))
unfolding read_attributes read_equals read_value after_byte
one_attribute a fuel at rest slots w =
    let go = λ (at' : ℕ) (s' : List ℕ) (slots' : Slots). read_attributes fuel at' s' slots' in
    if_true _ _ (starts_alpha-printed a rest w)
    ∙ ap (read_equals go at slots) (name_part a rest w)
    ∙ ap (read_value go (at + length a.0 + 2) a.0 slots) (value_part a rest w)

pub read_attributes-printed :
    (more : List (List ℕ × List ℕ)) (a : List ℕ × List ℕ) (fuel at : ℕ) (rest : List ℕ)
    (slots : List (List ℕ × Slot))
    → IsAttribute a
    → All IsAttribute more
    → length more < fuel
    → (at' : ℕ) × (read_attributes
          (suc fuel)
          at
          (print_attribute a (print_attributes more (b'>' ∷ rest)))
          slots
        ≡ read at' (b'>' ∷ rest) (set_attributes (a ∷ more) slots))
unfolding starts_alpha
read_attributes-printed [] a zero at rest slots w all few = absurd (omega arith)
read_attributes-printed [] a (suc fuel) at rest slots w all few =
    let from = at + length a.0 + 2 + length a.1 + 1 in
    (
      from + 0,
      one_attribute a (suc fuel) at (b'>' ∷ rest) slots w
          ∙ ap
              (λ (x : ℕ × List ℕ). read_attributes (suc fuel) x.0 x.1 (set_attribute a.0 a.1 slots))
              (skip_blanks-until from [] b'>' rest tt refl)
          ∙ no_more fuel (from + 0) (b'>' ∷ rest) (set_attribute a.0 a.1 slots) refl,
    )
read_attributes-printed (b ∷ more) a zero at rest slots w (w', all) few = absurd (omega arith)
read_attributes-printed (b ∷ more) a (suc fuel) at rest slots w (w', all) few =
    let from = at + length a.0 + 2 + length a.1 + 1 in
    let tail = print_attributes more (b'>' ∷ rest) in
    let (at', e) =
      read_attributes-printed more b fuel (from + 1) rest (set_attribute a.0 a.1 slots) w' all
        (omega arith) in
    (
      at',
      one_attribute a (suc fuel) at (32 ∷ print_attribute b tail) slots w
          ∙ ap
              (λ (x : ℕ × List ℕ). read_attributes (suc fuel) x.0 x.1 (set_attribute a.0 a.1 slots))
              (skip_blanks-printed from b tail w')
          ∙ e,
    )
