-- ===== src/Xml/Shrinks.antt =====
-- How much of the text the parts of `XMLParse` of tspc-advanced/src/xml/xmlparse.c leave behind them.
use gw6c.Base.{
  ℕ, zero, suc, ◌+◌, ◌≤◌, ◌<◌, ◌≡◌, refl, List, [], ◌∷◌, none, some, Bool, true, false, ◌==◌,
  Bool-cases, ◌⊎◌, inl, inr, length, arith,
}
use gw6c.Xml.{
  Slots, is_name, is_value, is_blank, span, skip_blanks, strip, strstr, Tag, stop, ended, spaced,
  end_of_name, set_attribute, Attributes, read, broken, spent, after_byte, starts_alpha, read_value,
  read_equals, read_attributes, Closing, unclosed, closed, closing, close_tag,
}

pub span-length : (p : ℕ → Bool) (s : List ℕ) → length (span p s).0 + length (span p s).1 ≡ length s
unfolding span
span-length p [] = refl
span-length p (c ∷ cs) = elim (Bool-cases (p c)) [
  | inl t ↦ rw t (omega (arith, span-length p cs))
  | inr f ↦ rw f (omega arith)
]

pub skip_blanks-shrinks : (at : ℕ) (s : List ℕ) → length (skip_blanks at s).1 ≤ length s
unfolding skip_blanks
skip_blanks-shrinks at s = omega (arith, span-length is_blank s)

strip-shrinks :
    (token s : List ℕ)
    → (strip token s ≡ none) ⊎ ((r : List ℕ) × (strip token s ≡ some r) × (length r ≤ length s))
unfolding strip
strip-shrinks [] s = inr (s, refl, omega arith)
strip-shrinks (t ∷ ts) [] = inl refl
strip-shrinks (t ∷ ts) (c ∷ cs) = elim (Bool-cases (t == c)) [
  | inr f ↦ inl (rw f)
  | inl e ↦ rw e (elim (strip-shrinks ts cs) [
    | inl absent ↦ inl absent
    | inr (r, found, le) ↦ inr (r, found, omega arith)
  ])
]

-- What is before and behind an end tag.
pub strstr-shrinks :
    (token s : List ℕ)
    → (strstr token s ≡ none)
      ⊎ ((before : List ℕ) × (after : List ℕ) × (strstr token s ≡ some (before, after))
          × (length before + length after ≤ length s))
unfolding strstr
strstr-shrinks token [] = inl refl
strstr-shrinks token (c ∷ cs) = elim (strip-shrinks token (c ∷ cs)) [
  | inr (r, found, le) ↦ inr ([], r, rw found, omega arith)
  | inl absent ↦ elim (strstr-shrinks token cs) [
    | inl no_tag ↦ inl (rw (absent, no_tag))
    | inr (before, after, found, le) ↦ inr (c ∷ before, after, rw (absent, found), omega arith)
  ]
]

pub after_byte-shrinks :
    (b : ℕ) (s : List ℕ)
    → (after_byte b s ≡ none) ⊎ ((r : List ℕ) × (after_byte b s ≡ some r) × (length r < length s))
unfolding after_byte
after_byte-shrinks b [] = inl refl
after_byte-shrinks b (c ∷ cs) = elim (Bool-cases (c == b)) [
  | inl t ↦ inr (cs, rw t, omega arith)
  | inr f ↦ inl (rw f)
]

abbrev pub TagWithin : ℕ → Tag → Type 0
TagWithin n (stop at) = Unit
TagWithin n (ended simple at rest) = length rest ≤ n
TagWithin n (spaced at rest) = length rest ≤ n

pub end_of_name-TagWithin : (at : ℕ) (s : List ℕ) → TagWithin (length s) (end_of_name at s)
unfolding end_of_name
end_of_name-TagWithin at [] = tt
end_of_name-TagWithin at (c ∷ []) = elim (Bool-cases (c == b'/')) [
  | inl slash ↦ rw slash tt
  | inr f ↦ elim (Bool-cases (c == 32)) [
    | inl blank ↦ rw (f, blank) (omega arith)
    | inr g ↦ elim (Bool-cases (c == b'>')) [
      | inl gt ↦ rw (f, g, gt) (omega arith)
      | inr h ↦ rw (f, g, h) tt
    ]
  ]
]
end_of_name-TagWithin at (c ∷ d ∷ rest) = elim (Bool-cases (c == b'/')) [
  | inl slash ↦ elim (Bool-cases (d == b'>')) [
    | inl gt ↦ rw (slash, gt) (omega arith)
    | inr h ↦ rw (slash, h) tt
  ]
  | inr f ↦ elim (Bool-cases (c == 32)) [
    | inl blank ↦ rw (f, blank) (omega arith)
    | inr g ↦ elim (Bool-cases (c == b'>')) [
      | inl gt ↦ rw (f, g, gt) (omega arith)
      | inr h ↦ rw (f, g, h) tt
    ]
  ]
]

abbrev pub ClosingWithin : ℕ → Closing → Type 0
ClosingWithin n (unclosed at) = Unit
ClosingWithin n (closed simple at rest) = length rest ≤ n

closing-ClosingWithin :
    (simple : Bool) (at : ℕ) (s : List ℕ) (n : ℕ)
    → length s ≤ n
    → ClosingWithin n (closing simple at s)
closing-ClosingWithin simple at s n le = elim (after_byte-shrinks b'>' s) [
  | inl absent ↦ rw (absent, ClosingWithin) tt
  | inr (r, found, lt) ↦ rw (found, ClosingWithin) (omega arith)
]

pub close_tag-ClosingWithin : (at : ℕ) (s : List ℕ) → ClosingWithin (length s) (close_tag at s)
unfolding close_tag
close_tag-ClosingWithin at s = elim (after_byte-shrinks b'/' s) [
  | inl absent ↦
      rw (absent, ClosingWithin) (closing-ClosingWithin false at s (length s) (omega arith))
  | inr (r, found, lt) ↦
      rw (found, ClosingWithin) (closing-ClosingWithin true (at + 1) r (length s) (omega arith))
]

-- The loop on attributes ends, and leaves no more than it got.
abbrev pub AttributesWithin : ℕ → Attributes → Type 0
AttributesWithin n (read at rest slots) = length rest ≤ n
AttributesWithin n (broken at slots) = Unit
AttributesWithin n spent = ⊥

abbrev Goes : ℕ → ℕ → (ℕ → List ℕ → Slots → Attributes) → Type 0
Goes m n go =
    (at : ℕ) (s : List ℕ) (slots : Slots) → length s < m → AttributesWithin n (go at s slots)

read_value-AttributesWithin :
    (m n : ℕ) (go : ℕ → List ℕ → Slots → Attributes) (at : ℕ) (name : List ℕ) (slots : Slots)
    (x : List ℕ × List ℕ)
    → Goes m n go
    → length x.1 ≤ m
    → AttributesWithin n (read_value go at name slots x)
unfolding read_value
read_value-AttributesWithin m n go at name slots (value, s) goes le =
    elim (after_byte-shrinks b'"' s) [
      | inl absent ↦ rw (absent, AttributesWithin) tt
      | inr (r, found, lt) ↦
          rw (found, AttributesWithin)
            (goes _ (skip_blanks (at + length value + 1) r).1 (set_attribute name value slots)
              (omega (arith, skip_blanks-shrinks (at + length value + 1) r)))
    ]

read_equals-AttributesWithin :
    (m n : ℕ) (go : ℕ → List ℕ → Slots → Attributes) (at : ℕ) (slots : Slots) (x : List ℕ × List ℕ)
    → Goes m n go
    → length x.1 ≤ m
    → AttributesWithin n (read_equals go at slots x)
unfolding read_equals
read_equals-AttributesWithin m n go at slots (name, s) goes le = elim (after_byte-shrinks b'=' s) [
  | inl absent ↦ rw (absent, AttributesWithin) tt
  | inr (r, found, lt) ↦ elim (after_byte-shrinks b'"' r) [
    | inl absent ↦ rw (found, absent, AttributesWithin) tt
    | inr (q, quoted, lt') ↦
        rw (found, quoted, AttributesWithin)
          (read_value-AttributesWithin m n go (at + length name + 2) name slots (span is_value q)
            goes (omega (arith, span-length is_value q)))
  ]
]

pub read_attributes-AttributesWithin :
    (n fuel at : ℕ) (s : List ℕ) (slots : Slots)
    → length s < fuel
    → length s ≤ n
    → AttributesWithin n (read_attributes fuel at s slots)
unfolding read_attributes
read_attributes-AttributesWithin n zero at s slots lt le = omega arith
read_attributes-AttributesWithin n (suc fuel) at s slots lt le =
    elim (Bool-cases (starts_alpha s)) [
      | inr f ↦ rw f le
      | inl t ↦ rw t (
          read_equals-AttributesWithin (length s) n _ at slots (span is_name s)
            (λ at' s' slots' lt'.
              read_attributes-AttributesWithin n fuel at' s' slots' (omega arith) (omega arith))
            (omega (arith, span-length is_name s)))
    ]
