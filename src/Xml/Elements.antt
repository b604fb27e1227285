-- ===== src/Xml/Elements.antt =====
-- Elements as texts, which the parser of tspc-advanced/src/xml/xmlparse.c reads.
use mathlib.Core.List.{append_assoc}
use gw6c.Base.{
  All-append, ℕ, ◌+◌, ◌≤◌, ◌<◌, ◌≡◌, refl, sym, ap, ◌∙◌, List, [], ◌∷◌, ◌++◌, Bool, true, false,
  not, ◌==◌, ◌=s◌, if_true, if_false, Bool-cases, inl, inr, length, length-append, All, arith,
}
use gw6c.Xml.{
  Slots, Node, is_name, is_value, is_blank, skip_blanks, end_token, ended, spaced, end_of_name,
  starts_alpha,
}
use gw6c.Xml.Parser.{store}
use gw6c.Xml.Scan.{
  Passes, skip_blanks-until, IsAttribute, print_attribute, print_attributes, alpha-blank,
}
use gw6c.Xml.Clear.{Passes-imp, Closes}

-- A node with blanks before it, and its content as a text.
pub record Element : Type 0 where
  pub gap : List ℕ
  pub name : List ℕ
  pub attributes : List (List ℕ × List ℕ)
  pub content : List ℕ

abbrev pub body : Element → List ℕ → List ℕ
body e rest = e.content ++ (end_token e.name ++ rest)

abbrev pub print_element : Element → List ℕ → List ℕ
print_element e rest =
    e.gap ++ (b'<' ∷ (e.name ++ print_attributes e.attributes (b'>' ∷ body e rest)))

abbrev pub print_elements : List Element → List ℕ → List ℕ
print_elements [] rest = rest
print_elements (e ∷ es) rest = print_element e (print_elements es rest)

pub record IsElement (e : Element) : Type 0 where
  pub blank : Passes is_blank e.gap
  pub starts : starts_alpha e.name ≡ true
  pub named : Passes is_name e.name
  pub short : length e.name ≤ 96
  pub attributed : All IsAttribute e.attributes
  pub closes : Closes e.name e.content

pub body-cons : (e : Element) (rest : List ℕ) → (c : ℕ) × (cs : List ℕ) × (body e rest ≡ c ∷ cs)
unfolding end_token
body-cons e rest = go e.content
  where
    go :
        (content : List ℕ)
        → (c : ℕ) × (cs : List ℕ) × (content ++ (end_token e.name ++ rest) ≡ c ∷ cs)
    go [] = (_, _, refl)
    go (c ∷ cs) = (_, _, refl)

pub end_of_name-end : (at : ℕ) (s : List ℕ) → end_of_name at (b'>' ∷ s) ≡ ended false (at + 1) s
unfolding end_of_name
end_of_name-end at [] = refl
end_of_name-end at (c ∷ s) = refl

pub end_of_name-blank : (at : ℕ) (s : List ℕ) → end_of_name at (32 ∷ s) ≡ spaced (at + 1) s
unfolding end_of_name
end_of_name-blank at [] = refl
end_of_name-blank at (c ∷ s) = refl

pub starts_alpha-append : (xs ys : List ℕ) → starts_alpha xs ≡ true → starts_alpha (xs ++ ys) ≡ true
unfolding starts_alpha
starts_alpha-append [] ys h = cc
starts_alpha-append (x ∷ xs) ys h = h

pub length-end_token : (name : List ℕ) → length (end_token name) ≡ length name + 3
unfolding end_token
length-end_token name = omega (arith, length-append name (b'>' ∷ []))

-- Storing the attributes of a node again.
pub store_twice :
    {P : Type 0} (name : List ℕ) (first second : Slots) (t : List (Node P))
    → store name second (store name first t) ≡ store name second t
unfolding store
store_twice name first second [] = refl
store_twice name first second (n ∷ ns) = elim (Bool-cases (name =s n.name)) [
  | inl here ↦ ap (store name second) (if_true _ _ here) ∙ if_true _ _ here ∙ sym (if_true _ _ here)
  | inr other ↦
      ap (store name second) (if_false _ _ other)
      ∙ if_false _ _ other
      ∙ ap (λ r. n ∷ r) (store_twice name first second ns)
      ∙ sym (if_false _ _ other)
]

pub skip_none : (at : ℕ) (s : List ℕ) → starts_alpha s ≡ true → skip_blanks at s ≡ (at + 0, s)
unfolding starts_alpha
skip_none at [] h = cc
skip_none at (c ∷ cs) h = skip_blanks-until at [] c cs tt (alpha-blank c h)

pub print_attributes-append :
    (attributes : List (List ℕ × List ℕ)) (rest : List ℕ)
    → print_attributes attributes rest ≡ print_attributes attributes [] ++ rest
print_attributes-append [] rest = refl
print_attributes-append ((name, value) ∷ more) rest =
    ap (λ r. 32 ∷ (name ++ (b'=' ∷ b'"' ∷ (value ++ (b'"' ∷ r)))))
      (print_attributes-append more rest)
    ∙ ap (λ r. 32 ∷ (name ++ (b'=' ∷ b'"' ∷ r)))
        (sym (append_assoc value (b'"' ∷ print_attributes more []) rest))
    ∙ ap (λ r. 32 ∷ r)
        (sym (append_assoc name (b'=' ∷ b'"' ∷ (value ++ (b'"' ∷ print_attributes more []))) rest))

pub print_attribute-append :
    (a : List ℕ × List ℕ) (more : List (List ℕ × List ℕ)) (rest : List ℕ)
    → print_attribute a (print_attributes more rest)
      ≡ print_attribute a (print_attributes more []) ++ rest
print_attribute-append (name, value) more rest =
    ap (λ r. name ++ (b'=' ∷ b'"' ∷ (value ++ (b'"' ∷ r)))) (print_attributes-append more rest)
    ∙ ap (λ r. name ++ (b'=' ∷ b'"' ∷ r))
        (sym (append_assoc value (b'"' ∷ print_attributes more []) rest))
    ∙ sym (append_assoc name (b'=' ∷ b'"' ∷ (value ++ (b'"' ∷ print_attributes more []))) rest)

abbrev pub not_gt : ℕ → Bool
not_gt c = not (c == b'>')

-- No attribute ends the tag.
value_open : (w : List ℕ) → Passes is_value w → Passes not_gt w
value_open = Passes-imp is_value not_gt (λ c h. value_not_gt c h)
  where
    value_not_gt : (c : ℕ) → is_value c ≡ true → not_gt c ≡ true
    value_not_gt c h = ground arith

name_open : (w : List ℕ) → Passes is_name w → Passes not_gt w
name_open = Passes-imp is_name not_gt (λ c h. name_not_gt c h)
  where
    name_not_gt : (c : ℕ) → is_name c ≡ true → not_gt c ≡ true
    name_not_gt c h = ground arith

attributes_open :
    (attributes : List (List ℕ × List ℕ))
    → All IsAttribute attributes
    → Passes not_gt (print_attributes attributes [])
attributes_open [] all = tt
attributes_open ((name, value) ∷ more) (a, all) = (
  refl,
  All-append _ name _ (name_open name a.named) (
    refl,
    (refl, All-append _ value _ (value_open value a.valued) (refl, attributes_open more all)),
  ),
)

pub attribute_open :
    (a : List ℕ × List ℕ) (more : List (List ℕ × List ℕ))
    → IsAttribute a
    → All IsAttribute more
    → Passes not_gt (print_attribute a (print_attributes more []))
attribute_open (name, value) more a all = All-append _ name _ (name_open name a.named) (
  refl,
  (refl, All-append _ value _ (value_open value a.valued) (refl, attributes_open more all)),
)

pub more-lt-length :
    (a : List ℕ × List ℕ) (more : List (List ℕ × List ℕ)) (rest : List ℕ)
    → length more < length (print_attribute a (print_attributes more rest))
more-lt-length (name, value) [] rest =
    omega (arith, length-append name (b'=' ∷ b'"' ∷ (value ++ (b'"' ∷ rest))))
more-lt-length (name, value) (b ∷ more) rest =
    let tail = print_attributes (b ∷ more) rest in
    omega (
      arith,
      length-append name (b'=' ∷ b'"' ∷ (value ++ (b'"' ∷ tail))),
      length-append value (b'"' ∷ tail),
      more-lt-length b more rest,
    )
