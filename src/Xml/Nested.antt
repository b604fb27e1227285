-- ===== src/Xml/Nested.antt =====
-- Documents as contents: where the end tag of a node that holds other nodes is found by
-- tspc-advanced/src/xml/xmlparse.c.
use gw6c.Base.{
  ℕ, ◌≡◌, ◌≢◌, refl, sym, ap, ◌∙◌, List, [], ◌∷◌, ◌++◌, true, not, ◌==◌, All, All-append, arith,
}
use mathlib.Core.Path.{subst}
use mathlib.Core.List.{append_assoc}
use gw6c.Xml.{end_token, is_alpha, is_blank, is_name, starts_alpha}
use gw6c.Xml.Scan.{Passes, print_attributes}
use gw6c.Xml.Clear.{
  Clear, Clear-append, Clear-flat, Clear-start, Clear-end, not_lt, name_flat, blank_flat,
  flat_attributes,
}
use gw6c.Xml.Elements.{
  Element, IsElement, print_element, print_elements, body, print_attributes-append,
}

-- A tag that opens a node, with its end.
abbrev open_part : Element → List ℕ
open_part e = b'<' ∷ (e.name ++ print_attributes e.attributes (b'>' ∷ []))

parts :
    (e : Element) (rest : List ℕ)
    → print_element e rest ≡ e.gap ++ (open_part e ++ (e.content ++ (end_token e.name ++ rest)))
parts e rest =
    let tail = body e rest in
    ap (λ x. e.gap ++ (b'<' ∷ (e.name ++ x)))
      (print_attributes-append e.attributes (b'>' ∷ tail)
        ∙ sym (append_assoc (print_attributes e.attributes []) (b'>' ∷ []) tail)
        ∙ ap (λ x. x ++ tail) (sym (print_attributes-append e.attributes (b'>' ∷ []))))
    ∙ ap (λ x. e.gap ++ (b'<' ∷ x))
        (sym (append_assoc e.name (print_attributes e.attributes (b'>' ∷ [])) tail))

no_slash : (c : ℕ) → is_alpha c ≡ true → not (c == b'/') ≡ true
no_slash c h = ground arith

-- A node of another name, whose content does not have the end tag either.
pub record Apart (name : List ℕ) (e : Element) : Type 0 where
  pub wellformed : IsElement e
  pub differs : name ≢ e.name
  pub inner : Clear name e.content

module _ (name : List ℕ) (named : Passes is_name name) where
  tag-Clear :
      (n w : List ℕ)
      → starts_alpha n ≡ true
      → Passes is_name n
      → Passes not_lt w
      → Clear name (b'<' ∷ (n ++ w))
  unfolding starts_alpha
  tag-Clear [] w starts all flat = cc
  tag-Clear (c ∷ cs) w starts all flat =
      Clear-start name c (cs ++ w) (no_slash c starts)
        (All-append _ (c ∷ cs) w (name_flat (c ∷ cs) all) flat)

  open_part-Clear : (e : Element) → IsElement e → Clear name (open_part e)
  open_part-Clear e w =
      tag-Clear e.name (print_attributes e.attributes (b'>' ∷ [])) w.starts w.named
        (flat_attributes e.attributes (b'>' ∷ []) w.attributed (refl, tt))

  pub print_elements-Clear :
      (es : List Element) (tail : List ℕ)
      → All (Apart name) es
      → Passes is_blank tail
      → Clear name (print_elements es tail)
  print_elements-Clear [] tail all blank = Clear-flat name tail (blank_flat tail blank)
  print_elements-Clear (e ∷ es) tail (a, all) blank =
      let rest = print_elements es tail in
      let w = a.wellformed in
      subst (Clear name) (sym (parts e rest)) (
        Clear-append name e.gap (open_part e ++ (e.content ++ (end_token e.name ++ rest)))
          (Clear-flat name e.gap (blank_flat e.gap w.blank))
          (Clear-append name (open_part e) (e.content ++ (end_token e.name ++ rest))
            (open_part-Clear e w)
            (Clear-append name e.content (end_token e.name ++ rest) a.inner (
              Clear-append name (end_token e.name) rest
                (Clear-end name e.name named w.named a.differs)
                (print_elements-Clear es tail all blank)))))
