-- ===== src/Xml/Tags.antt =====
-- One element in `XMLParse` of tspc-advanced/src/xml/xmlparse.c: from its tag on up to what is
-- behind its end tag.
use gw6c.Base.{
  ℕ, ◌+◌, ◌≡◌, refl, sym, ap, ◌∙◌, List, [], ◌∷◌, ◌++◌, Option, none, some, true, false, not, ltb,
  le→ltb, if_false, length, All, arith,
}
use gw6c.Session.{pos}
use gw6c.Xml.{
  Slots, Node, is_name, span, end_token, spaced, starts_alpha, max_token, close_tag, after_byte,
}
use gw6c.Xml.Parser.{
  Handled, handled, next, find_node, store, settle, call, enclosed, element, skip_tag,
  after_closing, after_attributes, open_tag, bare_tag, spaced_tag, named_tag, read_name, start_tag,
  step,
}
use gw6c.Xml.Scan.{
  starts_alpha-printed, Passes, span-until, skip_blanks-until, IsAttribute, print_attribute,
  print_attributes, set_attributes, read_attributes-printed,
}
use gw6c.Xml.Clear.{Closes-found}
use gw6c.Xml.Elements.{
  not_gt, Element, body, print_element, IsElement, attribute_open, body-cons, end_of_name-blank,
  end_of_name-end, length-end_token, more-lt-length, print_attribute-append, skip_none,
  starts_alpha-append, store_twice,
}

module _ {ℓ} {P : Type 0} {S : Type ℓ} (process : P → List ℕ → Slots → S → Handled S) where
  -- Up to the name of the tag.
  up_to_name :
      (e : Element) (at : ℕ) (rest : List ℕ) (t : List (Node P)) (s : S)
      → IsElement e
      → step process at (print_element e rest) t s
        ≡ read_name process
            (at + length e.gap + 1)
            t
            s
            (span is_name (e.name ++ print_attributes e.attributes (b'>' ∷ body e rest)))
  unfolding step start_tag
  up_to_name e at rest t s w =
      let cs = e.name ++ print_attributes e.attributes (b'>' ∷ body e rest) in
      ap (start_tag process t s) (skip_blanks-until at e.gap b'<' cs w.blank refl)
      ∙ if_false _ _ (
          ap not (
            starts_alpha-append e.name (print_attributes e.attributes (b'>' ∷ body e rest))
              w.starts))

  -- From the end of the tag on.
  from_content :
      (e : Element) (n : Option (Node P)) (at : ℕ) (rest : List ℕ) (t : List (Node P)) (s : S)
      → IsElement e
      → element process n e.name false at (body e rest) t s
        ≡ call process n at e.content (λ c. (at + length c + length (end_token e.name), rest)) t s
  unfolding element enclosed
  from_content e n at rest t s w =
      let fits : ltb max_token (length (end_token e.name) + 1) ≡ false =
        le→ltb _ _ (omega (arith, length-end_token e.name, w.short)) in
      if_false _ _ fits
      ∙ ap (enclosed process n e.name at t s) (Closes-found e.name e.content w.closes rest)

  -- A call that returns 0.
  settled :
      (n : Node P) (at : ℕ) (content content' : List ℕ) (go : List ℕ → ℕ × List ℕ)
      (t : List (Node P)) (s s' : S) (slots : Slots)
      → process n.process content n.attributes s ≡ handled (pos 0) content' slots s'
      → call process (some n) at content go t s
        ≡ next (go content').0 (go content').1 (store n.name slots t) s'
  unfolding call settle
  settled n at content content' go t s s' slots e = ap (settle process n at go t) e

  bare :
      (n : Option (Node P)) (name : List ℕ) (at : ℕ) (c : ℕ) (cs : List ℕ) (t : List (Node P))
      (s : S)
      → bare_tag process n name false at (c ∷ cs) t s ≡ element process n name false at (c ∷ cs) t s
  unfolding bare_tag
  bare none name at c cs t s = refl
  bare (some n) name at c cs t s = refl

  spaced-some :
      (name : List ℕ) (at : ℕ) (x : List ℕ) (t : List (Node P)) (s : S)
      → starts_alpha x ≡ true
      → named_tag process name (spaced at x) t s
        ≡ spaced_tag process (find_node name t) name at x t s
  unfolding named_tag starts_alpha
  spaced-some name at [] t s h = cc
  spaced-some name at (c ∷ cs) t s h = refl

  -- A tag with attributes, up to what is behind its name.
  to_attributes :
      (name : List ℕ) (a : List ℕ × List ℕ) (x : List ℕ) (at : ℕ) (t : List (Node P)) (s : S)
      → Passes is_name name
      → starts_alpha x ≡ true
      → read_name process at t s (span is_name (name ++ (32 ∷ x)))
        ≡ spaced_tag process (find_node name t) name (at + length name + 1) x t s
  unfolding read_name
  to_attributes name a x at t s named h =
      ap (read_name process at t s) (span-until is_name name 32 x named refl)
      ∙ ap (λ g. named_tag process name g t s) (end_of_name-blank (at + length name) x)
      ∙ spaced-some name (at + length name + 1) x t s h

  -- A tag without attributes.
  to_bare :
      (name : List ℕ) (c : ℕ) (cs : List ℕ) (at : ℕ) (t : List (Node P)) (s : S)
      → Passes is_name name
      → read_name process at t s (span is_name (name ++ (b'>' ∷ c ∷ cs)))
        ≡ element process (find_node name t) name false (at + length name + 1) (c ∷ cs) t s
  unfolding read_name named_tag
  to_bare name c cs at t s named =
      ap (read_name process at t s) (span-until is_name name b'>' (c ∷ cs) named refl)
      ∙ ap (λ g. named_tag process name g t s) (end_of_name-end (at + length name) (c ∷ cs))
      ∙ bare (find_node name t) name (at + length name + 1) c cs t s

  -- The attributes of a node that is not in the table are skipped.
  skipped :
      (name : List ℕ) (a : List ℕ × List ℕ) (more : List (List ℕ × List ℕ)) (c : ℕ) (cs : List ℕ)
      (at : ℕ) (t : List (Node P)) (s : S)
      → IsAttribute a
      → All IsAttribute more
      → (at' : ℕ) × (spaced_tag process none name at
            (print_attribute a (print_attributes more (b'>' ∷ c ∷ cs)))
            t
            s
          ≡ element process none name false at' (c ∷ cs) t s)
  unfolding spaced_tag skip_tag
  skipped name a more c cs at t s w all =
      let y = print_attribute a (print_attributes more []) in
      (
        at + length y + 1,
        ap (λ x. skip_tag process name at t s (span not_gt x))
              (print_attribute-append a more (b'>' ∷ c ∷ cs))
            ∙ ap (skip_tag process name at t s)
                (span-until not_gt y b'>' (c ∷ cs) (attribute_open a more w all) refl),
      )

  -- The attributes of a node of the table are set.
  opened :
      (n : Node P) (name : List ℕ) (a : List ℕ × List ℕ) (more : List (List ℕ × List ℕ))
      (b : List ℕ) (at : ℕ) (t : List (Node P)) (s : S)
      → IsAttribute a
      → All IsAttribute more
      → (at' : ℕ) × (spaced_tag process
            (some n)
            name
            at
            (print_attribute a (print_attributes more (b'>' ∷ b)))
            t
            s
          ≡ element process
              (some (record n { attributes = set_attributes (a ∷ more) n.attributes }))
              name
              false
              at'
              b
              (store n.name (set_attributes (a ∷ more) n.attributes) t)
              s)
  unfolding spaced_tag open_tag after_attributes after_closing close_tag after_byte
  opened n name a more b at t s w all =
      let x = print_attribute a (print_attributes more (b'>' ∷ b)) in
      let (at', e) =
        read_attributes-printed more a (length x) (at + 0) b n.attributes w all
          (more-lt-length a more (b'>' ∷ b)) in
      (
        at' + 1,
        ap (open_tag process n name t s)
              (skip_none at x (starts_alpha-printed a (print_attributes more (b'>' ∷ b)) w))
            ∙ ap (after_attributes process n name t s) e,
      )

  tag_none :
      (name : List ℕ) (attributes : List (List ℕ × List ℕ)) (c : ℕ) (cs : List ℕ) (at : ℕ)
      (t : List (Node P)) (s : S)
      → find_node name t ≡ none
      → Passes is_name name
      → All IsAttribute attributes
      → (at' : ℕ) × (read_name process at t s
            (span is_name (name ++ print_attributes attributes (b'>' ∷ c ∷ cs)))
          ≡ element process none name false at' (c ∷ cs) t s)
  tag_none name [] c cs at t s e named all = (
    at + length name + 1,
    to_bare name c cs at t s named
        ∙ ap (λ n. element process n name false (at + length name + 1) (c ∷ cs) t s) e,
  )
  tag_none name (a ∷ more) c cs at t s e named (w, all) =
      let x = print_attribute a (print_attributes more (b'>' ∷ c ∷ cs)) in
      let (at', skip) = skipped name a more c cs (at + length name + 1) t s w all in
      (
        at',
        to_attributes name a x at t s named
              (starts_alpha-printed a (print_attributes more (b'>' ∷ c ∷ cs)) w)
            ∙ ap (λ n. spaced_tag process n name (at + length name + 1) x t s) e
            ∙ skip,
      )

  tag_some :
      (n : Node P) (name : List ℕ) (attributes : List (List ℕ × List ℕ)) (c : ℕ) (cs : List ℕ)
      (at : ℕ) (t : List (Node P)) (s : S)
      → find_node name t ≡ some n
      → Passes is_name name
      → All IsAttribute attributes
      → (at' : ℕ) × (t₁ : List (Node P)) × (read_name process at t s
            (span is_name (name ++ print_attributes attributes (b'>' ∷ c ∷ cs)))
          ≡ element process
              (some (record n { attributes = set_attributes attributes n.attributes }))
              name
              false
              at'
              (c ∷ cs)
              t₁
              s)
        × ((slots : Slots) → store n.name slots t₁ ≡ store n.name slots t)
  tag_some n name [] c cs at t s e named all = (
    at + length name + 1,
    t,
    to_bare name c cs at t s named
        ∙ ap (λ n. element process n name false (at + length name + 1) (c ∷ cs) t s) e,
    λ slots. refl,
  )
  tag_some n name (a ∷ more) c cs at t s e named (w, all) =
      let x = print_attribute a (print_attributes more (b'>' ∷ c ∷ cs)) in
      let (at', opens) = opened n name a more (c ∷ cs) (at + length name + 1) t s w all in
      (
        at',
        store n.name (set_attributes (a ∷ more) n.attributes) t,
        to_attributes name a x at t s named
              (starts_alpha-printed a (print_attributes more (b'>' ∷ c ∷ cs)) w)
            ∙ ap (λ n. spaced_tag process n name (at + length name + 1) x t s) e
            ∙ opens,
        λ slots. store_twice n.name (set_attributes (a ∷ more) n.attributes) slots t,
      )

  pub step_ignored :
      (e : Element) (at : ℕ) (rest : List ℕ) (t : List (Node P)) (s : S)
      → IsElement e
      → find_node e.name t ≡ none
      → (at' : ℕ) × (step process at (print_element e rest) t s ≡ next at' rest t s)
  unfolding call
  step_ignored e at rest t s w missing =
      let (c, cs, shape) = body-cons e rest in
      let (at', tag) =
        tag_none e.name e.attributes c cs (at + length e.gap + 1) t s missing w.named
          w.attributed in
      (
        at' + length e.content + length (end_token e.name),
        up_to_name e at rest t s w
            ∙ ap
                (λ b.
                  read_name process (at + length e.gap + 1) t s
                    (span is_name (e.name ++ print_attributes e.attributes (b'>' ∷ b))))
                shape
            ∙ tag
            ∙ ap (λ b. element process none e.name false at' b t s) (sym shape)
            ∙ from_content e none at' rest t s w,
      )

  pub step_called :
      (e : Element) (at : ℕ) (rest : List ℕ) (t : List (Node P)) (s : S) (n : Node P)
      (content : List ℕ) (slots : Slots) (s₁ : S)
      → IsElement e
      → find_node e.name t ≡ some n
      → process n.process e.content (set_attributes e.attributes n.attributes) s
        ≡ handled (pos 0) content slots s₁
      → (at' : ℕ) × (step process at (print_element e rest) t s
          ≡ next at' rest (store n.name slots t) s₁)
  step_called e at rest t s n content slots s₁ w there calls =
      let (c, cs, shape) = body-cons e rest in
      let n' = record n { attributes = set_attributes e.attributes n.attributes } in
      let (at', t₁, tag, same) =
        tag_some n e.name e.attributes c cs (at + length e.gap + 1) t s there w.named
          w.attributed in
      (
        at' + length content + length (end_token e.name),
        up_to_name e at rest t s w
            ∙ ap
                (λ b.
                  read_name process (at + length e.gap + 1) t s
                    (span is_name (e.name ++ print_attributes e.attributes (b'>' ∷ b))))
                shape
            ∙ tag
            ∙ ap (λ b. element process (some n') e.name false at' b t₁ s) (sym shape)
            ∙ from_content e (some n') at' rest t₁ s w
            ∙ settled n' at' e.content content
                (λ c. (at' + length c + length (end_token e.name), rest)) t₁ s s₁ slots calls
            ∙ ap (λ t. next (at' + length content + length (end_token e.name)) rest t s₁)
                (same slots),
      )
