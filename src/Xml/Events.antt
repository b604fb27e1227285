-- ===== src/Xml/Events.antt =====
-- A printed document is parsed as the sequence of calls of the processing functions that it stands
-- for: `XMLParse` of tspc-advanced/src/xml/xmlparse.c on texts that are well formed.
use gw6c.Base.{
  ℕ, zero, suc, ◌+◌, ◌≤◌, ◌≡◌, refl, sym, ap, ◌∙◌, List, [], ◌∷◌, ◌++◌, none, some, length,
  length-append, All, arith,
}
use gw6c.Session.{ℤ, pos}
use gw6c.Xml.{Slots, Node, is_blank, span, skip_blanks, end_token}
use gw6c.Xml.Parser.{
  Handled, handled, Parsed, parsed, fault, Step, next, return, trap, find_node, store, release,
  start_tag, step, parse_loop, xml_parse,
}
use gw6c.Xml.Scan.{Passes, print_attributes, set_attributes, span-whole}
use gw6c.Xml.Elements.{Element, body, print_element, print_elements, IsElement}
use gw6c.Xml.Tags.{step_ignored, step_called}

module _ {ℓ} {P : Type 0} {S : Type ℓ} (process : P → List ℕ → Slots → S → Handled S) where
  -- The calls that the elements stand for, each of which returns 0: a node in the table is given
  -- its attributes, and its function the content; other nodes are passed over.
  pub data Runs : List Element → List (Node P) → S → List (Node P) → S → Type ℓ where
    finished : (t : List (Node P)) (s : S) → Runs [] t s t s
    ignored :
        (e : Element) (es : List Element) (t : List (Node P)) (s : S) (t' : List (Node P)) (s' : S)
        → find_node e.name t ≡ none
        → Runs es t s t' s'
        → Runs (e ∷ es) t s t' s'
    called :
        (e : Element) (es : List Element) (t : List (Node P)) (s : S) (t' : List (Node P)) (s' : S)
        (n : Node P) (content : List ℕ) (slots : Slots) (s₁ : S)
        → find_node e.name t ≡ some n
        → process n.process e.content (set_attributes e.attributes n.attributes) s
          ≡ handled (pos 0) content slots s₁
        → Runs es (store n.name slots t) s₁ t' s'
        → Runs (e ∷ es) t s t' s'

  follow : ℕ → Step P S → Parsed P S
  follow fuel x = elim x as (λ x. Parsed P S) [
    | next at rest t s ↦ parse_loop process fuel at rest t s
    | return value t s ↦ parsed value (release t) s
    | trap f ↦ fault f
  ]

  at_end : (at : ℕ) (t : List (Node P)) (s : S) → step process at [] t s ≡ return (pos 0) t s
  unfolding step start_tag skip_blanks span
  at_end at t s = refl

  next-return :
      {at : ℕ} {rest : List ℕ} {t u : List (Node P)} {s v : S} {k : ℤ}
      → return k u v ≡ next at rest t s
      → ⊥
  next-return e = cc

  -- The loop goes on after a pass.
  loop_next :
      (fuel at : ℕ) (text : List ℕ) (t : List (Node P)) (s : S) (at' : ℕ) (rest : List ℕ)
      (t' : List (Node P)) (s' : S)
      → step process at text t s ≡ next at' rest t' s'
      → parse_loop process (suc fuel) at text t s ≡ parse_loop process fuel at' rest t' s'
  unfolding parse_loop follow
  loop_next fuel at [] t s at' rest t' s' e = absurd (next-return (sym (at_end at t s) ∙ e))
  loop_next fuel at (c ∷ cs) t s at' rest t' s' e = ap (follow fuel) e

  -- Blanks at the end are passed over.
  loop_blank :
      (tail : List ℕ) (fuel at : ℕ) (t : List (Node P)) (s : S)
      → Passes is_blank tail
      → length tail ≤ fuel
      → parse_loop process fuel at tail t s ≡ parsed (pos 0) (release t) s
  unfolding parse_loop follow step start_tag skip_blanks
  loop_blank [] fuel at t s blank enough = refl
  loop_blank (c ∷ cs) zero at t s blank enough = absurd (omega arith)
  loop_blank (c ∷ cs) (suc fuel) at t s blank enough =
      ap (λ (x : List ℕ × List ℕ). follow fuel (start_tag process t s (at + length x.0, x.1)))
        (span-whole is_blank (c ∷ cs) blank)

  parse_loop-Runs :
      (es : List Element) (tail : List ℕ) (fuel at : ℕ) (t : List (Node P)) (s : S)
      (t' : List (Node P)) (s' : S)
      → Runs es t s t' s'
      → All IsElement es
      → Passes is_blank tail
      → length es + length tail ≤ fuel
      → parse_loop process fuel at (print_elements es tail) t s ≡ parsed (pos 0) (release t') s'
  parse_loop-Runs _ tail fuel at _ _ _ _ (finished t s) all blank enough =
      loop_blank tail fuel at t s blank (omega arith)
  parse_loop-Runs _ tail zero at _ _ _ _ (ignored e es t s t' s' missing runs) (w, all) blank
        enough =
      absurd (omega arith)
  parse_loop-Runs _ tail (suc fuel) at _ _ _ _ (ignored e es t s t' s' missing runs) (w, all) blank
        enough =
      let (at', e₁) = step_ignored process e at (print_elements es tail) t s w missing in
      loop_next fuel at (print_element e (print_elements es tail)) t s at' (print_elements es tail)
        t s e₁
      ∙ parse_loop-Runs es tail fuel at' t s t' s' runs all blank (omega arith)
  parse_loop-Runs _ tail zero at _ _ _ _ (called e es t s t' s' n content slots s₁ there calls runs)
        (w, all) blank enough =
      absurd (omega arith)
  parse_loop-Runs _ tail (suc fuel) at _ _ _ _
        (called e es t s t' s' n content slots s₁ there calls runs) (w, all) blank enough =
      let (at', e₁) =
        step_called process e at (print_elements es tail) t s n content slots s₁ w there calls in
      loop_next fuel at (print_element e (print_elements es tail)) t s at' (print_elements es tail)
        (store n.name slots t) s₁ e₁
      ∙ parse_loop-Runs es tail fuel at' (store n.name slots t) s₁ t' s' runs all blank
          (omega arith)

  size :
      (es : List Element) (tail : List ℕ)
      → length es + length tail ≤ length (print_elements es tail)
  size [] tail = omega arith
  size (e ∷ es) tail =
      let rest = print_elements es tail in
      let inner = e.name ++ print_attributes e.attributes (b'>' ∷ body e rest) in
      omega (
        arith,
        length-append e.gap (b'<' ∷ inner),
        length-append e.name (print_attributes e.attributes (b'>' ∷ body e rest)),
        inside e.attributes (b'>' ∷ body e rest),
        length-append e.content (end_token e.name ++ rest),
        length-append (end_token e.name) rest,
        size es tail,
      )
    where
      inside :
          (attributes : List (List ℕ × List ℕ)) (rest : List ℕ)
          → length rest ≤ length (print_attributes attributes rest)
      inside [] rest = omega arith
      inside ((name, value) ∷ more) rest =
          let tail = print_attributes more rest in
          omega (
            arith,
            length-append name (b'=' ∷ b'"' ∷ (value ++ (b'"' ∷ tail))),
            length-append value (b'"' ∷ tail),
            inside more rest,
          )

  -- A document of well-formed nodes, with blanks before, between and behind them, is parsed with
  -- the value 0 as the calls that its nodes stand for, if each of these returns 0: a node of the
  -- table is given its attributes and its content, and other nodes are passed over.
  pub xml_parse-Runs :
      (es : List Element) (tail : List ℕ) (t : List (Node P)) (s : S) (t' : List (Node P)) (s' : S)
      → Runs es t s t' s'
      → All IsElement es
      → Passes is_blank tail
      → xml_parse process (print_elements es tail) t s ≡ parsed (pos 0) (release t') s'
  unfolding xml_parse
  xml_parse-Runs es tail t s t' s' runs all blank =
      parse_loop-Runs es tail (length (print_elements es tail)) 0 t s t' s' runs all blank
        (size es tail)
