-- ===== src/Xml/Ends.antt =====
-- The loop of `XMLParse` of tspc-advanced/src/xml/xmlparse.c ends, whatever its text is: each pass
-- takes at least the `<` of a tag.
use gw6c.Base.{
  ℕ, zero, suc, ◌+◌, ◌≤◌, List, [], ◌∷◌, Option, none, some, Bool, true, false, not, ltb, ◌==◌,
  Bool-cases, inl, inr, length, arith,
}
use gw6c.Xml.{
  Slots, Node, Fault, no_fuel, is_name, span, skip_blanks, Tag, stop, ended, spaced, end_of_name,
  Attributes, read, broken, spent, max_token, end_token, read_attributes, Closing, unclosed, closed,
  close_tag, starts_alpha,
}
use gw6c.Xml.Parser.{
  Handled, handled, trapped, Parsed, parsed, fault, Step, next, return, trap, find_node, store,
  release, is_zero, settle, call, enclosed, element, skip_tag, after_closing, after_attributes,
  open_tag, bare_tag, spaced_tag, named_tag, read_name, start_tag, step, parse_loop, xml_parse,
}
use gw6c.Xml.Shrinks.{
  span-length, skip_blanks-shrinks, strstr-shrinks, TagWithin, end_of_name-TagWithin, ClosingWithin,
  close_tag-ClosingWithin, AttributesWithin, read_attributes-AttributesWithin,
}

-- The faults of the code.
abbrev pub IsReal : Fault → Type 0
IsReal no_fuel = ⊥
IsReal _ = Unit

-- A processing function leaves its content no longer, and the parsers that it calls end.
abbrev pub IsTame {ℓ} : {S : Type ℓ} → List ℕ → Handled S → Type 0
IsTame content (handled value content' slots s) = length content' ≤ length content
IsTame content (trapped f) = IsReal f

module _ {ℓ} {P : Type 0} {S : Type ℓ} where
  -- A parser returns, with a value or by a fault of the code.
  abbrev pub Ended : Parsed P S → Type 0
  Ended (parsed value table s) = Unit
  Ended (fault f) = IsReal f

  -- What a pass of the loop leaves is so much at most.
  abbrev StepWithin : ℕ → Step P S → Type 0
  StepWithin n (next at rest table s) = length rest ≤ n
  StepWithin n (return value table s) = Unit
  StepWithin n (trap f) = IsReal f

  module _ (process : P → List ℕ → Slots → S → Handled S)
      (tame : (p : P) (content : List ℕ) (slots : Slots) (s : S)
        → IsTame content (process p content slots s)) where
    settle-StepWithin :
        (n : Node P) (at : ℕ) (go : List ℕ → ℕ × List ℕ) (table : List (Node P)) (content : List ℕ)
        (h : Handled S) (m : ℕ)
        → IsTame content h
        → ((c : List ℕ) → length c ≤ length content → length (go c).1 ≤ m)
        → StepWithin m (settle process n at go table h)
    unfolding settle
    settle-StepWithin n at go table content (trapped f) m t goes = t
    settle-StepWithin n at go table content (handled value content' slots s) m t goes =
        elim (Bool-cases (is_zero process value)) [
          | inl goes_on ↦ rw (goes_on, StepWithin) (goes content' t)
          | inr other ↦ rw (other, StepWithin) tt
        ]

    call-StepWithin :
        (n : Option (Node P)) (at : ℕ) (content : List ℕ) (go : List ℕ → ℕ × List ℕ)
        (table : List (Node P)) (s : S) (m : ℕ)
        → ((c : List ℕ) → length c ≤ length content → length (go c).1 ≤ m)
        → StepWithin m (call process n at content go table s)
    unfolding call
    call-StepWithin none at content go table s m goes = goes content (omega arith)
    call-StepWithin (some n) at content go table s m goes =
        settle-StepWithin n at go table content (process n.process content n.attributes s) m
          (tame n.process content n.attributes s) goes

    element-StepWithin :
        (n : Option (Node P)) (name : List ℕ) (simple : Bool) (at : ℕ) (rest : List ℕ)
        (table : List (Node P)) (s : S) (m : ℕ)
        → length rest ≤ m
        → StepWithin m (element process n name simple at rest table s)
    unfolding element enclosed
    element-StepWithin n name true at rest table s m le =
        call-StepWithin n at rest (λ content. (at, content)) table s m (λ c le'. omega arith)
    element-StepWithin n name false at rest table s m le =
        elim (Bool-cases (ltb max_token (length (end_token name) + 1))) [
          | inl over ↦ rw (over, StepWithin) tt
          | inr fits ↦ elim (strstr-shrinks (end_token name) rest) [
            | inl no_end ↦ rw (fits, no_end, StepWithin) tt
            | inr (before, after, found, le') ↦
                rw (fits, found)
                  (call-StepWithin n at before
                    (λ c. (at + length c + length (end_token name), after)) table s m
                    (λ c le''. omega arith))
          ]
        ]

    skip_tag-StepWithin :
        (name : List ℕ) (at : ℕ) (table : List (Node P)) (s : S) (x : List ℕ × List ℕ) (m : ℕ)
        → length x.1 ≤ m
        → StepWithin m (skip_tag process name at table s x)
    unfolding skip_tag
    skip_tag-StepWithin name at table s (skipped, []) m le = tt
    skip_tag-StepWithin name at table s (skipped, c ∷ []) m le = tt
    skip_tag-StepWithin name at table s (skipped, c ∷ d ∷ rest) m le =
        element-StepWithin none name false (at + length skipped + 1) (d ∷ rest) table s m
          (omega arith)

    after_closing-StepWithin :
        (n : Node P) (name : List ℕ) (table : List (Node P)) (s : S) (c : Closing) (m : ℕ)
        → ClosingWithin m c
        → StepWithin m (after_closing process n name table s c)
    unfolding after_closing
    after_closing-StepWithin n name table s (unclosed at) m le = tt
    after_closing-StepWithin n name table s (closed simple at rest) m le =
        element-StepWithin (some n) name simple at rest table s m le

    after_attributes-StepWithin :
        (n : Node P) (name : List ℕ) (table : List (Node P)) (s : S) (a : Attributes) (m : ℕ)
        → AttributesWithin m a
        → StepWithin m (after_attributes process n name table s a)
    unfolding after_attributes
    after_attributes-StepWithin n name table s spent m le = le
    after_attributes-StepWithin n name table s (broken at slots) m le = tt
    after_attributes-StepWithin n name table s (read at rest slots) m le =
        after_closing-StepWithin (record n { attributes = slots }) name (store n.name slots table) s
          (close_tag at rest) m
          (ClosingWithin-mono (close_tag at rest) (length rest) m le
            (close_tag-ClosingWithin at rest))
      where
        ClosingWithin-mono : (c : Closing) (k m : ℕ) → k ≤ m → ClosingWithin k c → ClosingWithin m c
        ClosingWithin-mono (unclosed at) k m le w = tt
        ClosingWithin-mono (closed simple at rest) k m le w = omega arith

    spaced_tag-StepWithin :
        (n : Option (Node P)) (name : List ℕ) (at : ℕ) (rest : List ℕ) (table : List (Node P))
        (s : S) (m : ℕ)
        → length rest ≤ m
        → StepWithin m (spaced_tag process n name at rest table s)
    unfolding spaced_tag open_tag
    spaced_tag-StepWithin none name at rest table s m le =
        skip_tag-StepWithin name at table s (span (λ c. not (c == b'>')) rest) m
          (omega (arith, span-length (λ c. not (c == b'>')) rest))
    spaced_tag-StepWithin (some n) name at rest table s m le =
        let x = skip_blanks at rest in
        after_attributes-StepWithin n name table s
          (read_attributes (suc (length x.1)) x.0 x.1 n.attributes) m
          (read_attributes-AttributesWithin m (suc (length x.1)) x.0 x.1 n.attributes (omega arith)
            (omega (arith, skip_blanks-shrinks at rest)))

    bare_tag-StepWithin :
        (n : Option (Node P)) (name : List ℕ) (simple : Bool) (at : ℕ) (rest : List ℕ)
        (table : List (Node P)) (s : S) (m : ℕ)
        → length rest ≤ m
        → StepWithin m (bare_tag process n name simple at rest table s)
    unfolding bare_tag
    bare_tag-StepWithin none name false at [] table s m le = tt
    bare_tag-StepWithin none name true at [] table s m le =
        element-StepWithin none name true at [] table s m le
    bare_tag-StepWithin none name true at (c ∷ cs) table s m le =
        element-StepWithin none name true at (c ∷ cs) table s m le
    bare_tag-StepWithin none name false at (c ∷ cs) table s m le =
        element-StepWithin none name false at (c ∷ cs) table s m le
    bare_tag-StepWithin (some n) name simple at rest table s m le =
        element-StepWithin (some n) name simple at rest table s m le

    named_tag-StepWithin :
        (name : List ℕ) (g : Tag) (table : List (Node P)) (s : S) (m : ℕ)
        → TagWithin m g
        → StepWithin m (named_tag process name g table s)
    unfolding named_tag
    named_tag-StepWithin name (stop at) table s m le = tt
    named_tag-StepWithin name (ended simple at rest) table s m le =
        bare_tag-StepWithin (find_node name table) name simple at rest table s m le
    named_tag-StepWithin name (spaced at []) table s m le = tt
    named_tag-StepWithin name (spaced at (c ∷ cs)) table s m le =
        spaced_tag-StepWithin (find_node name table) name at (c ∷ cs) table s m le

    start_tag-StepWithin :
        (table : List (Node P)) (s : S) (x : ℕ × List ℕ) (m : ℕ)
        → length x.1 ≤ suc m
        → StepWithin m (start_tag process table s x)
    unfolding start_tag read_name
    start_tag-StepWithin table s (at, []) m le = tt
    start_tag-StepWithin table s (at, c ∷ cs) m le = elim (Bool-cases (c == b'<')) [
      | inr other ↦ rw (other, StepWithin) tt
      | inl tag ↦ elim (Bool-cases (starts_alpha cs)) [
        | inr other ↦ rw (tag, other, StepWithin) tt
        | inl named ↦
            let x = span is_name cs in
            rw (tag, named)
              (named_tag-StepWithin x.0 (end_of_name (at + 1 + length x.0) x.1) table s m (
                TagWithin-mono (end_of_name (at + 1 + length x.0) x.1) (length x.1) m
                  (omega (arith, span-length is_name cs))
                  (end_of_name-TagWithin (at + 1 + length x.0) x.1)))
      ]
    ]
      where
        TagWithin-mono : (g : Tag) (k m : ℕ) → k ≤ m → TagWithin k g → TagWithin m g
        TagWithin-mono (stop at) k m le w = tt
        TagWithin-mono (ended simple at rest) k m le w = omega arith
        TagWithin-mono (spaced at rest) k m le w = omega arith

    parse_loop-Ended :
        (fuel at : ℕ) (text : List ℕ) (table : List (Node P)) (s : S)
        → length text ≤ fuel
        → Ended (parse_loop process fuel at text table s)
    unfolding parse_loop step
    parse_loop-Ended fuel at [] table s le = tt
    parse_loop-Ended zero at (c ∷ cs) table s le = omega arith
    parse_loop-Ended (suc fuel) at (c ∷ cs) table s le =
        follow (parse_loop-Ended fuel) (step process at (c ∷ cs) table s) (
          start_tag-StepWithin table s (skip_blanks at (c ∷ cs)) fuel
            (omega (arith, skip_blanks-shrinks at (c ∷ cs))))
      where
        follow :
            ((at' : ℕ) (rest : List ℕ) (table' : List (Node P)) (s' : S)
              → length rest ≤ fuel
              → Ended (parse_loop process fuel at' rest table' s'))
            → (r : Step P S) → StepWithin fuel r
            → Ended (elim r [
              | next at' rest table' s' ↦ parse_loop process fuel at' rest table' s'
              | return value table' s' ↦ parsed value (release table') s'
              | trap f ↦ fault f
            ])
        follow ih (next at' rest table' s') w = ih at' rest table' s' w
        follow ih (return value table' s') w = tt
        follow ih (trap f) w = w

    -- The parser returns on every text, if its processing functions do and leave their content no
    -- longer.
    pub xml_parse-Ended :
        (text : List ℕ) (table : List (Node P)) (s : S) → Ended (xml_parse process text table s)
    unfolding xml_parse
    xml_parse-Ended text table s = parse_loop-Ended (length text) 0 text table s (omega arith)
