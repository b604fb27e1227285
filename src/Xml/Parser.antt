-- ===== src/Xml/Parser.antt =====
-- `XMLParse` of tspc-advanced/src/xml/xmlparse.c, with the processing functions as a parameter.
use gw6c.Base.{
  ℕ, zero, suc, ◌+◌, List, [], ◌∷◌, Option, none, some, Bool, true, false, not, ltb, ◌==◌, ◌=s◌,
  if◌then◌else◌, length, map,
}
use gw6c.Session.{ℤ, pos, negsuc}
use gw6c.Xml.{
  Slot, null, live, freed, Node, Fault, over_read, token_overflow, no_fuel, is_name, span,
  skip_blanks, strstr, Tag, stop, ended, spaced, end_of_name, Attributes, read, broken, spent,
  starts_alpha, max_token, end_token, read_attributes, Closing, unclosed, closed, close_tag,
}

-- What a processing function gives: its value, and the content, the attributes and the state as it
-- leaves them.
pub data Handled {ℓ} (S : Type ℓ) : Type ℓ where
  handled : ℤ → List ℕ → List (List ℕ × Slot) → S → Handled S
  trapped : Fault → Handled S

pub data Parsed {ℓ} (P : Type 0) (S : Type ℓ) : Type ℓ where
  parsed : ℤ → List (Node P) → S → Parsed P S
  fault : Fault → Parsed P S

-- The loop goes on, or `XMLParse` returns.
pub data Step {ℓ} (P : Type 0) (S : Type ℓ) : Type ℓ where
  next : ℕ → List ℕ → List (Node P) → S → Step P S
  return : ℤ → List (Node P) → S → Step P S
  trap : Fault → Step P S

abbrev pub release_slot : Slot → Slot
release_slot (live value) = freed
release_slot null = null
release_slot freed = freed

module _ {P : Type 0} where
  unfoldable pub find_node : List ℕ → List (Node P) → Option (Node P)
  find_node name [] = none
  find_node name (n ∷ ns) = if name =s n.name then some n else find_node name ns

  -- The attributes of the node that `find_node` finds.
  unfoldable pub store : List ℕ → List (List ℕ × Slot) → List (Node P) → List (Node P)
  store name slots [] = []
  store name slots (n ∷ ns) =
      if name =s n.name then record n { attributes = slots } ∷ ns else n ∷ store name slots ns

  -- `free(string)`: no attribute has its value any more.
  unfoldable pub release : List (Node P) → List (Node P)
  release = map (λ (n : Node P). record n {
    attributes = map (λ (x : List ℕ × Slot). (x.0, release_slot x.1)) n.attributes;
  })

  module _ {ℓ} {S : Type ℓ} (process : P → List ℕ → List (List ℕ × Slot) → S → Handled S) where
    -- The value of a processing function, with the position added if it is one.
    abbrev pub shift : ℕ → ℤ → ℤ
    shift at (pos n) = pos (n + at)
    shift at (negsuc n) = negsuc n

    abbrev pub is_zero : ℤ → Bool
    is_zero (pos n) = n == 0
    is_zero (negsuc n) = false

    -- What follows a call of the processing function of a node; `go` says where the parser goes
    -- on behind the content that the function leaves.
    unfoldable pub settle :
        Node P → ℕ → (List ℕ → ℕ × List ℕ) → List (Node P) → Handled S → Step P S
    settle n at go table (trapped f) = trap f
    settle n at go table (handled value content slots s) =
        let table' = store n.name slots table in
        if is_zero value
        then next (go content).0 (go content).1 table' s
        else return (shift at value) table' s

    unfoldable pub call :
        Option (Node P) → ℕ → List ℕ → (List ℕ → ℕ × List ℕ) → List (Node P) → S → Step P S
    call none at content go table s = next (go content).0 (go content).1 table s
    call (some n) at content go table s =
        settle n at go table (process n.process content n.attributes s)

    -- A content and what is behind its end tag, if there is one.
    unfoldable pub enclosed :
        Option (Node P) → List ℕ → ℕ → List (Node P) → S → Option (List ℕ × List ℕ) → Step P S
    enclosed n name at table s none = return (pos at) table s
    enclosed n name at table s (some (content, after)) =
        call n at content (λ c. (at + length c + length (end_token name), after)) table s

    -- Behind the tag: its content is all that follows if it is simple, and else what is before
    -- the end tag.
    unfoldable pub element :
        Option (Node P) → List ℕ → Bool → ℕ → List ℕ → List (Node P) → S → Step P S
    element n name true at rest table s = call n at rest (λ content. (at, content)) table s
    element n name false at rest table s =
        if ltb max_token (length (end_token name) + 1)
        then trap token_overflow
        else enclosed n name at table s (strstr (end_token name) rest)

    -- Behind a blank after the name of a tag that has no node: what is skipped, and the rest.
    unfoldable pub skip_tag : List ℕ → ℕ → List (Node P) → S → List ℕ × List ℕ → Step P S
    skip_tag name at table s (skipped, []) = return (pos (at + length skipped)) table s
    skip_tag name at table s (skipped, c ∷ []) = return (pos (at + length skipped + 1)) table s
    skip_tag name at table s (skipped, c ∷ d ∷ rest) =
        element none name false (at + length skipped + 1) (d ∷ rest) table s

    unfoldable pub after_closing : Node P → List ℕ → List (Node P) → S → Closing → Step P S
    after_closing n name table s (unclosed stopped) = return (pos stopped) table s
    after_closing n name table s (closed simple at rest) =
        element (some n) name simple at rest table s

    -- Behind the attributes of a tag that has a node.
    unfoldable pub after_attributes : Node P → List ℕ → List (Node P) → S → Attributes → Step P S
    after_attributes n name table s spent = trap no_fuel
    after_attributes n name table s (broken stopped slots) =
        return (pos stopped) (store n.name slots table) s
    after_attributes n name table s (read at rest slots) =
        after_closing (record n { attributes = slots }) name (store n.name slots table) s
          (close_tag at rest)

    -- Behind a blank after the name of a tag that has a node.
    unfoldable pub open_tag : Node P → List ℕ → List (Node P) → S → ℕ × List ℕ → Step P S
    open_tag n name table s (at, rest) =
        after_attributes n name table s (read_attributes (suc (length rest)) at rest n.attributes)

    -- A tag without attributes; one without a node must not be the last thing.
    unfoldable pub bare_tag :
        Option (Node P) → List ℕ → Bool → ℕ → List ℕ → List (Node P) → S → Step P S
    bare_tag none name false at [] table s = return (pos at) table s
    bare_tag n name simple at rest table s = element n name simple at rest table s

    unfoldable pub spaced_tag : Option (Node P) → List ℕ → ℕ → List ℕ → List (Node P) → S → Step P S
    spaced_tag none name at rest table s =
        skip_tag name at table s (span (λ c. not (c == b'>')) rest)
    spaced_tag (some n) name at rest table s = open_tag n name table s (skip_blanks at rest)

    unfoldable pub named_tag : List ℕ → Tag → List (Node P) → S → Step P S
    named_tag name (stop at) table s = return (pos at) table s
    named_tag name (ended simple at rest) table s =
        bare_tag (find_node name table) name simple at rest table s
    named_tag name (spaced at []) table s = trap over_read
    named_tag name (spaced at (c ∷ cs)) table s =
        spaced_tag (find_node name table) name at (c ∷ cs) table s

    -- The name of a tag, and what is behind it.
    unfoldable pub read_name : ℕ → List (Node P) → S → List ℕ × List ℕ → Step P S
    read_name at table s (name, rest) = named_tag name (end_of_name (at + length name) rest) table s

    unfoldable pub start_tag : List (Node P) → S → ℕ × List ℕ → Step P S
    start_tag table s (at, []) = return (pos 0) table s
    start_tag table s (at, c ∷ cs) =
        if not (c == b'<')
        then return (pos at) table s
        else if not (starts_alpha cs)
        then return (pos (at + 1)) table s
        else read_name (at + 1) table s (span is_name cs)

    -- One pass of the loop, at a text that is not empty.
    unfoldable pub step : ℕ → List ℕ → List (Node P) → S → Step P S
    step at text table s = start_tag table s (skip_blanks at text)

    unfoldable pub parse_loop : ℕ → ℕ → List ℕ → List (Node P) → S → Parsed P S
    parse_loop fuel at [] table s = parsed (pos 0) (release table) s
    parse_loop zero at (c ∷ cs) table s = fault no_fuel
    parse_loop (suc fuel) at (c ∷ cs) table s = elim (step at (c ∷ cs) table s) [
      | next at' rest table' s' ↦ parse_loop fuel at' rest table' s'
      | return value table' s' ↦ parsed value (release table') s'
      | trap f ↦ fault f
    ]

    -- `XMLParse`
    unfoldable pub xml_parse : List ℕ → List (Node P) → S → Parsed P S
    xml_parse s table st = parse_loop (length s) 0 s table st
