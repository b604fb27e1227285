-- ===== src/Xml.antt =====
-- The XML parser of tspc-advanced/src/xml/xmlparse.c and include/xmlparse.h. `XMLParse` works on
-- a copy of its text, in which it ends names and values by zero bytes; here a text is a list of
-- bytes that is cut up, and a position is the number of the bytes before. Memory is given.
pub mod Parser
pub mod Tunnel
pub mod Scan
pub mod Clear
pub mod Elements
pub mod Tags
pub mod Events
pub mod Nested
pub mod Redirection
pub mod Message
pub mod Shrinks
pub mod Ends
pub mod Total
pub mod Request
pub mod Asks
pub mod Asked
mod Tests
pub mod Reply
pub mod Brokers
pub mod Wellformed
use gw6c.Base.{
  ℕ, zero, suc, ◌+◌, List, [], ◌∷◌, ◌++◌, Option, none, some, Bool, true, false, not, leb, ltb,
  ◌==◌, ◌=s◌, ◌&&◌, ◌||◌, if◌then◌else◌, length, map,
}
use gw6c.Session.{ℤ, pos, negsuc}

-- The value of an attribute is a null pointer, or points to a text, or to one that was freed.
pub data Slot : Type 0 where
  null : Slot
  live : List ℕ → Slot
  freed : Slot

-- `tNode` and `tAttribute`; `process` stands for the pointer to the processing function.
pub record Node (P : Type 0) : Type 0 where
  pub name : List ℕ
  pub process : P
  pub attributes : List (List ℕ × Slot)

-- A read through a null pointer, of a freed text, or behind a text; a name that is too long for
-- `endToken`; or the fuel of the model is spent.
pub data Fault : Type 0 where
  null_read stale_read over_read token_overflow no_fuel : Fault

-- `isalpha` and `isalnum` in the C locale.
abbrev pub is_alpha : ℕ → Bool
is_alpha c = (leb b'a' c && leb c b'z') || (leb b'A' c && leb c b'Z')

abbrev pub is_name : ℕ → Bool
is_name c = is_alpha c || ((leb b'0' c && leb c b'9') || (c == b'_'))

abbrev pub is_blank : ℕ → Bool
is_blank c = (c == 32) || ((c == 9) || ((c == 13) || (c == 10)))

-- What may stand between the quotes of a value.
abbrev pub is_value : ℕ → Bool
is_value c = not ((c == 10) || ((c == 13) || ((c == b'>') || (c == b'"'))))

-- The longest prefix of bytes that pass, and what is behind it.
unfoldable pub span : (ℕ → Bool) → List ℕ → List ℕ × List ℕ
span p [] = ([], [])
span p (c ∷ cs) = let (taken, rest) = span p cs in if p c then (c ∷ taken, rest) else ([], c ∷ cs)

-- `SkipBlanks`: the new position, and what is there.
unfoldable pub skip_blanks : ℕ → List ℕ → ℕ × List ℕ
skip_blanks at s = let (taken, rest) = span is_blank s in (at + length taken, rest)

-- The text without a prefix, if it has it.
unfoldable pub strip : List ℕ → List ℕ → Option (List ℕ)
strip [] s = some s
strip (t ∷ ts) [] = none
strip (t ∷ ts) (c ∷ cs) = if t == c then strip ts cs else none

abbrev pub behind : ℕ → Option (List ℕ × List ℕ) → Option (List ℕ × List ℕ)
behind c none = none
behind c (some (before, after)) = some (c ∷ before, after)

abbrev pub or_later : Option (List ℕ) → Option (List ℕ × List ℕ) → Option (List ℕ × List ℕ)
or_later (some after) later = some ([], after)
or_later none later = later

-- `strstr`: what is before the first occurrence, and what is behind it.
unfoldable pub strstr : List ℕ → List ℕ → Option (List ℕ × List ℕ)
strstr token [] = none
strstr token (c ∷ cs) = or_later (strip token (c ∷ cs)) (behind c (strstr token cs))

abbrev pub max_token : ℕ
max_token = 100

unfoldable pub end_token : List ℕ → List ℕ
end_token name = b'<' ∷ b'/' ∷ (name ++ (b'>' ∷ []))

-- The end of a tag's name: the parser stops at a position, or the tag ends, and is simple or not,
-- or a blank follows.
pub data Tag : Type 0 where
  stop : ℕ → Tag
  ended : Bool → ℕ → List ℕ → Tag
  spaced : ℕ → List ℕ → Tag

unfoldable pub end_of_name : ℕ → List ℕ → Tag
end_of_name at [] = stop at
end_of_name at (c ∷ []) =
    if c == b'/'
    then stop (at + 1)
    else if c == 32
    then spaced (at + 1) []
    else if c == b'>'
    then ended false (at + 1) []
    else stop at
end_of_name at (c ∷ d ∷ rest) =
    if c == b'/'
    then (if d == b'>' then ended true (at + 2) rest else stop (at + 1))
    else if c == 32
    then spaced (at + 1) (d ∷ rest)
    else if c == b'>'
    then ended false (at + 1) (d ∷ rest)
    else stop at

-- `findAttribute`, and the store of a value.
unfoldable pub set_attribute : List ℕ → List ℕ → List (List ℕ × Slot) → List (List ℕ × Slot)
set_attribute name value [] = []
set_attribute name value ((a, slot) ∷ more) =
    if name =s a then (a, live value) ∷ more else (a, slot) ∷ set_attribute name value more

-- The attributes are read up to a position, or the parser stops there.
pub data Attributes : Type 0 where
  read : ℕ → List ℕ → List (List ℕ × Slot) → Attributes
  broken : ℕ → List (List ℕ × Slot) → Attributes
  spent : Attributes

-- The text behind a byte, if the text starts with it.
unfoldable pub after_byte : ℕ → List ℕ → Option (List ℕ)
after_byte b [] = none
after_byte b (c ∷ cs) = if c == b then some cs else none

unfoldable pub starts_alpha : List ℕ → Bool
starts_alpha [] = false
starts_alpha (c ∷ cs) = is_alpha c

abbrev pub Slots : Type 0
Slots = List (List ℕ × Slot)

-- From the value of an attribute on; `go` is the next pass of the loop.
unfoldable pub read_value :
    (ℕ → List ℕ → Slots → Attributes) → ℕ → List ℕ → Slots → List ℕ × List ℕ → Attributes
read_value go at name slots (value, s) = elim (after_byte b'"' s) [
  | none ↦ broken (at + length value) slots
  | some s' ↦
      let x = skip_blanks (at + length value + 1) s' in go x.0 x.1 (set_attribute name value slots)
]

-- From the end of its name on.
unfoldable pub read_equals :
    (ℕ → List ℕ → Slots → Attributes) → ℕ → Slots → List ℕ × List ℕ → Attributes
read_equals go at slots (name, s) = elim (after_byte b'=' s) [
  | none ↦ broken (at + length name) slots
  | some s' ↦ elim (after_byte b'"' s') [
    | none ↦ broken (at + length name + 1) slots
    | some s'' ↦ read_value go (at + length name + 2) name slots (span is_value s'')
  ]
]

-- The loop on attributes.
unfoldable pub read_attributes : ℕ → ℕ → List ℕ → Slots → Attributes
read_attributes zero at s slots = spent
read_attributes (suc fuel) at s slots =
    let go = λ (at' : ℕ) (s' : List ℕ) (slots' : Slots). read_attributes fuel at' s' slots' in
    if starts_alpha s then read_equals go at slots (span is_name s) else read at s slots

-- Behind the attributes the parser stops at a position, or the tag ends, and is simple or not.
pub data Closing : Type 0 where
  unclosed : ℕ → Closing
  closed : Bool → ℕ → List ℕ → Closing

abbrev pub closing : Bool → ℕ → List ℕ → Closing
closing simple at s = elim (after_byte b'>' s) [
  | none ↦ unclosed at
  | some r ↦ closed simple (at + 1) r
]

unfoldable pub close_tag : ℕ → List ℕ → Closing
close_tag at s = elim (after_byte b'/' s) [
  | none ↦ closing false at s
  | some r ↦ closing true (at + 1) r
]
