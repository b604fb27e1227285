-- ===== src/Xml/Clear.antt =====
-- Where `strstr` finds the end tag of a node in tspc-advanced/src/xml/xmlparse.c: not in texts, nor
-- in the tags of other nodes.
use gw6c.Base.{
  ℕ, ◌≡◌, ◌≢◌, refl, sym, ap, ap₂, All-append, ◌∙◌, List, [], ◌∷◌, ◌++◌, Option, none, some, Bool,
  true, false, not, ◌==◌, ==_iff, ==_refl, if_true, if_false, Bool-cases, inl, inr, All, arith,
}
use mathlib.Core.List.{append_assoc, append-nil}
use gw6c.Xml.{is_name, strip, strstr, or_later, behind, end_token, is_blank}
use gw6c.Xml.Scan.{Passes, IsAttribute, print_attributes}

abbrev pub not_lt : ℕ → Bool
not_lt c = not (c == b'<')

-- What is found behind a text, seen from its start.
abbrev pub prefixed : List ℕ → Option (List ℕ × List ℕ) → Option (List ℕ × List ℕ)
prefixed [] found = found
prefixed (c ∷ cs) found = behind c (prefixed cs found)

prefixed-append :
    (xs ys : List ℕ) (found : Option (List ℕ × List ℕ))
    → prefixed (xs ++ ys) found ≡ prefixed xs (prefixed ys found)
prefixed-append [] ys found = refl
prefixed-append (x ∷ xs) ys found = ap (behind x) (prefixed-append xs ys found)

prefixed-some :
    (xs before after : List ℕ) → prefixed xs (some (before, after)) ≡ some (xs ++ before, after)
prefixed-some [] before after = refl
prefixed-some (x ∷ xs) before after = ap (behind x) (prefixed-some xs before after)

-- The end tag of the name does not start in the text.
pub Clear : List ℕ → List ℕ → Type 0
Clear name w =
    (rest : List ℕ)
    → strstr (end_token name) (w ++ rest) ≡ prefixed w (strstr (end_token name) rest)

-- The first end tag behind the text is the one that is put there.
pub Closes : List ℕ → List ℕ → Type 0
Closes name w =
    (rest : List ℕ) → strstr (end_token name) (w ++ (end_token name ++ rest)) ≡ some (w, rest)

pub Closes-found :
    (name w : List ℕ)
    → Closes name w
    → (rest : List ℕ) → strstr (end_token name) (w ++ (end_token name ++ rest)) ≡ some (w, rest)
unfolding Closes
Closes-found name w closes rest = closes rest

strip-append : (token rest : List ℕ) → strip token (token ++ rest) ≡ some rest
unfolding strip
strip-append [] rest = refl
strip-append (t ∷ ts) rest = if_true _ _ (==_refl t) ∙ strip-append ts rest

found : (name rest : List ℕ) → strstr (end_token name) (end_token name ++ rest) ≡ some ([], rest)
unfolding strstr end_token
found name rest =
    ap
      (λ x.
        or_later x (behind b'<' (strstr (end_token name) (b'/' ∷ ((name ++ (b'>' ∷ [])) ++ rest)))))
      (strip-append (end_token name) rest)

module _ (name : List ℕ) where
  pub Clear-Closes : (w : List ℕ) → Clear name w → Closes name w
  unfolding Clear Closes
  Clear-Closes w clear rest =
      clear (end_token name ++ rest)
      ∙ ap (prefixed w) (found name rest)
      ∙ prefixed-some w [] rest
      ∙ ap (λ x. some (x, rest)) (append-nil w)

  pub Clear-nil : Clear name []
  unfolding Clear
  Clear-nil rest = refl

  pub Clear-append : (xs ys : List ℕ) → Clear name xs → Clear name ys → Clear name (xs ++ ys)
  unfolding Clear
  Clear-append xs ys cx cy rest =
      ap (strstr (end_token name)) (append_assoc xs ys rest)
      ∙ cx (ys ++ rest)
      ∙ ap (prefixed xs) (cy rest)
      ∙ sym (prefixed-append xs ys (strstr (end_token name) rest))

  -- One byte that does not start an end tag.
  passed :
      (c : ℕ) (rest : List ℕ)
      → strip (end_token name) (c ∷ rest) ≡ none
      → strstr (end_token name) (c ∷ rest) ≡ behind c (strstr (end_token name) rest)
  unfolding strstr
  passed c rest e = ap (λ x. or_later x (behind c (strstr (end_token name) rest))) e

  elsewhere : (c : ℕ) (rest : List ℕ) → not_lt c ≡ true → strip (end_token name) (c ∷ rest) ≡ none
  unfolding strip end_token
  elsewhere c rest h =
      let other : (b'<' == c) ≡ false = ground arith in
      if_false (strip (b'/' ∷ (name ++ (b'>' ∷ []))) rest) none other

  pub Clear-flat : (w : List ℕ) → Passes not_lt w → Clear name w
  unfolding Clear
  Clear-flat [] all rest = refl
  Clear-flat (c ∷ cs) (other, all) rest =
      passed c (cs ++ rest) (elsewhere c (cs ++ rest) other)
      ∙ ap (behind c) (Clear-flat cs all rest)

  -- The start of a tag, whose name does not start with a slash.
  pub Clear-start :
      (c : ℕ) (w : List ℕ)
      → not (c == b'/') ≡ true
      → Passes not_lt (c ∷ w)
      → Clear name (b'<' ∷ c ∷ w)
  unfolding Clear strip end_token
  Clear-start c w letter all rest =
      let other : (b'/' == c) ≡ false = ground arith in
      passed b'<' (c ∷ (w ++ rest)) (if_false (strip (name ++ (b'>' ∷ [])) (w ++ rest)) none other)
      ∙ ap (behind b'<') (Clear-flat (c ∷ w) all rest)

pub Passes-imp :
    (p q : ℕ → Bool) → ((c : ℕ) → p c ≡ true → q c ≡ true) → (w : List ℕ) → Passes p w → Passes q w
Passes-imp p q f [] all = tt
Passes-imp p q f (c ∷ cs) (h, all) = (f c h, Passes-imp p q f cs all)

pub name_flat : (w : List ℕ) → Passes is_name w → Passes not_lt w
name_flat = Passes-imp is_name not_lt (λ c h. name_not_lt c h)
  where
    name_not_lt : (c : ℕ) → is_name c ≡ true → not_lt c ≡ true
    name_not_lt c h = ground arith

pub blank_flat : (w : List ℕ) → Passes is_blank w → Passes not_lt w
blank_flat = Passes-imp is_blank not_lt (λ c h. blank_not_lt c h)
  where
    blank_not_lt : (c : ℕ) → is_blank c ≡ true → not_lt c ≡ true
    blank_not_lt c h = ground arith

not_end : (c : ℕ) → is_name c ≡ true → ((b'>' == c) ≡ false) × ((c == b'>') ≡ false)
not_end c h = (ground arith, ground arith)

strip-other :
    (n m rest : List ℕ)
    → Passes is_name n
    → Passes is_name m
    → n ≢ m
    → strip (n ++ (b'>' ∷ [])) ((m ++ (b'>' ∷ [])) ++ rest) ≡ none
unfolding strip
strip-other [] [] rest hn hm ne = absurd (ne refl)
strip-other [] (c ∷ m) rest hn hm ne = if_false _ _ ((not_end c hm.0).0)
strip-other (d ∷ n) [] rest hn hm ne = if_false _ _ ((not_end d hn.0).1)
strip-other (d ∷ n) (c ∷ m) rest hn hm ne = elim (Bool-cases (d == c)) [
  | inr differs ↦ if_false _ _ differs
  | inl same ↦
      if_true _ _ same
      ∙ strip-other n m rest hn.1 hm.1 (λ e. ne (ap₂ (λ x xs. x ∷ xs) ((==_iff d c).0 same) e))
]

-- The end tag of another node.
pub Clear-end :
    (name other : List ℕ)
    → Passes is_name name
    → Passes is_name other
    → name ≢ other
    → Clear name (end_token other)
unfolding Clear strip end_token
Clear-end name other hn ho ne rest =
    passed name b'<' (b'/' ∷ ((other ++ (b'>' ∷ [])) ++ rest))
      (strip-other name other rest hn ho ne)
    ∙ ap (behind b'<') (
        Clear-flat name (b'/' ∷ (other ++ (b'>' ∷ [])))
          (refl, All-append _ other (b'>' ∷ []) (name_flat other ho) (refl, tt)) rest)

pub flat_attributes :
    (attributes : List (List ℕ × List ℕ)) (rest : List ℕ)
    → All IsAttribute attributes
    → Passes not_lt rest
    → Passes not_lt (print_attributes attributes rest)
flat_attributes [] rest all flat = flat
flat_attributes ((name, value) ∷ more) rest (a, all) flat = (
  refl,
  All-append _ name _ (name_flat name a.named)
      (refl, (refl, All-append _ value _ a.flat (refl, flat_attributes more rest all flat))),
)
