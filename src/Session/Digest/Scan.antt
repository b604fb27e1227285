-- ===== src/Session/Digest/Scan.antt =====
-- A printed challenge is read by `ExtractChallenge` of tspc-advanced/src/tsp/tsp_auth.c.
use mathlib.Core.List.{append_assoc, append-nil}
use gw6c.Base.{
  ℕ, ◌≡◌, refl, sym, ap, ◌∙◌, List, [], ◌∷◌, ◌++◌, Option, none, some, Bool, true, false, not, ◌==◌,
  ◌&&◌, ◌||◌, if◌then◌else◌, if_false, All, arith,
}
use gw6c.Session.Digest.{
  Challenge, no_challenge, insert, Scanner, is_separator, chop_end, is_empty, flush, advance, scan,
  extract_challenge,
}

-- A directive with a quoted value.
pub record Field : Type 0 where
  pub token : List ℕ
  pub value : List ℕ

abbrev is_plain : ℕ → Bool
is_plain c = not (is_separator c || (c == b'='))

pub record IsField (f : Field) : Type 0 where
  pub named : is_empty f.token ≡ false
  pub plain : All (λ c. is_plain c ≡ true) f.token
  pub valued : is_empty f.value ≡ false
  pub whole : All (λ c. is_separator c ≡ false) f.value

abbrev pub print_field : Field → List ℕ → List ℕ
print_field f rest = f.token ++ (b'=' ∷ b'"' ∷ (f.value ++ (b'"' ∷ rest)))

abbrev more_fields : List Field → List ℕ
more_fields [] = []
more_fields (f ∷ fs) = b',' ∷ print_field f (more_fields fs)

abbrev pub print_fields : Field → List Field → List ℕ
print_fields f fs = print_field f (more_fields fs)

abbrev pub insert_all : List Field → Challenge → Challenge
insert_all [] c = c
insert_all (f ∷ fs) c = insert_all fs (insert f.token f.value c)

abbrev at : Challenge → (token segment : List ℕ) → Bool → Scanner
at c token segment fresh = record { challenge = c; token = token; segment = segment; fresh = fresh }

module _ (c : Challenge) where
  -- The bytes of a token, and those of a value, are gathered.
  token_bytes :
      (xs segment rest : List ℕ)
      → All (λ x. is_plain x ≡ true) xs
      → scan (at c [] segment false) (xs ++ rest) ≡ scan (at c [] (segment ++ xs) false) rest
  unfolding scan advance
  token_bytes [] segment rest all = ap (λ g. scan (at c [] g false) rest) (sym (append-nil segment))
  token_bytes (x ∷ xs) segment rest (p, all) =
      ap (λ s. scan s (xs ++ rest))
        (if_false _ _ (no_separator x p) ∙ if_false _ _ (no_equals x p (not (is_empty segment))))
      ∙ token_bytes xs (segment ++ (x ∷ [])) rest all
      ∙ ap (λ g. scan (at c [] g false) rest) (append_assoc segment (x ∷ []) xs)
    where
      no_separator : (x : ℕ) → is_plain x ≡ true → is_separator x ≡ false
      no_separator x p = ground arith

      no_equals : (x : ℕ) → is_plain x ≡ true → (b : Bool) → ((x == b'=') && (true && b)) ≡ false
      no_equals x p b = ground arith

  value_bytes :
      (token xs segment rest : List ℕ)
      → is_empty token ≡ false
      → All (λ x. is_separator x ≡ false) xs
      → scan (at c token segment false) (xs ++ rest) ≡ scan (at c token (segment ++ xs) false) rest
  unfolding scan advance
  value_bytes token [] segment rest named all =
      ap (λ g. scan (at c token g false) rest) (sym (append-nil segment))
  value_bytes token (x ∷ xs) segment rest named (p, all) =
      ap (λ s. scan s (xs ++ rest))
        (if_false _ _ p
          ∙ if_false _ _ (taken (x == b'=') (not (is_empty segment)) (is_empty token) named))
      ∙ value_bytes token xs (segment ++ (x ∷ [])) rest named all
      ∙ ap (λ g. scan (at c token g false) rest) (append_assoc segment (x ∷ []) xs)
    where
      taken : (b d e : Bool) → e ≡ false → (b && (e && d)) ≡ false
      taken b d e h = ground arith

chop_quote : (v : List ℕ) → chop_end (v ++ (b'"' ∷ [])) ≡ v
unfolding chop_end
chop_quote [] = refl
chop_quote (x ∷ []) = refl
chop_quote (x ∷ y ∷ v) = ap (λ r. x ∷ r) (chop_quote (y ∷ v))

-- A whole field behind the last separator.
abbrev gathered : Challenge → Field → Scanner
gathered c f = at c f.token (b'"' ∷ (f.value ++ (b'"' ∷ []))) false

scan_field :
    (c : Challenge) (f : Field) (fresh : Bool) (rest : List ℕ)
    → IsField f
    → scan (at c [] [] fresh) (print_field f rest) ≡ scan (gathered c f) rest
unfolding scan advance
scan_field c f fresh rest w = go f.token w.named w.plain
  where
    behind :
        (token : List ℕ)
        → is_empty token ≡ false
        → scan (at c [] token false) (b'=' ∷ b'"' ∷ (f.value ++ (b'"' ∷ rest)))
          ≡ scan (at c token (b'"' ∷ (f.value ++ (b'"' ∷ []))) false) rest
    behind [] named = cc
    behind (t ∷ ts) named = value_bytes c (t ∷ ts) f.value (b'"' ∷ []) (b'"' ∷ rest) refl w.whole

    first :
        (fresh : Bool) (t : ℕ)
        → is_plain t ≡ true
        → advance (at c [] [] fresh) t ≡ at c [] (t ∷ []) false
    first true t p = refl
    first false t p = if_false _ _ (no_separator t p) ∙ if_false _ _ (no_token (t == b'='))
      where
        no_separator : (x : ℕ) → is_plain x ≡ true → is_separator x ≡ false
        no_separator x p = ground arith

        no_token : (b : Bool) → (b && false) ≡ false
        no_token b = ground arith

    go :
        (token : List ℕ)
        → is_empty token ≡ false
        → All (λ c. is_plain c ≡ true) token
        → scan (at c [] [] fresh) (token ++ (b'=' ∷ b'"' ∷ (f.value ++ (b'"' ∷ rest))))
          ≡ scan (at c token (b'"' ∷ (f.value ++ (b'"' ∷ []))) false) rest
    go [] named plain = cc
    go (t ∷ ts) named (p, plain) =
        ap (λ s. scan s (ts ++ (b'=' ∷ b'"' ∷ (f.value ++ (b'"' ∷ rest))))) (first fresh t p)
        ∙ token_bytes c ts (t ∷ []) (b'=' ∷ b'"' ∷ (f.value ++ (b'"' ∷ rest))) plain
        ∙ behind (t ∷ ts) named

flush_field :
    (c : Challenge) (f : Field)
    → IsField f
    → flush (gathered c f)
      ≡ record (gathered c f) { challenge = insert f.token f.value c; token = [] }
unfolding flush
flush_field c f w =
    if_false _ _ (taken (is_empty f.token) _ w.named (ap is_empty (chop_quote f.value) ∙ w.valued))
    ∙ ap (λ v. record (gathered c f) { challenge = insert f.token v c; token = [] })
        (chop_quote f.value)
  where
    taken : (a b : Bool) → a ≡ false → b ≡ false → (false || (a || b)) ≡ false
    taken a b h k = ground arith

abbrev finish : Scanner → Option Challenge
finish s = if s.fresh then none else some ((flush s).challenge)

scan_fields :
    (fs : List Field) (f : Field) (c : Challenge) (fresh : Bool)
    → IsField f
    → All IsField fs
    → finish (scan (at c [] [] fresh) (print_field f (more_fields fs)))
      ≡ some (insert_all (f ∷ fs) c)
unfolding scan advance
scan_fields [] f c fresh w all =
    ap finish (scan_field c f fresh [] w) ∙ ap (λ s. some (s.challenge)) (flush_field c f w)
scan_fields (g ∷ fs) f c fresh w (v, all) =
    ap finish (scan_field c f fresh (b',' ∷ print_field g (more_fields fs)) w)
    ∙ ap (λ s. finish (scan s (print_field g (more_fields fs)))) (separated c f w)
    ∙ scan_fields fs g (insert f.token f.value c) true v all
  where
    separated :
        (c : Challenge) (f : Field)
        → IsField f
        → advance (gathered c f) b',' ≡ at (insert f.token f.value c) [] [] true
    separated c f w = ap (λ s. at (s.challenge) (s.token) [] true) (flush_field c f w)

-- A challenge of one or more fields, each a name and a quoted value and separated by commas, is
-- read as the fields put in one after the other, if names and values are not empty and have no
-- comma and no end of line in them, and names no equals sign.
pub extract_challenge-print_fields :
    (f : Field) (fs : List Field)
    → IsField f
    → All IsField fs
    → extract_challenge (print_fields f fs) ≡ some (insert_all (f ∷ fs) no_challenge)
unfolding extract_challenge
extract_challenge-print_fields f fs w all = scan_fields fs f no_challenge false w all
