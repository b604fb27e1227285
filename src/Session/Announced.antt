-- ===== src/Session/Announced.antt =====
-- The capabilities that a broker announces are those that the client reads.
use mathlib.Core.List.{append_assoc, append-nil}
use gw6c.Base.{ℕ, ◌≡◌, refl, sym, ap, ◌∙◌, List, [], ◌∷◌, ◌++◌, true, false, ◌==◌, All, bit_or}
use gw6c.Session.Words
use gw6c.Session.Capability.{
  set_capability, is_separator, complete, extract_from, extract_capability,
}

-- `NAME=VALUE`; neither part is empty.
pub record Setting : Type 0 where
  pub name_head : ℕ
  pub name_tail : List ℕ
  pub value_head : ℕ
  pub value_tail : List ℕ

-- A byte that ends no word.
abbrev pub IsPlain : ℕ → Type 0
IsPlain c = (is_separator c ≡ false) × ((c == b'=') ≡ false)

abbrev pub IsWritable : Setting → Type 0
IsWritable p = All IsPlain (p.name_head ∷ p.name_tail) × All IsPlain p.value_tail

-- What stands behind the first byte of `p`, with the settings `qs` behind it.
abbrev pub rest_of : Setting → List Setting → List ℕ
rest_of p [] = p.name_tail ++ (b'=' ∷ p.value_head ∷ (p.value_tail ++ (13 ∷ 10 ∷ [])))
rest_of p (q ∷ qs) =
    p.name_tail ++ (b'=' ∷ p.value_head ∷ (p.value_tail ++ (b' ' ∷ q.name_head ∷ rest_of q qs)))

-- The reply with the settings `p` and `qs`.
abbrev pub announce : Setting → List Setting → List ℕ
announce p qs = Words.capability ++ (p.name_head ∷ rest_of p qs)

abbrev pub add_setting : ℕ → Setting → ℕ
add_setting flags p =
    bit_or flags (set_capability (p.name_head ∷ p.name_tail) (p.value_head ∷ p.value_tail))

abbrev pub bits_of : ℕ → Setting → List Setting → ℕ
bits_of flags p [] = add_setting flags p
bits_of flags p (q ∷ qs) = bits_of (add_setting flags p) q qs

scan :
    (w pending token : List ℕ) (flags c d : ℕ) (cs : List ℕ)
    → All IsPlain w
    → extract_from pending token flags (w ++ (c ∷ d ∷ cs))
      ≡ extract_from (pending ++ w) token flags (c ∷ d ∷ cs)
unfolding extract_from
scan [] pending token flags c d cs h =
    ap (λ p. extract_from p token flags (c ∷ d ∷ cs)) (sym (append-nil pending))
scan (x ∷ []) pending token flags c d cs h = rw (h.0.0, h.0.1) refl
scan (x ∷ y ∷ w) pending token flags c d cs h =
    rw (h.0.0, h.0.1, scan (y ∷ w) (pending ++ (x ∷ [])) token flags c d cs h.1)
      (ap (λ p. extract_from p token flags (c ∷ d ∷ cs)) (append_assoc pending (x ∷ []) (y ∷ w)))

-- From a pending part of a name to behind the separator.
setting-read :
    (x : ℕ) (pending name : List ℕ) (v : ℕ) (value : List ℕ) (flags c d : ℕ) (cs : List ℕ)
    → All IsPlain name
    → All IsPlain value
    → is_separator c ≡ true
    → extract_from (x ∷ pending) [] flags (name ++ (b'=' ∷ v ∷ (value ++ (c ∷ d ∷ cs))))
      ≡ extract_from
          (d ∷ [])
          []
          (bit_or flags (set_capability ((x ∷ pending) ++ name) (v ∷ value)))
          cs
unfolding extract_from complete
setting-read x pending name v value flags c d cs hn hv sep =
    scan name (x ∷ pending) [] flags b'=' v (value ++ (c ∷ d ∷ cs)) hn
    ∙ scan value (v ∷ []) ((x ∷ pending) ++ name) flags c d cs hv
    ∙ rw sep refl

rest-read :
    (p : Setting) (qs : List Setting) (flags : ℕ)
    → IsWritable p
    → All IsWritable qs
    → extract_from (p.name_head ∷ []) [] flags (rest_of p qs) ≡ bits_of flags p qs
unfolding extract_from
rest-read p [] flags h hs =
    setting-read p.name_head [] p.name_tail p.value_head p.value_tail flags 13 10 [] h.0.1 h.1 refl
rest-read p (q ∷ qs) flags h hs =
    setting-read p.name_head [] p.name_tail p.value_head p.value_tail flags b' ' q.name_head
      (rest_of q qs) h.0.1 h.1 refl
    ∙ rest-read q qs (add_setting flags p) hs.0 hs.1

first-read :
    (x : ℕ) (name : List ℕ) (flags c d : ℕ) (cs : List ℕ)
    → IsPlain x
    → extract_from [] [] flags (x ∷ (name ++ (c ∷ d ∷ cs)))
      ≡ extract_from (x ∷ []) [] flags (name ++ (c ∷ d ∷ cs))
unfolding extract_from
first-read x [] flags c d cs h = rw (h.0, h.1) refl
first-read x (y ∷ name) flags c d cs h = rw (h.0, h.1) refl

-- A reply that announces settings, each `NAME=VALUE` in plain bytes, with a blank between two and
-- CR LF at the end, is read as the union of their bits.
pub extract_capability-announce :
    (p : Setting) (qs : List Setting)
    → IsWritable p
    → All IsWritable qs
    → extract_capability (announce p qs) ≡ bits_of 0 p qs
unfolding extract_capability
extract_capability-announce p [] h hs =
    first-read p.name_head p.name_tail 0 b'=' p.value_head _ h.0.0 ∙ rest-read p [] 0 h hs
extract_capability-announce p (q ∷ qs) h hs =
    first-read p.name_head p.name_tail 0 b'=' p.value_head _ h.0.0 ∙ rest-read p (q ∷ qs) 0 h hs
