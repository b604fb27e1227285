-- ===== src/Session/Passdss/Tokens.antt =====
-- The lines of the key file of tspc-advanced/src/tsp/tsp_auth_passdss.c as `freadline` and `strtok`
-- take them apart.
use gw6c.Base.{
  ℕ, zero, suc, ◌≤◌, ◌<◌, ◌≡◌, refl, ap, ◌∙◌, Bool, true, false, not, ◌&&◌, ◌==◌, List, [], ◌∷◌,
  ◌++◌, some, All, arith, length, if_both,
}
use gw6c.Base64.Behind.{Plain}
use gw6c.Session.Digest.{string_of}
use gw6c.Session.Passdss.Keys.{freadline, until_blank, strtok}

-- A character of a line.
abbrev pub InLine : ℕ → Type 0
InLine c = ((c == b'\n') ≡ false) × ((c == 255) ≡ false)

split_plain :
    (a b c d : Bool)
    → (not a && (not b && (not c && not d))) ≡ true
    → (a ≡ false) × (b ≡ false) × (c ≡ false) × (d ≡ false)
split_plain false false false false h = (refl, refl, refl, refl)
split_plain true b c d h = cc
split_plain false true c d h = cc
split_plain false false true d h = cc
split_plain false false false true h = cc

apart :
    (c : ℕ)
    → Plain c
    → ((c == 0) ≡ false) × ((c == b' ') ≡ false) × ((c == b'\n') ≡ false) × ((c == 255) ≡ false)
apart c h = split_plain (c == 0) (c == b' ') (c == b'\n') (c == 255) h

pub Plain-InLine : (w : List ℕ) → All Plain w → All InLine w
Plain-InLine [] h = tt
Plain-InLine (c ∷ w) h =
    let (nul, blank, newline, high) = apart c h.0 in ((newline, high), Plain-InLine w h.1)

pub freadline-line :
    (room : ℕ) (line rest : List ℕ)
    → All InLine line
    → length line < room
    → freadline room (line ++ (b'\n' ∷ rest)) ≡ some (line, rest)
unfolding freadline
freadline-line zero line rest h lt = absurd (omega arith)
freadline-line (suc room) [] rest h lt = refl
freadline-line (suc room) (c ∷ line) rest h lt =
    rw (h.0.1, h.0.0, freadline-line room line rest h.1 (omega arith))

pub until_blank-word :
    (w rest : List ℕ) → All Plain w → until_blank (w ++ (b' ' ∷ rest)) ≡ (w, rest)
unfolding until_blank
until_blank-word [] rest h = refl
until_blank-word (c ∷ w) rest h =
    let (nul, blank, newline, high) = apart c h.0 in rw (nul, blank, until_blank-word w rest h.1)

-- The last token runs on to a blank behind the line.
pub until_blank-last :
    (w rest : List ℕ)
    → All Plain w
    → until_blank (w ++ rest) ≡ (w ++ (until_blank rest).0, (until_blank rest).1)
unfolding until_blank
until_blank-last [] rest h = refl
until_blank-last (c ∷ w) rest h =
    let (nul, blank, newline, high) = apart c h.0 in rw (nul, blank, until_blank-last w rest h.1)

pub strtok-Plain :
    (w rest : List ℕ)
    → All Plain w
    → 1 ≤ length w
    → strtok (w ++ rest) ≡ some (until_blank (w ++ rest))
unfolding strtok
strtok-Plain [] rest h some_text = absurd (omega arith)
strtok-Plain (c ∷ w) rest h some_text =
    let (nul, blank, newline, high) = apart c h.0 in rw (nul, blank)

pub strtok-word :
    (w rest : List ℕ) → All Plain w → 1 ≤ length w → strtok (w ++ (b' ' ∷ rest)) ≡ some (w, rest)
strtok-word w rest h some_text =
    strtok-Plain w (b' ' ∷ rest) h some_text ∙ ap some (until_blank-word w rest h)

-- A token is no longer than the text.
pub length-until_blank : (text : List ℕ) → length (until_blank text).0 ≤ length text
unfolding until_blank
length-until_blank [] = omega arith
length-until_blank (c ∷ cs) =
    let le = length-until_blank cs in
    if_both (λ (r : List ℕ × List ℕ). length r.0 ≤ suc (length cs)) (c == 0) (omega arith)
      (if_both (λ (r : List ℕ × List ℕ). length r.0 ≤ suc (length cs)) (c == b' ') (omega arith)
        (omega (arith, le)))

pub string_of-Plain : (t : List ℕ) → All Plain t → string_of (t ++ (0 ∷ [])) ≡ t
unfolding string_of
string_of-Plain [] h = refl
string_of-Plain (c ∷ t) h =
    let (nul, blank, newline, high) = apart c h.0 in rw (nul, string_of-Plain t h.1)
