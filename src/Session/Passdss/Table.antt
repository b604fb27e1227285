-- ===== src/Session/Passdss/Table.antt =====
-- The key file of tspc-advanced/src/tsp/tsp_auth_passdss.c as a table of hosts and their keys.
use mathlib.Core.List.{append_assoc}
use gw6c.Base.{
  codes, ℕ, zero, suc, ◌≤◌, ◌<◌, ◌≡◌, refl, ap, ◌∙◌, Bool, true, false, ◌=s◌, List, [], ◌∷◌, ◌++◌,
  some, All, All-append, arith, length, length-append, Run, done, if◌then◌else◌,
}
use gw6c.Base64.Behind.{Plain}
use gw6c.Buffer.{Memory}
use gw6c.Session.Digest.{string_of}
use gw6c.Session.Passdss.{Crypto, Key}
use gw6c.Session.Passdss.Keys.{
  Place, Found, absent, Line, other, verdict, check_line, line_buf, scan_lines,
  is_dsakey_in_keyfile, freadline,
}
use gw6c.Session.Passdss.Tokens.{InLine, Plain-InLine, freadline-line}
use gw6c.Session.Passdss.Known.{IsKey, written, written-Plain, compared, check_line-entry}

-- Either outcome of a line.
step :
    {A : Type 0} (b : Bool) {r : Run Line} {f : Found} (found : Found) {x : A} (next : Found → A)
    → r ≡ done (if b then verdict f else other)
    → (r ≡ done other → x ≡ next found)
    → (r ≡ done (verdict f) → x ≡ next f)
    → x ≡ next (if b then f else found)
step true found next e skip stop = stop e
step false found next e skip stop = skip e

-- A host and its key.
pub record Entry (N : Type 0) : Type 0 where
  pub host : List ℕ
  pub key : Key N

module _ (raw : Memory) (c : Crypto) where
  open c use {bn}

  abbrev pub line : Entry bn.Num → List ℕ
  line e = e.host ++ (codes " ssh-dss " ++ written raw c e.key)

  -- What `freadline` takes in one piece, with the host in one token.
  pub record IsEntry (e : Entry bn.Num) : Type 0 where
    pub key : IsKey raw c e.key
    pub plain : All Plain e.host
    pub some_host : 1 ≤ length e.host
    pub fits : length (line e) < 4095

  -- The table as it is printed.
  unfoldable pub print : List (Entry bn.Num) → List ℕ
  print [] = []
  print (e ∷ es) = line e ++ (b'\n' ∷ print es)

  -- The last entry for the host decides.
  unfoldable pub lookup : Key bn.Num → (host : List ℕ) → Found → List (Entry bn.Num) → Found
  lookup dsa host found [] = found
  lookup dsa host found (e ∷ es) =
      lookup dsa host (if host =s e.host then compared raw c dsa e.key else found) es

  line-InLine : (e : Entry bn.Num) → IsEntry e → All InLine (line e)
  line-InLine e is =
      let (encoded, plain, longer) = written-Plain raw c e.key is.key in
      let blank_ssh : All InLine (codes " ssh-dss ") = (
        (refl, refl),
        (
          (refl, refl),
          (
            (refl, refl),
            (
              (refl, refl),
              ((refl, refl), ((refl, refl), ((refl, refl), ((refl, refl), ((refl, refl), tt))))),
            ),
          ),
        ),
      ) in
      All-append InLine e.host (codes " ssh-dss " ++ written raw c e.key)
        (Plain-InLine e.host is.plain)
        (All-append InLine (codes " ssh-dss ") (written raw c e.key) blank_ssh
          (Plain-InLine (written raw c e.key) plain))

  module _ (place : Place) (dsa : Key bn.Num) (host : List ℕ)
      (left : (behind : List ℕ) → length (string_of (place.left behind)) ≤ 3000) where
    line-checked :
        (e : Entry bn.Num) (behind : List ℕ)
        → IsEntry e
        → check_line raw c dsa host (line_buf raw c place (line e) behind)
          ≡ done (if host =s e.host then verdict (compared raw c dsa e.key) else other)
    line-checked e behind is =
        let str = written raw c e.key in
        let more = b'\n' ∷ b'\n' ∷ string_of (place.left behind) in
        let split : line e ++ more ≡ e.host ++ (codes " ssh-dss " ++ (str ++ more)) =
          append_assoc e.host (codes " ssh-dss " ++ str) more
          ∙ ap (λ t. e.host ++ t) (append_assoc (codes " ssh-dss ") str more) in
        let size : length str ≤ 4095 = omega (
          arith,
          is.fits,
          length-append e.host (codes " ssh-dss " ++ str),
          length-append (codes " ssh-dss ") str,
        ) in
        ap (check_line raw c dsa host) split
        ∙ check_line-entry raw c dsa e.key host e.host (string_of (place.left behind)) is.key
            is.plain is.some_host (omega (arith, size, left behind))

    scan_lines-end :
        (fuel : ℕ) (found : Found)
        → scan_lines raw c (suc fuel) place dsa host found [] ≡ done found
    unfolding scan_lines freadline
    scan_lines-end fuel found = refl

    module _ (fuel : ℕ) (found : Found) (file text behind : List ℕ)
        (taken : freadline 4095 file ≡ some (text, behind)) where
      scan_lines-other :
          check_line raw c dsa host (line_buf raw c place text behind) ≡ done other
          → scan_lines raw c (suc fuel) place dsa host found file
            ≡ scan_lines raw c fuel place dsa host found behind
      unfolding scan_lines
      scan_lines-other checked = rw (scan_lines, taken, checked)

      scan_lines-verdict :
          (f : Found)
          → check_line raw c dsa host (line_buf raw c place text behind) ≡ done (verdict f)
          → scan_lines raw c (suc fuel) place dsa host found file
            ≡ scan_lines raw c fuel place dsa host f behind
      unfolding scan_lines
      scan_lines-verdict f checked = rw (scan_lines, taken, checked)

    scan_lines-entry :
        (fuel : ℕ) (found : Found) (e : Entry bn.Num) (behind : List ℕ)
        → IsEntry e
        → scan_lines raw c (suc fuel) place dsa host found (line e ++ (b'\n' ∷ behind))
          ≡ scan_lines raw c fuel place dsa host
              (if host =s e.host then compared raw c dsa e.key else found)
              behind
    scan_lines-entry fuel found e behind is =
        let taken = freadline-line 4095 (line e) behind (line-InLine e is) is.fits in
        step (host =s e.host) found (λ f. scan_lines raw c fuel place dsa host f behind)
          (line-checked e behind is) (scan_lines-other fuel found _ (line e) behind taken)
          (scan_lines-verdict fuel found _ (line e) behind taken (compared raw c dsa e.key))

    scan_lines-lookup :
        (fuel : ℕ) (found : Found) (es : List (Entry bn.Num))
        → All IsEntry es
        → length es < fuel
        → scan_lines raw c fuel place dsa host found (print es) ≡ done (lookup dsa host found es)
    unfolding print lookup
    scan_lines-lookup zero found es are enough = absurd (omega arith)
    scan_lines-lookup (suc fuel) found [] are enough = scan_lines-end fuel found
    scan_lines-lookup (suc fuel) found (e ∷ es) are enough =
        scan_lines-entry fuel found e (print es) are.0
        ∙ scan_lines-lookup fuel (if host =s e.host then compared raw c dsa e.key else found) es
            are.1 (omega arith)

    -- Every line has a character at least, so that the fuel is enough.
    length-print : (es : List (Entry bn.Num)) → length es ≤ length (print es)
    unfolding print
    length-print [] = omega arith
    length-print (e ∷ es) =
        omega (arith, length-print es, length-append (line e) (b'\n' ∷ print es))

    pub is_dsakey_in_keyfile-lookup :
        (es : List (Entry bn.Num))
        → All IsEntry es
        → is_dsakey_in_keyfile raw c place dsa host (some (print es))
          ≡ done (lookup dsa host absent es)
    unfolding is_dsakey_in_keyfile
    is_dsakey_in_keyfile-lookup es are =
        scan_lines-lookup (suc (length (print es))) absent es are (omega (arith, length-print es))
