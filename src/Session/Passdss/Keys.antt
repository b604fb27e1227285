-- ===== src/Session/Passdss/Keys.antt =====
-- The key file of tspc-advanced/src/tsp/tsp_auth_passdss.c: looking a server's key up in it, and
-- adding one. The file is its bytes, `none` if it does not exist.
use gw6c.Base.{
  codes, ℕ, zero, suc, Bool, true, false, List, [], ◌∷◌, ◌++◌, Option, none, some, ltb, ◌==◌, ◌&&◌,
  ◌=s◌, if◌then◌else◌, length, take, Run, done, no_fuel, ◌>>=◌,
}
use gw6c.Base64.{encode_binary, decode}
use gw6c.Buffer.{Memory, read, init, append}
use gw6c.Buffer.Aux.{get_string, put_cstring, put_bignum, get_bignum}
use gw6c.Session.Digest.{string_of}
use gw6c.Session.Passdss.{Crypto, Key, bytes}

-- `freadline` with what is left of its 4095 bytes: a line and the text behind it, `none` at EOF,
-- for which it takes the byte 255 too.
unfoldable pub freadline : ℕ → List ℕ → Option (List ℕ × List ℕ)
freadline zero file = none
freadline (suc room) [] = none
freadline (suc room) (c ∷ cs) =
    let rest = freadline room cs in
    if c == 255
    then none
    else if c == b'\n'
    then some ([], cs)
    else elim rest [ none ↦ none | some (line, behind) ↦ some (c ∷ line, behind) ]

-- `strtok` with a blank: the token, and what the next call looks at; `none` is NULL.
unfoldable pub until_blank : List ℕ → List ℕ × List ℕ
until_blank [] = ([], [])
until_blank (c ∷ cs) =
    let (token, rest) = until_blank cs in
    if c == 0 then ([], []) else if c == b' ' then ([], cs) else (c ∷ token, rest)

unfoldable pub strtok : List ℕ → Option (List ℕ × List ℕ)
strtok [] = none
strtok (c ∷ cs) =
    let later = strtok cs in
    if c == 0 then none else if c == b' ' then later else some (until_blank (c ∷ cs))

-- What `is_dsakey_in_keyfile` returns: 0 to 3, or a read through a null pointer.
pub data Found : Type 0 where
  unusable absent matching different null_read : Found

-- What a line of the file does to that.
pub data Line : Type 0 where
  other : Line
  stops : Found → Line
  verdict : Found → Line

-- What the two functions meet: the bytes that earlier lines left behind a line, the answer of
-- `ask`, and whether the file can be written.
pub record Place : Type 0 where
  pub left : List ℕ → List ℕ
  pub answer : Bool
  pub can_write : Bool

module _ (raw : Memory) (c : Crypto) where
  open c use {bn, same}

  unfoldable pub is_same : Key bn.Num → Key bn.Num → Bool
  is_same a b = same a.p b.p && (same a.q b.q && (same a.g b.g && same a.pub_key b.pub_key))

  -- The third token, decoded and read; `strlen` of it is the number of bytes that go into the
  -- buffer.
  unfoldable pub compare_key : Key bn.Num → (str_base64 : List ℕ) → Run Line
  compare_key dsa str_base64 =
      let (str, decoded) = decode str_base64 in
      let str_size = length str_base64 in
      if ltb decoded 1 then done (stops unusable) else (do
        b₁ ← append raw (init raw) (take str_size (str ++ read raw 0 str_size))
        (s, n, b₂) ← get_string b₁
        (p, b₃) ← get_bignum raw bn b₂
        (q, b₄) ← get_bignum raw bn b₃
        (g, b₅) ← get_bignum raw bn b₄
        (z, b₆) ← get_bignum raw bn b₅
        done (
            verdict (
              if is_same dsa (record { p = p; q = q; g = g; pub_key = z })
              then matching
              else different)))

  unfoldable pub third_token : Key bn.Num → List ℕ → Run Line
  third_token dsa text = elim (strtok text) [
    | none ↦ done (stops null_read)
    | some (str_base64, rest) ↦ compare_key dsa str_base64
  ]

  unfoldable pub second_token : Key bn.Num → List ℕ → Run Line
  second_token dsa text = elim (strtok text) [
    | none ↦ done (stops null_read)
    | some (type, rest) ↦ if codes "ssh-dss" =s type then third_token dsa rest else done other
  ]

  unfoldable pub check_line : Key bn.Num → (host text : List ℕ) → Run Line
  check_line dsa host text = elim (strtok text) [
    | none ↦ done (stops null_read)
    | some (name, rest) ↦ if host =s name then second_token dsa rest else done other
  ]

  -- A line ends with two newlines, and no zero.
  abbrev pub line_buf : Place → (line behind : List ℕ) → List ℕ
  line_buf place line behind = line ++ (b'\n' ∷ b'\n' ∷ string_of (place.left behind))

  -- The loop over the lines, with fuel; the last line for the host decides.
  unfoldable pub scan_lines :
      ℕ → Place → Key bn.Num → (host : List ℕ) → Found → (file : List ℕ) → Run Found
  scan_lines zero place dsa host found file = no_fuel
  scan_lines (suc fuel) place dsa host found file = elim (freadline 4095 file) [
    | none ↦ done found
    | some (line, behind) ↦ check_line dsa host (line_buf place line behind) >>= λ r. elim r [
      | other ↦ scan_lines fuel place dsa host found behind
      | stops f ↦ done f
      | verdict f ↦ scan_lines fuel place dsa host f behind
    ]
  ]

  unfoldable pub is_dsakey_in_keyfile :
      Place → Key bn.Num → (host : List ℕ) → Option (List ℕ) → Run Found
  is_dsakey_in_keyfile place dsa host none = done absent
  is_dsakey_in_keyfile place dsa host (some file) =
      scan_lines (suc (length file)) place dsa host absent file

  -- The key as it stands in the file.
  unfoldable pub write_key : Key bn.Num → Run (List ℕ)
  write_key dsa = do
    b₁ ← put_cstring raw (init raw) (some (codes "ssh-dss"))
    b₂ ← put_bignum raw bn b₁ dsa.p
    b₃ ← put_bignum raw bn b₂ dsa.q
    b₄ ← put_bignum raw bn b₃ dsa.g
    b₅ ← put_bignum raw bn b₄ dsa.pub_key
    done (string_of (encode_binary (bytes b₅)))

  abbrev pub entry : (host str : List ℕ) → List ℕ
  entry host str = host ++ (codes " ssh-dss " ++ (str ++ (b'\n' ∷ [])))

  abbrev pub text_of : Option (List ℕ) → List ℕ
  text_of none = []
  text_of (some file) = file

  -- 1 or 0 and the file; `none` is a read through a null pointer.
  unfoldable pub add_found :
      Place
      → Key bn.Num
      → (host : List ℕ) → Option (List ℕ)
      → Found
      → Run (Option (Bool × Option (List ℕ)))
  add_found place dsa host file unusable = done (some (false, file))
  add_found place dsa host file absent =
      if place.answer
      then (do
        str ← write_key dsa
        if place.can_write
            then done (some (true, some (text_of file ++ entry host str)))
            else done (some (false, file)))
      else done (some (false, file))
  add_found place dsa host file matching = done (some (true, file))
  add_found place dsa host file different = done (some (false, file))
  add_found place dsa host file null_read = done none

  unfoldable pub add_dsakey_to_keyfile :
      Place → Key bn.Num → (host : List ℕ) → Option (List ℕ) → Run (Option (Bool × Option (List ℕ)))
  add_dsakey_to_keyfile place dsa host file = do
    found ← is_dsakey_in_keyfile place dsa host file
    add_found place dsa host file found
