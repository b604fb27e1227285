-- ===== src/Buffer/Aux/RoundTrip.antt =====
-- What the `buffer_put_` functions write, the `buffer_get_` functions read back.
use mathlib.Core.Path.{subst}
use mathlib.Core.List.{append_assoc, append-nil}
use gw6c.Base.{
  ℕ, ◌%◌, ◌^◌, ◌≤◌, ◌<◌, ◌≡◌, refl, sym, ap, ◌∙◌, List, [], ◌∷◌, ◌++◌, map, arith, All, length,
  take, take-append, Run, done, ◌>>=◌, >>=-eq-done, le→ltb,
}
use gw6c.Buffer.{Memory, Buffer, append}
use gw6c.Buffer.Inv.{IsValid, contents}
use gw6c.Buffer.Holds.{Holds, append-Holds, Reads, get-Reads}
use gw6c.Buffer.Aux.{
  put_32bit, get_int, get_octet, get_string, put_int, put_octet, put_string, max_string,
}
use gw6c.Buffer.Aux.Words.{get_32bit-put_32bit, length-put_32bit}

-- A value of a message, its kind, and its bytes in the buffer.
pub data Field : Type 0 where
  word : ℕ → Field
  octet : ℕ → Field
  text : List ℕ → Field

pub data Kind : Type 0 where
  word_kind octet_kind text_kind : Kind

abbrev pub kind : Field → Kind
kind (word n) = word_kind
kind (octet n) = octet_kind
kind (text s) = text_kind

abbrev pub wire : Field → List ℕ
wire (word n) = put_32bit n
wire (octet n) = (n % 256) ∷ []
wire (text s) = put_32bit (length s) ++ s

abbrev pub wires : List Field → List ℕ
wires [] = []
wires (f ∷ fs) = wire f ++ wires fs

abbrev pub Fits : Field → Type 0
Fits (word n) = n < 2 ^ 32
Fits (octet n) = n < 256
Fits (text s) = length s ≤ max_string

unfoldable pub put_field : Memory → Buffer → Field → Run Buffer
put_field raw b (word n) = put_int raw b n
put_field raw b (octet n) = put_octet raw b n
put_field raw b (text s) = put_string raw b s

unfoldable pub put_fields : Memory → Buffer → List Field → Run Buffer
put_fields raw b [] = done b
put_fields raw b (f ∷ fs) = do b' ← put_field raw b f; put_fields raw b' fs

unfoldable pub get_field : Kind → Buffer → Run (Field × Buffer)
get_field word_kind b = do (n, b') ← get_int b; done (word n, b')
get_field octet_kind b = do (n, b') ← get_octet b; done (octet n, b')
get_field text_kind b = do (s, n, b') ← get_string b; done (text (take n s), b')

unfoldable pub get_fields : List Kind → Buffer → Run (List Field × Buffer)
get_fields [] b = done ([], b)
get_fields (k ∷ ks) b = do (f, b') ← get_field k b; (fs, b'') ← get_fields ks b'; done (f ∷ fs, b'')

pub get_int-Reads :
    (ys : List ℕ) {b : Buffer} (n : ℕ)
    → n < 2 ^ 32
    → Holds b (put_32bit n ++ ys)
    → Reads (get_int b) n ys
unfolding get_int
get_int-Reads ys n lt h =
    let (b', e, k) = get-Reads (put_32bit n) ys 4 (sym (length-put_32bit n)) h in
    (b', rw (e, get_32bit-put_32bit n lt), k)

pub get_octet-Reads :
    (ys : List ℕ) {b : Buffer} (n : ℕ)
    → n < 256
    → Holds b ((n % 256) ∷ ys)
    → Reads (get_octet b) n ys
unfolding get_octet
get_octet-Reads ys n lt h =
    let (b', e, k) = get-Reads ((n % 256) ∷ []) ys 1 refl h in
    (b', rw e (ap (λ (m : ℕ). done (m, b')) (omega arith)), k)

pub get_string-Reads :
    (ys : List ℕ) {b : Buffer} (s : List ℕ)
    → length s ≤ max_string
    → Holds b ((put_32bit (length s) ++ s) ++ ys)
    → (b' : Buffer) × (get_string b ≡ done (s ++ (0 ∷ []), length s, b')) × Holds b' ys
unfolding get_string
get_string-Reads ys s le h =
    let front : Holds _ (put_32bit (length s) ++ (s ++ ys)) = record {
      valid = h.valid;
      bytes = h.bytes ∙ append_assoc (put_32bit (length s)) s ys;
    } in
    let (b', e, k) = get_int-Reads (s ++ ys) (length s) (omega arith) front in
    let (b'', e', k') = get-Reads s ys (length s) refl k in
    (b'', rw (e, le→ltb max_string (length s) le, e'), k')

get_field-Reads :
    (ys : List ℕ) {b : Buffer} (f : Field)
    → Fits f
    → Holds b (wire f ++ ys)
    → Reads (get_field (kind f) b) f ys
unfolding get_field
get_field-Reads ys (word n) fit h = let (b', e, k) = get_int-Reads ys n fit h in (b', rw e, k)
get_field-Reads ys (octet n) fit h = let (b', e, k) = get_octet-Reads ys n fit h in (b', rw e, k)
get_field-Reads ys (text s) fit h =
    let (b', e, k) = get_string-Reads ys s fit h in (b', rw (e, take-append s (0 ∷ [])), k)

get_fields-Reads :
    (fs : List Field) (b : Buffer) (ys : List ℕ)
    → All Fits fs
    → Holds b (wires fs ++ ys)
    → Reads (get_fields (map kind fs) b) fs ys
unfolding get_fields
get_fields-Reads [] b ys fit h = (b, refl, h)
get_fields-Reads (f ∷ fs) b ys fit h =
    let front : Holds _ (wire f ++ (wires fs ++ ys)) = record {
      valid = h.valid;
      bytes = h.bytes ∙ append_assoc (wire f) (wires fs) ys;
    } in
    let (b', e, k) = get_field-Reads (wires fs ++ ys) f fit.0 front in
    let (b'', e', k') = get_fields-Reads fs b' ys fit.1 k in (b'', rw (e, e'), k')

put_field-Holds :
    (raw : Memory) {b b' : Buffer} {q : List ℕ} (f : Field)
    → Fits f
    → Holds b q
    → put_field raw b f ≡ done b'
    → Holds b' (q ++ wire f)
unfolding put_field put_int put_octet put_string
put_field-Holds raw (word n) fit h e = append-Holds raw (put_32bit n) h e
put_field-Holds raw (octet n) fit h e = append-Holds raw ((n % 256) ∷ []) h e
put_field-Holds raw {b} {q = q} (text s) fit h e =
    let (b₁, e₁, e₂) = >>=-eq-done (append raw b (put_32bit (length s % 2 ^ 32))) _ e in
    let k = append-Holds raw s (append-Holds raw (put_32bit (length s % 2 ^ 32)) h e₁) e₂ in
    let small : length s % 2 ^ 32 ≡ length s = omega arith in
    record {
      valid = k.valid;
      bytes =
          k.bytes
          ∙ ap (λ (n : ℕ). (q ++ put_32bit n) ++ s) small
          ∙ append_assoc q (put_32bit (length s)) s;
    }

put_fields-Holds :
    (raw : Memory) (fs : List Field) (b b' : Buffer) (q : List ℕ)
    → All Fits fs
    → Holds b q
    → put_fields raw b fs ≡ done b'
    → Holds b' (q ++ wires fs)
unfolding put_fields
put_fields-Holds raw [] b b' q fit h e =
    let same : b ≡ b' = cc in
    subst (λ c. Holds c (q ++ [])) same
      (record { valid = h.valid; bytes = h.bytes ∙ sym (append-nil q) })
put_fields-Holds raw (f ∷ fs) b b' q fit h e =
    let (b₁, e₁, e₂) = >>=-eq-done (put_field raw b f) _ e in
    let k =
      put_fields-Holds raw fs b₁ b' (q ++ wire f) fit.1 (put_field-Holds raw f fit.0 h e₁) e₂ in
    record { valid = k.valid; bytes = k.bytes ∙ append_assoc q (wire f) (wires fs) }

-- Integers below 2^32, bytes and strings of at most 256 KiB that the `buffer_put_` functions
-- have written to an empty buffer come back from the `buffer_get_` functions, each with its
-- value and in order, and leave the buffer empty.
pub get_fields-put_fields :
    (raw : Memory) (b b' : Buffer) (fs : List Field)
    → IsValid b
    → contents b ≡ []
    → All Fits fs
    → put_fields raw b fs ≡ done b'
    → (b'' : Buffer) × (get_fields (map kind fs) b' ≡ done (fs, b'')) × (contents b'' ≡ [])
get_fields-put_fields raw b b' fs v none fit e =
    let h = put_fields-Holds raw fs b b' [] fit (record { valid = v; bytes = none }) e in
    let (b'', r, k) =
      get_fields-Reads fs b' [] fit
        (record { valid = h.valid; bytes = h.bytes ∙ sym (append-nil (wires fs)) }) in
    (b'', r, k.bytes)
