-- ===== src/Buffer/Aux/Numbers.antt =====
-- The big numbers of tspc-advanced/src/lib/bufaux.c: what `buffer_put_bignum` writes, and that
-- `buffer_get_bignum` reads it.
use mathlib.Core.Path.{subst}
use mathlib.Core.List.{append_assoc}
use gw6c.Base.{
  ℕ, suc, ◌+◌, ◌/◌, ◌%◌, ◌^◌, ◌≤◌, ◌<◌, ◌≡◌, refl, ◌∙◌, List, [], ◌∷◌, ◌++◌, arith, true, false,
  Bool, length, Run, done, if◌then◌else◌, ltb, leb, ==_iff, Bool-cases, ◌⊎◌, ◌==◌, le→ltb, exit,
}
use gw6c.Buffer.{Memory, Buffer, append, get, consume, len, read, sub_size, add_size, failure}
use gw6c.Buffer.Holds.{Holds, Reads, get-Reads, Sized, Writes, append-Sized, max_piece}
use gw6c.Buffer.Aux.{
  BigNum, put_32bit, put_int, put_octet, put_string, put_bignum, get_bignum, max_bignum,
}
use gw6c.Buffer.Aux.Words.{length-put_32bit}
use gw6c.Buffer.Aux.RoundTrip.{get_int-Reads}

-- A string and a big number as they stand in a message.
abbrev pub string : List ℕ → List ℕ
string s = put_32bit (length s) ++ s

-- What was got from the front could have been read there and stepped over.
pub got :
    (b b' : Buffer) (n : ℕ) (xs : List ℕ)
    → get b n ≡ done (xs, b')
    → (consume b n ≡ done b') × (read b.buf b.offset n ≡ xs) × (ltb (len b) n ≡ false)
unfolding get consume len
got b b' n xs e = split (Bool-cases (ltb (sub_size b.end b.offset) n)) e
  where
    rest : Buffer
    rest = record b { offset = add_size b.offset n }

    split :
        {t : Bool}
        → (t ≡ true) ⊎ (t ≡ false)
        → if◌then◌else◌ {A = Run (List ℕ × Buffer)} t
            (exit failure)
            (done (read b.buf b.offset n, rest))
          ≡ done (xs, b')
        → (if◌then◌else◌ {A = Run Buffer} t (exit failure) (done rest) ≡ done b')
          × (read b.buf b.offset n ≡ xs)
          × (t ≡ false)
    split {t = true} h e = cc
    split {t = false} h e = (cc, cc, refl)

module _ (bn : BigNum) where
  open bn use {Num, num_bits, bn2bin, bin2bn, bn2bin_size, bin2bn-bn2bin}

  abbrev pub mpint : Num → List ℕ
  mpint v = string (bn2bin v)

  -- A number of at most 1 KiB, which the reader takes.
  abbrev pub IsShort : Num → Type 0
  IsShort v = length (bn2bin v) ≤ 1024

  module _ (raw : Memory) {b : Buffer} {q : List ℕ} {count : ℕ} (few : count < 80)
      (s : Sized b q count) where
    pub put_int-Sized : (v : ℕ) → Writes (put_int raw b v) (q ++ put_32bit v) (suc count)
    unfolding put_int
    put_int-Sized v =
        append-Sized raw (put_32bit v) (omega (arith, length-put_32bit v)) (omega arith) s

    pub put_octet-Sized : (v : ℕ) → v < 256 → Writes (put_octet raw b v) (q ++ (v ∷ [])) (suc count)
    unfolding put_octet
    put_octet-Sized v small =
        subst (λ (n : ℕ). Writes (append raw b (n ∷ [])) (q ++ (v ∷ [])) (suc count)) (omega arith)
          (append-Sized raw (v ∷ []) (omega arith) (omega arith) s)

    pub put_string-Sized :
        (t : List ℕ)
        → length t ≤ max_piece
        → Writes (put_string raw b t) (q ++ string t) (suc (suc count))
    unfolding put_string
    put_string-Sized t short =
        let small : length t % 2 ^ 32 ≡ length t = omega arith in
        let (b', e, k) = put_int-Sized (length t) in
        let (b'', e', k') = append-Sized raw t short (omega arith) k in
        (
          b'',
          rw (small, e, e'),
          subst (λ q. Sized b'' q (suc (suc count))) (append_assoc q (put_32bit (length t)) t) k',
        )

    pub put_bignum-Sized :
        (v : Num) → IsShort v → Writes (put_bignum raw bn b v) (q ++ mpint v) (suc (suc count))
    unfolding put_bignum put_string
    put_bignum-Sized v short =
        let counted : (length (bn2bin v) == (num_bits v + 7) / 8) ≡ true =
          (==_iff _ _).1 (bn2bin_size v) in
        let (b', e, k) = put_string-Sized (bn2bin v) (omega arith) in
        (b', rw (counted, ← bn2bin_size v) e, k)

  -- A number that stands at the front of a buffer is read, and what follows is left.
  pub get_bignum-Reads :
      (raw : Memory) (ys : List ℕ) {b : Buffer} (v : Num)
      → IsShort v
      → Holds b (mpint v ++ ys)
      → Reads (get_bignum raw bn b) v ys
  unfolding get_bignum
  get_bignum-Reads raw ys {b} v short h =
      let front : Holds _ (put_32bit (length (bn2bin v)) ++ (bn2bin v ++ ys)) = record {
        valid = h.valid;
        bytes = h.bytes ∙ append_assoc (put_32bit (length (bn2bin v))) (bn2bin v) ys;
      } in
      let (b', e, k) = get_int-Reads (bn2bin v ++ ys) (length (bn2bin v)) (omega arith) front in
      let (b'', e', k') = get-Reads (bn2bin v) ys (length (bn2bin v)) refl k in
      let (c, r, enough) = got b' b'' (length (bn2bin v)) (bn2bin v) e' in
      let positive : leb (2 ^ 31) (length (bn2bin v)) ≡ false = ground arith in
      let fits : ltb max_bignum (length (bn2bin v)) ≡ false = le→ltb _ _ (omega arith) in
      (b'', rw (e, positive, fits, enough, c, r, bin2bn-bn2bin v), k')
