-- ===== src/Base64/Behind.antt =====
-- Decoding a text of base64 with something else behind it: tspc-advanced/src/lib/base64.c.
use gw6c.Base.{
  ℕ, zero, suc, ◌+◌, ◌/◌, ◌%◌, ◌*◌, ◌≤◌, ◌<◌, ◌≡◌, refl, ap, ◌∙◌, Bool, true, not, ◌&&◌, ◌==◌, List,
  [], ◌∷◌, ◌++◌, All, arith, leb, length, length-append, if◌then◌else◌, if_both,
}
use gw6c.Base.Bits.{passes, passes-each}
use gw6c.Base64.{
  six, char_of, nprbytes, first_byte, second_byte, third_byte, decode_rest, decode_loop,
  decode_binary, decode, encode_binary, pad, pr2six, basis_64,
}
use gw6c.Base64.RoundTrip.{
  IsByte, decode_binary-encode_binary, encoded_size, encode_three, encode_two, encode_one,
}

-- A character that ends no token and no line: no zero, blank, newline, or 255.
abbrev pub plain : ℕ → Bool
plain c = not (c == 0) && (not (c == b' ') && (not (c == b'\n') && not (c == 255)))

abbrev pub Plain : ℕ → Type 0
Plain c = plain c ≡ true

char_of-Plain : (k : ℕ) → k < 64 → Plain (char_of k)
unfolding passes char_of basis_64
char_of-Plain k lt = passes-each (λ k. plain (char_of k)) 64 k lt all
  where
    all : passes (λ k. plain (char_of k)) 64 ≡ true
    all = refl

-- What is written is plain, up to the final zero.
pub encode_binary-Plain :
    (s : List ℕ) → All IsByte s → (t : List ℕ) × (encode_binary s ≡ t ++ (0 ∷ [])) × All Plain t
encode_binary-Plain (a ∷ b ∷ c ∷ s) h =
    let (t, e, plain) = encode_binary-Plain s h.1.1.1 in
    (
      char_of (a / 4)
          ∷ char_of (a % 4 * 16 + b / 16)
          ∷ char_of (b % 16 * 4 + c / 64)
          ∷ char_of (c % 64)
          ∷ t,
      rw (encode_three a b c s h.0 h.1.0 h.1.1.0, e),
      (
        char_of-Plain _ (omega (arith, h.0)),
        (
          char_of-Plain _ (omega (arith, h.1.0)),
          (char_of-Plain _ (omega (arith, h.1.1.0)), (char_of-Plain _ (omega arith), plain)),
        ),
      ),
    )
encode_binary-Plain (a ∷ b ∷ []) h = (
  char_of (a / 4) ∷ char_of (a % 4 * 16 + b / 16) ∷ char_of (b % 16 * 4) ∷ pad ∷ [],
  encode_two a b h.0 h.1.0,
  (
    char_of-Plain _ (omega (arith, h.0)),
    (char_of-Plain _ (omega (arith, h.1.0)), (char_of-Plain _ (omega arith), (refl, tt))),
  ),
)
encode_binary-Plain (a ∷ []) h = (
  char_of (a / 4) ∷ char_of (a % 4 * 16) ∷ pad ∷ pad ∷ [],
  encode_one a h.0,
  (char_of-Plain _ (omega (arith, h.0)), (char_of-Plain _ (omega arith), (refl, (refl, tt)))),
)
encode_binary-Plain [] h = unfold encode_binary in ([], refl, tt)

-- What is written is no shorter.
pub encode_binary-longer : (s t : List ℕ) → encode_binary s ≡ t ++ (0 ∷ []) → length s ≤ length t
encode_binary-longer s t e =
    let same : length (encode_binary s) ≡ suc (length t) =
      ap length e ∙ length-append t (0 ∷ []) ∙ omega arith in
    omega (arith, same, encoded_size s)

-- The decoder looks at the characters that it has counted only.
decode_rest-behind :
    (n : ℕ) (xs ys zs : List ℕ)
    → n ≤ length xs
    → n ≤ 4
    → decode_rest n (xs ++ ys) ≡ decode_rest n (xs ++ zs)
unfolding decode_rest first_byte second_byte third_byte
decode_rest-behind zero xs ys zs h le = refl
decode_rest-behind (suc zero) xs ys zs h le = refl
decode_rest-behind (suc (suc zero)) (a ∷ b ∷ xs) ys zs h le = refl
decode_rest-behind (suc (suc (suc zero))) (a ∷ b ∷ c ∷ xs) ys zs h le = refl
decode_rest-behind (suc (suc (suc (suc zero)))) (a ∷ b ∷ c ∷ d ∷ xs) ys zs h le = refl
decode_rest-behind _ _ ys zs h le = absurd (omega arith)

decode_loop-behind :
    (n : ℕ) (xs ys zs : List ℕ)
    → n ≤ length xs
    → decode_loop n (xs ++ ys) ≡ decode_loop n (xs ++ zs)
unfolding decode_loop first_byte second_byte third_byte
decode_loop-behind (suc (suc (suc (suc (suc n))))) (a ∷ b ∷ c ∷ d ∷ xs) ys zs h =
    rw (decode_loop-behind (suc n) xs ys zs (omega arith))
decode_loop-behind (suc (suc (suc (suc (suc n))))) [] ys zs h = absurd (omega arith)
decode_loop-behind (suc (suc (suc (suc (suc n))))) (a ∷ []) ys zs h = absurd (omega arith)
decode_loop-behind (suc (suc (suc (suc (suc n))))) (a ∷ b ∷ []) ys zs h = absurd (omega arith)
decode_loop-behind (suc (suc (suc (suc (suc n))))) (a ∷ b ∷ c ∷ []) ys zs h = absurd (omega arith)
decode_loop-behind zero xs ys zs h =
    ap (λ bs. (bs, 0)) (decode_rest-behind 0 xs ys zs h (omega arith))
decode_loop-behind (suc zero) xs ys zs h =
    ap (λ bs. (bs, 1)) (decode_rest-behind 1 xs ys zs h (omega arith))
decode_loop-behind (suc (suc zero)) xs ys zs h =
    ap (λ bs. (bs, 2)) (decode_rest-behind 2 xs ys zs h (omega arith))
decode_loop-behind (suc (suc (suc zero))) xs ys zs h =
    ap (λ bs. (bs, 3)) (decode_rest-behind 3 xs ys zs h (omega arith))
decode_loop-behind (suc (suc (suc (suc zero)))) xs ys zs h =
    ap (λ bs. (bs, 4)) (decode_rest-behind 4 xs ys zs h (omega arith))

nprbytes-behind :
    (xs rest : List ℕ)
    → (nprbytes (xs ++ (b'\n' ∷ rest)) ≡ nprbytes (xs ++ (0 ∷ [])))
      × (nprbytes (xs ++ (0 ∷ [])) ≤ length xs)
unfolding nprbytes six pr2six
nprbytes-behind [] rest = (refl, omega arith)
nprbytes-behind (x ∷ xs) rest =
    let (same, le) = nprbytes-behind xs rest in
    (
      ap (λ (n : ℕ). if leb (six x) 63 then suc n else 0) same,
      if_both (λ (n : ℕ). n ≤ suc (length xs)) (leb (six x) 63) (omega (arith, le)) (omega arith),
    )

-- What was encoded is decoded up to the end of its line.
pub decode-line :
    (s t rest : List ℕ)
    → All IsByte s
    → encode_binary s ≡ t ++ (0 ∷ [])
    → decode (t ++ (b'\n' ∷ rest)) ≡ (s ++ (0 ∷ []), length s)
unfolding decode decode_binary
decode-line s t rest h e =
    let (same, le) = nprbytes-behind t rest in
    let whole : decode_binary (t ++ (0 ∷ [])) ≡ (s, length s) =
      rw (← e) (decode_binary-encode_binary s h) in
    let n = nprbytes (t ++ (0 ∷ [])) in
    rw (same, decode_loop-behind n t (b'\n' ∷ rest) (0 ∷ []) le)
      (ap (λ r. (r.0 ++ (0 ∷ []), r.1)) whole)
