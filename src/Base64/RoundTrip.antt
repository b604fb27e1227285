-- ===== src/Base64/RoundTrip.antt =====
-- `base64decode` gives back what `base64encode` was given, whatever the bytes.
use gw6c.Base.{
  ℕ, zero, suc, ◌+◌, ◌-◌, ◌*◌, ◌/◌, ◌%◌, ◌<◌, ◌≤◌, ◌≡◌, refl, ap, ap₂, ◌∙◌, List, [], ◌∷◌, bit_and,
  length, drop, length-append, All, arith,
}
use gw6c.Base64.{
  char_of, nprbytes, first_byte, second_byte, third_byte, decode_rest, decode_loop, decode_binary,
  decode_len, encode_len, encode_binary, decode, pad,
}
use gw6c.Base64.Sextets.{
  sextet₀, sextet₁, sextet₂, sextet₃, sextet₁-last, sextet₂-last, first_byte-char_of,
  second_byte-char_of, third_byte-char_of, nprbytes-char_of, nprbytes-pad, nprbytes-end,
}

abbrev pub IsByte : ℕ → Type 0
IsByte x = x < 256

-- The characters of the alphabet among what the encoder writes.
count : List ℕ → ℕ
count (a ∷ b ∷ c ∷ rest) = suc (suc (suc (suc (count rest))))
count (a ∷ b ∷ []) = 3
count (a ∷ []) = 2
count [] = 0

-- How many of them the loop leaves.
left : List ℕ → ℕ
left (a ∷ b ∷ c ∷ d ∷ rest) = left (d ∷ rest)
left (a ∷ b ∷ c ∷ []) = 4
left (a ∷ b ∷ []) = 3
left (a ∷ []) = 2
left [] = 0

-- What the encoder writes, without its bit operations.
abbrev group : ℕ → ℕ → ℕ → List ℕ → List ℕ
group a b c cs =
    char_of (a / 4)
    ∷ char_of (a % 4 * 16 + b / 16)
    ∷ char_of (b % 16 * 4 + c / 64)
    ∷ char_of (c % 64)
    ∷ cs

pub encode_three :
    (a b c : ℕ) (s : List ℕ)
    → IsByte a
    → IsByte b
    → IsByte c
    → encode_binary (a ∷ b ∷ c ∷ s) ≡ group a b c (encode_binary s)
unfolding encode_binary
encode_three a b c s ha hb hc =
    rw (
      sextet₀ a b c ha hb hc,
      sextet₁ a b c ha hb hc,
      sextet₂ a b c ha hb hc,
      sextet₃ a b c ha hb hc,
    )

pub encode_two :
    (a b : ℕ)
    → IsByte a
    → IsByte b
    → encode_binary (a ∷ b ∷ [])
      ≡ char_of (a / 4) ∷ char_of (a % 4 * 16 + b / 16) ∷ char_of (b % 16 * 4) ∷ pad ∷ 0 ∷ []
unfolding encode_binary
encode_two a b ha hb =
    rw (sextet₀ a b 0 ha hb (omega arith), sextet₁ a b 0 ha hb (omega arith), sextet₂-last b)

pub encode_one :
    (a : ℕ)
    → IsByte a
    → encode_binary (a ∷ []) ≡ char_of (a / 4) ∷ char_of (a % 4 * 16) ∷ pad ∷ pad ∷ 0 ∷ []
unfolding encode_binary
encode_one a ha = rw (sextet₀ a 0 0 ha (omega arith) (omega arith), sextet₁-last a)

nprbytes-encode : (s : List ℕ) → All IsByte s → nprbytes (encode_binary s) ≡ count s
unfolding count
nprbytes-encode (a ∷ b ∷ c ∷ s) h =
    rw
      (
        encode_three a b c s h.0 h.1.0 h.1.1.0,
        nprbytes-char_of (a / 4) _ (omega arith),
        nprbytes-char_of (a % 4 * 16 + b / 16) _ (omega arith),
        nprbytes-char_of (b % 16 * 4 + c / 64) _ (omega arith),
        nprbytes-char_of (c % 64) _ (omega arith),
      )
      (ap (λ (k : ℕ). suc (suc (suc (suc k)))) (nprbytes-encode s h.1.1.1))
nprbytes-encode (a ∷ b ∷ []) h = rw (
  encode_two a b h.0 h.1.0,
  nprbytes-char_of (a / 4) _ (omega arith),
  nprbytes-char_of (a % 4 * 16 + b / 16) _ (omega arith),
  nprbytes-char_of (b % 16 * 4) _ (omega arith),
  nprbytes-pad,
)
nprbytes-encode (a ∷ []) h = rw (
  encode_one a h.0,
  nprbytes-char_of (a / 4) _ (omega arith),
  nprbytes-char_of (a % 4 * 16) _ (omega arith),
  nprbytes-pad,
)
nprbytes-encode [] h = unfold encode_binary in nprbytes-end []

-- The three bytes of a group.
group_bytes :
    (a b c : ℕ) (cs : List ℕ)
    → IsByte a
    → IsByte b
    → IsByte c
    → (first_byte (group a b c cs) ≡ a)
      × (second_byte (group a b c cs) ≡ b)
      × (third_byte (group a b c cs) ≡ c)
group_bytes a b c cs ha hb hc = (
  first_byte-char_of (a / 4) (a % 4 * 16 + b / 16) _ (omega arith) (omega arith) ∙ omega arith,
  second_byte-char_of _ (a % 4 * 16 + b / 16) (b % 16 * 4 + c / 64) _ (omega arith) (omega arith)
      ∙ omega arith,
  third_byte-char_of _ _ (b % 16 * 4 + c / 64) (c % 64) cs (omega arith) (omega arith)
      ∙ omega arith,
)

-- A group that is not the last goes through the loop.
decode_group :
    (n a b c l : ℕ) (s : List ℕ)
    → IsByte a
    → IsByte b
    → IsByte c
    → decode_loop (suc n) (encode_binary s) ≡ (s, l)
    → decode_loop (suc (suc (suc (suc (suc n))))) (encode_binary (a ∷ b ∷ c ∷ s))
      ≡ (a ∷ b ∷ c ∷ s, l)
unfolding decode_loop
decode_group n a b c l s ha hb hc ih =
    let g = group_bytes a b c (encode_binary s) ha hb hc in
    rw (encode_three a b c s ha hb hc, g.0, g.1, g.2, ih)

decode_loop-encode :
    (s : List ℕ) → All IsByte s → decode_loop (count s) (encode_binary s) ≡ (s, left s)
unfolding decode_loop decode_rest count left
decode_loop-encode (a ∷ b ∷ c ∷ d ∷ e ∷ f ∷ s) h =
    decode_group (suc (suc (suc (count s)))) a b c _ (d ∷ e ∷ f ∷ s) h.0 h.1.0 h.1.1.0
      (decode_loop-encode (d ∷ e ∷ f ∷ s) h.1.1.1)
decode_loop-encode (a ∷ b ∷ c ∷ d ∷ e ∷ []) h =
    decode_group 2 a b c 3 (d ∷ e ∷ []) h.0 h.1.0 h.1.1.0 (decode_loop-encode (d ∷ e ∷ []) h.1.1.1)
decode_loop-encode (a ∷ b ∷ c ∷ d ∷ []) h =
    decode_group 1 a b c 2 (d ∷ []) h.0 h.1.0 h.1.1.0 (decode_loop-encode (d ∷ []) h.1.1.1)
decode_loop-encode (a ∷ b ∷ c ∷ []) h =
    let g = group_bytes a b c (encode_binary []) h.0 h.1.0 h.1.1.0 in
    rw (encode_three a b c [] h.0 h.1.0 h.1.1.0, g.0, g.1, g.2)
decode_loop-encode (a ∷ b ∷ []) h =
    rw
      (
        encode_two a b h.0 h.1.0,
        first_byte-char_of (a / 4) (a % 4 * 16 + b / 16) (char_of (b % 16 * 4) ∷ pad ∷ 0 ∷ [])
            (omega arith) (omega arith),
        second_byte-char_of (char_of (a / 4)) (a % 4 * 16 + b / 16) (b % 16 * 4) (pad ∷ 0 ∷ [])
            (omega arith) (omega arith),
      )
      (ap₂ (λ (x y : ℕ). (x ∷ y ∷ [], 3)) (omega arith) (omega arith))
decode_loop-encode (a ∷ []) h =
    rw
      (
        encode_one a h.0,
        first_byte-char_of (a / 4) (a % 4 * 16) (pad ∷ pad ∷ 0 ∷ []) (omega arith) (omega arith),
      )
      (ap (λ (x : ℕ). (x ∷ [], 2)) (omega arith))
decode_loop-encode [] h = unfold encode_binary in refl

-- The length that the decoder computes.
count-length : (s : List ℕ) → (count s + 3) / 4 * 3 ≡ length s + bit_and (4 - left s) 3
unfolding count left
count-length (a ∷ b ∷ c ∷ d ∷ e ∷ f ∷ s) = omega (arith, count-length (d ∷ e ∷ f ∷ s))
count-length (a ∷ b ∷ c ∷ d ∷ e ∷ []) = refl
count-length (a ∷ b ∷ c ∷ d ∷ []) = refl
count-length (a ∷ b ∷ c ∷ []) = refl
count-length (a ∷ b ∷ []) = refl
count-length (a ∷ []) = refl
count-length [] = refl

-- Decoding what the encoder writes for a list of bytes gives back the bytes, and their number as
-- the value returned.
pub decode_binary-encode_binary :
    (s : List ℕ) → All IsByte s → decode_binary (encode_binary s) ≡ (s, length s)
unfolding decode_binary
decode_binary-encode_binary s h =
    rw (nprbytes-encode s h, decode_loop-encode s h)
      (ap (λ (n : ℕ). (s, n)) (omega (arith, count-length s)))

pub encoded_size : (s : List ℕ) → length (encode_binary s) ≡ (length s + 2) / 3 * 4 + 1
unfolding encode_binary
encoded_size (a ∷ b ∷ c ∷ s) = omega (arith, encoded_size s)
encoded_size (a ∷ b ∷ []) = refl
encoded_size (a ∷ []) = refl
encoded_size [] = refl

-- The encoder fills exactly the space that `base64encode_len` asks for, its final zero included.
pub length-encode_binary : (s : List ℕ) → length (encode_binary s) ≡ encode_len (length s)
unfolding encode_len
length-encode_binary s = encoded_size s

rest_size :
    (n : ℕ) (cs : List ℕ) → n ≤ 4 → length (decode_rest n cs) + bit_and (4 - n) 3 ≡ (n + 3) / 4 * 3
unfolding decode_rest
rest_size zero cs h = refl
rest_size (suc zero) cs h = refl
rest_size (suc (suc zero)) cs h = refl
rest_size (suc (suc (suc zero))) cs h = refl
rest_size (suc (suc (suc (suc zero)))) cs h = refl
rest_size (suc (suc (suc (suc (suc n))))) cs h = absurd (omega arith)

loop_size :
    (n : ℕ) (cs : List ℕ)
    → let r = decode_loop n cs in length r.0 + bit_and (4 - r.1) 3 ≡ (n + 3) / 4 * 3
unfolding decode_loop
loop_size (suc (suc (suc (suc (suc n))))) cs = omega (arith, loop_size (suc n) (drop 4 cs))
loop_size zero cs = rest_size 0 cs (omega arith)
loop_size (suc zero) cs = rest_size 1 cs (omega arith)
loop_size (suc (suc zero)) cs = rest_size 2 cs (omega arith)
loop_size (suc (suc (suc zero))) cs = rest_size 3 cs (omega arith)
loop_size (suc (suc (suc (suc zero)))) cs = rest_size 4 cs (omega arith)

-- Whatever the text, the decoder returns the number of bytes that it has written, and with its
-- final zero they fit the space that `base64decode_len` asks for.
pub decode-length :
    (cs : List ℕ)
    → (length (decode cs).0 ≡ (decode cs).1 + 1) × (length (decode cs).0 ≤ decode_len cs)
unfolding decode decode_binary decode_len
decode-length cs =
    let r = decode_loop (nprbytes cs) cs in
    let size = length-append r.0 (0 ∷ []) in omega (arith, size, loop_size (nprbytes cs) cs)
