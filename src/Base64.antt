-- ===== src/Base64.antt =====
-- tspc-advanced/src/lib/base64.c: the two tables, the encoder and the decoder. A C string is the
-- list of its bytes without the final zero, and reading past its end gives that zero.
mod Tests
pub mod Sextets
pub mod RoundTrip
pub mod Behind
use gw6c.Base.{
  codes, ℕ, zero, suc, ◌+◌, ◌-◌, ◌*◌, ◌/◌, ◌%◌, ◌^◌, Bool, List, [], ◌∷◌, ◌++◌, bit_and, bit_or,
  leb, get_or, length, drop, if◌then◌else◌,
}

unfoldable pub pr2six : List ℕ
pr2six =
    64 ∷ 64 ∷ 64 ∷ 64 ∷ 64 ∷ 64 ∷ 64 ∷ 64 ∷ 64 ∷ 64 ∷ 64 ∷ 64 ∷ 64 ∷ 64 ∷ 64 ∷ 64 ∷ 64 ∷ 64 ∷ 64
    ∷ 64 ∷ 64 ∷ 64 ∷ 64 ∷ 64 ∷ 64 ∷ 64 ∷ 64 ∷ 64 ∷ 64 ∷ 64 ∷ 64 ∷ 64 ∷ 64 ∷ 64 ∷ 64 ∷ 64 ∷ 64 ∷ 64
    ∷ 64 ∷ 64 ∷ 64 ∷ 64 ∷ 64 ∷ 62 ∷ 64 ∷ 64 ∷ 64 ∷ 63 ∷ 52 ∷ 53 ∷ 54 ∷ 55 ∷ 56 ∷ 57 ∷ 58 ∷ 59 ∷ 60
    ∷ 61 ∷ 64 ∷ 64 ∷ 64 ∷ 64 ∷ 64 ∷ 64 ∷ 64 ∷ 0 ∷ 1 ∷ 2 ∷ 3 ∷ 4 ∷ 5 ∷ 6 ∷ 7 ∷ 8 ∷ 9 ∷ 10 ∷ 11 ∷ 12
    ∷ 13 ∷ 14 ∷ 15 ∷ 16 ∷ 17 ∷ 18 ∷ 19 ∷ 20 ∷ 21 ∷ 22 ∷ 23 ∷ 24 ∷ 25 ∷ 64 ∷ 64 ∷ 64 ∷ 64 ∷ 64 ∷ 64
    ∷ 26 ∷ 27 ∷ 28 ∷ 29 ∷ 30 ∷ 31 ∷ 32 ∷ 33 ∷ 34 ∷ 35 ∷ 36 ∷ 37 ∷ 38 ∷ 39 ∷ 40 ∷ 41 ∷ 42 ∷ 43 ∷ 44
    ∷ 45 ∷ 46 ∷ 47 ∷ 48 ∷ 49 ∷ 50 ∷ 51 ∷ 64 ∷ 64 ∷ 64 ∷ 64 ∷ 64 ∷ 64 ∷ 64 ∷ 64 ∷ 64 ∷ 64 ∷ 64 ∷ 64
    ∷ 64 ∷ 64 ∷ 64 ∷ 64 ∷ 64 ∷ 64 ∷ 64 ∷ 64 ∷ 64 ∷ 64 ∷ 64 ∷ 64 ∷ 64 ∷ 64 ∷ 64 ∷ 64 ∷ 64 ∷ 64 ∷ 64
    ∷ 64 ∷ 64 ∷ 64 ∷ 64 ∷ 64 ∷ 64 ∷ 64 ∷ 64 ∷ 64 ∷ 64 ∷ 64 ∷ 64 ∷ 64 ∷ 64 ∷ 64 ∷ 64 ∷ 64 ∷ 64 ∷ 64
    ∷ 64 ∷ 64 ∷ 64 ∷ 64 ∷ 64 ∷ 64 ∷ 64 ∷ 64 ∷ 64 ∷ 64 ∷ 64 ∷ 64 ∷ 64 ∷ 64 ∷ 64 ∷ 64 ∷ 64 ∷ 64 ∷ 64
    ∷ 64 ∷ 64 ∷ 64 ∷ 64 ∷ 64 ∷ 64 ∷ 64 ∷ 64 ∷ 64 ∷ 64 ∷ 64 ∷ 64 ∷ 64 ∷ 64 ∷ 64 ∷ 64 ∷ 64 ∷ 64 ∷ 64
    ∷ 64 ∷ 64 ∷ 64 ∷ 64 ∷ 64 ∷ 64 ∷ 64 ∷ 64 ∷ 64 ∷ 64 ∷ 64 ∷ 64 ∷ 64 ∷ 64 ∷ 64 ∷ 64 ∷ 64 ∷ 64 ∷ 64
    ∷ 64 ∷ 64 ∷ 64 ∷ 64 ∷ 64 ∷ 64 ∷ 64 ∷ 64 ∷ 64 ∷ 64 ∷ 64 ∷ 64 ∷ 64 ∷ 64 ∷ 64 ∷ 64 ∷ 64 ∷ 64 ∷ 64
    ∷ 64 ∷ 64 ∷ 64 ∷ 64 ∷ 64 ∷ 64 ∷ 64 ∷ []

unfoldable pub basis_64 : List ℕ
basis_64 = codes "ABCDEFGHIJKLMNOPQRSTUVWXYZabcdefghijklmnopqrstuvwxyz0123456789+/"

-- `pr2six[c]` of an `unsigned char`, and `basis_64[k]`.
unfoldable pub six : ℕ → ℕ
unfolding pr2six
six c = get_or pr2six c 64

unfoldable pub char_of : ℕ → ℕ
unfolding basis_64
char_of k = get_or basis_64 k 0

-- The first loop of both decoders: `nprbytes`, the number of leading characters of the alphabet.
unfoldable pub nprbytes : List ℕ → ℕ
nprbytes [] = 0
nprbytes (c ∷ cs) = if leb (six c) 63 then suc (nprbytes cs) else 0

unfoldable pub decode_len : List ℕ → ℕ
decode_len cs = (nprbytes cs + 3) / 4 * 3 + 1

-- The three bytes of four characters, each cut to an `unsigned char`.
unfoldable pub first_byte : List ℕ → ℕ
first_byte cs = bit_or (six (get_or cs 0 0) * 2 ^ 2) (six (get_or cs 1 0) / 2 ^ 4) % 256

unfoldable pub second_byte : List ℕ → ℕ
second_byte cs = bit_or (six (get_or cs 1 0) * 2 ^ 4) (six (get_or cs 2 0) / 2 ^ 2) % 256

unfoldable pub third_byte : List ℕ → ℕ
third_byte cs = bit_or (six (get_or cs 2 0) * 2 ^ 6) (six (get_or cs 3 0)) % 256

-- What follows the loop, for the characters left.
unfoldable pub decode_rest : ℕ → List ℕ → List ℕ
decode_rest n cs =
    (if leb 2 n then first_byte cs ∷ [] else [])
    ++ ((if leb 3 n then second_byte cs ∷ [] else [])
        ++ (if leb 4 n then third_byte cs ∷ [] else []))

-- `while (nprbytes > 4)`, then the rest: the bytes written, and `nprbytes` at the end.
unfoldable pub decode_loop : ℕ → List ℕ → List ℕ × ℕ
decode_loop (suc (suc (suc (suc (suc n))))) cs =
    let (bytes, left) = decode_loop (suc n) (drop 4 cs) in
    (first_byte cs ∷ second_byte cs ∷ third_byte cs ∷ bytes, left)
decode_loop n cs = (decode_rest n cs, n)

-- The bytes written, and the value returned.
unfoldable pub decode_binary : List ℕ → List ℕ × ℕ
decode_binary cs =
    let n = nprbytes cs in
    let (bytes, left) = decode_loop n cs in (bytes, (n + 3) / 4 * 3 - bit_and (4 - left) 3)

-- `base64decode` writes a zero at the length that it returns.
unfoldable pub decode : List ℕ → List ℕ × ℕ
decode cs = let (bytes, len) = decode_binary cs in (bytes ++ (0 ∷ []), len)

unfoldable pub encode_len : ℕ → ℕ
encode_len len = (len + 2) / 3 * 4 + 1

abbrev pub pad : ℕ
pad = b'='

-- The loop over three bytes at a time, and the one or two that are left; `len` is the number of
-- the bytes. The result is what `p` has written, its final zero included.
unfoldable pub encode_binary : List ℕ → List ℕ
encode_binary (a ∷ b ∷ c ∷ rest) =
    char_of (bit_and (a / 2 ^ 2) 0x3f)
    ∷ char_of (bit_or (bit_and a 0x3 * 2 ^ 4) (bit_and b 0xf0 / 2 ^ 4))
    ∷ char_of (bit_or (bit_and b 0xf * 2 ^ 2) (bit_and c 0xc0 / 2 ^ 6))
    ∷ char_of (bit_and c 0x3f)
    ∷ encode_binary rest
encode_binary (a ∷ b ∷ []) =
    char_of (bit_and (a / 2 ^ 2) 0x3f)
    ∷ char_of (bit_or (bit_and a 0x3 * 2 ^ 4) (bit_and b 0xf0 / 2 ^ 4))
    ∷ char_of (bit_and b 0xf * 2 ^ 2)
    ∷ pad
    ∷ 0
    ∷ []
encode_binary (a ∷ []) =
    char_of (bit_and (a / 2 ^ 2) 0x3f) ∷ char_of (bit_and a 0x3 * 2 ^ 4) ∷ pad ∷ pad ∷ 0 ∷ []
encode_binary [] = 0 ∷ []

-- `base64encode` is the same on ASCII machines; the value returned counts the final zero.
unfoldable pub encode : List ℕ → List ℕ × ℕ
encode s = let cs = encode_binary s in (cs, length cs)
