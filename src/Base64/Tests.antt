-- ===== src/Base64/Tests.antt =====
-- The theorems on tspc-advanced/src/lib/base64.c at some texts.
use gw6c.Base.{ℕ, ◌≤◌, ◌+◌, ◌≡◌, List, [], ◌∷◌, arith, length}
use gw6c.Base64.{encode_binary, decode_binary, decode, decode_len}
use gw6c.Base64.RoundTrip.{decode_binary-encode_binary, decode-length}

-- Every length modulo 3 and both ends of a byte.
abbrev sample : List ℕ
sample = 0 ∷ 255 ∷ 1 ∷ 128 ∷ []

decode_binary-encode_binary_example : decode_binary (encode_binary sample) ≡ (sample, 4)
decode_binary-encode_binary_example =
    decode_binary-encode_binary sample
      (omega arith, (omega arith, (omega arith, (omega arith, tt))))

decode-length_example :
    (length (decode (b'Q' ∷ b'!' ∷ [])).0 ≡ (decode (b'Q' ∷ b'!' ∷ [])).1 + 1)
    × (length (decode (b'Q' ∷ b'!' ∷ [])).0 ≤ decode_len (b'Q' ∷ b'!' ∷ []))
decode-length_example = decode-length (b'Q' ∷ b'!' ∷ [])
