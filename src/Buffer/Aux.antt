-- ===== src/Buffer/Aux.antt =====
-- tspc-advanced/src/lib/bufaux.c with the macros of include/getput.h: integers, strings and big
-- numbers written to a buffer and read back. OpenSSL's BIGNUM is the parameter `BigNum`.
pub mod Words
pub mod RoundTrip
pub mod Numbers
use gw6c.Base.{
  ℕ, ◌+◌, ◌*◌, ◌/◌, ◌%◌, ◌^◌, ◌-◌, ◌≡◌, ◌&&◌, ◌||◌, not, List, [], ◌∷◌, ◌++◌, Option, none, some,
  bit_or, ltb, leb, ◌==◌, if◌then◌else◌, length, get_or, Run, done, exit, ◌>>=◌,
}
use gw6c.Buffer.{Memory, Buffer, failure, read, len, append, get, consume}

-- `u_char buf[4]`, most significant byte first; a store into a `char` keeps eight bits.
unfoldable pub put_32bit : ℕ → List ℕ
put_32bit value =
    (value / 2 ^ 24 % 256) ∷ (value / 2 ^ 16 % 256) ∷ (value / 2 ^ 8 % 256) ∷ (value % 256) ∷ []

unfoldable pub get_32bit : List ℕ → ℕ
get_32bit cp =
    let byte = λ (i : ℕ). get_or cp i 0 in
    bit_or (bit_or (bit_or (byte 0 * 2 ^ 24) (byte 1 * 2 ^ 16)) (byte 2 * 2 ^ 8)) (byte 3)

unfoldable pub get_int : Buffer → Run (ℕ × Buffer)
get_int b = do (bytes, b') ← get b 4; done (get_32bit bytes, b')

unfoldable pub get_octet : Buffer → Run (ℕ × Buffer)
get_octet b = do (bytes, b') ← get b 1; done (get_or bytes 0 0, b')

abbrev pub max_string : ℕ
max_string = 256 * 1024

-- The value with its final zero byte, and its length.
unfoldable pub get_string : Buffer → Run (List ℕ × ℕ × Buffer)
get_string b = do
  (n, b') ← get_int b
  if ltb max_string n then exit 1 else do (value, b'') ← get b' n; done (value ++ (0 ∷ []), n, b'')

module _ (raw : Memory) where
  unfoldable pub put_int : Buffer → ℕ → Run Buffer
  put_int b value = append raw b (put_32bit value)

  unfoldable pub put_octet : Buffer → ℕ → Run Buffer
  put_octet b value = append raw b ((value % 256) ∷ [])

  -- The `u_int` argument `len` is the number of the bytes.
  unfoldable pub put_string : Buffer → List ℕ → Run Buffer
  put_string b bytes = do b' ← put_int b (length bytes % 2 ^ 32); append raw b' bytes

  -- `none` is NULL.
  unfoldable pub put_cstring : Buffer → Option (List ℕ) → Run Buffer
  put_cstring b none = exit 1
  put_cstring b (some s) = put_string b s

-- What is used of BIGNUM: its size in bits, and its magnitude in bytes.
pub record BigNum : Type 1 where
  pub Num : Type 0
  pub num_bits : Num → ℕ
  pub bn2bin : Num → List ℕ
  pub bin2bn : List ℕ → Num
  -- BN_bn2bin(3): the magnitude takes BN_num_bytes bytes, and BN_bin2bn reads it back.
  pub bn2bin_size : (v : Num) → length (bn2bin v) ≡ (num_bits v + 7) / 8
  pub bin2bn-bn2bin : (v : Num) → bin2bn (bn2bin v) ≡ v

abbrev pub max_bignum : ℕ
max_bignum = 8 * 1024

module _ (raw : Memory) (bn : BigNum) where
  open bn use {Num, num_bits, bn2bin, bin2bn}

  unfoldable pub put_bignum : Buffer → Num → Run Buffer
  put_bignum b value =
      let bin_size = (num_bits value + 7) / 8 in
      if not (length (bn2bin value) == bin_size)
      then exit 1
      else (do b' ← put_int raw b (bin_size % 2 ^ 32); append raw b' (bn2bin value))

  -- `bytes` is an `int`: from 2^31 on it is negative, passes both tests, and is refused by
  -- `buffer_consume`, to which it is an `u_int`. What BN_bin2bn makes of such a length is left out.
  unfoldable pub get_bignum : Buffer → Run (Num × Buffer)
  get_bignum b = do
    (bytes, b') ← get_int b
    let negative = leb (2 ^ 31) bytes
    if not negative && (ltb max_bignum bytes || ltb (len b') bytes)
        then exit 1
        else do b'' ← consume b' bytes; done (bin2bn (read b'.buf b'.offset bytes), b'')
