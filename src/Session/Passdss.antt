-- ===== src/Session/Passdss.antt =====
-- The exchange of PASSDSS-3DES-1 of tspc-advanced/src/tsp/tsp_auth_passdss.c: the messages, the
-- transcript that is signed, and the keys. OpenSSL is the parameter `Crypto`; memory is given.
pub mod Tests
pub mod Keys
pub mod Tokens
pub mod Known
pub mod Table
pub mod Remembers
pub mod Met
pub mod KeyTests
pub mod Login
pub mod Layout
pub mod Reads
pub mod Follows
pub mod Exchange
pub mod Extends
pub mod Signed
pub mod Authentic
use gw6c.Base.{
  codes, ℕ, ◌^◌, ◌||◌, Bool, List, [], ◌∷◌, ◌++◌, Option, none, some, ltb, leb, if◌then◌else◌,
  length, take, Run, done, ◌>>=◌, ◌≡◌, ◌↔◌, true,
}
use gw6c.Buffer.{Memory, Buffer, read, len, init, clear, append, get}
use gw6c.Buffer.Aux.{
  BigNum, get_int, get_octet, get_string, put_int, put_octet, put_cstring, put_bignum, get_bignum,
}

-- `DSA`, the public part.
pub record Key (N : Type 0) : Type 0 where
  pub p : N
  pub q : N
  pub g : N
  pub pub_key : N

-- OpenSSL, once `DH_generate_key` has made the key of the client.
pub record Crypto : Type 1 where
  pub bn : BigNum
  -- `BN_cmp` gives zero.
  pub same : bn.Num → bn.Num → Bool
  pub same_iff : (a b : bn.Num) → (same a b ≡ true) ↔ (a ≡ b)
  pub sha1 : List ℕ → List ℕ
  pub hmac : (key message : List ℕ) → List ℕ
  -- `EVP_des_ede3_cbc` with its padding, and the base64 filter.
  pub encrypt : (key iv message : List ℕ) → List ℕ
  pub encode : List ℕ → List ℕ
  pub public : bn.Num
  -- `none` is a negative size.
  pub compute_key : bn.Num → Option (List ℕ)
  -- `DSA_do_verify`: 1 if the signature is that of the hash.
  pub do_verify : (hash : List ℕ) → (r s : bn.Num) → Key bn.Num → ℕ
  -- SHA1(3) and HMAC(3): results of twenty bytes.
  pub sha1_size : (s : List ℕ) → length (sha1 s) ≡ 20
  pub hmac_size : (key s : List ℕ) → length (hmac key s) ≡ 20

-- What the first message of the server holds, and `Buf_H` with its copies.
pub record Hello (N : Type 0) : Type 0 where
  pub transcript : Buffer
  pub dsa : Key N
  pub server_pubkey : N
  pub ssecmask : ℕ
  pub sig_r : N
  pub sig_s : N

-- `buffer_ptr` and `buffer_len`
abbrev pub bytes : Buffer → List ℕ
bytes b = read b.buf b.offset (len b)

-- An `int` below a limit; from 2^31 on it is negative.
abbrev pub int_below : ℕ → ℕ → Bool
int_below n limit = leb (2 ^ 31) n || ltb n limit

module _ (raw : Memory) (c : Crypto) where
  open c use {bn, sha1, hmac, encrypt, encode, public}

  unfoldable pub first_message : (userid : Option (List ℕ)) → Run Buffer
  first_message userid = do
    b₁ ← put_int raw (init raw) 0
    b₂ ← put_cstring raw b₁ userid
    put_bignum raw bn b₂ public

  -- The signature, behind the four bytes that are copied; `none` is HEX_STR_RCVD_DATA_INVALID.
  unfoldable pub read_signature :
      (transcript : Buffer)
      → Key bn.Num
      → (server_pubkey : bn.Num) → Buffer
      → Run (Option (Hello bn.Num))
  read_signature transcript dsa server_pubkey space = do
    (ssecmask, b₁) ← get_octet space
    (sbuflen, b₂) ← get b₁ 3
    (siglength, b₃) ← get_int b₂
    if int_below siglength 59 then done none else (do
      (s, n, b₄) ← get_string b₃
      (sig_r, b₅) ← get_bignum raw bn b₄
      (sig_s, b₆) ← get_bignum raw bn b₅
      done (
          some (record {
            transcript = transcript;
            dsa = dsa;
            server_pubkey = server_pubkey;
            ssecmask = ssecmask;
            sig_r = sig_r;
            sig_s = sig_s;
          })))

  -- `pklength` bytes are copied, however many there are.
  unfoldable pub read_hello : (transcript space : Buffer) → Run (Option (Hello bn.Num))
  read_hello transcript space = do
    (pklength, b₁) ← get_int space
    if int_below pklength 240 then done none else (do
      h₁ ← put_int raw transcript pklength
      h₂ ← append raw h₁ (read b₁.buf b₁.offset pklength)
      (s, n, b₂) ← get_string b₁
      (p, b₃) ← get_bignum raw bn b₂
      (q, b₄) ← get_bignum raw bn b₃
      (g, b₅) ← get_bignum raw bn b₄
      (z, b₆) ← get_bignum raw bn b₅
      (y, b₇) ← get_bignum raw bn b₆
      h₃ ← put_bignum raw bn h₂ y
      h₄ ← append raw h₃ (read b₇.buf b₇.offset 4)
      read_signature h₄ (record { p = p; q = q; g = g; pub_key = z }) y b₇)

  -- The hash that the server must have signed.
  unfoldable pub signed_hash : (transcript space : Buffer) → bn.Num → Run (List ℕ × Buffer)
  signed_hash transcript space dh_k = do
    b₁ ← append raw (clear space) (bytes transcript)
    b₂ ← put_bignum raw bn b₁ dh_k
    done (sha1 (bytes b₂), b₂)

  -- Step I: SHA1( K || letter || H )
  unfoldable pub derived :
      (space : Buffer) → bn.Num → (letter : ℕ) → (hash : List ℕ) → Run (List ℕ × Buffer)
  derived space dh_k letter hash = do
    b₁ ← put_bignum raw bn (clear space) dh_k
    b₂ ← put_octet raw b₁ letter
    b₃ ← append raw b₂ hash
    done (sha1 (bytes b₃), b₃)

  -- The mask, three zeros and the passphrase: step J.
  unfoldable pub layer_and_password :
      (space : Buffer) → (ssecmask : ℕ) → (passwd : Option (List ℕ)) → Run Buffer
  layer_and_password space ssecmask passwd = do
    b₁ ← put_octet raw (clear space) ssecmask
    b₂ ← put_octet raw b₁ 0
    b₃ ← put_octet raw b₂ 0
    b₄ ← put_octet raw b₃ 0
    put_cstring raw b₄ passwd

  -- Steps I to N; the result is what is sent.
  unfoldable pub second_message :
      (transcript space : Buffer)
      → bn.Num
      → (hash : List ℕ) → (ssecmask : ℕ) → (passwd : Option (List ℕ)) → Run (List ℕ)
  second_message transcript space dh_k hash ssecmask passwd = do
    (iv, b₁) ← derived space dh_k b'A' hash
    (int_key, b₂) ← derived b₁ dh_k b'E' hash
    (key₁, b₃) ← derived b₂ dh_k b'C' hash
    b₄ ← put_bignum raw bn (clear b₃) dh_k
    b₅ ← append raw b₄ key₁
    b₆ ← layer_and_password b₅ ssecmask passwd
    h ← append raw transcript (read b₆.buf b₆.offset 4)
    b₇ ← append raw b₆ (hmac int_key (bytes h))
    done (encode (encrypt (take 24 (key₁ ++ sha1 (bytes b₅))) (take 8 iv) (bytes b₇)))
