-- ===== src/Session/Passdss/Follows.antt =====
-- `AuthPASSDSS_3DES_1` of tspc-advanced/src/tsp/tsp_auth_passdss.c against the layout of its messages.
use mathlib.Core.List.{append_assoc}
use gw6c.Base.{
  ℕ, suc, ◌≤◌, ◌<◌, ◌≡◌, ap, ◌∙◌, arith, List, [], ◌∷◌, ◌++◌, some, length, take, length-append,
  Run, done,
}
use gw6c.Buffer.{Memory, Buffer, read}
use gw6c.Buffer.Inv.{len-contents, length-contents}
use gw6c.Buffer.Holds.{Sized, Writes, append-Sized, init-Sized, clear-Sized, max_piece}
use gw6c.Buffer.Aux.{put_32bit, put_cstring}
use gw6c.Buffer.Aux.Numbers.{
  string, mpint, IsShort, put_int-Sized, put_octet-Sized, put_string-Sized, put_bignum-Sized,
}
use gw6c.Session.Passdss.{
  Crypto, bytes, first_message, signed_hash, derived, layer_and_password, second_message,
}
use gw6c.Session.Passdss.Layout.{client_values}
use gw6c.Session.Passdss.Reads.{moved, front_read, length-string}

-- `buffer_ptr` and `buffer_len` give what the buffer holds.
pub bytes-eq : {b : Buffer} {q : List ℕ} {count : ℕ} → Sized b q count → bytes b ≡ q
bytes-eq {b} s =
    ap (λ (n : ℕ). read b.buf b.offset n) (len-contents s.holds.valid ∙ length-contents b)
    ∙ s.holds.bytes

-- Appending so that the bytes are grouped as a message has them.
pub regroup : {b : Buffer} {p q : List ℕ} {count : ℕ} → p ≡ q → Sized b p count → Sized b q count
regroup e s = record { holds = moved e s.holds; room = s.room }

-- A step that gives a value and leaves a buffer with that many appends.
abbrev Steps : Run (List ℕ × Buffer) → List ℕ → ℕ → Type 0
Steps r x count = (b : Buffer) × (q : List ℕ) × (r ≡ done (x, b)) × Sized b q count

module _ (raw : Memory) (c : Crypto) (k : c.bn.Num) (secret : IsShort c.bn k) where
  open c use {bn, sha1, hmac, encrypt, encode}

  pub signed_hash-Steps :
      {h b : Buffer} {q p : List ℕ} {i j : ℕ}
      → length q ≤ max_piece
      → j < 70
      → Sized h q i
      → Sized b p j
      → Steps (signed_hash raw c h b k) (sha1 (q ++ mpint bn k)) (suc (suc (suc j)))
  unfolding signed_hash
  signed_hash-Steps {q = q} short few sh sb =
      let (b₁, e₁, s₁) = append-Sized raw q short (omega arith) (clear-Sized sb) in
      let (b₂, e₂, s₂) = put_bignum-Sized bn raw (omega arith) s₁ k secret in
      (b₂, _, rw (bytes-eq sh, e₁, e₂, bytes-eq s₂), s₂)

  module _ (hash : List ℕ) (size : length hash ≡ 20) where
    derived-Steps :
        {b : Buffer} {p : List ℕ} {j : ℕ} (letter : ℕ)
        → letter < 256
        → j < 70
        → Sized b p j
        → Steps
            (derived raw c b k letter hash)
            (sha1 (mpint bn k ++ (letter ∷ hash)))
            (suc (suc (suc (suc j))))
    unfolding derived
    derived-Steps letter small few sb =
        let (b₁, e₁, s₁) = put_bignum-Sized bn raw (omega arith) (clear-Sized sb) k secret in
        let (b₂, e₂, s₂) = put_octet-Sized bn raw (omega arith) s₁ letter small in
        let (b₃, e₃, s₃) = append-Sized raw hash (omega arith) (omega arith) s₂ in
        let s₃' = regroup (append_assoc (mpint bn k) (letter ∷ []) hash) s₃ in
        (b₃, _, rw (e₁, e₂, e₃, bytes-eq s₃'), s₃')

    layer_and_password-Writes :
        {b : Buffer} {p : List ℕ} {j : ℕ} (mask : ℕ) (passwd : List ℕ)
        → mask < 256
        → length passwd ≤ 1024
        → j < 70
        → Sized b p j
        → Writes
            (layer_and_password raw c b mask (some passwd))
            ((mask ∷ 0 ∷ 0 ∷ 0 ∷ []) ++ string passwd)
            (suc (suc (suc (suc (suc (suc j))))))
    unfolding layer_and_password put_cstring
    layer_and_password-Writes mask passwd small short few sb =
        let (b₁, e₁, s₁) = put_octet-Sized bn raw (omega arith) (clear-Sized sb) mask small in
        let (b₂, e₂, s₂) = put_octet-Sized bn raw (omega arith) s₁ 0 (omega arith) in
        let (b₃, e₃, s₃) = put_octet-Sized bn raw (omega arith) s₂ 0 (omega arith) in
        let (b₄, e₄, s₄) = put_octet-Sized bn raw (omega arith) s₃ 0 (omega arith) in
        let (b₅, e₅, s₅) = put_string-Sized bn raw (omega arith) s₄ passwd (omega arith) in
        (b₅, rw (e₁, e₂, e₃, e₄, e₅), s₅)

    abbrev letter_key : ℕ → List ℕ
    letter_key letter = sha1 (mpint bn k ++ (letter ∷ hash))

    -- Steps (I) to (N), for any transcript and hash.
    pub second_message-sends :
        {h b : Buffer} {q p : List ℕ} {i j : ℕ} (mask : ℕ) (passwd : List ℕ)
        → mask < 256
        → length passwd ≤ 1024
        → i < 70
        → j < 40
        → Sized h q i
        → Sized b p j
        → second_message raw c h b k hash mask (some passwd)
          ≡ done (
              encode (
                encrypt
                  (take 24 (letter_key b'C' ++ sha1 (mpint bn k ++ letter_key b'C')))
                  (take 8 (letter_key b'A'))
                  (((mask ∷ 0 ∷ 0 ∷ 0 ∷ []) ++ string passwd)
                    ++ hmac (letter_key b'E') (q ++ (mask ∷ 0 ∷ 0 ∷ 0 ∷ [])))))
    unfolding second_message
    second_message-sends {q = q} mask passwd small short fewer few sh sb =
        let four = mask ∷ 0 ∷ 0 ∷ 0 ∷ [] in
        let (b₁, p₁, e₁, s₁) = derived-Steps b'A' (omega arith) (omega arith) sb in
        let (b₂, p₂, e₂, s₂) = derived-Steps b'E' (omega arith) (omega arith) s₁ in
        let (b₃, p₃, e₃, s₃) = derived-Steps b'C' (omega arith) (omega arith) s₂ in
        let (b₄, e₄, s₄) = put_bignum-Sized bn raw (omega arith) (clear-Sized s₃) k secret in
        let (b₅, e₅, s₅) =
          append-Sized raw (letter_key b'C')
            (omega (arith, c.sha1_size (mpint bn k ++ (b'C' ∷ hash)))) (omega arith) s₄ in
        let (b₆, e₆, s₆) = layer_and_password-Writes mask passwd small short (omega arith) s₅ in
        let (h', e₇, s₇) = append-Sized raw four (omega arith) (omega arith) sh in
        let code = hmac (letter_key b'E') (q ++ four) in
        let (b₈, e₈, s₈) =
          append-Sized raw code (omega (arith, c.hmac_size (letter_key b'E') (q ++ four)))
            (omega arith) s₆ in
        rw (
          e₁,
          e₂,
          e₃,
          e₄,
          e₅,
          e₆,
          front_read four (string passwd) s₆.holds,
          e₇,
          bytes-eq s₇,
          e₈,
          bytes-eq s₅,
          bytes-eq s₈,
        )

module _ (raw : Memory) (c : Crypto) (userid : List ℕ) (name : length userid ≤ 1024)
    (own : IsShort c.bn c.public) where
  open c use {bn, public}

  pub first_message-Writes : Writes (first_message raw c (some userid)) (client_values c userid) 5
  unfolding first_message put_cstring
  first_message-Writes =
      let (b₁, e₁, s₁) = put_int-Sized bn raw (omega arith) (init-Sized raw) 0 in
      let (b₂, e₂, s₂) = put_string-Sized bn raw (omega arith) s₁ userid (omega arith) in
      let (b₃, e₃, s₃) = put_bignum-Sized bn raw (omega arith) s₂ public own in
      (
        b₃,
        rw (e₁, e₂, e₃),
        regroup (append_assoc (put_32bit 0) (string userid) (mpint bn public)) s₃,
      )

  pub client_values-length : length (client_values c userid) ≤ max_piece
  unfolding put_32bit
  client_values-length = omega (
    arith,
    own,
    length-append (put_32bit 0) (string userid ++ mpint bn public),
    length-append (string userid) (mpint bn public),
    length-string userid,
    length-string (bn.bn2bin public),
  )
