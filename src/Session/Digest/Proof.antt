-- ===== src/Session/Digest/Proof.antt =====
-- What `AuthDIGEST_MD5` of tspc-advanced/src/tsp/tsp_auth.c takes for a proof of the broker.
use gw6c.Base.{
  decimal, codes, ℕ, ◌≤◌, ◌≡◌, refl, ap, ap₂, ◌∙◌, List, [], ◌++◌, Option, none, some, Bool, true,
  not, ◌=s◌, ◌||◌, Bool-cases, inl, inr, length, take, drop, same-eq, arith,
}
use gw6c.Base64.{encode_binary}
use gw6c.Session.{Reply, Store, get_status_code, redirects}
use gw6c.Session.Auth.{success, success_code}
use gw6c.Session.Digest.{
  Challenge, Account, escape, hash_uri, hash_secret, challenge_response, response_text,
}
use gw6c.Session.Digest.Login.{
  Prepared, prepared, refused, Verdict, ended, write_message, respond_to, with_qop, with_nonce,
  with_realm, respond, finish, check, verify, with_reply, after_response, after_challenge,
  in_userid, in_buffer,
}
use gw6c.Session.Digest.Rfc.{
  rfc_response, is_later, InTime, hash_uri-Rfc, hash_secret-Rfc, challenge_response-Rfc,
}

-- Neither a redirection nor a refusal.
abbrev pub goes_on : Reply → Bool
goes_on r = not (redirects (get_status_code (some r.bytes)) || (take 3 r.bytes =s codes "300"))

-- What is in `Buffer` after the last receipt starts with 200.
abbrev pub says_success : (bytes buffer : List ℕ) → Bool
says_success bytes buffer = success_code =s take 3 (bytes ++ drop (length bytes) buffer)

module _ (hash : List ℕ → List ℕ) (sixteen : (s : List ℕ) → length (hash s) ≡ 16) (version : List ℕ)
    (later : is_later version ≡ true) (a : Account) (cnonce : ℕ) (time : InTime cnonce) where
  abbrev pub proof_of : (realm nonce qop method : List ℕ) → List ℕ
  proof_of realm nonce qop method = rfc_response hash a realm nonce (decimal cnonce) qop method

  -- The message that answers a challenge, with its final zero.
  abbrev pub message_of : (realm nonce qop charset : List ℕ) → List ℕ
  message_of realm nonce qop charset = encode_binary (
      response_text a charset (escape 0 a.userid) realm nonce cnonce
        (proof_of realm nonce qop (codes "AUTHENTICATE")))

  response-Rfc :
      (realm nonce qop word : List ℕ)
      → length word ≤ 12
      → challenge_response hash
          (hash_secret hash version a realm nonce cnonce)
          nonce
          cnonce
          qop
          (hash_uri hash word a.server)
        ≡ proof_of realm nonce qop word
  response-Rfc realm nonce qop word short =
      ap₂ (λ x y. challenge_response hash x nonce cnonce qop y)
        (hash_secret-Rfc hash sixteen version a realm nonce cnonce later time)
        (hash_uri-Rfc hash sixteen word a.server short)
      ∙ challenge_response-Rfc hash sixteen a realm nonce cnonce qop word time

  -- A challenge has what the response needs.
  pub record Challenges (c : Challenge) (realm nonce qop charset : List ℕ) : Type 0 where
    pub has_realm : c.realm ≡ some realm
    pub has_nonce : c.nonce ≡ some nonce
    pub has_qop : c.qop ≡ some qop
    pub has_charset : c.charset ≡ some charset

  pub respond-Rfc :
      (c : Challenge) (realm nonce qop charset : List ℕ)
      → Challenges c realm nonce qop charset
      → respond hash version a cnonce c
        ≡ in_userid
            (escape 0 a.userid)
            (in_buffer (message_of realm nonce qop charset) (proof_of realm nonce qop []))
  unfolding respond with_realm with_nonce with_qop respond_to write_message
  respond-Rfc c realm nonce qop charset has =
      let userid = escape 0 a.userid in
      ap (with_realm hash version a cnonce c) has.has_realm
      ∙ ap (with_nonce hash version a cnonce c realm) has.has_nonce
      ∙ ap (with_qop hash version a cnonce c realm nonce) has.has_qop
      ∙ ap (respond_to hash version a cnonce realm nonce qop) has.has_charset
      ∙ ap₂
          (λ x y.
            in_userid userid
              (in_buffer (encode_binary (response_text a charset userid realm nonce cnonce x)) y))
          (response-Rfc realm nonce qop (codes "AUTHENTICATE") (omega arith))
          (response-Rfc realm nonce qop [] (omega arith))

  module _ (expand : List ℕ → List ℕ) where
    pub with_reply-success :
        (x : Option Reply) (store store' : Store) (go : Reply → Verdict)
        → with_reply hash version a cnonce expand x store go ≡ ended success store'
        → (r : Reply) × (x ≡ some r) × (goes_on r ≡ true) × (go r ≡ ended success store')
    unfolding with_reply
    with_reply-success none store store' go e = cc
    with_reply-success (some r) store store' go e =
        elim (Bool-cases (redirects (get_status_code (some r.bytes)))) [
          | inl away ↦ cc (rw away at e)
          | inr stays ↦ elim (Bool-cases (take 3 r.bytes =s codes "300")) [
            | inl refusal ↦ cc (rw (stays, refusal) at e)
            | inr fine ↦ (r, refl, rw (stays, fine), rw (stays, fine) at e)
          ]
        ]

    pub with_reply-goes_on :
        (r : Reply) (store : Store) (go : Reply → Verdict)
        → goes_on r ≡ true
        → with_reply hash version a cnonce expand (some r) store go ≡ go r
    unfolding with_reply
    with_reply-goes_on r store go on =
        elim (Bool-cases (redirects (get_status_code (some r.bytes)))) [
          | inl away ↦ cc (rw away at on)
          | inr stays ↦ elim (Bool-cases (take 3 r.bytes =s codes "300")) [
            | inl refusal ↦ cc (rw (stays, refusal) at on)
            | inr fine ↦ rw (stays, fine)
          ]
        ]

    pub finish-success :
        (reply : Reply) (last : Option (List ℕ)) (buffer : List ℕ) (store store' : Store)
        → finish hash version a cnonce expand reply last buffer store ≡ ended success store'
        → (bytes : List ℕ) × (last ≡ some bytes)
          × (says_success bytes buffer ≡ true)
          × (store' ≡ store)
    unfolding finish
    finish-success reply none buffer store store' e = cc
    finish-success reply (some bytes) buffer store store' e =
        elim (Bool-cases (redirects (get_status_code (some reply.bytes)))) [
          | inl away ↦ cc (rw away at e)
          | inr stays ↦ elim (Bool-cases (says_success bytes buffer)) [
            | inr fails ↦ cc (rw (stays, fails) at e)
            | inl yes₁ ↦ (bytes, refl, yes₁, cc (rw (stays, yes₁) at e))
          ]
        ]

    pub verify-success :
        (reply : Reply) (last : Option (List ℕ)) (buffer expected : List ℕ) (store store' : Store)
        (x : Option Challenge)
        → verify hash version a cnonce expand reply last buffer expected store x
          ≡ ended success store'
        → (c : Challenge) × (x ≡ some c)
          × (check hash version a cnonce expand reply last buffer expected store c.rspauth
              ≡ ended success store')
    unfolding verify
    verify-success reply last buffer expected store store' none e = cc
    verify-success reply last buffer expected store store' (some c) e = (c, refl, e)

    pub check-success :
        (reply : Reply) (last : Option (List ℕ)) (buffer expected : List ℕ) (store store' : Store)
        (x : Option (List ℕ))
        → check hash version a cnonce expand reply last buffer expected store x
          ≡ ended success store'
        → (answer : List ℕ) × (x ≡ some answer)
          × (take 32 answer ≡ take 32 expected)
          × (finish hash version a cnonce expand reply last buffer store ≡ ended success store')
    unfolding check
    check-success reply last buffer expected store store' none e = cc
    check-success reply last buffer expected store store' (some answer) e =
        elim (Bool-cases (take 32 answer =s take 32 expected)) [
          | inr wrong ↦ cc (rw wrong at e)
          | inl right ↦ (answer, refl, same-eq _ _ right, rw right at e)
        ]

    pub challenge-success :
        (second : Option Reply) (last : Option (List ℕ)) (store store' : Store)
        (x : Option Challenge)
        → after_challenge hash version a cnonce expand second last store x ≡ ended success store'
        → (c : Challenge) × (x ≡ some c)
          × (after_response hash version a cnonce expand second last store
                (respond hash version a cnonce c)
              ≡ ended success store')
    unfolding after_challenge
    challenge-success second last store store' none e = cc
    challenge-success second last store store' (some c) e = (c, refl, e)

    pub response-success :
        (second : Option Reply) (last : Option (List ℕ)) (store store' : Store) (x : Prepared)
        → after_response hash version a cnonce expand second last store x ≡ ended success store'
        → (buffer : List ℕ) × (expected : List ℕ) × (x ≡ prepared buffer expected)
          × (after_response hash version a cnonce expand second last store
                (prepared buffer expected)
              ≡ ended success store')
    unfolding after_response
    response-success second last store store' (refused f) e = cc
    response-success second last store store' (prepared buffer expected) e =
        (buffer, expected, refl, e)
