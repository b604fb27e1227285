-- ===== src/Session/Digest/Accepts.antt =====
-- When `AuthDIGEST_MD5` of tspc-advanced/src/tsp/tsp_auth.c succeeds.
use gw6c.Base.{
  ℕ, ◌≤◌, ◌<◌, ◌≡◌, ◌↔◌, refl, sym, ap, ◌∙◌, List, [], Option, none, some, true, false, ltb, ltb→lt,
  lt→ltb, le→ltb, ltb-false→le, ◌=s◌, ◌⊎◌, if_true, if_false, Bool-cases, inl, inr, length, take,
  same_refl,
}
use gw6c.Session.{Reply, Store, get_status_code, redirects}
use gw6c.Session.Auth.{success}
use gw6c.Session.Digest.{Challenge, Account, escape, read_challenge}
use gw6c.Session.Digest.Login.{
  prepared, ended, with_qop, with_nonce, with_realm, respond, respond_to, write_message, finish,
  check, verify, with_reply, after_response, after_challenge, digest_md5, in_userid, in_buffer,
  max_buffer,
}
use gw6c.Session.Digest.Rfc.{is_later, InTime}
use gw6c.Session.Digest.Proof.{
  goes_on, says_success, proof_of, message_of, Challenges, respond-Rfc, with_reply-success,
  with_reply-goes_on, finish-success, verify-success, check-success, challenge-success,
  response-success,
}

option-cases {ℓ} : {A : Type ℓ} (x : Option A) → (x ≡ none) ⊎ ((v : A) × (x ≡ some v))
option-cases none = inl refl
option-cases (some v) = inr (v, refl)

stays : (r : Reply) → goes_on r ≡ true → redirects (get_status_code (some r.bytes)) ≡ false
stays r on = elim (Bool-cases (redirects (get_status_code (some r.bytes)))) [
  | inl away ↦ cc (rw away at on)
  | inr fine ↦ fine
]

module _ (hash : List ℕ → List ℕ) (sixteen : (s : List ℕ) → length (hash s) ≡ 16) (version : List ℕ)
    (later : is_later version ≡ true) (a : Account) (cnonce : ℕ) (time : InTime cnonce) where
  -- What the exchange has to show: the replies go on, the first one is a challenge, the second one
  -- the proof that RFC 2831 asks of the broker, the last one starts with 200, and the message to
  -- the broker has room.
  pub record Proven (first second : Option Reply) (last : Option (List ℕ)) : Type 0 where
    pub one : Reply
    pub two : Reply
    pub challenge : Challenge
    pub answer : Challenge
    pub realm : List ℕ
    pub nonce : List ℕ
    pub qop : List ℕ
    pub charset : List ℕ
    pub rspauth : List ℕ
    pub bytes : List ℕ
    pub comes_first : first ≡ some one
    pub first_goes_on : goes_on one ≡ true
    pub is_challenge : read_challenge one.bytes ≡ some challenge
    pub has_all :
        Challenges hash sixteen version later a cnonce time challenge realm nonce qop charset
    pub short_userid : length (escape 0 a.userid) < 512
    pub short_message :
        length (message_of hash sixteen version later a cnonce time realm nonce qop charset) ≤ 4096
    pub comes_second : second ≡ some two
    pub second_goes_on : goes_on two ≡ true
    pub is_answer : read_challenge two.bytes ≡ some answer
    pub has_rspauth : answer.rspauth ≡ some rspauth
    pub proves :
        take 32 rspauth
        ≡ take 32 (proof_of hash sixteen version later a cnonce time realm nonce qop [])
    pub comes_last : last ≡ some bytes
    pub succeeds :
        says_success bytes
          (message_of hash sixteen version later a cnonce time realm nonce qop charset)
        ≡ true

  -- A prepared message comes of a challenge that has all fields.
  complete :
      (c : Challenge) (buffer expected : List ℕ)
      → respond hash version a cnonce c ≡ prepared buffer expected
      → (realm : List ℕ) × (nonce : List ℕ) × (qop : List ℕ) × (charset : List ℕ) × Challenges hash
          sixteen version later a cnonce time c realm nonce qop charset
  unfolding respond with_realm with_nonce with_qop respond_to write_message
  complete c buffer expected e = elim (option-cases c.realm) [
    | inl absent ↦ cc (sym e ∙ ap (with_realm hash version a cnonce c) absent)
    | inr (realm, r) ↦
        let e₁ = sym (ap (with_realm hash version a cnonce c) r) ∙ e in
        elim (option-cases c.nonce) [
          | inl absent ↦ cc (sym e₁ ∙ ap (with_nonce hash version a cnonce c realm) absent)
          | inr (nonce, n) ↦
              let e₂ = sym (ap (with_nonce hash version a cnonce c realm) n) ∙ e₁ in
              elim (option-cases c.qop) [
                | inl absent ↦
                    cc (sym e₂ ∙ ap (with_qop hash version a cnonce c realm nonce) absent)
                | inr (qop, q) ↦
                    let e₃ = sym (ap (with_qop hash version a cnonce c realm nonce) q) ∙ e₂ in
                    elim (option-cases c.charset) [
                      | inl absent ↦
                          no_charset realm nonce qop
                            (sym e₃ ∙ ap (respond_to hash version a cnonce realm nonce qop) absent)
                      | inr (charset, s) ↦ (
                        realm,
                        nonce,
                        qop,
                        charset,
                        record { has_realm = r; has_nonce = n; has_qop = q; has_charset = s },
                      )
                    ]
              ]
        ]
  ]
    where
      no_charset :
          {A : Type 0} (realm nonce qop : List ℕ)
          → prepared buffer expected ≡ respond_to hash version a cnonce realm nonce qop none
          → A
      no_charset realm nonce qop e = elim (Bool-cases (ltb (length (escape 0 a.userid)) 512)) [
        | inl short ↦ cc (rw short at e)
        | inr long ↦ cc (rw long at e)
      ]

  -- It fits, and is what RFC 2831 asks for.
  room :
      (userid message proof buffer expected : List ℕ)
      → in_userid userid (in_buffer message proof) ≡ prepared buffer expected
      → (length userid < 512) × (length message ≤ 4096) × (buffer ≡ message) × (expected ≡ proof)
  room userid message proof buffer expected e = elim (Bool-cases (ltb (length userid) 512)) [
    | inr long ↦ cc (rw long at e)
    | inl short ↦ elim (Bool-cases (ltb max_buffer (length message))) [
      | inl over ↦ cc (rw (short, over) at e)
      | inr fits ↦
          let same = rw (short, fits) at e in
          (ltb→lt _ _ short, ltb-false→le _ _ fits, cc same, cc same)
    ]
  ]

  has_room :
      (userid message proof : List ℕ)
      → length userid < 512
      → length message ≤ 4096
      → in_userid userid (in_buffer message proof) ≡ prepared message proof
  has_room userid message proof short fits = rw (lt→ltb _ _ short, le→ltb _ _ fits)

  module _ (expand : List ℕ → List ℕ) (first second : Option Reply) (last : Option (List ℕ))
      (store store' : Store) where
    digest_md5-Proven :
        digest_md5 hash version a cnonce expand first second last store ≡ ended success store'
        → Proven first second last × (store' ≡ store)
    unfolding digest_md5 after_response
    digest_md5-Proven e =
        let (one, f, g₁, e₁) =
          with_reply-success hash sixteen version later a cnonce time expand first store store' _
            e in
        let (c, read₁, e₂) =
          challenge-success hash sixteen version later a cnonce time expand second last store store'
            _ e₁ in
        let (buffer, expected, p, e₃) =
          response-success hash sixteen version later a cnonce time expand second last store store'
            _ e₂ in
        let (realm, nonce, qop, charset, has) = complete c buffer expected p in
        let (short, fits, b, x) =
          room (escape 0 a.userid)
            (message_of hash sixteen version later a cnonce time realm nonce qop charset)
            (proof_of hash sixteen version later a cnonce time realm nonce qop []) buffer expected
            (sym
                (respond-Rfc hash sixteen version later a cnonce time c realm nonce qop charset has)
              ∙ p) in
        let (two, s, g₂, e₄) =
          with_reply-success hash sixteen version later a cnonce time expand second store store' _
            e₃ in
        let (c₂, read₂, e₅) =
          verify-success hash sixteen version later a cnonce time expand two last buffer expected
            store store' _ e₄ in
        let (answer, r, same, e₆) =
          check-success hash sixteen version later a cnonce time expand two last buffer expected
            store store' _ e₅ in
        let (bytes, l, yes₁, kept) =
          finish-success hash sixteen version later a cnonce time expand two last buffer store
            store' e₆ in
        (
          record {
            one = one;
            two = two;
            challenge = c;
            answer = c₂;
            realm = realm;
            nonce = nonce;
            qop = qop;
            charset = charset;
            rspauth = answer;
            bytes = bytes;
            comes_first = f;
            first_goes_on = g₁;
            is_challenge = read₁;
            has_all = has;
            short_userid = short;
            short_message = fits;
            comes_second = s;
            second_goes_on = g₂;
            is_answer = read₂;
            has_rspauth = r;
            proves = same ∙ ap (take 32) x;
            comes_last = l;
            succeeds = ap (says_success bytes) (sym b) ∙ yes₁;
          },
          kept,
        )

    Proven-digest_md5 :
        Proven first second last
        → digest_md5 hash version a cnonce expand first second last store ≡ ended success store
    unfolding digest_md5 after_challenge after_response verify check finish
    Proven-digest_md5 w =
        let message =
          message_of hash sixteen version later a cnonce time w.realm w.nonce w.qop w.charset in
        let proof = proof_of hash sixteen version later a cnonce time w.realm w.nonce w.qop [] in
        let answered = λ (r : Reply).
          verify hash version a cnonce expand r last message proof store (read_challenge r.bytes) in
        let challenged = λ (r : Reply).
          after_challenge hash version a cnonce expand second last store (read_challenge r.bytes) in
        ap (λ x. with_reply hash version a cnonce expand x store challenged) w.comes_first
        ∙ with_reply-goes_on hash sixteen version later a cnonce time expand w.one store challenged
            w.first_goes_on
        ∙ ap (after_challenge hash version a cnonce expand second last store) w.is_challenge
        ∙ ap (after_response hash version a cnonce expand second last store) (
            respond-Rfc hash sixteen version later a cnonce time w.challenge w.realm w.nonce w.qop
              w.charset w.has_all
            ∙ has_room (escape 0 a.userid) message proof w.short_userid w.short_message)
        ∙ ap (λ x. with_reply hash version a cnonce expand x store answered) w.comes_second
        ∙ with_reply-goes_on hash sixteen version later a cnonce time expand w.two store answered
            w.second_goes_on
        ∙ ap (verify hash version a cnonce expand w.two last message proof store) w.is_answer
        ∙ ap (check hash version a cnonce expand w.two last message proof store) w.has_rspauth
        ∙ if_true _ _ (ap (λ x. x =s take 32 proof) w.proves ∙ same_refl (take 32 proof))
        ∙ ap (λ l. finish hash version a cnonce expand w.two l message store) w.comes_last
        ∙ if_false _ _ (stays w.two w.second_goes_on)
        ∙ if_true _ _ w.succeeds

  -- For a hash of 16 bytes, a version of the protocol after 2.0.0 and a time of at most 15 digits:
  -- the exchange of DIGEST-MD5 succeeds exactly if the replies to the name of the mechanism and to
  -- the response are neither redirections nor refusals, the first one is a challenge with a realm,
  -- a nonce, a qop and a charset, the name of the user and the message fit their arrays, the second
  -- one has in rspauth the value that RFC 2831 asks of a server that knows the secret, and what
  -- `Buffer` holds after the last receipt starts with 200; the broker list is then as it was.
  pub digest_md5-iff_Proven :
      (expand : List ℕ → List ℕ) (first second : Option Reply) (last : Option (List ℕ))
      (store store' : Store)
      → (digest_md5 hash version a cnonce expand first second last store ≡ ended success store')
        ↔ (Proven first second last × (store' ≡ store))
  digest_md5-iff_Proven expand first second last store store' = (
    digest_md5-Proven expand first second last store store',
    λ w. Proven-digest_md5 expand first second last store store' w.0 ∙ ap (ended success) (sym w.1),
  )
