-- ===== src/Session/Digest/Login.antt =====
-- The steps of `AuthDIGEST_MD5` of tspc-advanced/src/tsp/tsp_auth.c, with the replies of the broker.
use gw6c.Base.{
  codes, ℕ, List, [], ◌++◌, Option, none, some, ltb, ◌=s◌, if◌then◌else◌, length, take, drop,
}
use gw6c.Base64.{encode_binary}
use gw6c.Session.{Reply, Store, follow, get_status_code, redirects}
use gw6c.Session.Auth.{Outcome, success, failed, redirection, success_code}
use gw6c.Session.Digest.{
  Challenge, read_challenge, Account, escape, hash_uri, hash_secret, challenge_response,
  response_text,
}

-- A read through a null pointer or behind a text, or a write behind an array.
pub data Fault : Type 0 where
  null_read over_read over_write : Fault

-- The message with the final zero, and the answer that the broker must give to it.
pub data Prepared : Type 0 where
  prepared : List ℕ → List ℕ → Prepared
  refused : Fault → Prepared

pub data Verdict : Type 0 where
  ended : Outcome → Store → Verdict
  trapped : Fault → Verdict

abbrev pub max_buffer : ℕ
max_buffer = 4096

abbrev pub in_buffer : List ℕ → List ℕ → Prepared
in_buffer encoded expected =
    if ltb max_buffer (length encoded) then refused over_write else prepared encoded expected

abbrev pub in_userid : List ℕ → Prepared → Prepared
in_userid userid x = if ltb (length userid) 512 then x else refused over_write

module _ (hash : List ℕ → List ℕ) (version : List ℕ) (a : Account) (cnonce : ℕ) where
  -- The message once the answer of the broker is known; it needs the charset.
  unfoldable pub write_message :
      (userid realm nonce response expected : List ℕ) → Option (List ℕ) → Prepared
  write_message userid realm nonce response expected none = refused null_read
  write_message userid realm nonce response expected (some charset) =
      in_buffer (encode_binary (response_text a charset userid realm nonce cnonce response))
        expected

  unfoldable pub respond_to : (realm nonce qop : List ℕ) → Option (List ℕ) → Prepared
  respond_to realm nonce qop charset =
      let a1 = hash_secret hash version a realm nonce cnonce in
      let response =
        challenge_response hash a1 nonce cnonce qop
          (hash_uri hash (codes "AUTHENTICATE") a.server) in
      let expected = challenge_response hash a1 nonce cnonce qop (hash_uri hash [] a.server) in
      let userid = escape 0 a.userid in
      in_userid userid (write_message userid realm nonce response expected charset)

  unfoldable pub with_qop : Challenge → (realm nonce : List ℕ) → Option (List ℕ) → Prepared
  with_qop c realm nonce none = refused null_read
  with_qop c realm nonce (some qop) = respond_to realm nonce qop c.charset

  unfoldable pub with_nonce : Challenge → (realm : List ℕ) → Option (List ℕ) → Prepared
  with_nonce c realm none = refused null_read
  with_nonce c realm (some nonce) = with_qop c realm nonce c.qop

  unfoldable pub with_realm : Challenge → Option (List ℕ) → Prepared
  with_realm c none = refused null_read
  with_realm c (some realm) = with_nonce c realm c.nonce

  unfoldable pub respond : Challenge → Prepared
  respond c = with_realm c c.realm

  module _ (expand : List ℕ → List ℕ) where
    abbrev pub redirected : Reply → Store → Verdict
    redirected reply store =
        let (followed, store') = follow expand reply store in ended (redirection followed) store'

    -- The last reply, read over what `Buffer` holds; the test for a redirection looks at the reply
    -- before.
    unfoldable pub finish : Reply → Option (List ℕ) → List ℕ → Store → Verdict
    finish reply none buffer store = ended failed store
    finish reply (some bytes) buffer store =
        if redirects (get_status_code (some reply.bytes))
        then redirected reply store
        else if success_code =s take 3 (bytes ++ drop (length bytes) buffer)
        then ended success store
        else ended failed store

    -- The answer of the broker must prove that it knows the secret.
    unfoldable pub check :
        Reply → Option (List ℕ) → (buffer expected : List ℕ) → Store → Option (List ℕ) → Verdict
    check reply last buffer expected store none = trapped null_read
    check reply last buffer expected store (some answer) =
        if take 32 answer =s take 32 expected
        then finish reply last buffer store
        else ended failed store

    unfoldable pub verify :
        Reply → Option (List ℕ) → (buffer expected : List ℕ) → Store → Option Challenge → Verdict
    verify reply last buffer expected store none = trapped over_read
    verify reply last buffer expected store (some c) =
        check reply last buffer expected store c.rspauth

    -- What is done with a reply: a redirection is followed, and 300 is a refusal.
    unfoldable pub with_reply : Option Reply → Store → (Reply → Verdict) → Verdict
    with_reply none store go = ended failed store
    with_reply (some reply) store go =
        if redirects (get_status_code (some reply.bytes))
        then redirected reply store
        else if take 3 reply.bytes =s codes "300"
        then ended failed store
        else go reply

    -- Once the response is prepared it is sent.
    unfoldable pub after_response : Option Reply → Option (List ℕ) → Store → Prepared → Verdict
    after_response second last store (refused f) = trapped f
    after_response second last store (prepared buffer expected) =
        with_reply second store
          (λ reply. verify reply last buffer expected store (read_challenge reply.bytes))

    unfoldable pub after_challenge :
        Option Reply → Option (List ℕ) → Store → Option Challenge → Verdict
    after_challenge second last store none = trapped over_read
    after_challenge second last store (some c) = after_response second last store (respond c)

    -- `AuthDIGEST_MD5`: the replies to the name of the mechanism and to the response, and what is
    -- received at the end.
    unfoldable pub digest_md5 :
        (first second : Option Reply) → (last : Option (List ℕ)) → Store → Verdict
    digest_md5 first second last store =
        with_reply first store
          (λ reply. after_challenge second last store (read_challenge reply.bytes))
