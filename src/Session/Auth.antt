-- ===== src/Session/Auth.antt =====
-- Authentication: tspc-advanced/src/tsp/tsp_auth.c. The exchanges of DIGEST-MD5 and of
-- PASSDSS-3DES-1 are arguments; which mechanism is used, and the two plain ones, are modelled
-- here; `Session.Digest` and `Session.Passdss` are about the other two.
use gw6c.Base.{
  ℕ, List, [], ◌∷◌, Option, none, some, Bool, true, false, ◌==◌, ◌=s◌, not, if◌then◌else◌, bit_and,
  take,
}
use gw6c.Session.Words
use gw6c.Session.{Reply, Store, follow, get_status_code, redirects}
use gw6c.Session.Capability.{
  set_capability, same_word, auth_any, auth_anonymous, auth_plain, auth_digest_md5,
  auth_passdss_3des_1,
}

-- 0; -1 or 1; -100; or one of the two codes of a redirection.
pub data Outcome : Type 0 where
  success failed no_common_mechanism : Outcome
  redirection : ℕ → Outcome

abbrev pub success_code : List ℕ
success_code = b'2' ∷ b'0' ∷ b'0' ∷ []

-- What the last reply of an exchange comes to.
unfoldable pub judge : (expand : List ℕ → List ℕ) → Reply → Store → Outcome × Store
judge expand reply store =
    let (followed, store') = follow expand reply store in
    if redirects (get_status_code (some reply.bytes))
    then (redirection followed, store')
    else if success_code =s take 3 reply.bytes
    then (success, store)
    else (failed, store)

unfoldable pub auth_anonymous_exchange :
    (expand : List ℕ → List ℕ) → Option Reply → Store → Outcome × Store
auth_anonymous_exchange expand none store = (failed, store)
auth_anonymous_exchange expand (some reply) store = judge expand reply store

-- `sent`: the name of the mechanism was sent.
unfoldable pub auth_plain_exchange :
    (expand : List ℕ → List ℕ) → (sent : Bool) → Option Reply → Store → Outcome × Store
auth_plain_exchange expand sent none store = (failed, store)
auth_plain_exchange expand sent (some reply) store =
    if sent then judge expand reply store else (failed, store)

-- What the exchanges meet. The two exchanges that are arguments may end in any way, and may
-- follow a redirection of a reply.
pub data Exchange : Type 0 where
  ended : Bool → Exchange
  redirected : Reply → Exchange

unfoldable pub run_exchange : (expand : List ℕ → List ℕ) → Exchange → Store → Outcome × Store
run_exchange expand (ended true) store = (success, store)
run_exchange expand (ended false) store = (failed, store)
run_exchange expand (redirected reply) store =
    let (followed, store') = follow expand reply store in (redirection followed, store')

pub record Exchanges : Type 0 where
  pub passdss : Exchange
  pub digest_md5 : Exchange
  pub plain_sent : Bool
  pub plain : Option Reply
  pub anonymous : Option Reply

unfoldable pub mechanism : (auth_method : List ℕ) → ℕ
mechanism auth_method =
    if same_word auth_method Words.any then auth_any else set_capability Words.auth auth_method

-- `Mechanism & cap & bit`
unfoldable pub has : (mechanism cap bit : ℕ) → Bool
has mechanism cap bit = not (bit_and (bit_and mechanism cap) bit == 0)

unfoldable pub authenticate :
    (expand : List ℕ → List ℕ)
    → Exchanges
    → (auth_method : List ℕ) → (cap : ℕ) → Store
    → Outcome × Store
authenticate expand exchanges auth_method cap store =
    let m = mechanism auth_method in
    if not (same_word auth_method Words.anonymous)
    then if has m cap auth_passdss_3des_1
      then run_exchange expand exchanges.passdss store
      else if has m cap auth_digest_md5
      then run_exchange expand exchanges.digest_md5 store
      else if has m cap auth_plain
      then auth_plain_exchange expand exchanges.plain_sent exchanges.plain store
      else (no_common_mechanism, store)
    else if has m cap auth_anonymous
    then auth_anonymous_exchange expand exchanges.anonymous store
    else (no_common_mechanism, store)
