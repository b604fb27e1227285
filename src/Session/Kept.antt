-- ===== src/Session/Kept.antt =====
-- Which attempts change the broker list.
use mathlib.Core.Path.{subst}
use mathlib.Core.Bool.{not}
use mathlib.Core.Logic.{◌⊎◌, inl, inr}
use gw6c.Base.{ℕ, ◌≡◌, refl, List, Option, none, some, Bool, true, false, ◌⊎◌, inl, inr, if_both}
use gw6c.Session.Errors
use gw6c.Session.{pos, Reply, Store, follow, redirects, get_status_code}
use gw6c.Session.Capability.{get_capabilities}
use gw6c.Session.Auth.{
  Outcome, success, failed, no_common_mechanism, redirection, judge, auth_anonymous_exchange,
  auth_plain_exchange, Exchange, ended, redirected, run_exchange, Exchanges, authenticate,
}
use gw6c.Session.Setup.{
  Transport, Call, Answer, answered, send_failed, disconnected, Peer, Attempt, run_tunnel,
  take_answer, request_tunnel, after_authentication, setup_tunnel,
}

-- The two codes of a redirection.
pub data IsRedirection : ℕ → Type 0 where
  followed : IsRedirection Errors.broker_redirection
  lost : IsRedirection Errors.broker_redirection_error

follow-IsRedirection :
    (expand : List ℕ → List ℕ) (reply : Reply) (store : Store)
    → IsRedirection (follow expand reply store).0
unfolding follow
follow-IsRedirection expand reply store = if_both IsRedirection _ followed lost

-- What an exchange leaves of the list `store`.
data KeptBy (store : Store) : Outcome × Store → Type 0 where
  same : (o : Outcome) → KeptBy store (o, store)
  moved : {code : ℕ} (s : Store) → IsRedirection code → KeptBy store (redirection code, s)

-- What the greeting leaves of it.
data KeptAt (store : Store) : ℕ × ℕ × Store → Type 0 where
  same_at : (code bits : ℕ) → KeptAt store (code, bits, store)
  moved_at : {code : ℕ} (s : Store) → IsRedirection code → KeptAt store (code, 0, s)

-- The list is as before, or the status is a code of a redirection.
pub data Kept (store : Store) : Attempt → Type 0 where
  unchanged : {a : Attempt} → a.store ≡ store → Kept store a
  changed : {a : Attempt} {code : ℕ} → IsRedirection code → a.status ≡ pos code → Kept store a

also-Kept :
    {store : Store} {a : Attempt} {calls : List Call}
    → Kept store a
    → Kept store (record a { calls = calls })
also-Kept (unchanged e) = unchanged e
also-Kept (changed k e) = changed k e

IsRedirection-value :
    {n : ℕ}
    → IsRedirection n
    → (n ≡ Errors.broker_redirection) ⊎ (n ≡ Errors.broker_redirection_error)
IsRedirection-value followed = inl refl
IsRedirection-value lost = inr refl

KeptAt-cases :
    {store : Store} {r : ℕ × ℕ × Store}
    → KeptAt store r
    → (r.2 ≡ store) ⊎ (r.0 ≡ Errors.broker_redirection) ⊎ (r.0 ≡ Errors.broker_redirection_error)
KeptAt-cases (same_at code bits) = inl refl
KeptAt-cases (moved_at s k) = inr (IsRedirection-value k)

module _ (expand : List ℕ → List ℕ) (store : Store) where
  judge-kept : (reply : Reply) → KeptBy store (judge expand reply store)
  unfolding judge
  judge-kept reply =
      search (if_both (KeptBy store), moved, same, follow-IsRedirection expand reply store)

  anonymous-kept :
      (reply : Option Reply) → KeptBy store (auth_anonymous_exchange expand reply store)
  unfolding auth_anonymous_exchange
  anonymous-kept none = same _
  anonymous-kept (some reply) = judge-kept reply

  plain-kept :
      (sent : Bool) (reply : Option Reply)
      → KeptBy store (auth_plain_exchange expand sent reply store)
  unfolding auth_plain_exchange
  plain-kept sent none = same _
  plain-kept sent (some reply) = if_both (KeptBy store) sent (judge-kept reply) (same _)

  exchange-kept : (e : Exchange) → KeptBy store (run_exchange expand e store)
  unfolding run_exchange
  exchange-kept (ended true) = same _
  exchange-kept (ended false) = same _
  exchange-kept (redirected reply) = moved _ (follow-IsRedirection expand reply store)

  authenticate-kept :
      (x : Exchanges) (auth_method : List ℕ) (cap : ℕ)
      → KeptBy store (authenticate expand x auth_method cap store)
  unfolding authenticate
  authenticate-kept x auth_method cap =
      search (if_both (KeptBy store), exchange-kept, plain-kept, anonymous-kept, same)

  capabilities-kept : (reply : Option Reply) → KeptAt store (get_capabilities expand reply store)
  unfolding get_capabilities
  capabilities-kept none = same_at _ _
  capabilities-kept (some reply) =
      search (if_both (KeptAt store), moved_at, same_at, follow-IsRedirection expand reply store)

  take_answer-Kept :
      (peer : Peer) (v : ℕ) (reply : Reply) → Kept store (take_answer expand peer v reply store)
  unfolding take_answer run_tunnel
  take_answer-Kept peer v reply =
      if_both (Kept store) (redirects (get_status_code (some reply.bytes)))
        (changed (follow-IsRedirection expand reply store) refl)
        (search (if_both (Kept store), unchanged))

  request-Kept :
      (peer : Peer) (v : ℕ) (answer : Answer)
      → Kept store (request_tunnel expand peer v answer store)
  unfolding request_tunnel
  request-Kept peer v send_failed = unchanged refl
  request-Kept peer v disconnected = unchanged refl
  request-Kept peer v (answered reply) = also-Kept (take_answer-Kept peer v reply)

  authenticated-Kept :
      (peer : Peer) (v : ℕ) (r : Outcome × Store)
      → KeptBy store r
      → Kept store (after_authentication expand peer v r)
  unfolding after_authentication
  authenticated-Kept peer v _ (same success) =
      search (if_both (Kept store), unchanged, request-Kept)
  authenticated-Kept peer v _ (same failed) = unchanged refl
  authenticated-Kept peer v _ (same no_common_mechanism) = unchanged refl
  authenticated-Kept peer v _ (same (redirection code)) = unchanged refl
  authenticated-Kept peer v _ (moved s k) = changed k refl

Kept-at :
    (expand : List ℕ → List ℕ) (peer : Peer) (v : ℕ) (x : Exchanges) (auth_method : List ℕ)
    (bits : ℕ) {s store : Store}
    → s ≡ store
    → Kept store (after_authentication expand peer v (authenticate expand x auth_method bits s))
Kept-at expand peer v x auth_method bits {s} e =
    subst
      (λ t. Kept t (after_authentication expand peer v (authenticate expand x auth_method bits s)))
      e (authenticated-Kept expand s peer v _ (authenticate-kept expand s x auth_method bits))

-- An attempt leaves the broker list as it is, unless its status is BROKER_REDIRECTION or
-- BROKER_REDIRECTION_ERROR.
pub setup_tunnel-Kept :
    (expand : List ℕ → List ℕ) (peer : Peer) (mode : ℕ) (auth_method : List ℕ)
    (transport : Transport) (v : ℕ) (store : Store)
    → Kept store (setup_tunnel expand peer mode auth_method transport v store)
unfolding setup_tunnel
setup_tunnel-Kept expand peer mode auth_method transport v store =
    elim (KeptAt-cases (capabilities-kept expand store peer.greeting)) [
      | inl e ↦ search (if_both (Kept store), unchanged, also-Kept, Kept-at, e)
      | inr (inl e) ↦
          rw e (if_both (Kept store) (not peer.connects) (unchanged refl) (changed followed refl))
      | inr (inr e) ↦
          rw e (if_both (Kept store) (not peer.connects) (unchanged refl) (changed lost refl))
    ]
