-- ===== src/Session/Calls.antt =====
-- The calls of an attempt: the socket is closed once, at the end, and a tunnel is set up only when
-- it was granted.
use gw6c.Base.{
  ℕ, ◌≡◌, ◌≢◌, refl, List, [], ◌∷◌, some, Bool, true, false, if◌then◌else◌, if_both, if_where,
  Bool-cases, ◌==◌, ◌⊎◌, inl, inr, not, bit_and, arith,
}
use gw6c.Session.{Reply, Store, get_status_code, is_code, redirects}
use gw6c.Session.Capability.{get_capabilities}
use gw6c.Session.Auth.{Outcome, success, failed, no_common_mechanism, redirection, authenticate}
use gw6c.Session.Setup.{
  Transport, Call, acknowledge, start_local, close, handle_redirect, Answer, answered, send_failed,
  disconnected, Peer, Attempt, run_tunnel, take_answer, request_tunnel, after_authentication,
  setup_tunnel, version_1_0_1, tunnel_granted,
}

abbrev pub is_close : Call → Bool
is_close close = true
is_close _ = false

abbrev pub is_start_local : Call → Bool
is_start_local start_local = true
is_start_local _ = false

abbrev pub is_acknowledge : Call → Bool
is_acknowledge acknowledge = true
is_acknowledge _ = false

-- The answer to the request redirects.
abbrev pub Redirects : Answer → Type 0
Redirects (answered reply) = redirects (get_status_code (some reply.bytes)) ≡ true
Redirects _ = ⊥

-- The calls close the socket once, and nothing is called behind that, but that an answer which
-- redirects is handled.
pub data ClosesOnce (answer : Answer) : List Call → Type 0 where
  closes : ClosesOnce answer (close ∷ [])
  follows : Redirects answer → ClosesOnce answer (close ∷ handle_redirect ∷ [])
  before :
      {c : Call} {cs : List Call}
      → is_close c ≡ false
      → ClosesOnce answer cs
      → ClosesOnce answer (c ∷ cs)

data Closing (answer : Answer) : Attempt → Type 0 where
  closing : {a : Attempt} → ClosesOnce answer a.calls → Closing answer a

Closing-closes : {answer : Answer} {a : Attempt} → Closing answer a → ClosesOnce answer a.calls
Closing-closes (closing h) = h

also-Closing :
    {answer : Answer} {c : Call} {a : Attempt}
    → is_close c ≡ false
    → Closing answer a
    → Closing answer (record a { calls = c ∷ a.calls })
also-Closing e (closing h) = closing (before e h)

module _ (expand : List ℕ → List ℕ) (peer : Peer) where
  take_answer-Closing :
      (v : ℕ) (reply : Reply) (store : Store)
      → Closing (answered reply) (take_answer expand peer v reply store)
  unfolding take_answer run_tunnel
  take_answer-Closing v reply store =
      let C = Closing (answered reply) in
      if_where C (redirects (get_status_code (some reply.bytes))) (λ e. closing (follows e))
        (λ n. search (if_both C, closing, closes, before) depth 16)

  request-Closing :
      (v : ℕ) (answer : Answer) (store : Store)
      → Closing answer (request_tunnel expand peer v answer store)
  unfolding request_tunnel
  request-Closing v send_failed store = closing (before refl closes)
  request-Closing v disconnected store = closing (before refl closes)
  request-Closing v (answered reply) store = also-Closing refl (take_answer-Closing v reply store)

  authenticated-Closing :
      (v : ℕ) (r : Outcome × Store) → Closing peer.answer (after_authentication expand peer v r)
  unfolding after_authentication
  authenticated-Closing v (success, store) =
      if_both (Closing peer.answer) (not peer.source_known) (closing closes)
        (request-Closing v peer.answer store)
  authenticated-Closing v (failed, store) = closing closes
  authenticated-Closing v (no_common_mechanism, store) = closing closes
  authenticated-Closing v (redirection code, store) = closing closes

  setup-Closing :
      (mode : ℕ) (auth_method : List ℕ) (transport : Transport) (v : ℕ) (store : Store)
      → Closing peer.answer (setup_tunnel expand peer mode auth_method transport v store)
  unfolding setup_tunnel
  setup-Closing mode auth_method transport v store =
      search
        (
          if_both (Closing peer.answer),
          closing,
          closes,
          before,
          Closing-closes,
          authenticated-Closing,
        )
        depth 16

-- Whatever an attempt meets, the socket is closed exactly once, and that is the last call, unless
-- the answer to the request redirects: then its redirection is handled behind that, and nothing
-- more.
pub setup_tunnel-closes :
    (expand : List ℕ → List ℕ) (peer : Peer) (mode : ℕ) (auth_method : List ℕ)
    (transport : Transport) (v : ℕ) (store : Store)
    → ClosesOnce peer.answer (setup_tunnel expand peer mode auth_method transport v store).calls
setup_tunnel-closes expand peer mode auth_method transport v store =
    Closing-closes (setup-Closing expand peer mode auth_method transport v store)

abbrev pub has : (Call → Bool) → List Call → Bool
has p [] = false
has p (c ∷ cs) = if p c then true else has p cs

-- The answer grants a tunnel, and what has to be acknowledged is.
abbrev pub IsGranted : Peer → ℕ → Answer → Type 0
IsGranted peer v (answered reply) =
    (is_code (get_status_code (some reply.bytes)) tunnel_granted ≡ true)
    × (((v == version_1_0_1) ≡ true) ⊎ (peer.ack_sent ≡ true))
IsGranted peer v _ = ⊥

module _ (expand : List ℕ → List ℕ) (peer : Peer) where
  take_answer-IsGranted :
      (v : ℕ) (reply : Reply) (store : Store)
      → has is_start_local (take_answer expand peer v reply store).calls ≡ true
      → IsGranted peer v (answered reply)
  unfolding take_answer run_tunnel
  take_answer-IsGranted v reply store h = ground arith

  request-IsGranted :
      (v : ℕ) (answer : Answer) (store : Store)
      → has is_start_local (request_tunnel expand peer v answer store).calls ≡ true
      → IsGranted peer v answer
  unfolding request_tunnel
  request-IsGranted v send_failed store h = cc
  request-IsGranted v disconnected store h = cc
  request-IsGranted v (answered reply) store h = take_answer-IsGranted v reply store h

  authenticated-IsGranted :
      (v : ℕ) (r : Outcome × Store)
      → has is_start_local (after_authentication expand peer v r).calls ≡ true
      → (r.0 ≡ success) × IsGranted peer v peer.answer
  unfolding after_authentication request_tunnel take_answer run_tunnel
  authenticated-IsGranted v (success, store) h = elim (Bool-cases peer.source_known) [
    | inl e ↦ (refl, request-IsGranted v peer.answer store (rw e at h))
    | inr e ↦ cc (rw e at h)
  ]
  authenticated-IsGranted v (failed, store) h = cc
  authenticated-IsGranted v (no_common_mechanism, store) h = cc
  authenticated-IsGranted v (redirection code, store) h = cc

-- A tunnel is set up only if the broker offers the mode, the authentication succeeds, the broker
-- grants the tunnel with status 200, and the client acknowledges it, unless the version is 1.0.1.
pub start_local-IsGranted :
    (expand : List ℕ → List ℕ) (peer : Peer) (mode : ℕ) (auth_method : List ℕ)
    (transport : Transport) (v : ℕ) (store : Store)
    → has is_start_local (setup_tunnel expand peer mode auth_method transport v store).calls ≡ true
    → (bit_and mode (get_capabilities expand peer.greeting store).1 ≢ 0)
      × ((authenticate expand peer.exchanges auth_method
            (get_capabilities expand peer.greeting store).1
            (get_capabilities expand peer.greeting store).2).0
          ≡ success)
      × IsGranted peer v peer.answer
unfolding setup_tunnel
start_local-IsGranted expand peer mode auth_method transport v store h =
    let (ret, bits, store') = get_capabilities expand peer.greeting store in
    let Granted : Type 0 =
      (bit_and mode bits ≢ 0)
      × ((authenticate expand peer.exchanges auth_method bits store').0 ≡ success)
      × IsGranted peer v peer.answer in
    let P : Attempt → Type 0 = λ a. has is_start_local a.calls ≡ true → Granted in
    if_where P (not peer.connects) (λ _ h. cc)
      (λ _.
        if_where P (not (ret == 0)) (λ _ h. cc)
          (λ _.
            if_where P (bit_and mode bits == 0) (λ _ h. cc)
              (λ e h.
                let g = authenticated-IsGranted expand peer v _ h in (ground arith, g.0, g.1))))
      h
