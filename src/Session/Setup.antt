-- ===== src/Session/Setup.antt =====
-- `tspSetupTunnel` of tspc-advanced/src/tsp/tsp_client.c: one attempt to get a tunnel, with the
-- calls it makes in their order.
use gw6c.Base.{
  ℕ, List, [], ◌∷◌, Option, some, Bool, true, false, ◌==◌, ◌&&◌, not, if◌then◌else◌, bit_and,
}
use gw6c.Session.Errors
use gw6c.Session.{ℤ, pos, Reply, Store, follow, get_status_code, redirects, is_code}
use gw6c.Session.Capability.{get_capabilities}
use gw6c.Session.Auth.{Outcome, success, redirection, Exchanges, authenticate}

-- The index into the array of transports, and its values.
pub data Transport : Type 0 where
  rudp udp tcp tcp6 rudp6 : Transport

unfoldable pub is_datagram : Transport → Bool
is_datagram rudp = true
is_datagram udp = true
is_datagram tcp = false
is_datagram tcp6 = false
is_datagram rudp6 = true

-- The version of the protocol, by its index: 0 is 2.0.1, 1 is 2.0.0, 2 is 1.0.1.
abbrev pub version_1_0_1 : ℕ
version_1_0_1 = 2

-- The calls that `tspSetupTunnel` makes itself; `negotiate` and `authentication` may follow a
-- redirection within, `handle_redirect` is the one of an answer.
pub data Call : Type 0 where
  connect negotiate authentication create_request acknowledge start_local : Call
  close handle_redirect : Call

-- What the request for a tunnel brings.
pub data Answer : Type 0 where
  send_failed disconnected : Answer
  answered : Reply → Answer

-- What an attempt meets.
pub record Peer : Type 0 where
  pub connects : Bool
  pub greeting : Option Reply
  pub exchanges : Exchanges
  pub source_known : Bool
  pub answer : Answer
  pub ack_sent : Bool
  pub local_status : ℕ

-- What an attempt comes to: the status, the broker list, and the calls made.
pub record Attempt : Type 0 where
  pub status : ℤ
  pub store : Store
  pub calls : List Call

also : Call → Attempt → Attempt
also c a = record a { calls = c ∷ a.calls }

gives : ℤ → Store → Attempt
gives status store = record { status = status; store = store; calls = close ∷ [] }

abbrev pub tunnel_granted : ℕ
tunnel_granted = 200

abbrev pub server_side : ℕ
server_side = 310

module _ (expand : List ℕ → List ℕ) (peer : Peer) where
  open peer use {connects, greeting, exchanges, source_known, answer, ack_sent, local_status}

  -- From the label `start_show` on.
  unfoldable pub run_tunnel : Store → Attempt
  unfolding also gives
  run_tunnel store = also start_local (gives (pos local_status) store)

  -- From the status of the answer on.
  unfoldable pub take_answer : (version_index : ℕ) → Reply → Store → Attempt
  unfolding also gives
  take_answer version_index reply store =
      let status = get_status_code (some reply.bytes) in
      let (followed, store') = follow expand reply store in
      if redirects status
      then record (gives (pos followed) store') { calls = close ∷ handle_redirect ∷ [] }
      else if not (is_code status tunnel_granted)
      then gives (if is_code status server_side then pos Errors.server_side_error else status) store
      else if version_index == version_1_0_1
      then run_tunnel store
      else if not ack_sent
      then also acknowledge (gives (pos Errors.socket_error) store)
      else also acknowledge (run_tunnel store)

  unfoldable pub request_tunnel : (version_index : ℕ) → Answer → Store → Attempt
  unfolding also gives
  request_tunnel version_index send_failed store =
      also create_request (gives (pos Errors.socket_error) store)
  request_tunnel version_index disconnected store =
      also create_request (gives (pos Errors.socket_error) store)
  request_tunnel version_index (answered reply) store =
      also create_request (take_answer version_index reply store)

  -- From the result of the authentication on.
  unfoldable pub after_authentication : (version_index : ℕ) → Outcome × Store → Attempt
  unfolding also gives
  after_authentication version_index (success, store) =
      if not source_known
      then gives (pos Errors.socket_error) store
      else request_tunnel version_index answer store
  after_authentication version_index (redirection code, store) = gives (pos code) store
  after_authentication version_index (_, store) = gives (pos Errors.authentication_error) store

  -- `mode` and `auth_method` are those of the configuration.
  unfoldable pub setup_tunnel :
      (mode : ℕ) → (auth_method : List ℕ) → Transport → (version_index : ℕ) → Store → Attempt
  unfolding also gives
  setup_tunnel mode auth_method transport version_index store =
      let (ret, cap, store') = get_capabilities expand greeting store in
      if not connects
      then also connect (gives (pos Errors.cant_connect) store)
      else if not (ret == Errors.no_error)
      then also connect (
          also negotiate (
            gives
              (pos (
                if (ret == Errors.socket_error) && is_datagram transport
                then Errors.cant_connect
                else ret))
              store'))
      else if bit_and mode cap == 0
      then also connect (also negotiate (gives (pos Errors.tsp_error) store'))
      else also connect (
          also negotiate (
            also authentication (
              after_authentication version_index
                (authenticate expand exchanges auth_method cap store'))))
