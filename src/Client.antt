-- ===== src/Client.antt =====
-- The client: `tspMain` of tspc-advanced/src/tsp/tsp_client.c, from the choice of the first server
-- on. `State` holds the variables of the function that the connection loop keeps.
mod Tests
pub mod Transports
pub mod Brokers
pub mod Dispatch
pub mod Main
pub mod Safe
pub mod Loop
pub mod Versions
pub mod Bounded
pub mod Missed
pub mod Onward
pub mod Walk
use gw6c.Base.{
  ℕ, zero, suc, ◌+◌, List, [], ◌∷◌, ◌++◌, Option, none, some, Bool, true, false, ◌==◌,
  if◌then◌else◌,
}
use gw6c.Broker.{Broker, AddressType, no_type, fqdn, ipv4, ipv6}
use gw6c.Session.{ℤ, Store}
use gw6c.Session.Setup.{Transport}

-- `gStatusInfo.eStatus`, the values that the loop sets.
pub data Connection : Type 0 where
  idle error no_retry : Connection

-- `gStatusInfo.nStatus`, the values that the loop sets.
pub data Notice : Type 0 where
  no_notice tsp_failed socket_failed cannot_connect failed_script keepalive_timed_out : Notice
  tunnel_failed version_failed authentication_failed lease_over server_failed : Notice
  redirecting redirection_failed unknown_failure internal_failure : Notice

-- A pointer into the broker list: the allocation of the list, and the place in it.
pub record Pointer : Type 0 where
  pub generation : ℕ
  pub place : ℕ

pub record State : Type 0 where
  pub connected : Bool
  pub status : ℤ
  pub cycle : ℕ
  pub version_index : ℕ
  pub tsp_version_fallback : Bool
  pub transport : Transport
  pub server : Option (List ℕ)
  pub store : Store
  pub current_broker_in_list : Option Pointer
  pub trying_original_server : Bool
  pub trying_broker_list : Bool
  pub read_last_server : Bool
  pub e_status : Connection
  pub n_status : Notice

-- The part of `tConf` that the loop reads.
pub record Config : Type 0 where
  pub tunnel_mode : ℕ
  pub auth_method : List ℕ
  pub auto_retry_connect : Bool
  pub broker_list_named : Bool
  pub original_server : List ℕ

-- How a pass through the loop ends: by `continue`, behind the wait for `retry` seconds, by
-- `goto endtspc`, or with a broker read through a null pointer or in a list that was freed.
pub data Step : Type 0 where
  retry_now retry_later give_up : State → Step
  bad_pointer : Step

unfoldable pub broker_at : List Broker → ℕ → Option Broker
broker_at [] i = none
broker_at (b ∷ bs) zero = some b
broker_at (b ∷ bs) (suc i) = broker_at bs i

-- `*p`
unfoldable pub deref : Store → Option Pointer → Option Broker
deref store none = none
deref store (some p) =
    if p.generation == store.generation then broker_at store.brokers p.place else none

-- `p->next`, with `p` as in `deref`.
unfoldable pub next_broker : Store → Pointer → Option Broker
next_broker store p = broker_at store.brokers (p.place + 1)

abbrev pub is_ipv6 : AddressType → Bool
is_ipv6 ipv6 = true
is_ipv6 _ = false

-- `strdup`: the copy, null if there is no memory.
abbrev pub duplicate : Bool → List ℕ → Option (List ℕ)
duplicate can_alloc s = if can_alloc then some s else none

-- `FormatBrokerListAddr` for a pointer that is not null: whether it returns 0, and the server.
unfoldable pub format_broker_list_addr : (can_alloc : Bool) → Broker → Bool × Option (List ℕ)
format_broker_list_addr can_alloc b =
    if is_ipv6 b.address_type
    then (can_alloc, duplicate can_alloc (b'[' ∷ (b.address ++ (b']' ∷ []))))
    else (true, duplicate can_alloc b.address)
