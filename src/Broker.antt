-- ===== src/Broker.antt =====
-- The broker lists of tspc-advanced/src/tsp/tsp_redirect.c and include/tsp_redirect.h: adding,
-- building from a redirection message, and sorting by distance. A linked list is a List, a C
-- string the list of its bytes without the final zero, and NULL `none`.
mod Tests
pub mod Files
pub mod Log
pub mod Redirect
pub mod Create
pub mod Handled
pub mod Sort
pub mod RoundTrip
use gw6c.Base.{
  ℕ, zero, suc, ◌+◌, List, [], ◌∷◌, ◌++◌, Option, none, some, Bool, true, false, not, ltb, ◌==◌,
  if◌then◌else◌, length, take, min,
}

-- `tRedirectStatus`
pub data Status : Type 0 where
  ok internal_err cant_open_file no_last_server cant_write_to_file : Status
  cant_add_broker_to_list cant_extract_payload cant_create_list cant_sort_list : Status
  cant_log_redirection cant_allocate_mem address_truncated cant_get_distances : Status
  cant_insert_broker_in_list cant_save_broker_list empty_broker_list too_many_brokers : Status
  cant_init_thread_arg cant_create_thread cant_wait_for_thread echo_request_timeout : Status
  echo_request_error cant_malloc_thread_array cant_malloc_thread_args : Status

abbrev pub is_ok : Status → Bool
is_ok ok = true
is_ok _ = false

-- `tBrokerAddressType`
pub data AddressType : Type 0 where
  no_type fqdn ipv4 ipv6 : AddressType

-- `tBrokerList`, without its link
pub record Broker : Type 0 where
  pub address : List ℕ
  pub address_type : AddressType
  pub distance : ℕ

abbrev pub max_address : ℕ
max_address = 255

abbrev pub max_brokers : ℕ
max_brokers = 50

abbrev pub redirect_base : ℕ
redirect_base = 1000

unfoldable pub is_redirect_status : ℕ → Bool
is_redirect_status status = ltb redirect_base status

-- The part of `tTunnel` that a redirection message fills: three lists of values.
pub record TunnelInfo : Type 0 where
  pub broker_redirect_ipv4 : List (Option (List ℕ))
  pub broker_redirect_ipv6 : List (Option (List ℕ))
  pub broker_redirect_dn : List (Option (List ℕ))

-- `expand` is what `snprintf` makes of a format with no arguments, since the address is passed
-- as the format; `can_alloc` tells which call of `malloc` succeeds.
module _ (expand : List ℕ → List ℕ) where
  unfoldable pub add_broker :
      Bool → List Broker → Option (List ℕ) → AddressType → ℕ → Status × List Broker
  add_broker can_alloc brokers none address_type distance = (internal_err, brokers)
  add_broker can_alloc brokers (some address) address_type distance =
      let stored = take 254 (expand address) in
      if not can_alloc
      then (cant_allocate_mem, brokers)
      else if not (length stored == length address)
      then (address_truncated, brokers)
      else (
        ok,
        brokers
            ++ (record { address = stored; address_type = address_type; distance = distance } ∷ []),
      )

  -- One of the three loops of `tspCreateBrokerList`, from the list and the count so far.
  unfoldable pub add_all :
      (ℕ → Bool) → AddressType → List (Option (List ℕ)) → List Broker → ℕ → Status × List Broker × ℕ
  add_all can_alloc address_type [] brokers count = (ok, brokers, count)
  add_all can_alloc address_type (value ∷ values) brokers count =
      let (status, brokers') = add_broker (can_alloc count) brokers value address_type 0 in
      let more = add_all can_alloc address_type values brokers' (count + 1) in
      if ltb count max_brokers
      then (if is_ok status then more else (cant_add_broker_to_list, [], count))
      else (too_many_brokers, [], count)

  unfoldable pub create_broker_list : (ℕ → Bool) → TunnelInfo → Status × List Broker × ℕ
  create_broker_list can_alloc info =
      let (s₁, b₁, n₁) = add_all can_alloc ipv4 info.broker_redirect_ipv4 [] 0 in
      let (s₂, b₂, n₂) = add_all can_alloc ipv6 info.broker_redirect_ipv6 b₁ n₁ in
      let (s₃, b₃, n₃) = add_all can_alloc fqdn info.broker_redirect_dn b₂ n₂ in
      if not (is_ok s₁) then (s₁, b₁, n₁) else if not (is_ok s₂) then (s₂, b₂, n₂) else (s₃, b₃, n₃)

-- Before the first broker that is not nearer.
unfoldable pub insert_in_broker_list : Broker → List Broker → List Broker
insert_in_broker_list new [] = new ∷ []
insert_in_broker_list new (b ∷ bs) =
    if ltb b.distance new.distance then b ∷ insert_in_broker_list new bs else new ∷ b ∷ bs

-- What the threads of `tspGetBrokerDistances` meet: memory, thread calls by index, and the
-- distance that the echo requests to a broker give.
pub record Threads : Type 0 where
  pub array_ok : Bool
  pub args_ok : Bool
  pub attr_ok : Bool
  pub created : ℕ → Bool
  pub joined : ℕ → Bool
  pub measure : Broker → ℕ

all_ok : (ℕ → Bool) → ℕ → ℕ → Bool
all_ok p t zero = true
all_ok p t (suc n) = if p t then all_ok p (t + 1) n else false

measured : Threads → ℕ → List Broker → List Broker
measured th n [] = []
measured th zero (b ∷ bs) = b ∷ bs
measured th (suc n) (b ∷ bs) = record b { distance = th.measure b } ∷ measured th n bs

-- The status, and the list with the distances filled in. Where a thread cannot be created or
-- joined, what the others have written by then is left out: the caller drops the list.
unfoldable pub get_broker_distances : Threads → List Broker → ℕ → Status × List Broker
unfolding all_ok measured
get_broker_distances th brokers count =
    let n = min count (length brokers) in
    if not th.array_ok
    then (cant_malloc_thread_array, brokers)
    else if not th.args_ok
    then (cant_malloc_thread_args, brokers)
    else if not th.attr_ok
    then (cant_init_thread_arg, brokers)
    else if not (all_ok th.created 0 n)
    then (cant_create_thread, brokers)
    else if not (all_ok th.joined 0 n)
    then (cant_wait_for_thread, brokers)
    else (ok, measured th count brokers)

-- The loop of `tspSortBrokerList`: a copy of each broker into the sorted list.
unfoldable pub sort_from : (ℕ → Bool) → ℕ → List Broker → List Broker → Option (List Broker)
sort_from can_alloc i sorted [] = some sorted
sort_from can_alloc i sorted (b ∷ bs) =
    let rest = sort_from can_alloc (i + 1) (insert_in_broker_list b sorted) bs in
    if can_alloc i then rest else none

unfoldable pub sort_broker_list : Threads → (ℕ → Bool) → List Broker → ℕ → Status × List Broker
sort_broker_list th can_alloc brokers count =
    let (status, known) = get_broker_distances th brokers count in
    if is_ok status
    then elim (sort_from can_alloc 0 [] known) [
      | none ↦ (cant_allocate_mem, known)
      | some sorted ↦ (ok, sorted)
    ]
    else (cant_get_distances, brokers)
