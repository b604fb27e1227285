-- ===== src/Client/Brokers.antt =====
-- What the loop does when no transport connects to a server: on to the next broker of the list,
-- from the last one back to the original server, and from there to the list in the file.
use gw6c.Base.{ℕ, ◌+◌, List, [], ◌∷◌, Option, none, some, Bool, true, false, not, if◌then◌else◌}
use gw6c.Broker.{Broker, is_ok}
use gw6c.Broker.Files.{read_broker_list}
use gw6c.Session.Errors
use gw6c.Session.{pos, free_broker_list}
use gw6c.Client.{
  State, Config, Step, retry_now, retry_later, give_up, bad_pointer, Pointer, deref, next_broker,
  format_broker_list_addr, duplicate, error, cannot_connect, redirection_failed,
}

-- What the calls of `malloc` and `strdup` and the broker list file give during a pass.
pub record Resources : Type 0 where
  pub can_alloc : Bool
  pub file : Option (List ℕ)
  pub file_alloc : ℕ → Bool

-- The error path of `FormatBrokerListAddr`: the list is freed.
unfoldable pub address_failed : State → State
address_failed s = record s {
  store = free_broker_list s.store;
  status = pos Errors.broker_redirection_error;
  n_status = redirection_failed;
  connected = false;
}

-- To the broker at `p`, at once, with the first transport.
unfoldable pub go_to_broker : (can_alloc : Bool) → Pointer → Broker → State → Step
go_to_broker can_alloc p b s =
    let (formatted, server) = format_broker_list_addr can_alloc b in
    if formatted
    then retry_now (record s { current_broker_in_list = some p; server = server; cycle = 0 })
    else give_up (address_failed (record s { current_broker_in_list = some p; server = server }))

unfoldable pub bump_cycle : State → State
bump_cycle s = record s { cycle = s.cycle + 1 }

-- The list that the file gave, from its first broker.
unfoldable pub start_list : Resources → List Broker → State → Step
start_list res [] s = retry_later (bump_cycle s)
start_list res (b ∷ bs) s =
    go_to_broker res.can_alloc (record { generation = s.store.generation; place = 0 }) b
      (record s { trying_broker_list = true; trying_original_server = false })

-- The original server does not answer: the list is dropped and read from the file.
unfoldable pub original_failed : (expand : List ℕ → List ℕ) → Config → Resources → State → Step
original_failed expand conf res s =
    let cleared = record s { store = free_broker_list s.store } in
    let (status, brokers) = read_broker_list expand true res.file_alloc res.file in
    let filled = record cleared {
      store = record { generation = cleared.store.generation + 1; brokers = brokers };
    } in
    if not conf.broker_list_named
    then retry_later (bump_cycle cleared)
    else if is_ok status
    then start_list res brokers filled
    else retry_later (bump_cycle (record filled { store = free_broker_list filled.store }))

-- With the current broker, and with the one that its `next` gives.
unfoldable pub move_on :
    Config → Resources → Pointer → (current next : Option Broker) → State → Step
move_on conf res p none next s = bad_pointer
move_on conf res p (some b) none s = retry_later (record s {
  server = duplicate res.can_alloc conf.original_server;
  cycle = 0;
  trying_original_server = true;
})
move_on conf res p (some b) (some b') s =
    go_to_broker res.can_alloc (record { generation = p.generation; place = p.place + 1 }) b' s

-- A broker of the list does not answer. Behind the last one is the original server.
unfoldable pub broker_failed : Config → Resources → State → Step
broker_failed conf res s = elim s.current_broker_in_list [
  | none ↦ bad_pointer
  | some p ↦ move_on conf res p (deref s.store (some p)) (next_broker s.store p) s
]

-- `SOCKET_ERROR_CANT_CONNECT`. Where the pointers are not safe, the code shows the address of the
-- current broker, through the pointer that is not safe.
unfoldable pub cant_connect :
    (expand : List ℕ → List ℕ) → Config → Resources → (quick_cycle : Bool) → State → Step
cant_connect expand conf res quick_cycle s =
    let shown = record s { e_status = error; n_status = cannot_connect } in
    if quick_cycle
    then retry_now (bump_cycle s)
    else if s.read_last_server
    then retry_later (bump_cycle shown)
    else if s.trying_original_server
    then original_failed expand conf res shown
    else if s.trying_broker_list
    then broker_failed conf res shown
    else retry_later shown
