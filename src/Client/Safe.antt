-- ===== src/Client/Safe.antt =====
-- The connection loop reads a broker only through a pointer into the list that is in memory.
use gw6c.Base.{
  ℕ, ◌+◌, ◌≡◌, refl, List, [], ◌∷◌, Option, none, some, Bool, true, false, inl, inr, if◌then◌else◌,
  if_both, Bool-cases, ◌==◌, ==_refl, not,
}
use gw6c.Broker.{Broker}
use gw6c.Session.{ℤ, Store}
use gw6c.Client.{
  State, Config, Step, Notice, Connection, retry_now, retry_later, give_up, Pointer, deref,
  broker_at, next_broker,
}
use gw6c.Client.Transports.{choose_transport, choose_single, choose_pair, fall_back}
use gw6c.Client.Brokers.{
  Resources, go_to_broker, bump_cycle, start_list, original_failed, broker_failed, cant_connect,
  move_on,
}
use gw6c.Client.Dispatch.{
  dispatch, show, stop, change_transport, keepalive_failed, version_refused, redirected,
  redirection_lost,
}

-- The pointer to the current broker reads a broker of the list in memory.
pub Reads : State → Type 0
Reads s =
    (p : Pointer) × (b : Broker) × (s.current_broker_in_list ≡ some p)
    × (deref s.store (some p) ≡ some b)

-- What keeps the loop from reading through a bad pointer in its next pass.
pub data IsSafe (s : State) : Type 0 where
  leaves : s.connected ≡ false → IsSafe s
  at_original : s.trying_original_server ≡ true → IsSafe s
  at_last : s.read_last_server ≡ true → IsSafe s
  in_list : s.trying_broker_list ≡ true → Reads s → IsSafe s

pub data IsSafeStep : Step → Type 0 where
  now : {s : State} → IsSafe s → IsSafeStep (retry_now s)
  later : {s : State} → IsSafe s → IsSafeStep (retry_later s)
  over : (s : State) → IsSafeStep (give_up s)

-- The fields that `IsSafe` reads are the same.
pub data Agree (s t : State) : Type 0 where
  agree :
      t.connected ≡ s.connected
      → t.trying_original_server ≡ s.trying_original_server
      → t.read_last_server ≡ s.read_last_server
      → t.trying_broker_list ≡ s.trying_broker_list
      → t.current_broker_in_list ≡ s.current_broker_in_list
      → t.store ≡ s.store
      → Agree s t

pub IsSafe-Agree : {s t : State} → Agree s t → IsSafe s → IsSafe t
unfolding Reads
IsSafe-Agree (agree c o l b p st) (leaves e) = leaves (rw c e)
IsSafe-Agree (agree c o l b p st) (at_original e) = at_original (rw o e)
IsSafe-Agree (agree c o l b p st) (at_last e) = at_last (rw l e)
IsSafe-Agree (agree c o l b p st) (in_list e (q, r, same, read)) =
    in_list (rw b e) (q, r, rw p same, rw st read)

-- Only the fields that the loop shows and the cycle differ.
IsSafe-same :
    {s : State} {status : ℤ} {c v : ℕ} {f : Bool} {n : Notice} {e : Connection}
    → IsSafe s
    → IsSafe (record s {
      status = status;
      cycle = c;
      version_index = v;
      tsp_version_fallback = f;
      n_status = n;
      e_status = e;
    })
unfolding Reads
IsSafe-same (leaves h) = leaves h
IsSafe-same (at_original h) = at_original h
IsSafe-same (at_last h) = at_last h
IsSafe-same (in_list h r) = in_list h r

IsSafe-version : {s t : State} (b : Bool) → IsSafe s → IsSafe t → IsSafe (if b then s else t)
IsSafe-version b = if_both IsSafe b

pub choose-agrees : (mode : ℕ) (s : State) → Agree s (choose_transport mode s)
unfolding choose_transport choose_single choose_pair fall_back
choose-agrees mode s = search (if_both (Agree s), agree)

go_to_broker-safe :
    (can_alloc : Bool) (p : Pointer) (b : Broker) (s : State)
    → s.trying_broker_list ≡ true
    → deref s.store (some p) ≡ some b
    → IsSafeStep (go_to_broker can_alloc p b s)
unfolding go_to_broker Reads
go_to_broker-safe can_alloc p b s e read =
    if_both IsSafeStep _ (now (in_list e (p, b, refl, read))) (over _)

first-reads :
    (g : ℕ) (b : Broker) (bs : List Broker)
    → deref
        (record { generation = g; brokers = b ∷ bs })
        (some (record { generation = g; place = 0 }))
      ≡ some b
unfolding deref broker_at
first-reads g b bs = rw (==_refl g) refl

start_list-safe :
    (res : Resources) (brokers : List Broker) (s : State)
    → s.store.brokers ≡ brokers
    → s.trying_original_server ≡ true
    → IsSafeStep (start_list res brokers s)
unfolding start_list bump_cycle
start_list-safe res [] s e o = later (at_original o)
start_list-safe res (b ∷ bs) s e o =
    go_to_broker-safe res.can_alloc _ b _ refl (rw e (first-reads s.store.generation b bs))

original_failed-safe :
    (expand : List ℕ → List ℕ) (conf : Config) (res : Resources) (s : State)
    → s.trying_original_server ≡ true
    → IsSafeStep (original_failed expand conf res s)
unfolding original_failed bump_cycle
original_failed-safe expand conf res s o =
    if_both IsSafeStep (not conf.broker_list_named) (later (at_original o))
      (if_both IsSafeStep _ (start_list-safe res _ _ refl o) (later (at_original o)))

next-reads :
    (store : Store) (p : Pointer) {b b' : Broker}
    → deref store (some p) ≡ some b
    → next_broker store p ≡ some b'
    → deref store (some (record { generation = p.generation; place = p.place + 1 })) ≡ some b'
unfolding deref next_broker
next-reads store p e next = elim (Bool-cases (p.generation == store.generation)) [
  | inl same ↦ rw same next
  | inr other ↦ cc (rw other at e)
]

move_on-safe :
    (conf : Config) (res : Resources) (s : State) (p : Pointer) {b : Broker} (next : Option Broker)
    → s.trying_broker_list ≡ true
    → deref s.store (some p) ≡ some b
    → next_broker s.store p ≡ next
    → IsSafeStep (move_on conf res p (some b) next s)
unfolding move_on
move_on-safe conf res s p none e read same = later (at_original refl)
move_on-safe conf res s p (some b') e read same =
    go_to_broker-safe res.can_alloc _ b' s e (next-reads s.store p read same)

broker_failed-safe :
    (conf : Config) (res : Resources) (s : State)
    → s.trying_broker_list ≡ true
    → Reads s
    → IsSafeStep (broker_failed conf res s)
unfolding Reads broker_failed
broker_failed-safe conf res s e (p, b, same, read) =
    rw (same, read) (move_on-safe conf res _ p _ e read refl)

module _ (expand : List ℕ → List ℕ) (conf : Config) (res : Resources) where
  original-safe :
      (quick_cycle : Bool) (s : State)
      → s.trying_original_server ≡ true
      → IsSafeStep (cant_connect expand conf res quick_cycle s)
  unfolding cant_connect bump_cycle
  original-safe quick_cycle s o = rw o (
      if_both IsSafeStep quick_cycle (now (at_original refl)) (
        if_both IsSafeStep s.read_last_server (later (at_original refl))
          (original_failed-safe expand conf res _ refl)))

  cant_connect-safe :
      (quick_cycle : Bool) (s : State)
      → s.connected ≡ true
      → IsSafe s
      → IsSafeStep (cant_connect expand conf res quick_cycle s)
  unfolding cant_connect bump_cycle Reads
  cant_connect-safe quick_cycle s c (leaves e) = cc
  cant_connect-safe quick_cycle s c (at_original o) = original-safe quick_cycle s o
  cant_connect-safe quick_cycle s c (at_last l) =
      rw l (if_both IsSafeStep quick_cycle (now (at_last refl)) (later (at_last refl)))
  cant_connect-safe quick_cycle s c (in_list e r) = elim (Bool-cases s.trying_original_server) [
    | inl o ↦ original-safe quick_cycle s o
    | inr o ↦
        rw (o, e)
          (if_both IsSafeStep quick_cycle (now (in_list refl r)) (
            if_both IsSafeStep s.read_last_server (later (in_list refl r))
              (broker_failed-safe conf res _ refl r)))
  ]

  pub redirected-safe :
      (brokers : List Broker) (s : State)
      → s.store.brokers ≡ brokers
      → IsSafeStep (redirected res brokers s)
  unfolding redirected stop show Reads
  redirected-safe [] s e = now (leaves refl)
  redirected-safe (b ∷ bs) s e =
      if_both IsSafeStep _
        (now (in_list refl (_, b, refl, rw e (first-reads s.store.generation b bs)))) (over _)

  pub dispatch-safe :
      (quick_cycle : Bool) (s : State)
      → s.connected ≡ true
      → IsSafe s
      → IsSafeStep (dispatch expand conf res quick_cycle s)
  unfolding dispatch stop show change_transport keepalive_failed version_refused redirection_lost
      bump_cycle
  dispatch-safe quick_cycle s c h =
      search
        (
          if_both IsSafeStep,
          now,
          later,
          leaves,
          IsSafe-version,
          IsSafe-same h,
          cant_connect-safe quick_cycle s c h,
          redirected-safe,
        )
        depth 24
