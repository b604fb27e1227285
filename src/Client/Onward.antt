-- ===== src/Client/Onward.antt =====
-- From one server to the next: what `tspMain` of tspc-advanced/src/tsp/tsp_client.c does when no
-- transport connects to a server.
use mathlib.Core.List.{append_assoc}
use gw6c.Base.{
  codes, Bool, if◌then◌else◌, ℕ, ◌+◌, ◌≡◌, refl, sym, ap, ◌∙◌, List, [], ◌∷◌, ◌++◌, Option, none,
  some, true, false, ==_refl, length, length-append,
}
use gw6c.Broker.{Broker, AddressType, no_type, fqdn, ipv4, ipv6}
use gw6c.Client.{
  State, Config, retry_now, retry_later, broker_at, deref, next_broker, format_broker_list_addr,
}
use gw6c.Client.Brokers.{bump_cycle, Resources, cant_connect, broker_failed, move_on, go_to_broker}
use gw6c.Client.Dispatch.{redirected, show}
use gw6c.Client.Missed.{Same}

-- How a broker is named to connect to it: an IPv6 address stands in brackets.
unfoldable pub named : AddressType → (address : List ℕ) → List ℕ
named no_type address = address
named fqdn address = address
named ipv4 address = address
named ipv6 address = codes "[" ++ (address ++ codes "]")

abbrev pub server_of : Broker → Option (List ℕ)
server_of b = some (named b.address_type b.address)

format_at :
    (type : AddressType) (address : List ℕ) (distance : ℕ)
    → format_broker_list_addr true
        (record { address = address; address_type = type; distance = distance })
      ≡ (true, some (named type address))
unfolding format_broker_list_addr named
format_at no_type address distance = refl
format_at fqdn address distance = refl
format_at ipv4 address distance = refl
format_at ipv6 address distance = refl

format-named : (b : Broker) → format_broker_list_addr true b ≡ (true, server_of b)
format-named b = format_at b.address_type b.address b.distance

broker_at-append :
    (xs : List Broker) (b : Broker) (rest : List Broker)
    → broker_at (xs ++ (b ∷ rest)) (length xs) ≡ some b
unfolding broker_at
broker_at-append [] b rest = refl
broker_at-append (x ∷ xs) b rest = broker_at-append xs b rest

broker_at-end : (xs : List Broker) → broker_at xs (length xs) ≡ none
unfolding broker_at
broker_at-end [] = refl
broker_at-end (x ∷ xs) = broker_at-end xs

-- The client tries `b`, behind `xs` and before `rest` in the list.
pub data At (xs : List Broker) (b : Broker) (rest : List Broker) : State → Type 0 where
  at :
      {s : State}
      → s.store.brokers ≡ xs ++ (b ∷ rest)
      → s.current_broker_in_list
        ≡ some (record { generation = s.store.generation; place = length xs })
      → s.trying_broker_list ≡ true
      → s.trying_original_server ≡ false
      → s.read_last_server ≡ false
      → At xs b rest s

pub At-Same :
    {xs : List Broker} {b : Broker} {rest : List Broker} (s s' : State)
    → Same s s'
    → At xs b rest s
    → At xs b rest s'
At-Same {xs} s s' same (at list now walking away fresh) =
    at (ap (λ st. st.brokers) same.store ∙ list)
      (same.current
        ∙ now
        ∙ ap (λ st. some (record { generation = st.generation; place = length xs }))
            (sym same.store))
      (same.listed ∙ walking) (same.original ∙ away) (same.last ∙ fresh)

-- From a state that is on the way: it still runs, and its transports begin anew.
abbrev pub Fresh : State → Type 0
Fresh s = (s.connected ≡ true) × (s.cycle ≡ 0)

module _ (expand : List ℕ → List ℕ) (conf : Config) (res : Resources)
    (mem : res.can_alloc ≡ true) where
  pub next_one :
      {xs rest : List Broker} {b b' : Broker} (s : State)
      → s.connected ≡ true
      → At xs b (b' ∷ rest) s
      → (s' : State) × (cant_connect expand conf res false s ≡ retry_now s')
        × (s'.server ≡ server_of b')
        × Fresh s'
        × At (xs ++ (b ∷ [])) b' rest s'
  unfolding cant_connect broker_failed move_on go_to_broker deref next_broker
  next_one {xs} {rest} {b} {b'} s runs (at list now walking away fresh) =
      let here = ap (λ l. broker_at l (length xs)) list ∙ broker_at-append xs b (b' ∷ rest) in
      let behind = list ∙ sym (append_assoc xs (b ∷ []) (b' ∷ rest)) in
      let place : length (xs ++ (b ∷ [])) ≡ length xs + 1 = length-append xs (b ∷ []) in
      let there =
        ap (λ k. broker_at s.store.brokers k) (sym place)
        ∙ ap (λ l. broker_at l (length (xs ++ (b ∷ [])))) behind
        ∙ broker_at-append (xs ++ (b ∷ [])) b' rest in
      rw (fresh, away, walking, now, ==_refl s.store.generation, here, there, mem, format-named b')
        (
          _,
          refl,
          refl,
          (runs, refl),
          at behind
              (ap (λ k. some (record { generation = s.store.generation; place = k })) (sym place))
              walking away fresh,
        )

  pub last_one :
      {xs : List Broker} {b : Broker} (s : State)
      → s.connected ≡ true
      → At xs b [] s
      → (s' : State) × (cant_connect expand conf res false s ≡ retry_later s')
        × (s'.server ≡ some conf.original_server)
        × Fresh s'
  unfolding cant_connect broker_failed move_on deref next_broker
  last_one {xs} {b} s runs (at list now walking away fresh) =
      let here = ap (λ l. broker_at l (length xs)) list ∙ broker_at-append xs b [] in
      let place : length (xs ++ (b ∷ [])) ≡ length xs + 1 = length-append xs (b ∷ []) in
      let none_there =
        ap (λ k. broker_at s.store.brokers k) (sym place)
        ∙ ap (λ l. broker_at l (length (xs ++ (b ∷ [])))) list
        ∙ broker_at-end (xs ++ (b ∷ [])) in
      rw (fresh, away, walking, now, ==_refl s.store.generation, here, none_there, mem)
        (_, refl, refl, (runs, refl))

  pub first_one :
      (b : Broker) (rest : List Broker) (s : State)
      → s.store.brokers ≡ b ∷ rest
      → s.read_last_server ≡ false
      → s.connected ≡ true
      → (s' : State) × (redirected res (b ∷ rest) s ≡ retry_now s')
        × (s'.server ≡ server_of b)
        × Fresh s'
        × At [] b rest s'
  unfolding redirected show
  first_one b rest s list fresh runs =
      rw (mem, format-named b) (_, refl, refl, (runs, refl), at list refl refl refl fresh)

pub quick_again :
    (expand : List ℕ → List ℕ) (conf : Config) (res : Resources) (s : State)
    → cant_connect expand conf res true s ≡ retry_now (bump_cycle s)
unfolding cant_connect
quick_again expand conf res s = refl

-- Once the last server was read from its file, a server that does not answer is tried again: the
-- client goes to no other server, also when it was redirected to a list in between.
pub last_server-sticks :
    (expand : List ℕ → List ℕ) (conf : Config) (res : Resources) (quick_cycle : Bool) (s : State)
    → s.read_last_server ≡ true
    → (s' : State) × (cant_connect expand conf res quick_cycle s
        ≡ (if quick_cycle then retry_now s' else retry_later s'))
      × (s'.server ≡ s.server)
      × (s'.current_broker_in_list ≡ s.current_broker_in_list)
      × (s'.read_last_server ≡ true)
unfolding cant_connect bump_cycle
last_server-sticks expand conf res true s h = (_, refl, refl, refl, h)
last_server-sticks expand conf res false s h = rw h (_, refl, refl, refl, refl)
