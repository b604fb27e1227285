-- ===== src/Client/Missed.antt =====
-- A pass of the loop of `tspMain` of tspc-advanced/src/tsp/tsp_client.c in which no connection is
-- made, and the transports that it tries one after the other.
use gw6c.Base.{ℕ, ◌≡◌, refl, sym, ap, ◌∙◌, List, [], ◌∷◌, Bool, true, false}
use gw6c.Session.{pos, is_code}
use gw6c.Session.Errors
use gw6c.Session.Setup.{Transport, rudp, tcp, rudp6, tcp6, Peer, setup_tunnel}
use gw6c.Client.{State, Config}
use gw6c.Client.Transports.{
  v6v4, v6udpv4, v6anyv4, v4v6, version_start, version_oldest, fall_back, choose_single,
  choose_pair, choose_transport, is_quick_cycle,
}
use gw6c.Client.Brokers.{cant_connect, bump_cycle}
use gw6c.Client.Dispatch.{dispatch}
use gw6c.Client.Main.{Pass, attempt, pass}

-- The transports of a tunnel mode, in the order in which they are tried.
pub data Offers : (mode : ℕ) → List Transport → Type 0 where
  offers_udp : Offers v6udpv4 (rudp ∷ [])
  offers_any : Offers v6anyv4 (rudp ∷ tcp ∷ [])
  offers_v6v4 : Offers v6v4 (rudp ∷ tcp ∷ [])
  offers_v4v6 : Offers v4v6 (rudp6 ∷ tcp6 ∷ [])

-- What a change of the transport leaves.
pub record Same (s s' : State) : Type 0 where
  pub server : s'.server ≡ s.server
  pub store : s'.store ≡ s.store
  pub current : s'.current_broker_in_list ≡ s.current_broker_in_list
  pub original : s'.trying_original_server ≡ s.trying_original_server
  pub listed : s'.trying_broker_list ≡ s.trying_broker_list
  pub last : s'.read_last_server ≡ s.read_last_server
  pub connected : s'.connected ≡ s.connected

-- A choice: the transport, the cycle, and the rest as it was.
abbrev pub Chosen : State → Transport → ℕ → State → Type 0
Chosen s t cycle s' = (s'.transport ≡ t) × (s'.cycle ≡ cycle) × Same s s'

choose_single-Chosen :
    (limit : ℕ) (t : Transport) (s : State) → Chosen s t 0 (choose_single limit t s)
unfolding choose_single fall_back
choose_single-Chosen limit t s = (
  refl,
  refl,
  record {
    server = refl;
    store = refl;
    current = refl;
    original = refl;
    listed = refl;
    last = refl;
    connected = refl;
  },
)

choose_pair-first :
    (limit : ℕ) (t u : Transport) (s : State) → s.cycle ≡ 0 → Chosen s t 0 (choose_pair limit t u s)
unfolding choose_pair fall_back
choose_pair-first limit t u s first = rw first (
  refl,
  refl,
  record {
    server = refl;
    store = refl;
    current = refl;
    original = refl;
    listed = refl;
    last = refl;
    connected = refl;
  },
)

choose_pair-second :
    (limit : ℕ) (t u : Transport) (s : State) → s.cycle ≡ 1 → Chosen s u 1 (choose_pair limit t u s)
unfolding choose_pair fall_back
choose_pair-second limit t u s second = rw second (
  refl,
  refl,
  record {
    server = refl;
    store = refl;
    current = refl;
    original = refl;
    listed = refl;
    last = refl;
    connected = refl;
  },
)

-- A mode with one transport, and with two: the second is tried at once if the first one does not
-- connect.
pub data Tries (mode : ℕ) : List Transport → Type 0 where
  one :
      (t : Transport)
      → is_quick_cycle mode t ≡ false
      → ((s : State) → Chosen s t 0 (choose_transport mode s))
      → Tries mode (t ∷ [])
  two :
      (t u : Transport)
      → is_quick_cycle mode t ≡ true
      → is_quick_cycle mode u ≡ false
      → ((s : State) → s.cycle ≡ 0 → Chosen s t 0 (choose_transport mode s))
      → ((s : State) → s.cycle ≡ 1 → Chosen s u 1 (choose_transport mode s))
      → Tries mode (t ∷ u ∷ [])

pub Offers-Tries : {mode : ℕ} {ts : List Transport} → Offers mode ts → Tries mode ts
unfolding choose_transport is_quick_cycle
Offers-Tries offers_udp = one rudp refl (choose_single-Chosen version_start rudp)
Offers-Tries offers_any =
    two rudp tcp refl refl (choose_pair-first version_oldest rudp tcp)
      (choose_pair-second version_oldest rudp tcp)
Offers-Tries offers_v6v4 =
    two rudp tcp refl refl (choose_pair-first version_oldest rudp tcp)
      (choose_pair-second version_oldest rudp tcp)
Offers-Tries offers_v4v6 =
    two rudp6 tcp6 refl refl (choose_pair-first version_start rudp6 tcp6)
      (choose_pair-second version_start rudp6 tcp6)

attempt-missed :
    (expand : List ℕ → List ℕ) (conf : Config) (peer : Peer) (s : State)
    → peer.connects ≡ false
    → attempt expand conf peer s ≡ record s { status = pos Errors.cant_connect; store = s.store }
unfolding attempt setup_tunnel
attempt-missed expand conf peer s missed = rw missed refl

dispatch-missed :
    (expand : List ℕ → List ℕ) (conf : Config) (p : Pass) (quick_cycle : Bool) (s : State)
    → dispatch expand conf p.resources quick_cycle (record s { status = pos Errors.cant_connect })
      ≡ cant_connect expand conf p.resources quick_cycle
          (record s { status = pos Errors.cant_connect })
unfolding dispatch is_code
dispatch-missed expand conf p quick_cycle s = refl

module _ (expand : List ℕ → List ℕ) (conf : Config) where
  -- Behind a pass without a connection: the attempt as the last one, and what `cant_connect` makes
  -- of it.
  abbrev pub Missed : Transport → Bool → Pass → State → Type 0
  Missed t quick_cycle p s =
      (s' : State) × (pass expand conf p s ≡ cant_connect expand conf p.resources quick_cycle s')
      × ((choose_transport conf.tunnel_mode s).transport ≡ t)
      × (s'.cycle ≡ s.cycle)
      × Same s s'

  pub pass-Missed :
      (t : Transport) (quick_cycle : Bool) (p : Pass) (s : State)
      → p.peer.connects ≡ false
      → is_quick_cycle conf.tunnel_mode t ≡ quick_cycle
      → Chosen s t s.cycle (choose_transport conf.tunnel_mode s)
      → Missed t quick_cycle p s
  unfolding pass
  pass-Missed t quick_cycle p s missed quick (chosen, cycle, same) =
      let s₁ = choose_transport conf.tunnel_mode s in
      let s₂ = record s₁ { status = pos Errors.cant_connect; store = s₁.store } in
      (
        s₂,
        ap (dispatch expand conf p.resources (is_quick_cycle conf.tunnel_mode s₁.transport))
              (attempt-missed expand conf p.peer s₁ missed)
            ∙ dispatch-missed expand conf p (is_quick_cycle conf.tunnel_mode s₁.transport) s₂
            ∙ ap (λ b. cant_connect expand conf p.resources b s₂)
                (ap (is_quick_cycle conf.tunnel_mode) chosen ∙ quick),
        chosen,
        cycle,
        record {
          server = same.server;
          store = same.store;
          current = same.current;
          original = same.original;
          listed = same.listed;
          last = same.last;
          connected = same.connected;
        },
      )

pub kept :
    (s : State) (t : Transport) (n : ℕ) {s' : State}
    → s.cycle ≡ n
    → Chosen s t n s'
    → Chosen s t s.cycle s'
kept s t n e (transport, cycle, same) = (transport, cycle ∙ sym e, same)

pub Same-trans : (s s' s'' : State) → Same s s' → Same s' s'' → Same s s''
Same-trans s s' s'' h h' = record {
  server = h'.server ∙ h.server;
  store = h'.store ∙ h.store;
  current = h'.current ∙ h.current;
  original = h'.original ∙ h.original;
  listed = h'.listed ∙ h.listed;
  last = h'.last ∙ h.last;
  connected = h'.connected ∙ h.connected;
}

pub Same-bump : (s s' : State) → Same s s' → Same s (bump_cycle s')
unfolding bump_cycle
Same-bump s s' h = record {
  server = h.server;
  store = h.store;
  current = h.current;
  original = h.original;
  listed = h.listed;
  last = h.last;
  connected = h.connected;
}
