-- ===== src/Client/Versions.antt =====
-- The transport and the version of the protocol that the passes use.
use gw6c.Base.{ℕ, ◌≤◌, if◌then◌else◌, if_both, ◌==◌, ◌||◌, arith}
use gw6c.Session.Setup.{Transport, rudp, tcp, tcp6, rudp6}
use gw6c.Client.{State}
use gw6c.Client.Transports.{
  v6v4, v6udpv4, v6anyv4, v4v6, choose_transport, choose_single, choose_pair, fall_back,
  version_start, version_oldest,
}

pub data IsMode : ℕ → Type 0 where
  is_v6v4 : IsMode v6v4
  is_v6udpv4 : IsMode v6udpv4
  is_v6anyv4 : IsMode v6anyv4
  is_v4v6 : IsMode v4v6

-- The transports of a mode.
pub data Carries : (mode : ℕ) → Transport → Type 0 where
  udp_only : Carries v6udpv4 rudp
  v6v4_udp : Carries v6v4 rudp
  v6v4_tcp : Carries v6v4 tcp
  any_udp : Carries v6anyv4 rudp
  any_tcp : Carries v6anyv4 tcp
  v4v6_udp : Carries v4v6 rudp6
  v4v6_tcp : Carries v4v6 tcp6

-- The oldest version of a mode.
abbrev pub oldest : (mode : ℕ) → ℕ
oldest mode = if (mode == v6anyv4) || (mode == v6v4) then version_oldest else version_start

-- The versions do not pass the oldest of the mode, whatever the state.
fall_back-bound :
    (limit : ℕ) (s : State) → s.version_index ≤ limit → (fall_back limit s).version_index ≤ limit
unfolding fall_back
fall_back-bound limit s h = ground arith

pub data Chosen (mode limit : ℕ) (t : State) : Type 0 where
  chosen : Carries mode t.transport → t.version_index ≤ limit → Chosen mode limit t

choose_single-Chosen :
    {mode : ℕ} (limit : ℕ) {first : Transport} (s : State)
    → Carries mode first
    → s.version_index ≤ limit
    → Chosen mode limit (choose_single limit first s)
unfolding choose_single
choose_single-Chosen limit s c h = chosen c (fall_back-bound limit s h)

choose_pair-Chosen :
    {mode : ℕ} (limit : ℕ) {first second : Transport} (s : State)
    → Carries mode first
    → Carries mode second
    → s.version_index ≤ limit
    → Chosen mode limit (choose_pair limit first second s)
unfolding choose_pair
choose_pair-Chosen {mode} limit s c d h =
    let b = fall_back-bound limit s h in search (if_both (Chosen mode limit), chosen)

pub choose_transport-Chosen :
    (mode : ℕ) (s : State)
    → IsMode mode
    → s.version_index ≤ oldest mode
    → Chosen mode (oldest mode) (choose_transport mode s)
unfolding choose_transport
choose_transport-Chosen _ s is_v6v4 h = choose_pair-Chosen version_oldest s v6v4_udp v6v4_tcp h
choose_transport-Chosen _ s is_v6udpv4 h = choose_single-Chosen version_start s udp_only h
choose_transport-Chosen _ s is_v6anyv4 h = choose_pair-Chosen version_oldest s any_udp any_tcp h
choose_transport-Chosen _ s is_v4v6 h = choose_pair-Chosen version_start s v4v6_udp v4v6_tcp h

Chosen-Carries : {mode limit : ℕ} {t : State} → Chosen mode limit t → Carries mode t.transport
Chosen-Carries (chosen c h) = c

pub Chosen-bounded : {mode limit : ℕ} {t : State} → Chosen mode limit t → t.version_index ≤ limit
Chosen-bounded (chosen c h) = h

-- In a mode that the client knows, a pass picks a transport of the mode.
pub choose_transport-Carries :
    (mode : ℕ) (s : State)
    → IsMode mode
    → s.version_index ≤ oldest mode
    → Carries mode (choose_transport mode s).transport
choose_transport-Carries mode s m h = Chosen-Carries (choose_transport-Chosen mode s m h)
