-- ===== src/Client/Transports.antt =====
-- The choice of the transport and of the version of the protocol at the start of a pass.
use gw6c.Base.{ℕ, ◌+◌, Bool, true, false, ltb, ◌==◌, ◌&&◌, ◌||◌, if◌then◌else◌}
use gw6c.Client.{State}
use gw6c.Session.Setup.{Transport, rudp, tcp, tcp6, rudp6}

abbrev pub v6v4 : ℕ
v6v4 = 1

abbrev pub v6udpv4 : ℕ
v6udpv4 = 2

abbrev pub v6anyv4 : ℕ
v6anyv4 = 3

abbrev pub v4v6 : ℕ
v4v6 = 4

abbrev pub version_current : ℕ
version_current = 0

-- `CLIENT_VERSION_INDEX_V6UDPV4_START` and `CLIENT_VERSION_INDEX_V4V6_START`
abbrev pub version_start : ℕ
version_start = 1

abbrev pub version_oldest : ℕ
version_oldest = 2

-- The version, at most `limit` if it is older than the one before.
unfoldable pub fall_back : (limit : ℕ) → State → State
fall_back limit s =
    let older = if ltb s.version_index limit then s.version_index + 1 else s.version_index in
    record s {
      version_index = if s.tsp_version_fallback then older else version_current;
      tsp_version_fallback = false;
    }

-- With one transport; a cycle that is not 0 is set back.
unfoldable pub choose_single : (limit : ℕ) → Transport → State → State
choose_single limit first s = record (fall_back limit s) { cycle = 0; transport = first }

-- With two transports; a cycle that is not 0 or 1 is set back.
unfoldable pub choose_pair : (limit : ℕ) → (first second : Transport) → State → State
choose_pair limit first second s =
    if s.cycle == 1
    then record (fall_back limit s) { transport = second }
    else record (fall_back limit s) { cycle = 0; transport = first }

unfoldable pub choose_transport : (tunnel_mode : ℕ) → State → State
choose_transport tunnel_mode s =
    if tunnel_mode == v6udpv4
    then choose_single version_start rudp s
    else if (tunnel_mode == v6anyv4) || (tunnel_mode == v6v4)
    then choose_pair version_oldest rudp tcp s
    else if tunnel_mode == v4v6
    then choose_pair version_start rudp6 tcp6 s
    else s

abbrev pub is_rudp : Transport → Bool
is_rudp rudp = true
is_rudp _ = false

abbrev pub is_rudp6 : Transport → Bool
is_rudp6 rudp6 = true
is_rudp6 _ = false

-- Whether another transport is to be tried before the wait.
unfoldable pub is_quick_cycle : (tunnel_mode : ℕ) → Transport → Bool
is_quick_cycle tunnel_mode transport =
    (((tunnel_mode == v6anyv4) || (tunnel_mode == v6v4)) && is_rudp transport)
    || ((tunnel_mode == v4v6) && is_rudp6 transport)
