-- ===== src/Keepalive/Loop.antt =====
-- The loop of a tunnel, `TunMainLoop` of tspc-advanced/platform/linux/tsp_tun.c, with keepalive on.
use gw6c.Base.{List, [], ◌∷◌, Bool, true, false, if◌then◌else◌}
use gw6c.Keepalive.{
  Keepalive, Call, Result, too_many_timeouts, keepalive_do, keepalive_read, keepalive_write,
}

-- The tunnel device: not ready, not readable, or read and then sent or not.
pub data Outgoing : Type 0 where
  idle unreadable unsent sent : Outgoing

-- The socket: not ready, or read and then written to the device or not.
pub data Incoming : Type 0 where
  quiet unwritten received : Incoming

-- What a pass of the loop meets.
pub record Pass : Type 0 where
  pub stop : Bool
  pub call : Call
  pub outgoing : Outgoing
  pub incoming : Incoming

-- The loop goes on, or returns NO_ERROR, TUNNEL_ERROR or KEEPALIVE_TIMEOUT.
pub data Ending : Type 0 where
  running stopped tunnel_error keepalive_timeout : Ending

abbrev pub is_running : Ending → Bool
is_running running = true
is_running _ = false

abbrev pub gives_up : Result → Bool
gives_up too_many_timeouts = true
gives_up _ = false

unfoldable pub send_out : Outgoing → Keepalive → Ending × Keepalive
send_out idle k = (running, k)
send_out unreadable k = (tunnel_error, k)
send_out unsent k = (tunnel_error, keepalive_write k)
send_out sent k = (running, keepalive_write k)

unfoldable pub take_in : Incoming → Keepalive → Ending × Keepalive
take_in quiet k = (running, k)
take_in unwritten k = (tunnel_error, keepalive_read k)
take_in received k = (running, keepalive_read k)

unfoldable pub exchange : Pass → Keepalive → Ending × Keepalive
exchange p k =
    let (ending, k') = send_out p.outgoing k in
    if is_running ending then take_in p.incoming k' else (ending, k')

-- `running` when no more passes are given.
unfoldable pub tunnel_loop : List Pass → Keepalive → Ending × Keepalive
tunnel_loop [] k = (running, k)
tunnel_loop (p ∷ ps) k =
    let (result, k₁) = keepalive_do p.call k in
    let (ending, k₂) = exchange p k₁ in
    let rest = tunnel_loop ps k₂ in
    if p.stop
    then (stopped, k)
    else if gives_up result
    then (keepalive_timeout, k₁)
    else if is_running ending
    then rest
    else (ending, k₂)
