-- ===== src/Tunnel/Start.antt =====
-- Bringing a tunnel up, watching it and taking it down: `tspStartLocal` of
-- tspc-advanced/platform/linux/tsp_local.c, `tspPerformTunnelLoop` of src/tsp/tsp_tun_mgt.c and
-- src/tsp/tsp_lease.c, with `NetKeepaliveInit` of src/net/net_ka.c.
use gw6c.Base.{
  codes, ℕ, ◌+◌, ltb, ◌==◌, ◌&&◌, not, Bool, true, false, List, [], ◌∷◌, ◌++◌, Option, none, some,
  if◌then◌else◌,
}
use gw6c.Session.{ℤ, pos, negsuc, atoi, is_code}
use gw6c.Session.Capability.{same_word}
use gw6c.Session.Errors
use gw6c.Keepalive.{Keepalive, Call, keepalive_do}
use gw6c.Keepalive.Loop
use gw6c.Xml.Tunnel.{Info}
use gw6c.Tunnel.{Settings, State}
use gw6c.Tunnel.Setup.{Host, Ended, ended, trapped_in, setup_interface, tear_down_tunnel}

-- `tspLeaseGetExpTime` and `tspLeaseCheckExp`, with the time; `long` does not overflow.
unfoldable pub get_exp_time : (now lifetime : ℕ) → ℕ
get_exp_time now lifetime = now + lifetime

unfoldable pub check_exp : (now expiration : ℕ) → Bool
check_exp now expiration = ltb expiration now

-- `tspLeaseExpLoop`, at the times at which it wakes; `none` while the lease lasts.
unfoldable pub exp_loop : (expiration : ℕ) → (times : List ℕ) → Option ℕ
exp_loop expiration [] = none
exp_loop expiration (now ∷ times) =
    let later = exp_loop expiration times in
    if check_exp now expiration then some Errors.lease_expired else later

-- `NetKeepaliveInit`, which succeeds on Unix: the first event comes after five seconds.
unfoldable pub keepalive_init : (sec usec : ℕ) → Keepalive
keepalive_init sec usec = record {
  init = true;
  got_read = false;
  got_write = false;
  doit = true;
  still_up = false;
  count = 0;
  consecutive_timeout = 0;
  next_event_sec = sec + 5;
  next_event_usec = usec;
}

-- The cleared structure, as `NetKeepaliveDestroy` leaves it.
abbrev pub no_keepalive : Keepalive
no_keepalive = record {
  init = false;
  got_read = false;
  got_write = false;
  doit = false;
  still_up = false;
  count = 0;
  consecutive_timeout = 0;
  next_event_sec = 0;
  next_event_usec = 0;
}

-- What a pass of the loop meets.
pub record Pass : Type 0 where
  pub stop : Bool
  pub call : Call
  pub now : ℕ

-- A call of `NetKeepaliveDo`, if keepalive is on: whether the other end is given up.
unfoldable pub watch : (keepalive : Bool) → Call → Keepalive → Bool × Keepalive
watch false call k = (false, k)
watch true call k = let (r, k') = keepalive_do call k in (Loop.gives_up r, k')

-- The code of a pass; the end of the lease takes the place of a time-out.
unfoldable pub code_of : (expiration : ℕ) → (given_up : Bool) → (now : ℕ) → ℕ
code_of expiration given_up now =
    if not (expiration == 0) && check_exp now expiration
    then Errors.lease_expired
    else if given_up
    then Errors.keepalive_timeout
    else Errors.no_error

-- `none` when no more passes are given.
unfoldable pub management_loop :
    (keepalive : Bool) → (expiration : ℕ) → List Pass → Keepalive → Option ℕ
management_loop keepalive expiration [] k = none
management_loop keepalive expiration (p ∷ ps) k =
    let (given_up, k') = watch keepalive p.call k in
    let rest = management_loop keepalive expiration ps k' in
    let code = code_of expiration given_up p.now in
    if p.stop then some Errors.no_error else if code == Errors.no_error then rest else some code

abbrev pub is_positive : ℤ → Bool
is_positive (pos n) = ltb 0 n
is_positive (negsuc n) = false

-- A lifetime of zero is none.
unfoldable pub perform_tunnel_loop :
    (lifetime : ℕ) → (ka_interval : ℤ) → (sec usec : ℕ) → List Pass → Option ℕ
perform_tunnel_loop lifetime ka_interval sec usec passes =
    management_loop (is_positive ka_interval)
      (if lifetime == 0 then 0 else get_exp_time sec lifetime) passes
      (if is_positive ka_interval then keepalive_init sec usec else no_keepalive)

abbrev pub code_of_ending : Loop.Ending → Option ℕ
code_of_ending Loop.running = none
code_of_ending Loop.stopped = some Errors.no_error
code_of_ending Loop.tunnel_error = some Errors.tunnel_error
code_of_ending Loop.keepalive_timeout = some Errors.keepalive_timeout

-- `TunMainLoop`: keepalive is off if the interval is 0.
unfoldable pub tun_main_loop :
    (keepalive : Bool) → (interval : ℤ) → (sec usec : ℕ) → List Loop.Pass → Option ℕ
tun_main_loop keepalive interval sec usec passes = code_of_ending (
    (Loop.tunnel_loop passes
      (if keepalive && not (is_code interval 0) then keepalive_init sec usec else no_keepalive)).0)

-- How the child that runs the script is seen to end.
pub data Child : Type 0 where
  not_forked not_waited killed : Child
  exited : ℕ → Child

-- What `tspStartLocal` meets; `child_seen` is false if `wait` does not return the child.
pub record Machine : Type 0 where
  pub is_root : Bool
  pub has_ipv6 : Bool
  pub daemon : Bool
  pub tun_opens : Bool
  pub forks : Bool
  pub child_seen : Bool
  pub host : Host
  pub at_end : Host
  pub usec : ℕ
  pub tun_passes : List Loop.Pass
  pub passes : List Pass

-- What is done, in order.
pub data Action : Type 0 where
  open_tun run_child watch_tunnel close_tun close_socket : Action
  tear_down : Ended → Action

-- The code, `none` while the tunnel is up, and the actions.
pub record Course : Type 0 where
  pub code : Option ℕ
  pub actions : List Action

abbrev pub failed : List Action → Course
failed actions = record { code = some Errors.interface_setup_failed; actions = actions }

-- The child exits with INTERFACE_SETUP_FAILED unless the script succeeds.
unfoldable pub child_of : Ended → Child
child_of (trapped_in f) = killed
child_of (ended r) = if is_code r.code 0 then exited 0 else exited Errors.interface_setup_failed

unfoldable pub interval_of : Option (List ℕ) → ℤ
interval_of none = pos 0
interval_of (some text) = atoi text

module _ (c : Settings) (keepalive : Bool) (m : Machine) (t : Info) (s : State) where
  unfoldable pub run_script_in_child : Child
  run_script_in_child =
      if not m.forks
      then not_forked
      else if not m.child_seen
      then not_waited
      else child_of (setup_interface c m.host t [] s)

  -- Once the tunnel is over it is taken down.
  unfoldable pub ends : List Action → Option ℕ → Course
  ends actions none = record { code = none; actions = actions }
  ends actions (some status) = record {
    code = some status;
    actions = actions ++ (tear_down (tear_down_tunnel c m.at_end t [] s) ∷ []);
  }

  unfoldable pub closed : Option ℕ → List Action
  closed none = []
  closed (some status) = close_tun ∷ close_socket ∷ []

  unfoldable pub watch_over : (type : List ℕ) → List Action → Course
  watch_over type actions =
      let interval = interval_of t.keepalive_interval in
      let tun_status = tun_main_loop keepalive interval m.host.now m.usec m.tun_passes in
      let status = perform_tunnel_loop 0 interval m.host.now m.usec m.passes in
      if same_word type (codes "v6udpv4")
      then ends (actions ++ (watch_tunnel ∷ closed tun_status)) tun_status
      else if same_word type (codes "v6v4")
      then ends (actions ++ (watch_tunnel ∷ [])) status
      else ends actions (some Errors.no_error)

  unfoldable pub after_child : (type : List ℕ) → List Action → Child → Course
  after_child type actions not_forked = failed actions
  after_child type actions not_waited = failed (actions ++ (run_child ∷ []))
  after_child type actions killed = failed (actions ++ (run_child ∷ []))
  after_child type actions (exited code) =
      if code == 0
      then watch_over type (actions ++ (run_child ∷ []))
      else failed (actions ++ (run_child ∷ []))

  unfoldable pub after_daemon : (type : List ℕ) → Course
  after_daemon type =
      if same_word type (codes "v6udpv4")
      then if m.tun_opens then after_child type (open_tun ∷ []) run_script_in_child else failed []
      else if same_word type (codes "v4v6")
      then failed []
      else after_child type [] run_script_in_child

  -- The type of the tunnel is not a null pointer.
  unfoldable pub start_local : (type : List ℕ) → Course
  start_local type = if m.is_root && (m.has_ipv6 && m.daemon) then after_daemon type else failed []
