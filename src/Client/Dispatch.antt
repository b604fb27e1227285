-- ===== src/Client/Dispatch.antt =====
-- What the loop does with the status of an attempt, `retry_later` where it reaches the wait.
use gw6c.Base.{ℕ, List, [], ◌∷◌, some, Bool, true, false, ◌==◌, if◌then◌else◌}
use gw6c.Broker.{Broker}
use gw6c.Session.Errors
use gw6c.Session.{pos, free_broker_list, is_code}
use gw6c.Client.{
  State, Config, Step, retry_now, retry_later, give_up, format_broker_list_addr, Connection, Notice,
  idle, error, no_retry, no_notice, tsp_failed, socket_failed, failed_script, keepalive_timed_out,
  tunnel_failed, version_failed, authentication_failed, lease_over, server_failed, redirecting,
  redirection_failed, unknown_failure,
}
use gw6c.Client.Brokers.{Resources, cant_connect, bump_cycle}

unfoldable pub show : Connection → Notice → State → State
show e n s = record s { e_status = e; n_status = n }

-- `connected = 0; continue;`
unfoldable pub stop : State → Step
stop s = retry_now (record s { connected = false })

-- `TSP_ERROR`, `SOCKET_ERROR` and `SERVER_SIDE_ERROR`: another transport, without the wait if
-- there is one left.
unfoldable pub change_transport : Notice → (quick_cycle : Bool) → State → Step
change_transport n quick_cycle s =
    let s' = show error n (bump_cycle s) in if quick_cycle then retry_now s' else retry_later s'

unfoldable pub keepalive_failed : Config → State → Step
keepalive_failed conf s =
    if conf.auto_retry_connect
    then retry_later (show error keepalive_timed_out s)
    else stop (show no_retry keepalive_timed_out s)

-- `TSP_VERSION_ERROR`; the pause against a reused port is left out.
unfoldable pub version_refused : State → Step
version_refused s =
    let s' = show error version_failed (record s { tsp_version_fallback = true }) in
    retry_now (if s.version_index == 1 then record s' { cycle = 1 } else s')

-- `BROKER_REDIRECTION`: to the first broker of the list. The list is kept where the address
-- cannot be formatted.
unfoldable pub redirected : Resources → List Broker → State → Step
redirected res [] s =
    stop (record (show error redirection_failed s) { status = pos Errors.broker_redirection_error })
redirected res (b ∷ bs) s =
    let (formatted, server) = format_broker_list_addr res.can_alloc b in
    let s' = record (show error redirecting s) {
      trying_broker_list = true;
      trying_original_server = false;
      current_broker_in_list = some (record { generation = s.store.generation; place = 0 });
      server = server;
    } in
    if formatted
    then retry_now (record s' { cycle = 0 })
    else give_up (record s' {
      status = pos Errors.broker_redirection_error;
      n_status = redirection_failed;
      connected = false;
    })

unfoldable pub redirection_lost : State → Step
redirection_lost s =
    stop (record (show error redirection_failed s) { store = free_broker_list s.store })

unfoldable pub dispatch :
    (expand : List ℕ → List ℕ) → Config → Resources → (quick_cycle : Bool) → State → Step
dispatch expand conf res quick_cycle s =
    if is_code s.status Errors.no_error
    then stop (show idle no_notice s)
    else if is_code s.status Errors.tsp_error
    then change_transport tsp_failed quick_cycle s
    else if is_code s.status Errors.socket_error
    then change_transport socket_failed quick_cycle s
    else if is_code s.status Errors.cant_connect
    then cant_connect expand conf res quick_cycle s
    else if is_code s.status Errors.interface_setup_failed
    then stop (show error failed_script s)
    else if is_code s.status Errors.keepalive_timeout
    then keepalive_failed conf s
    else if is_code s.status Errors.tunnel_error
    then retry_later (show error tunnel_failed s)
    else if is_code s.status Errors.tsp_version_error
    then version_refused s
    else if is_code s.status Errors.authentication_error
    then stop (show error authentication_failed s)
    else if is_code s.status Errors.lease_expired
    then retry_now (show error lease_over s)
    else if is_code s.status Errors.server_side_error
    then change_transport server_failed quick_cycle s
    else if is_code s.status Errors.broker_redirection
    then redirected res s.store.brokers s
    else if is_code s.status Errors.broker_redirection_error
    then redirection_lost s
    else stop (show error unknown_failure s)
