-- ===== src/Client/Main.antt =====
-- The choice of the first server, a pass through the connection loop, and the loop.
use gw6c.Base.{ℕ, List, [], ◌∷◌, Option, none, some, Bool, true, false, ◌&&◌, if◌then◌else◌}
use gw6c.Broker.{Status, is_ok, no_last_server, cant_open_file}
use gw6c.Broker.Files.{read_last_server}
use gw6c.Session.Errors
use gw6c.Session.{pos}
use gw6c.Session.Setup.{Transport, Peer, setup_tunnel}
use gw6c.Client.{
  State, Config, Step, retry_now, retry_later, give_up, bad_pointer, idle, no_notice,
  redirection_failed, duplicate,
}
use gw6c.Client.Transports.{choose_transport, is_quick_cycle, version_current}
use gw6c.Client.Brokers.{Resources}
use gw6c.Client.Dispatch.{dispatch}

-- The last server: whether it is to be used, whether its file has a name, and the file.
pub record LastServer : Type 0 where
  pub always_use_same_server : Bool
  pub named : Bool
  pub file : Option (List ℕ)
  pub can_alloc : Bool

-- The variables before the choice; `transport` is that of the configuration.
unfoldable pub initial : Config → Transport → State
initial conf transport = record {
  connected = true;
  status = pos Errors.no_error;
  cycle = 0;
  version_index = version_current;
  tsp_version_fallback = false;
  transport = transport;
  server = some conf.original_server;
  store = record { generation = 0; brokers = [] };
  current_broker_in_list = none;
  trying_original_server = false;
  trying_broker_list = false;
  read_last_server = false;
  e_status = idle;
  n_status = no_notice;
}

abbrev try_original : State → Step
try_original s = retry_now (record s { trying_original_server = true })

-- No last server, or no file that has it.
abbrev is_missing : Status → Bool
is_missing no_last_server = true
is_missing cant_open_file = true
is_missing _ = false

abbrev copied : (can_alloc : Bool) → Option (List ℕ) → Option (List ℕ)
copied can_alloc none = none
copied can_alloc (some last) = duplicate can_alloc last

unfoldable pub choose_server : (can_alloc : Bool) → Status × Option (List ℕ) → State → Step
choose_server can_alloc (status, last) s =
    if is_ok status
    then retry_now (record s {
      server = copied can_alloc last;
      read_last_server = true;
      trying_original_server = false;
    })
    else if is_missing status
    then try_original s
    else give_up (record s {
      status = pos Errors.broker_redirection_error;
      n_status = redirection_failed;
      connected = false;
    })

unfoldable pub start : (expand : List ℕ → List ℕ) → Config → Transport → LastServer → Step
start expand conf transport last =
    if last.always_use_same_server && last.named
    then choose_server last.can_alloc (read_last_server expand true last.file)
        (initial conf transport)
    else try_original (initial conf transport)

-- What a pass meets.
pub record Pass : Type 0 where
  pub peer : Peer
  pub resources : Resources

module _ (expand : List ℕ → List ℕ) (conf : Config) where
  -- The state behind `tspSetupTunnel`.
  unfoldable pub attempt : Peer → State → State
  attempt peer s =
      let a =
        setup_tunnel expand peer conf.tunnel_mode conf.auth_method s.transport s.version_index
          s.store in
      record s { status = a.status; store = a.store }

  unfoldable pub pass : Pass → State → Step
  pass p s =
      let chosen = choose_transport conf.tunnel_mode s in
      dispatch expand conf p.resources (is_quick_cycle conf.tunnel_mode chosen.transport)
        (attempt p.peer chosen)

  -- The loop. `none` in the list is a request to stop; behind its end the client still runs.
  unfoldable pub loop : List (Option Pass) → Step → Step
  loop [] step = step
  loop (none ∷ passes) step = step
  loop (some p ∷ passes) (retry_now s) =
      let rest = loop passes (pass p s) in if s.connected then rest else retry_now s
  loop (some p ∷ passes) (retry_later s) =
      let rest = loop passes (pass p s) in if s.connected then rest else retry_later s
  loop (some p ∷ passes) (give_up s) = give_up s
  loop (some p ∷ passes) bad_pointer = bad_pointer
