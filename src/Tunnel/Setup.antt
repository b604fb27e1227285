-- ===== src/Tunnel/Setup.antt =====
-- Running the template script: `get_template_script`, `execScript`, `tspSetupInterface` and
-- `tspTearDownTunnel` of tspc-advanced/src/tsp/tsp_setup.c. `tspSetupInterfaceLocal` of Linux does
-- nothing, nor does `send_tunnel_info`.
use gw6c.Base.{codes, ℕ, ◌==◌, Bool, List, [], ◌∷◌, ◌++◌, Option, none, some, if◌then◌else◌, take}
use gw6c.Session.{ℤ, pos, negsuc, is_code}
use gw6c.Xml.Tunnel.{Info}
use gw6c.Tunnel.{
  Settings, State, Fault, Set, set, trapped, set_env, set_tsp_env_variables, validate_tunnel_info,
}

-- What the functions meet: the directory of the scripts, whether the script can be read, what
-- `system` returns, whether its output can be read, and the time.
pub record Host : Type 0 where
  pub script_dir : List ℕ
  pub readable : Bool
  pub status : ℕ
  pub output_opens : Bool
  pub now : ℕ

-- A command that was run, and the environment it saw.
pub record Ran : Type 0 where
  pub command : List ℕ
  pub env : List (List ℕ × List ℕ)

-- The value returned, the state, the static buffer of the path, and what was run.
pub record Result : Type 0 where
  pub code : ℤ
  pub state : State
  pub script : List ℕ
  pub ran : List Ran

pub data Ended : Type 0 where
  ended : Result → Ended
  trapped_in : Fault → Ended

-- `snprintf` into 1024 bytes.
abbrev pub formatted : List ℕ → List ℕ
formatted text = take 1023 text

abbrev pub path_of : Settings → Host → List ℕ
path_of c host = host.script_dir ++ (b'/' ∷ (c.template ++ codes ".sh"))

-- The static buffer, and the result.
unfoldable pub get_template_script : Settings → Host → (buffer : List ℕ) → List ℕ × Option (List ℕ)
get_template_script c host (x ∷ xs) = (x ∷ xs, some (x ∷ xs))
get_template_script c host [] =
    if host.readable
    then (let command = formatted (codes "/bin/sh \"" ++ (path_of c host ++ codes "\"")) in
        (command, some command))
    else (formatted (path_of c host), none)

-- `none`, or -1 where the output cannot be read.
unfoldable pub exec_script : Host → (cmd : List ℕ) → (env : List (List ℕ × List ℕ)) → ℤ × Ran
exec_script host cmd env = (
  if host.output_opens then pos host.status else negsuc 0,
  record { command = formatted (cmd ++ codes " > /tmp/gw6c-tmp.log"); env = env },
)

abbrev pub gives : ℤ → State → List ℕ → Ended
gives code s script = ended (record { code = code; state = s; script = script; ran = [] })

unfoldable pub run_script : Host → State → (script cmd : List ℕ) → Result
run_script host s script cmd =
    let (code, ran) = exec_script host cmd s.env in
    record { code = code; state = s; script = script; ran = ran ∷ [] }

-- A tunnel that is up is shown with its broker and the time.
unfoldable pub show_up : Settings → Host → Result → Result
show_up c host r =
    if is_code r.code 0
    then record r {
      state = record r.state {
        shown = record r.state.shown { broker_name = some c.server; up_time = host.now };
      };
    }
    else r

unfoldable pub launch : Host → State → List ℕ × Option (List ℕ) → (Result → Result) → Ended
launch host s (script, none) last = gives (pos 1) s script
launch host s (script, some cmd) last = ended (last (run_script host s script cmd))

unfoldable pub with_env : Settings → Host → (buffer : List ℕ) → (Result → Result) → Set → Ended
with_env c host buffer last (trapped f) = trapped_in f
with_env c host buffer last (set s) = launch host s (get_template_script c host buffer) last

unfoldable pub setup_interface : Settings → Host → Info → (buffer : List ℕ) → State → Ended
setup_interface c host t buffer s =
    if validate_tunnel_info t == 0
    then with_env c host buffer (show_up c host) (
        set_tsp_env_variables c t (set_env (codes "TSP_OPERATION") (codes "TSP_TUNNEL_CREATION") s))
    else gives (pos 1) s buffer

unfoldable pub tear_down_tunnel : Settings → Host → Info → (buffer : List ℕ) → State → Ended
tear_down_tunnel c host t buffer s =
    with_env c host buffer (λ r. r)
      (set_tsp_env_variables c t (set_env (codes "TSP_OPERATION") (codes "TSP_TUNNEL_TEARDOWN") s))
