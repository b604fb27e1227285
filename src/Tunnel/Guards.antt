-- ===== src/Tunnel/Guards.antt =====
-- When the template script of tspc-advanced/src/tsp/tsp_setup.c is run.
use gw6c.Base.{
  ℕ, ◌≤◌, ◌==◌, ==_iff, List, Option, none, some, All, length, if_both, if_where, arith,
}
use gw6c.Session.{is_code}
use gw6c.Xml.Tunnel.{Info}
use gw6c.Tunnel.{Settings, State, Set, set, trapped, validate_tunnel_info}
use gw6c.Tunnel.Setup.{
  Host, Result, Ended, ended, trapped_in, setup_interface, with_env, launch, run_script,
  exec_script, show_up, get_template_script,
}
use gw6c.Tunnel.Seen.{
  IsSound, validate_tunnel_info-Sound, Env, Sets, Sees, set_tsp_env_variables-Sees,
}

-- At most one command is run, and that with an environment like this.
abbrev pub Runs : (Env → Type 0) → Ended → Type 0
Runs P (ended r) = All (λ ran. P ran.env) r.ran × (length r.ran ≤ 1)
Runs P (trapped_in f) = Unit

module _ (P : Env → Type 0) (c : Settings) (host : Host) where
  run_script-Runs :
      (s : State) (script cmd : List ℕ) → P s.env → Runs P (ended (run_script host s script cmd))
  unfolding run_script exec_script
  run_script-Runs s script cmd p = ((p, tt), omega arith)

  show_up-Runs : (r : Result) → Runs P (ended r) → Runs P (ended (show_up c host r))
  unfolding show_up
  show_up-Runs r h = if_both (λ (r' : Result). Runs P (ended r')) (is_code r.code 0) h h

  launch-Runs :
      (s : State) (x : List ℕ × Option (List ℕ)) (last : Result → Result)
      → ((r : Result) → Runs P (ended r) → Runs P (ended (last r)))
      → P s.env
      → Runs P (launch host s x last)
  unfolding launch
  launch-Runs s (script, none) last keeps p = (tt, omega arith)
  launch-Runs s (script, some cmd) last keeps p = keeps _ (run_script-Runs s script cmd p)

  with_env-Runs :
      (buffer : List ℕ) (last : Result → Result) (x : Set)
      → ((r : Result) → Runs P (ended r) → Runs P (ended (last r)))
      → Sets P x
      → Runs P (with_env c host buffer last x)
  unfolding with_env
  with_env-Runs buffer last (trapped f) keeps p = tt
  with_env-Runs buffer last (set s) keeps p =
      launch-Runs s (get_template_script c host buffer) last keeps p

weaker : (P Q : Env → Type 0) (x : Set) → ((env : Env) → P env → Q env) → Sets P x → Sets Q x
weaker P Q (set s) f h = f s.env h
weaker P Q (trapped t) f h = tt

-- Setting up a tunnel runs at most one command, and that only for an answer whose addresses, and
-- whose prefix and its length if it has one, are of the characters of addresses and numbers; the
-- environment of the command has the addresses of the answer, the beginning of the prefix and the
-- length.
pub setup_interface-Runs :
    (c : Settings) (host : Host) (t : Info) (buffer : List ℕ) (s : State)
    → Runs (λ env. IsSound t × Sees t env) (setup_interface c host t buffer s)
unfolding setup_interface
setup_interface-Runs c host t buffer s =
    let P = λ (env : Env). IsSound t × Sees t env in
    if_where (Runs P) (validate_tunnel_info t == 0)
      (λ valid.
        let sound = validate_tunnel_info-Sound t ((==_iff (validate_tunnel_info t) 0).0 valid) in
        with_env-Runs P c host buffer (show_up c host) _ (show_up-Runs P c host)
          (weaker (Sees t) P _ (λ env sees. (sound, sees)) (set_tsp_env_variables-Sees c t _)))
      (λ invalid. (tt, omega arith))
