-- ===== src/Client/Bounded.antt =====
-- No pass of the loop uses a version of the protocol that is older than the mode allows.
use gw6c.Base.{
  ℕ, ◌≤◌, ◌≡◌, refl, List, [], ◌∷◌, Option, none, some, Bool, true, false, if◌then◌else◌, if_both,
  arith,
}
use gw6c.Broker.{Broker}
use gw6c.Session.Setup.{Transport}
use gw6c.Client.{State, Config, Step, retry_now, retry_later, give_up, bad_pointer, Pointer}
use gw6c.Client.Brokers.{
  Resources, go_to_broker, bump_cycle, start_list, original_failed, move_on, broker_failed,
  cant_connect, address_failed,
}
use gw6c.Client.Dispatch.{
  dispatch, show, stop, change_transport, keepalive_failed, version_refused, redirected,
  redirection_lost,
}
use gw6c.Client.Main.{initial, choose_server, start, LastServer, Pass, attempt, pass, loop}
use gw6c.Client.Versions.{IsMode, oldest, Chosen-bounded, choose_transport-Chosen}

-- The step keeps the version `v`.
data Has (v : ℕ) : Step → Type 0 where
  now : {s : State} → s.version_index ≡ v → Has v (retry_now s)
  later : {s : State} → s.version_index ≡ v → Has v (retry_later s)
  over : {s : State} → s.version_index ≡ v → Has v (give_up s)
  bad : Has v bad_pointer

go_to_broker-version :
    (can_alloc : Bool) (p : Pointer) (b : Broker) {v : ℕ} (s : State)
    → s.version_index ≡ v
    → Has v (go_to_broker can_alloc p b s)
unfolding go_to_broker address_failed
go_to_broker-version can_alloc p b {v} s e = search (if_both (Has v), now, over)

start_list-version :
    (res : Resources) (brokers : List Broker) {v : ℕ} (s : State)
    → s.version_index ≡ v
    → Has v (start_list res brokers s)
unfolding start_list bump_cycle
start_list-version res [] s e = later e
start_list-version res (b ∷ bs) s e = go_to_broker-version res.can_alloc _ b _ e

move_on-version :
    (conf : Config) (res : Resources) (p : Pointer) (current next : Option Broker) {v : ℕ}
    (s : State)
    → s.version_index ≡ v
    → Has v (move_on conf res p current next s)
unfolding move_on
move_on-version conf res p none next s e = bad
move_on-version conf res p (some b) none s e = later e
move_on-version conf res p (some b) (some b') s e = go_to_broker-version res.can_alloc _ b' s e

current-version :
    (conf : Config) (res : Resources) {v : ℕ} (s : State) (current : Option Pointer)
    → s.current_broker_in_list ≡ current
    → s.version_index ≡ v
    → Has v (broker_failed conf res s)
unfolding broker_failed
current-version conf res s none same e = rw same bad
current-version conf res s (some p) same e = rw same (move_on-version conf res p _ _ _ e)

broker_failed-version :
    (conf : Config) (res : Resources) {v : ℕ} (s : State)
    → s.version_index ≡ v
    → Has v (broker_failed conf res s)
broker_failed-version conf res s e = current-version conf res s _ refl e

if-version :
    (b : Bool) {v : ℕ} (s t : State)
    → s.version_index ≡ v
    → t.version_index ≡ v
    → (if b then s else t).version_index ≡ v
if-version true s t p q = p
if-version false s t p q = q

module _ (expand : List ℕ → List ℕ) (conf : Config) (res : Resources) where
  cant_connect-version :
      (quick_cycle : Bool) {v : ℕ} (s : State)
      → s.version_index ≡ v
      → Has v (cant_connect expand conf res quick_cycle s)
  unfolding cant_connect bump_cycle original_failed
  cant_connect-version quick_cycle {v} s e =
      search (if_both (Has v), now, later, broker_failed-version, start_list-version) depth 12

  redirected-version :
      (brokers : List Broker) {v : ℕ} (s : State)
      → s.version_index ≡ v
      → Has v (redirected res brokers s)
  unfolding redirected stop show
  redirected-version [] s e = now e
  redirected-version (b ∷ bs) {v} s e = search (if_both (Has v), now, over)

  dispatch-version :
      (quick_cycle : Bool) {v : ℕ} (s : State)
      → s.version_index ≡ v
      → Has v (dispatch expand conf res quick_cycle s)
  unfolding dispatch stop show change_transport keepalive_failed version_refused redirection_lost
      bump_cycle
  dispatch-version quick_cycle {v} s e =
      search (if_both (Has v), now, later, if-version, cant_connect-version, redirected-version)
        depth 24

-- The bound of a mode.
abbrev pub IsBounded : Config → Step → Type 0
IsBounded conf (retry_now s) = s.version_index ≤ oldest conf.tunnel_mode
IsBounded conf (retry_later s) = s.version_index ≤ oldest conf.tunnel_mode
IsBounded conf (give_up s) = s.version_index ≤ oldest conf.tunnel_mode
IsBounded conf bad_pointer = Unit

Has-IsBounded :
    (conf : Config) {v : ℕ} {step : Step}
    → Has v step
    → v ≤ oldest conf.tunnel_mode
    → IsBounded conf step
Has-IsBounded conf (now e) h = rw e h
Has-IsBounded conf (later e) h = rw e h
Has-IsBounded conf (over e) h = rw e h
Has-IsBounded conf bad h = tt

module _ (expand : List ℕ → List ℕ) (conf : Config) (m : IsMode conf.tunnel_mode) where
  pass-IsBounded :
      (p : Pass) (s : State)
      → s.version_index ≤ oldest conf.tunnel_mode
      → IsBounded conf (pass expand conf p s)
  unfolding pass attempt
  pass-IsBounded p s h =
      Has-IsBounded conf (dispatch-version expand conf p.resources _ _ refl)
        (Chosen-bounded (choose_transport-Chosen conf.tunnel_mode s m h))

  loop-IsBounded :
      (passes : List (Option Pass)) (step : Step)
      → IsBounded conf step
      → IsBounded conf (loop expand conf passes step)
  unfolding loop
  loop-IsBounded [] step h = h
  loop-IsBounded (none ∷ passes) step h = h
  loop-IsBounded (some p ∷ passes) (retry_now s) h =
      if_both (IsBounded conf) s.connected (loop-IsBounded passes _ (pass-IsBounded p s h)) h
  loop-IsBounded (some p ∷ passes) (retry_later s) h =
      if_both (IsBounded conf) s.connected (loop-IsBounded passes _ (pass-IsBounded p s h)) h
  loop-IsBounded (some p ∷ passes) (give_up s) h = h
  loop-IsBounded (some p ∷ passes) bad_pointer h = tt

  start-IsBounded :
      (transport : Transport) (last : LastServer)
      → IsBounded conf (start expand conf transport last)
  unfolding start initial choose_server
  start-IsBounded transport last =
      Has-IsBounded conf {v = 0} (search (if_both (Has 0), now, over)) (ground arith)

-- In a mode that the client knows, the version index never passes the oldest version of the mode,
-- whatever the passes meet.
pub loop-version-IsBounded :
    (expand : List ℕ → List ℕ) (conf : Config) (transport : Transport) (last : LastServer)
    (passes : List (Option Pass))
    → IsMode conf.tunnel_mode
    → IsBounded conf (loop expand conf passes (start expand conf transport last))
loop-version-IsBounded expand conf transport last passes m =
    loop-IsBounded expand conf m passes _ (start-IsBounded expand conf m transport last)
