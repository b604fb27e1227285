-- ===== src/Client/Loop.antt =====
-- The connection loop from the choice of the first server on: it never reads a broker through a
-- null pointer or in a list that was freed.
use gw6c.Base.{ℕ, ◌≡◌, ◌≢◌, refl, List, [], ◌∷◌, Option, none, some, Bool, true, if_both, if_where}
use gw6c.Broker.{Status}
use gw6c.Session.{pos, is_code}
use gw6c.Session.Setup.{Transport, Attempt}
use gw6c.Session.Kept.{Kept, unchanged, changed, IsRedirection, followed, lost, setup_tunnel-Kept}
use gw6c.Client.{State, Config, Step, bad_pointer}
use gw6c.Client.Brokers.{Resources}
use gw6c.Client.Dispatch.{dispatch, stop, show, redirection_lost}
use gw6c.Client.Main.{choose_server, start, LastServer, Pass, attempt, pass, loop}
use gw6c.Client.Safe.{
  IsSafe, leaves, at_original, at_last, IsSafeStep, now, later, over, Agree, agree, IsSafe-Agree,
  choose-agrees, redirected-safe, dispatch-safe,
}

module _ (expand : List ℕ → List ℕ) (conf : Config) where
  dispatch-redirection :
      (res : Resources) (quick_cycle : Bool) (s : State) {code : ℕ}
      → IsRedirection code
      → s.status ≡ pos code
      → IsSafeStep (dispatch expand conf res quick_cycle s)
  unfolding dispatch is_code stop show redirection_lost
  dispatch-redirection res quick_cycle s followed e =
      rw e (redirected-safe expand conf res _ _ refl)
  dispatch-redirection res quick_cycle s lost e = rw e (now (leaves refl))

  attempted-safe :
      (res : Resources) (quick_cycle : Bool) (s : State) {a : Attempt}
      → s.connected ≡ true
      → IsSafe s
      → Kept s.store a
      → IsSafeStep
          (dispatch expand conf res quick_cycle (record s { status = a.status; store = a.store }))
  attempted-safe res quick_cycle s c h (unchanged e) =
      dispatch-safe expand conf res quick_cycle _ c
        (IsSafe-Agree (agree refl refl refl refl refl e) h)
  attempted-safe res quick_cycle s c h (changed k e) = dispatch-redirection res quick_cycle _ k e

  choose-connected : {s t : State} → Agree s t → s.connected ≡ true → t.connected ≡ true
  choose-connected (agree c o l b p st) e = rw c e

  pass-safe :
      (p : Pass) (s : State) → s.connected ≡ true → IsSafe s → IsSafeStep (pass expand conf p s)
  unfolding pass attempt
  pass-safe p s c h =
      let a = choose-agrees conf.tunnel_mode s in
      attempted-safe p.resources _ _ (choose-connected a c) (IsSafe-Agree a h)
        (setup_tunnel-Kept expand p.peer conf.tunnel_mode conf.auth_method _ _ _)

  loop-safe :
      (passes : List (Option Pass)) (step : Step)
      → IsSafeStep step
      → IsSafeStep (loop expand conf passes step)
  unfolding loop
  loop-safe [] step h = h
  loop-safe (none ∷ passes) step h = h
  loop-safe (some p ∷ passes) _ (now {s} h) =
      if_where IsSafeStep s.connected (λ c. loop-safe passes _ (pass-safe p s c h)) (λ _. now h)
  loop-safe (some p ∷ passes) _ (later {s} h) =
      if_where IsSafeStep s.connected (λ c. loop-safe passes _ (pass-safe p s c h)) (λ _. later h)
  loop-safe (some p ∷ passes) _ (over s) = over s

  choose_server-safe :
      (can_alloc : Bool) (r : Status × Option (List ℕ)) (s : State)
      → IsSafeStep (choose_server can_alloc r s)
  unfolding choose_server
  choose_server-safe can_alloc r s = search (if_both IsSafeStep, now, over, at_last, at_original)

  start-safe :
      (transport : Transport) (last : LastServer) → IsSafeStep (start expand conf transport last)
  unfolding start
  start-safe transport last = search (if_both IsSafeStep, choose_server-safe, now, at_original)

IsSafeStep-good : {step : Step} → IsSafeStep step → step ≢ bad_pointer
IsSafeStep-good (now h) e = cc
IsSafeStep-good (later h) e = cc
IsSafeStep-good (over s) e = cc

-- From the choice of the first server on, whatever the passes meet, the loop never reads a
-- broker through a null pointer or in a list that was freed.
pub loop-never-bad :
    (expand : List ℕ → List ℕ) (conf : Config) (transport : Transport) (last : LastServer)
    (passes : List (Option Pass))
    → loop expand conf passes (start expand conf transport last) ≢ bad_pointer
loop-never-bad expand conf transport last passes =
    IsSafeStep-good (loop-safe expand conf passes _ (start-safe expand conf transport last))
