-- ===== src/Tunnel/Ordered.antt =====
-- The order of the steps of `tspStartLocal` of tspc-advanced/platform/linux/tsp_local.c.
use mathlib.Core.Bool.{true≢false}
use gw6c.Base.{
  sym, not, true, false, if_true, if_false, if◌then◌else◌, codes, ℕ, ◌≡◌, refl, ap, ◌∙◌, Bool, ◌&&◌,
  ◌==◌, ==_iff, List, [], ◌∷◌, ◌++◌, Option, none, some, All, All-append, if_where,
}
use gw6c.Session.Errors
use gw6c.Session.Capability.{same_word}
use gw6c.Xml.Tunnel.{Info}
use gw6c.Tunnel.{Settings, State}
use gw6c.Tunnel.Setup.{tear_down_tunnel}
use gw6c.Tunnel.Start.{
  Machine, Action, open_tun, run_child, watch_tunnel, tear_down, Course, failed, Child, not_forked,
  not_waited, killed, exited, run_script_in_child, ends, closed, watch_over, after_child,
  after_daemon, start_local, tun_main_loop, perform_tunnel_loop, interval_of,
}

-- The tunnel is not taken down.
abbrev pub Leaves : Action → Type 0
Leaves (tear_down e) = ⊥
Leaves a = Unit

abbrev is_good : Child → Bool
is_good (exited code) = code == 0
is_good _ = false

granted : {a b x : Bool} → a ≡ true → b ≡ x → (a && b) ≡ x
granted {a} {b} e f = ap (λ q. q && b) e ∙ f

refusal : {a : Bool} (b : Bool) → a ≡ false → (a && b) ≡ false
refusal b e = ap (λ q. q && b) e

module _ (c : Settings) (keepalive : Bool) (m : Machine) (t : Info) (s : State) where
  abbrev pub CameUp : Type 0
  CameUp = run_script_in_child c keepalive m t s ≡ exited 0

  -- What a tunnel of that type asks for before its script is run.
  abbrev pub has_device : (type : List ℕ) → Bool
  has_device type =
      if same_word type (codes "v6udpv4") then m.tun_opens else not (same_word type (codes "v4v6"))

  abbrev pub allowed : (type : List ℕ) → Bool
  allowed type = (m.is_root && (m.has_ipv6 && m.daemon)) && has_device type

  -- How the watch over the tunnel ends, `none` while it lasts. A tunnel of another type is not
  -- watched.
  abbrev pub watched : (type : List ℕ) → Option ℕ
  watched type =
      let interval = interval_of t.keepalive_interval in
      if same_word type (codes "v6udpv4")
      then tun_main_loop keepalive interval m.host.now m.usec m.tun_passes
      else if same_word type (codes "v6v4")
      then perform_tunnel_loop 0 interval m.host.now m.usec m.passes
      else some Errors.no_error

  -- A course that may not begin, one whose script does not succeed, one that is not over, and one
  -- that is.
  pub data InOrder (type : List ℕ) : Course → Type 0 where
    refused : allowed type ≡ false → InOrder type (failed [])
    not_up :
        allowed type ≡ true
        → (CameUp → ⊥)
        → (actions : List Action) → All Leaves actions
        → InOrder type (failed actions)
    up :
        allowed type ≡ true
        → CameUp
        → watched type ≡ none
        → (actions : List Action) → All Leaves actions
        → InOrder type (record { code = none; actions = actions })
    over :
        allowed type ≡ true
        → CameUp
        → (status : ℕ) → watched type ≡ some status
        → (actions : List Action) → All Leaves actions
        → InOrder type (record {
          code = some status;
          actions = actions ++ (tear_down (tear_down_tunnel c m.at_end t [] s) ∷ []);
        })

  ends-InOrder :
      (type : List ℕ)
      → allowed type ≡ true
      → CameUp
      → (actions : List Action) (x : Option ℕ) → watched type ≡ x
      → All Leaves actions
      → InOrder type (ends c keepalive m t s actions x)
  unfolding ends
  ends-InOrder type may is actions none e h = up may is e actions h
  ends-InOrder type may is actions (some status) e h = over may is status e actions h

  closed-Leaves : (x : Option ℕ) → All Leaves (closed c keepalive m t s x)
  unfolding closed
  closed-Leaves none = tt
  closed-Leaves (some status) = (tt, (tt, tt))

  watch_over-InOrder :
      (type : List ℕ) (actions : List Action)
      → allowed type ≡ true
      → CameUp
      → All Leaves actions
      → InOrder type (watch_over c keepalive m t s type actions)
  unfolding watch_over
  watch_over-InOrder type actions may is h =
      let interval = interval_of t.keepalive_interval in
      let tun = tun_main_loop keepalive interval m.host.now m.usec m.tun_passes in
      let udp : Bool = same_word type (codes "v6udpv4") in
      let plain : Bool = same_word type (codes "v6v4") in
      if_where (InOrder type) udp
        (λ e.
          ends-InOrder type may is _ tun (if_true _ _ e)
            (All-append Leaves actions _ h (tt, closed-Leaves tun)))
        (λ n.
          if_where (InOrder type) plain
            (λ e.
              ends-InOrder type may is _ _ (if_false _ _ n ∙ if_true _ _ e)
                (All-append Leaves actions (watch_tunnel ∷ []) h (tt, tt)))
            (λ n'.
              ends-InOrder type may is actions (some Errors.no_error)
                (if_false _ _ n ∙ if_false _ _ n') h))

  ends_otherwise :
      (x : Child) → run_script_in_child c keepalive m t s ≡ x → is_good x ≡ false → CameUp → ⊥
  ends_otherwise x e bad is = true≢false (ap is_good (sym is ∙ e) ∙ bad)

  after_child-InOrder :
      (type : List ℕ) (actions : List Action) (x : Child)
      → allowed type ≡ true
      → run_script_in_child c keepalive m t s ≡ x
      → All Leaves actions
      → InOrder type (after_child c keepalive m t s type actions x)
  unfolding after_child
  after_child-InOrder type actions not_forked may e h =
      not_up may (ends_otherwise not_forked e refl) actions h
  after_child-InOrder type actions not_waited may e h =
      not_up may (ends_otherwise not_waited e refl) _
        (All-append Leaves actions (run_child ∷ []) h (tt, tt))
  after_child-InOrder type actions killed may e h =
      not_up may (ends_otherwise killed e refl) _
        (All-append Leaves actions (run_child ∷ []) h (tt, tt))
  after_child-InOrder type actions (exited code) may e h =
      let h' = All-append Leaves actions (run_child ∷ []) h (tt, tt) in
      if_where (InOrder type) (code == 0)
        (λ zero_code.
          watch_over-InOrder type _ may (e ∙ ap exited ((==_iff code 0).0 zero_code)) h')
        (λ other. not_up may (ends_otherwise (exited code) e other) _ h')

  -- A tunnel that is asked for with the rights, the daemon and the device that it needs, and whose
  -- script succeeds, comes up, and when its watch ends it is taken down, exactly once and as the
  -- last thing, with the status of the watch as the code; while the watch lasts it is not taken
  -- down. Without what it needs nothing is done, and if the script does not succeed it is not taken
  -- down; in both cases the code is INTERFACE_SETUP_FAILED.
  pub start_local-InOrder : (type : List ℕ) → InOrder type (start_local c keepalive m t s type)
  unfolding start_local after_daemon
  start_local-InOrder type =
      let child = run_script_in_child c keepalive m t s in
      let O = InOrder type in
      if_where O (m.is_root && (m.has_ipv6 && m.daemon))
        (λ ready.
          if_where O (same_word type (codes "v6udpv4"))
            (λ udp.
              if_where O m.tun_opens
                (λ opens.
                  after_child-InOrder type (open_tun ∷ []) child
                    (granted ready (if_true _ _ udp ∙ opens)) refl (tt, tt))
                (λ shut. refused (granted ready (if_true _ _ udp ∙ shut))))
            (λ plain.
              if_where O (same_word type (codes "v4v6"))
                (λ other. refused (granted ready (if_false _ _ plain ∙ ap not other)))
                (λ fit.
                  after_child-InOrder type [] child
                    (granted ready (if_false _ _ plain ∙ ap not fit)) refl tt)))
        (λ not_ready. refused (refusal (has_device type) not_ready))
