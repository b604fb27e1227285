-- ===== src/Client/Walk.antt =====
-- The walk through the broker list in the loop of `tspMain` of tspc-advanced/src/tsp/tsp_client.c,
-- when no server answers.
use gw6c.Base.{
  if◌then◌else◌, ℕ, zero, suc, ◌+◌, ◌≡◌, refl, sym, ap, ap₂, ◌∙◌, List, [], ◌∷◌, ◌++◌, Option,
  if_true, none, some, true, false, length, map,
}
use gw6c.Broker.{Broker}
use gw6c.Session.Setup.{Transport}
use gw6c.Client.{State, Config, Step, retry_now, retry_later, give_up, bad_pointer}
use gw6c.Client.Transports.{choose_transport}
use gw6c.Client.Brokers.{bump_cycle, Resources, cant_connect}
use gw6c.Client.Dispatch.{redirected}
use gw6c.Client.Main.{Pass, pass}
use gw6c.Client.Missed.{
  Offers, Offers-Tries, Tries, one, two, Same, pass-Missed, kept, Same-trans, Same-bump,
}
use gw6c.Client.Onward.{server_of, At, At-Same, Fresh, next_one, last_one, first_one, quick_again}

-- The state of the loop at the next pass, if there is one.
abbrev pub running : Step → Option State
running (retry_now s) = if s.connected then some s else none
running (retry_later s) = if s.connected then some s else none
running (give_up s) = none
running bad_pointer = none

module _ (expand : List ℕ → List ℕ) (conf : Config) (met : ℕ → Pass) where
  -- The servers and the transports that the passes of `loop` try, from pass `i` on, when no stop is
  -- asked for.
  unfoldable pub tries : (passes : ℕ) → (i : ℕ) → Step → List (Option (List ℕ) × Transport)
  tries zero i step = []
  tries (suc n) i step = elim (running step) [
    | none ↦ []
    | some s ↦
        (s.server, (choose_transport conf.tunnel_mode s).transport)
        ∷ tries n (suc i) (pass expand conf (met i) s)
  ]

-- Each server with all transports, in order.
unfoldable pub spread : List Transport → List (Option (List ℕ)) → List (Option (List ℕ) × Transport)
spread ts [] = []
spread ts (server ∷ servers) = map (λ t. (server, t)) ts ++ spread ts servers

module _ (expand : List ℕ → List ℕ) (conf : Config) (met : ℕ → Pass)
    (missed : (i : ℕ) → (met i).peer.connects ≡ false)
    (mem : (i : ℕ) → (met i).resources.can_alloc ≡ true) where
  tries-step :
      (n i : ℕ) (step : Step) (s : State)
      → running step ≡ some s
      → tries expand conf met (suc n) i step
        ≡ (s.server, (choose_transport conf.tunnel_mode s).transport)
          ∷ tries expand conf met n (suc i) (pass expand conf (met i) s)
  unfolding tries
  tries-step n i step s e = rw (tries, e)

  tries-none : (i : ℕ) (step : Step) → tries expand conf met 0 i step ≡ []
  unfolding tries
  tries-none i step = refl

  -- All transports to one server, and then what comes behind that.
  Visits : List Transport → Type 0
  Visits ts =
      (more : List (Option (List ℕ) × Transport)) (i : ℕ) (step : Step) (s : State)
      → running step ≡ some s
      → s.connected ≡ true
      → s.cycle ≡ 0
      → (j k : ℕ) × (s' : State) × (tries expand conf met
            (length (map (λ t. (s.server, t)) ts ++ more)) i step
          ≡ map (λ t. (s.server, t)) ts
            ++ tries expand conf met (length more) j
                (cant_connect expand conf (met k).resources false s'))
        × Same s s'

  visits : (ts : List Transport) → Tries conf.tunnel_mode ts → Visits ts
  unfolding Visits
  visits _ (one t single first) more i step s runs goes begins =
      let (s', went, chosen, cycle, same) =
        pass-Missed expand conf t false (met i) s (missed i) single (kept s t 0 begins (first s)) in
      (
        suc i,
        i,
        s',
        tries-step (length more) i step s runs
            ∙ ap₂ (λ u next. (s.server, u) ∷ tries expand conf met (length more) (suc i) next)
                chosen went,
        same,
      )
  visits _ (two t u quick single first second) more i step s runs goes begins =
      let (s₁, went₁, chosen₁, cycle₁, same₁) =
        pass-Missed expand conf t true (met i) s (missed i) quick
          (kept s t 0 begins (first s begins)) in
      let s₂ = bump_cycle s₁ in
      let same₂ : Same s s₂ = Same-bump s s₁ same₁ in
      let turned : s₂.cycle ≡ 1 = unfold bump_cycle in ap (λ (n : ℕ). n + 1) (cycle₁ ∙ begins) in
      let runs₂ : running (retry_now s₂) ≡ some s₂ = if_true _ _ (same₂.connected ∙ goes) in
      let (s₃, went₃, chosen₃, cycle₃, same₃) =
        pass-Missed expand conf u false (met (suc i)) s₂ (missed (suc i)) single
          (kept s₂ u 1 turned (second s₂ turned)) in
      (
        suc (suc i),
        suc i,
        s₃,
        tries-step (suc (length more)) i step s runs
            ∙ ap₂ (λ u next. (s.server, u) ∷ tries expand conf met (suc (length more)) (suc i) next)
                chosen₁ (went₁ ∙ quick_again expand conf (met i).resources s₁)
            ∙ ap (λ l. (s.server, t) ∷ l)
                (tries-step (length more) (suc i) (retry_now s₂) s₂ runs₂
                  ∙ ap₂
                      (λ u next.
                        (s₂.server, u) ∷ tries expand conf met (length more) (suc (suc i)) next)
                      chosen₃ went₃
                  ∙ ap
                      (λ server.
                        (server, u)
                        ∷ tries expand conf met (length more) (suc (suc i))
                            (cant_connect expand conf (met (suc i)).resources false s₃))
                      same₂.server),
        Same-trans s s₂ s₃ same₂ same₃,
      )

  module _ (ts : List Transport) (visit : Visits ts) where
    visits_server :
        (server : Option (List ℕ)) (more : List (Option (List ℕ) × Transport)) (i : ℕ) (step : Step)
        (s : State)
        → running step ≡ some s
        → s.server ≡ server
        → Fresh s
        → (j k : ℕ) × (s' : State) × (tries expand conf met
              (length (map (λ t. (server, t)) ts ++ more))
              i
              step
            ≡ map (λ t. (server, t)) ts
              ++ tries expand conf met
                  (length more)
                  j
                  (cant_connect expand conf (met k).resources false s'))
          × Same s s'
    unfolding Visits
    visits_server server more i step s runs is (goes, begins) =
        let (j, k, s', went, same) = visit more i step s runs goes begins in
        (
          j,
          k,
          s',
          ap (λ v. tries expand conf met (length (map (λ t. (v, t)) ts ++ more)) i step) (sym is)
              ∙ went
              ∙ ap
                  (λ v.
                    map (λ t. (v, t)) ts
                    ++ tries expand conf met (length more) j
                        (cant_connect expand conf (met k).resources false s'))
                  is,
          same,
        )

    -- From the broker `b` on.
    walk :
        (xs : List Broker) (b : Broker) (rest : List Broker) (i : ℕ) (step : Step) (s : State)
        → running step ≡ some s
        → s.server ≡ server_of b
        → Fresh s
        → At xs b rest s
        → tries expand conf met
            (length (spread ts (map server_of (b ∷ rest) ++ (some conf.original_server ∷ []))))
            i
            step
          ≡ spread ts (map server_of (b ∷ rest) ++ (some conf.original_server ∷ []))
    unfolding spread
    walk xs b [] i step s runs server fresh h =
        let last = some conf.original_server in
        let more = spread ts (last ∷ []) in
        let (j, k, s₁, went, same) = visits_server (server_of b) more i step s runs server fresh in
        let (s₂, on, server₂, fresh₂) =
          last_one expand conf (met k).resources (mem k) s₁ (same.connected ∙ fresh.0)
            (At-Same s s₁ same h) in
        let (j', k', s₃, went₃, same₃) =
          visits_server last [] j (retry_later s₂) s₂ (if_true _ _ fresh₂.0) server₂ fresh₂ in
        went
        ∙ ap (λ next. map (λ t. (server_of b, t)) ts ++ tries expand conf met (length more) j next)
            on
        ∙ ap (λ l. map (λ t. (server_of b, t)) ts ++ l)
            (went₃ ∙ ap (λ l. map (λ t. (last, t)) ts ++ l) (tries-none _ _))
    walk xs b (b' ∷ rest) i step s runs server fresh h =
        let more = spread ts (map server_of (b' ∷ rest) ++ (some conf.original_server ∷ [])) in
        let (j, k, s₁, went, same) = visits_server (server_of b) more i step s runs server fresh in
        let (s₂, on, server₂, fresh₂, h₂) =
          next_one expand conf (met k).resources (mem k) s₁ (same.connected ∙ fresh.0)
            (At-Same s s₁ same h) in
        went
        ∙ ap (λ next. map (λ t. (server_of b, t)) ts ++ tries expand conf met (length more) j next)
            on
        ∙ ap (λ l. map (λ t. (server_of b, t)) ts ++ l)
            (walk (xs ++ (b ∷ [])) b' rest j (retry_now s₂) s₂ (if_true _ _ fresh₂.0) server₂ fresh₂
              h₂)

  -- Behind a redirection, if no connection is made in the passes of the loop, the client tries the
  -- brokers of the list one after the other, in the order of the list, each under its address, in
  -- brackets if it is an IPv6 address, and then the original server, each of them with the
  -- transports of the tunnel mode in their order; if the client runs and does not hold on to the
  -- last server, and memory does not run out.
  pub redirected-walks :
      (ts : List Transport) (res : Resources) (b : Broker) (rest : List Broker) (s : State)
      → Offers conf.tunnel_mode ts
      → res.can_alloc ≡ true
      → s.store.brokers ≡ b ∷ rest
      → s.read_last_server ≡ false
      → s.connected ≡ true
      → tries expand conf met
          (length (spread ts (map server_of (b ∷ rest) ++ (some conf.original_server ∷ []))))
          0
          (redirected res (b ∷ rest) s)
        ≡ spread ts (map server_of (b ∷ rest) ++ (some conf.original_server ∷ []))
  redirected-walks ts res b rest s offers alloc list fresh runs =
      let (s', e, server, begins, h) = first_one expand conf res alloc b rest s list fresh runs in
      ap
        (tries expand conf met
          (length (spread ts (map server_of (b ∷ rest) ++ (some conf.original_server ∷ [])))) 0)
        e
      ∙ walk ts (visits ts (Offers-Tries offers)) [] b rest 0 (retry_now s') s'
          (if_true _ _ begins.0) server begins h
