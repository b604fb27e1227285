-- ===== src/Broker/Handled.antt =====
-- What `tspHandleRedirect` promises to `tspSetupTunnel`.
use gw6c.Base.{
  ℕ, ◌<◌, ◌≡◌, sym, ap, ap₂, ◌∙◌, List, Option, some, ltb, ◌==◌, Bool-cases, ◌⊎◌, inl, inr, arith,
  length, map, ltb→lt,
}
use mathlib.Core.List.{Perm}
use gw6c.Broker.{ok, is_ok, Broker, TunnelInfo, create_broker_list, sort_broker_list}
use gw6c.Broker.Redirect.{Surroundings, sort_and_save, handle_redirect}
use gw6c.Broker.Sort.{IsSorted, at_distance, sort_broker_list-sorts}
use gw6c.Broker.Create.{create_broker_list-Lists, paired, is_ok-ok}

module _ (expand : List ℕ → List ℕ) (env : Surroundings) where
  open env use {can_create, can_copy, threads, file_named, file_opens, can_write}

  -- The list that the client is given, for the list that was made of the message.
  abbrev pub Serves : List Broker → List Broker → Type 0
  Serves created brokers =
      ((length created ≡ 1) × (brokers ≡ created))
      ⊎ ((1 < length created) × IsSorted brokers × Perm brokers (map (at_distance threads) created))

  saved :
      (created brokers : List Broker) (file : Option (List ℕ))
      → sort_and_save expand env created (length created) ≡ (ok, brokers, file)
      → IsSorted brokers × Perm brokers (map (at_distance threads) created)
  unfolding sort_and_save
  saved created brokers file e =
      elim (Bool-cases (is_ok (sort_broker_list threads can_copy created (length created)).0)) [
        | inr f ↦ cc (rw f at e)
        | inl t ↦
            let same : (sort_broker_list threads can_copy created (length created)).1 ≡ brokers =
              ap (λ x. x.1) (rw t at e) in
            sort_broker_list-sorts threads can_copy created brokers
              (ap₂ (λ a b. (a, b)) (is_ok-ok _ t) same)
      ]

  -- When a redirection is handled, a list was made of the message, and it is not empty. One broker
  -- is left as it is; of more, the list has each with its distance, the nearest first.
  pub handle_redirect-Serves :
      (info : TunnelInfo) (old brokers : List Broker) (file : Option (List ℕ))
      → handle_redirect expand env (some info) old ≡ (ok, brokers, file)
      → (created : List Broker) × (create_broker_list expand can_create info
          ≡ (ok, created, length created))
        × Serves created brokers
  unfolding handle_redirect
  handle_redirect-Serves info old brokers file e =
      let r = create_broker_list expand can_create info in
      elim (Bool-cases (is_ok r.0)) [
        | inr f ↦ cc (rw f at e)
        | inl t ↦
            let made = paired r (is_ok-ok _ t) in
            let (v4, v6, names, l₁, l₂, l₃, all, count, bound) =
              create_broker_list-Lists expand can_create info r.1 r.2 made in
            (
              r.1,
              made ∙ ap (λ k. (ok, r.1, k)) count,
              elim (Bool-cases (ltb 1 (length r.1))) [
                | inl many ↦
                    let known = saved r.1 brokers file (rw (t, count, many) at e) in
                    inr (ltb→lt 1 (length r.1) many, known.0, known.1)
                | inr few ↦ elim (Bool-cases (length r.1 == 0)) [
                  | inl no_broker ↦ cc (rw (t, count, few, no_broker) at e)
                  | inr one ↦ inl (ground arith, sym (ap (λ x. x.1) (rw (t, count, few, one) at e)))
                ]
              ],
            )
      ]
