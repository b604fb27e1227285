-- ===== src/Broker/Create.antt =====
-- `tspCreateBrokerList`: the list has the brokers of the message, in its order.
use mathlib.Core.List.{append-nil, append_assoc}
use gw6c.Base.{
  ℕ, ◌+◌, ◌≤◌, ◌≡◌, refl, sym, ap, ◌∙◌, List, [], ◌∷◌, ◌++◌, Option, none, some, Bool, true, false,
  not, ltb, ◌==◌, if_both, if_where, Bool-cases, inl, inr, arith, length, take, length-append,
}
use gw6c.Broker.{
  Status, ok, is_ok, Broker, AddressType, ipv4, ipv6, fqdn, TunnelInfo, add_broker, add_all,
  create_broker_list, max_brokers,
}

pub is_ok-ok : (s : Status) → is_ok s ≡ true → s ≡ ok
is_ok-ok s e = elim s as (λ k. is_ok k ≡ true → k ≡ ok) [ ok ↦ λ _. refl | _ ↦ λ h. cc ] e

pub paired : (r : Status × List Broker × ℕ) → r.0 ≡ ok → r ≡ (ok, r.1, r.2)
paired (s, bs, n) e = rw e refl

module _ (expand : List ℕ → List ℕ) (can_alloc : ℕ → Bool) where
  -- The brokers of a list of values: all addresses are kept whole, with no distance yet.
  pub data Lists (t : AddressType) : List (Option (List ℕ)) → List Broker → Type 0 where
    none_left : Lists t [] []
    one_more :
        {a : List ℕ} {vs : List (Option (List ℕ))} {bs : List Broker}
        → length (take 254 (expand a)) ≡ length a
        → Lists t vs bs
        → Lists t
            (some a ∷ vs)
            (record { address = take 254 (expand a); address_type = t; distance = 0 } ∷ bs)

  -- What `add_all` comes to when it succeeds.
  Added : AddressType → List (Option (List ℕ)) → List Broker → ℕ → List Broker → ℕ → Type 0
  Added t vs bs n r m =
      (new : List Broker) × (r ≡ bs ++ new)
      × Lists t vs new
      × (m ≡ n + length new)
      × ((n ≤ max_brokers) → m ≤ max_brokers)

  add_all-lists :
      (t : AddressType) (vs : List (Option (List ℕ))) (bs : List Broker) (n : ℕ) {r : List Broker}
      {m : ℕ}
      → add_all expand can_alloc t vs bs n ≡ (ok, r, m)
      → Added t vs bs n r m
  unfolding add_all add_broker Added
  add_all-lists t [] bs n {r} {m} e =
      let same : bs ≡ r = ap (λ x. x.1) e in
      let count : n ≡ m = ap (λ x. x.2) e in
      ([], sym same ∙ sym (append-nil bs), none_left, omega arith, λ h. omega arith)
  add_all-lists t (none ∷ vs) bs n {r} {m} e =
      if_where (λ x. x ≡ (ok, r, m) → Added t (none ∷ vs) bs n r m) (ltb n max_brokers) (λ _ e. cc)
        (λ _ e. cc) e
  add_all-lists t (some a ∷ vs) bs n {r} {m} e = elim (Bool-cases (ltb n max_brokers)) [
    | inr full ↦ cc (rw full at e)
    | inl room ↦ elim (Bool-cases (can_alloc n)) [
      | inr no_memory ↦ cc (rw (room, no_memory) at e)
      | inl yes_alloc ↦ elim (Bool-cases (length (take 254 (expand a)) == length a)) [
        | inr cut ↦ cc (rw (room, yes_alloc, cut) at e)
        | inl whole ↦
            let (new, same, lists, count, bound) =
              add_all-lists t vs _ (n + 1) (rw (room, yes_alloc, whole) at e) in
            (
              _ ∷ new,
              same ∙ append_assoc bs (_ ∷ []) new,
              one_more (ground arith) lists,
              omega arith,
              λ h. bound (ground arith),
            )
      ]
    ]
  ]

  -- A list that failed is freed.
  data Emptied : Status × List Broker × ℕ → Type 0 where
    kept : (bs : List Broker) (n : ℕ) → Emptied (ok, bs, n)
    emptied : (status : Status) (n : ℕ) → Emptied (status, [], n)

  add_all-Emptied :
      (t : AddressType) (vs : List (Option (List ℕ))) (bs : List Broker) (n : ℕ)
      → Emptied (add_all expand can_alloc t vs bs n)
  unfolding add_all
  add_all-Emptied t [] bs n = kept bs n
  add_all-Emptied t (v ∷ vs) bs n =
      let more = add_all-Emptied t vs (add_broker expand (can_alloc n) bs v t 0).1 (n + 1) in
      search (if_both Emptied, emptied, more)

  create-Emptied : (info : TunnelInfo) → Emptied (create_broker_list expand can_alloc info)
  unfolding create_broker_list
  create-Emptied info =
      let r₁ = add_all expand can_alloc ipv4 info.broker_redirect_ipv4 [] 0 in
      let r₂ = add_all expand can_alloc ipv6 info.broker_redirect_ipv6 r₁.1 r₁.2 in
      if_both Emptied (not (is_ok r₁.0)) (add_all-Emptied ipv4 info.broker_redirect_ipv4 [] 0) (
        if_both Emptied (not (is_ok r₂.0))
          (add_all-Emptied ipv6 info.broker_redirect_ipv6 r₁.1 r₁.2)
          (add_all-Emptied fqdn info.broker_redirect_dn r₂.1 r₂.2))

  Emptied-failed : {r : Status × List Broker × ℕ} → Emptied r → is_ok r.0 ≡ false → r.1 ≡ []
  Emptied-failed (kept bs n) e = cc
  Emptied-failed (emptied status n) e = refl

  -- When the list cannot be created, it is empty.
  pub create_broker_list-failed :
      (info : TunnelInfo)
      → is_ok (create_broker_list expand can_alloc info).0 ≡ false
      → (create_broker_list expand can_alloc info).1 ≡ []
  create_broker_list-failed info e = Emptied-failed (create-Emptied info) e

  -- When the list is created, it has the IPv4 addresses of the message, then the IPv6 addresses,
  -- then the names, each whole and with its type; they are at most 50, and the count is theirs.
  pub create_broker_list-Lists :
      (info : TunnelInfo) (brokers : List Broker) (count : ℕ)
      → create_broker_list expand can_alloc info ≡ (ok, brokers, count)
      → (v4 : List Broker) × (v6 : List Broker) × (names : List Broker) × Lists ipv4
          info.broker_redirect_ipv4 v4
        × Lists ipv6 info.broker_redirect_ipv6 v6
        × Lists fqdn info.broker_redirect_dn names
        × (brokers ≡ (v4 ++ v6) ++ names)
        × (count ≡ length brokers)
        × (count ≤ max_brokers)
  unfolding create_broker_list Added
  create_broker_list-Lists info brokers count e =
      let r₁ = add_all expand can_alloc ipv4 info.broker_redirect_ipv4 [] 0 in
      let r₂ = add_all expand can_alloc ipv6 info.broker_redirect_ipv6 r₁.1 r₁.2 in
      elim (Bool-cases (is_ok r₁.0)) [
        | inr e₁ ↦ let z : r₁.0 ≡ ok = ap (λ x. x.0) (rw e₁ at e) in cc (rw z at e₁)
        | inl e₁ ↦ elim (Bool-cases (is_ok r₂.0)) [
          | inr e₂ ↦ let z : r₂.0 ≡ ok = ap (λ x. x.0) (rw (e₁, e₂) at e) in cc (rw z at e₂)
          | inl e₂ ↦
              let (v4, s₁, l₁, c₁, b₁) =
                add_all-lists ipv4 info.broker_redirect_ipv4 [] 0 (paired _ (is_ok-ok _ e₁)) in
              let (v6, s₂, l₂, c₂, b₂) =
                add_all-lists ipv6 info.broker_redirect_ipv6 r₁.1 r₁.2 (paired _ (is_ok-ok _ e₂)) in
              let (names, s₃, l₃, c₃, b₃) =
                add_all-lists fqdn info.broker_redirect_dn r₂.1 r₂.2 (rw (e₁, e₂) at e) in
              let all = s₃ ∙ ap (λ x. x ++ names) (s₂ ∙ ap (λ x. x ++ v6) s₁) in
              let total : length ((v4 ++ v6) ++ names) ≡ (length v4 + length v6) + length names =
                length-append (v4 ++ v6) names ∙ ap (λ k. k + length names) (length-append v4 v6) in
              (
                v4,
                v6,
                names,
                l₁,
                l₂,
                l₃,
                all,
                (omega arith) ∙ sym total ∙ ap length (sym all),
                b₃ (b₂ (b₁ (omega arith))),
              )
        ]
      ]
