-- ===== src/Broker/Sort.antt =====
-- `tspSortBrokerList`: the brokers by distance, none lost and none added.
use mathlib.Core.Path.{subst}
use mathlib.Core.List.{Perm, perm_middle, append-nil}
use mathlib.Core.List.Perm
use gw6c.Base.{
  ℕ, ◌+◌, ◌≤◌, ◌≡◌, refl, ap, List, [], ◌∷◌, ◌++◌, Option, none, some, Bool, true, All, ltb, arith,
  Bool-cases, inl, inr, ltb-false→le, length, map,
}
use gw6c.Broker.{
  ok, is_ok, Broker, Threads, insert_in_broker_list, sort_from, sort_broker_list,
  get_broker_distances, measured,
}

-- Each broker is at most as far as those behind it.
abbrev pub IsSorted : List Broker → Type 0
IsSorted [] = Unit
IsSorted (b ∷ bs) = All (λ c. b.distance ≤ c.distance) bs × IsSorted bs

All-insert :
    (P : Broker → Type 0) (new : Broker) (bs : List Broker)
    → P new
    → All P bs
    → All P (insert_in_broker_list new bs)
unfolding insert_in_broker_list
All-insert P new [] p h = (p, tt)
All-insert P new (b ∷ bs) p h = elim (Bool-cases (ltb b.distance new.distance)) [
  | inl near ↦ rw near (h.0, All-insert P new bs p h.1)
  | inr far ↦ rw far (p, h)
]

All-farther :
    {a b : ℕ} (bs : List Broker)
    → a ≤ b
    → All (λ c. b ≤ c.distance) bs
    → All (λ c. a ≤ c.distance) bs
All-farther [] le h = tt
All-farther (c ∷ bs) le h = (omega arith, All-farther bs le h.1)

insert-IsSorted :
    (new : Broker) (bs : List Broker) → IsSorted bs → IsSorted (insert_in_broker_list new bs)
unfolding insert_in_broker_list
insert-IsSorted new [] h = (tt, tt)
insert-IsSorted new (b ∷ bs) h = elim (Bool-cases (ltb b.distance new.distance)) [
  | inl near ↦ rw near (
    All-insert (λ c. b.distance ≤ c.distance) new bs (ground arith) h.0,
    insert-IsSorted new bs h.1,
  )
  | inr far ↦
      let le : new.distance ≤ b.distance = ltb-false→le b.distance new.distance far in
      rw far ((le, All-farther bs le h.0), h)
]

insert-perm : (new : Broker) (bs : List Broker) → Perm (insert_in_broker_list new bs) (new ∷ bs)
unfolding insert_in_broker_list
insert-perm new [] = Perm.refl (new ∷ [])
insert-perm new (b ∷ bs) = elim (Bool-cases (ltb b.distance new.distance)) [
  | inl near ↦ rw near (Perm.trans (Perm.cons b (insert-perm new bs)) (perm_middle (b ∷ []) bs))
  | inr far ↦ rw far (Perm.refl (new ∷ b ∷ bs))
]

sort_from-sorts :
    (can_alloc : ℕ → Bool) (i : ℕ) (sorted bs : List Broker) {r : List Broker}
    → IsSorted sorted
    → sort_from can_alloc i sorted bs ≡ some r
    → IsSorted r × Perm r (sorted ++ bs)
unfolding sort_from
sort_from-sorts can_alloc i sorted [] h e =
    let same : sorted ≡ _ = cc in
    (
      subst IsSorted same h,
      subst (λ r. Perm r (sorted ++ [])) same (rw (append-nil sorted) (Perm.refl sorted)),
    )
sort_from-sorts can_alloc i sorted (b ∷ bs) h e = elim (Bool-cases (can_alloc i)) [
  | inl yes_alloc ↦
      let next =
        sort_from-sorts can_alloc (i + 1) (insert_in_broker_list b sorted) bs
          (insert-IsSorted b sorted h) (rw yes_alloc at e) in
      (
        next.0,
        Perm.trans next.1 (
            Perm.trans (Perm.append (insert-perm b sorted) (Perm.refl bs))
              (Perm.symm (perm_middle sorted bs))),
      )
  | inr no_alloc ↦ cc (rw no_alloc at e)
]

sort_from-succeeds :
    (can_alloc : ℕ → Bool) (i : ℕ) (sorted bs : List Broker)
    → ((k : ℕ) → can_alloc k ≡ true)
    → (r : List Broker) × (sort_from can_alloc i sorted bs ≡ some r)
unfolding sort_from
sort_from-succeeds can_alloc i sorted [] h = (sorted, refl)
sort_from-succeeds can_alloc i sorted (b ∷ bs) h =
    rw (h i) (sort_from-succeeds can_alloc (i + 1) (insert_in_broker_list b sorted) bs h)

abbrev pub at_distance : Threads → Broker → Broker
at_distance th b = record b { distance = th.measure b }

measured-map :
    (th : Threads) (bs : List Broker) → measured th (length bs) bs ≡ map (at_distance th) bs
unfolding measured
measured-map th [] = refl
measured-map th (b ∷ bs) = ap (λ r. at_distance th b ∷ r) (measured-map th bs)

distances-measured :
    (th : Threads) (bs : List Broker) (n : ℕ)
    → is_ok (get_broker_distances th bs n).0 ≡ true
    → get_broker_distances th bs n ≡ (ok, measured th n bs)
unfolding get_broker_distances
distances-measured th bs n e = grind arith

picked-sorts :
    (th : Threads) (can_alloc : ℕ → Bool) (brokers known : List Broker) {sorted : List Broker}
    (o : Option (List Broker))
    → get_broker_distances th brokers (length brokers) ≡ (ok, known)
    → sort_from can_alloc 0 [] known ≡ o
    → sort_broker_list th can_alloc brokers (length brokers) ≡ (ok, sorted)
    → IsSorted sorted × Perm sorted known
unfolding sort_broker_list
picked-sorts th can_alloc brokers known none d p e = cc (rw (d, p) at e)
picked-sorts th can_alloc brokers known (some r) d p e =
    let same : r ≡ _ = ap (λ x. x.1) (rw (d, p) at e) in
    subst (λ x. IsSorted x × Perm x known) same (sort_from-sorts can_alloc 0 [] known tt p)

-- When sorting a whole list succeeds, the result has the brokers of the list, each with the
-- distance that was measured to it, and none is farther than one behind it.
pub sort_broker_list-sorts :
    (th : Threads) (can_alloc : ℕ → Bool) (brokers sorted : List Broker)
    → sort_broker_list th can_alloc brokers (length brokers) ≡ (ok, sorted)
    → IsSorted sorted × Perm sorted (map (at_distance th) brokers)
unfolding sort_broker_list
sort_broker_list-sorts th can_alloc brokers sorted e =
    elim (Bool-cases (is_ok (get_broker_distances th brokers (length brokers)).0)) [
      | inl fine ↦
          let known = distances-measured th brokers (length brokers) fine in
          let d = rw (measured-map th brokers) at known in
          picked-sorts th can_alloc brokers (map (at_distance th) brokers) _ d refl e
      | inr failed ↦ cc (rw failed at e)
    ]

-- Sorting succeeds when all threads and all memory are given.
pub sort_broker_list-succeeds :
    (th : Threads) (can_alloc : ℕ → Bool) (brokers : List Broker) (count : ℕ)
    → is_ok (get_broker_distances th brokers count).0 ≡ true
    → ((k : ℕ) → can_alloc k ≡ true)
    → (sorted : List Broker) × (sort_broker_list th can_alloc brokers count ≡ (ok, sorted))
unfolding sort_broker_list
sort_broker_list-succeeds th can_alloc brokers count fine h =
    let known = distances-measured th brokers count fine in
    let (r, e) = sort_from-succeeds can_alloc 0 [] (measured th count brokers) h in
    (r, rw (known, e) refl)
