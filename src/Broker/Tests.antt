-- ===== src/Broker/Tests.antt =====
-- The theorems on tspc-advanced/src/tsp/tsp_redirect.c at some lists of brokers.
use mathlib.Core.List.{Perm}
use gw6c.Base.{
  ℕ, ◌≤◌, ◌≡◌, refl, List, [], ◌∷◌, ◌++◌, none, some, Bool, true, false, map, arith, length,
}
use gw6c.Broker.{
  ok, Broker, fqdn, ipv4, ipv6, TunnelInfo, Threads, create_broker_list, add_all, add_broker,
  get_broker_distances, sort_from, insert_in_broker_list, sort_broker_list, max_brokers,
}
use gw6c.Broker.Files.{read_broker_list, write_broker_list}
use gw6c.Broker.Redirect.{Surroundings, sort_and_save, handle_redirect}
use gw6c.Broker.Handled.{Serves, handle_redirect-Serves}
use gw6c.Broker.Sort.{IsSorted, at_distance, sort_broker_list-sorts}
use gw6c.Broker.RoundTrip.{forgotten, read_broker_list-write}
use gw6c.Broker.Create.{Lists, create_broker_list-Lists, create_broker_list-failed}

abbrev plain : List ℕ → List ℕ
plain address = address

abbrev always : ℕ → Bool
always k = true

abbrev near : Broker
near = record { address = b'a' ∷ []; address_type = fqdn; distance = 0 }

abbrev far : Broker
far = record { address = b':' ∷ b':' ∷ []; address_type = ipv6; distance = 0 }

abbrev threads : Threads
threads = record {
  array_ok = true;
  args_ok = true;
  attr_ok = true;
  created = always;
  joined = always;
  measure = λ b. length b.address;
}

abbrev info : TunnelInfo
info = record {
  broker_redirect_ipv4 = [];
  broker_redirect_ipv6 = some (b':' ∷ b':' ∷ []) ∷ [];
  broker_redirect_dn = some (b'a' ∷ []) ∷ [];
}

abbrev bad_info : TunnelInfo
bad_info = record info { broker_redirect_ipv4 = none ∷ [] }

-- The far broker stands first and is last in the result.
sort_broker_list-sorts_example :
    IsSorted (at_distance threads near ∷ at_distance threads far ∷ [])
    × Perm
        (at_distance threads near ∷ at_distance threads far ∷ [])
        (map (at_distance threads) (far ∷ near ∷ []))
unfolding sort_broker_list get_broker_distances sort_from insert_in_broker_list
sort_broker_list-sorts_example =
    sort_broker_list-sorts threads always (far ∷ near ∷ [])
      (at_distance threads near ∷ at_distance threads far ∷ []) refl

read_broker_list-write_example :
    ((write_broker_list true true always (far ∷ near ∷ [])).0 ≡ ok)
    × (read_broker_list plain true always (write_broker_list true true always (far ∷ near ∷ [])).1
        ≡ (ok, map forgotten (far ∷ near ∷ [])))
read_broker_list-write_example =
    read_broker_list-write plain always always (far ∷ near ∷ []) (λ k. refl) (λ k. refl)
      (
        (((refl, refl, refl), ((refl, refl, refl), tt)), omega arith, omega arith, refl),
        ((((refl, refl, refl), tt), omega arith, omega arith, refl), tt),
      )
      (omega arith)

create_broker_list-failed_example : (create_broker_list plain always bad_info).1 ≡ []
unfolding create_broker_list add_all add_broker
create_broker_list-failed_example = create_broker_list-failed plain always bad_info refl

create_broker_list-Lists_example :
    (v4 : List Broker) × (v6 : List Broker) × (names : List Broker) × Lists plain always ipv4 [] v4
    × Lists plain always ipv6 info.broker_redirect_ipv6 v6
    × Lists plain always fqdn info.broker_redirect_dn names
    × (far ∷ near ∷ [] ≡ (v4 ++ v6) ++ names)
    × (2 ≡ length (far ∷ near ∷ []))
    × (2 ≤ max_brokers)
unfolding create_broker_list add_all add_broker
create_broker_list-Lists_example =
    create_broker_list-Lists plain always info (far ∷ near ∷ []) 2 refl

abbrev surroundings : Surroundings
surroundings = record {
  can_create = always;
  can_copy = always;
  threads = threads;
  file_named = false;
  file_opens = false;
  can_write = always;
}

handle_redirect-Serves_example :
    (created : List Broker) × (create_broker_list plain always info ≡ (ok, created, length created))
    × Serves plain surroundings created (at_distance threads near ∷ at_distance threads far ∷ [])
unfolding handle_redirect sort_and_save create_broker_list add_all add_broker sort_broker_list
    get_broker_distances sort_from insert_in_broker_list write_broker_list
handle_redirect-Serves_example =
    handle_redirect-Serves plain surroundings info []
      (at_distance threads near ∷ at_distance threads far ∷ []) none refl
