-- ===== src/Client/Tests.antt =====
-- Runs of the connection loop of tspc-advanced/src/tsp/tsp_client.c, and the theorems at them.
use gw6c.Base.{ℕ, length, ◌≡◌, ◌≢◌, refl, List, [], ◌∷◌, ◌++◌, Option, none, some, true, false, map}
use gw6c.Broker.{Broker, fqdn, ipv6}
use gw6c.Session.Words
use gw6c.Session.Setup.{rudp, tcp}
use gw6c.Session.Tests.{plain, always, peer}
use gw6c.Client.{State, Config, bad_pointer}
use gw6c.Client.Brokers.{Resources}
use gw6c.Client.Dispatch.{redirected}
use gw6c.Client.Main.{initial, LastServer, Pass, start, loop}
use gw6c.Client.Loop.{loop-never-bad}
use gw6c.Client.Versions.{is_v6anyv4}
use gw6c.Client.Bounded.{IsBounded, loop-version-IsBounded}
use gw6c.Client.Missed.{offers_any}
use gw6c.Client.Onward.{server_of}
use gw6c.Client.Walk.{tries, spread, redirected-walks}

abbrev conf : Config
conf = record {
  tunnel_mode = 3;
  auth_method = Words.any;
  auto_retry_connect = true;
  broker_list_named = true;
  original_server = b's' ∷ [];
}

abbrev last : LastServer
last = record {
  always_use_same_server = true;
  named = true;
  file = some (b'l' ∷ 10 ∷ []);
  can_alloc = true;
}

abbrev resources : Resources
resources = record { can_alloc = true; file = some (b'a' ∷ 10 ∷ []); file_alloc = always }

-- A broker that does not answer, one that grants a tunnel that is then lost, and a stop.
abbrev passes : List (Option Pass)
passes =
    some (record { peer = record peer { connects = false }; resources = resources })
    ∷ some (record { peer = record peer { local_status = 7 }; resources = resources })
    ∷ none
    ∷ []

abbrev first : Broker
first = record { address = b'a' ∷ []; address_type = fqdn; distance = 0 }

abbrev second : Broker
second = record { address = b':' ∷ b':' ∷ []; address_type = ipv6; distance = 9 }

abbrev away : State
away = record (initial conf rudp) {
  store = record { generation = 4; brokers = first ∷ second ∷ [] };
}

loop-never-bad_example : loop plain conf passes (start plain conf rudp last) ≢ bad_pointer
loop-never-bad_example = loop-never-bad plain conf rudp last passes

loop-version-IsBounded_example :
    IsBounded conf (loop plain conf passes (start plain conf rudp last))
loop-version-IsBounded_example = loop-version-IsBounded plain conf rudp last passes is_v6anyv4

-- No transport connects, in any pass.
abbrev missed : ℕ → Pass
missed i = record { peer = record peer { connects = false }; resources = resources }

-- `a`, then `[::]`, then the original server, over UDP and TCP.
redirected-walks_example :
    tries plain conf missed
      (length
        (spread (rudp ∷ tcp ∷ []) (map server_of (first ∷ second ∷ []) ++ (some (b's' ∷ []) ∷ []))))
      0
      (redirected resources (first ∷ second ∷ []) away)
    ≡ spread (rudp ∷ tcp ∷ []) (map server_of (first ∷ second ∷ []) ++ (some (b's' ∷ []) ∷ []))
unfolding initial
redirected-walks_example =
    redirected-walks plain conf missed (λ i. refl) (λ i. refl) (rudp ∷ tcp ∷ []) resources first
      (second ∷ []) away offers_any refl refl refl refl
