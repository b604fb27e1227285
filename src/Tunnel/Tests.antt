-- ===== src/Tunnel/Tests.antt =====
-- Tunnels of tspc-advanced/src/tsp/tsp_setup.c and tsp_tun_mgt.c, and the theorems at them.
use gw6c.Base.{
  codes, ℕ, ◌≡◌, refl, true, false, List, [], ◌∷◌, ◌++◌, none, some, replicate, arith, take,
}
use gw6c.Session.{pos, atoi, digits_from}
use gw6c.Keepalive.{Call}
use gw6c.Xml.Tunnel.{Info}
use gw6c.Tunnel.{Settings, State, set, delegate}
use gw6c.Tunnel.Setup.{Host, setup_interface}
use gw6c.Tunnel.Start.{Pass, Machine, start_local, management_loop, no_keepalive}
use gw6c.Tunnel.Seen.{IsSound, Sees}
use gw6c.Tunnel.Guards.{Runs, setup_interface-Runs}
use gw6c.Tunnel.Groups.{groups, group_count, delegate-groups}
use gw6c.Tunnel.Leases.{IsOver, management_loop-IsOver}
use gw6c.Tunnel.Ordered.{InOrder, start_local-InOrder}

abbrev settings : Settings
settings = record {
  host_type = codes "router";
  if_tunnel_v6v4 = codes "sit1";
  if_tunnel_v6udpv4 = codes "tun";
  if_prefix = codes "eth0";
  template = codes "linux";
  server = codes "broker";
  home_dir = codes "/usr/local/etc/gw6";
}

abbrev digits_group : List (List ℕ)
digits_group = replicate 8 (codes "20a1")

abbrev info : Info
info = record {
  action = some (codes "info");
  type = some (codes "v6v4");
  lifetime = none;
  proxy = none;
  mtu = none;
  client_address_ipv4 = some (codes "192.0.2.1");
  client_address_ipv6 = some (codes "2001:db8::1");
  client_dns_name = none;
  server_address_ipv4 = some (codes "192.0.2.2");
  server_address_ipv6 = some (codes "2001:db8::2");
  router_protocol = none;
  prefix_length = some (codes "48");
  prefix = some (groups digits_group);
  client_as = none;
  server_as = none;
  keepalive_interval = some (codes "30");
  keepalive_address = some (codes "2001:db8::2");
  dns_server_address_ipv4 = [];
  dns_server_address_ipv6 = [];
  redirect = record {
    broker_redirect_ipv4 = [];
    broker_redirect_ipv6 = [];
    broker_redirect_dn = [];
  };
}

abbrev nothing : State
nothing = record {
  env = [];
  shown = record {
    broker_name = none;
    tunnel_type = none;
    ipv4_local = none;
    ipv6_local = none;
    ipv4_remote = none;
    ipv6_remote = none;
    delegated_prefix = none;
    user_domain = none;
    up_time = 0;
  };
}

abbrev host : Host
host = record {
  script_dir = codes "/usr/local/etc/gw6/template";
  readable = true;
  status = 0;
  output_opens = true;
  now = 1000;
}

setup_interface-Runs_example :
    Runs (λ env. IsSound info × Sees info env) (setup_interface settings host info [] nothing)
setup_interface-Runs_example = setup_interface-Runs settings host info [] nothing

forty_eight : atoi (codes "48") ≡ pos 48
unfolding atoi digits_from
forty_eight = refl

delegate-groups_example :
    delegate (codes "v6v4") (groups digits_group) (codes "48") nothing
    ≡ set (record nothing {
      env =
          (codes "TSP_PREFIXLEN", codes "48")
          ∷ (codes "TSP_PREFIX", groups (take (group_count 48) digits_group))
          ∷ [];
      shown = record nothing.shown {
        delegated_prefix = some (groups (take (group_count 48) digits_group) ++ codes "/48");
      };
    })
delegate-groups_example =
    delegate-groups (codes "v6v4") (codes "48") digits_group 48 nothing refl forty_eight
      (omega arith) (omega arith) (omega arith)
      (refl, (refl, (refl, (refl, (refl, (refl, (refl, (refl, tt)))))))) refl

abbrev call : Call
call = record { reply = false; now = 0; ping_sent = false; next_sec = 0; next_usec = 0 }

abbrev pass_at : ℕ → Pass
pass_at now = record { stop = false; call = call; now = now }

management_loop-IsOver_example :
    IsOver false (management_loop false 1010 (pass_at 1000 ∷ pass_at 1010 ∷ []) no_keepalive) (
      management_loop false 1010
        ((pass_at 1000 ∷ pass_at 1010 ∷ []) ++ (pass_at 1011 ∷ []))
        no_keepalive)
management_loop-IsOver_example =
    management_loop-IsOver false 1010 (pass_at 1000 ∷ pass_at 1010 ∷ []) [] (pass_at 1011)
      no_keepalive (omega arith)
      (
        record { goes_on = refl; early = omega arith },
        (record { goes_on = refl; early = omega arith }, tt),
      )
      (record { goes_on = refl; late = omega arith })

abbrev machine : Machine
machine = record {
  is_root = true;
  has_ipv6 = true;
  daemon = true;
  tun_opens = true;
  forks = true;
  child_seen = true;
  host = host;
  at_end = host;
  usec = 0;
  tun_passes = [];
  passes = record { stop = true; call = call; now = 1001 } ∷ [];
}

start_local-InOrder_example :
    InOrder settings true machine info nothing
      (codes "v6v4")
      (start_local settings true machine info nothing (codes "v6v4"))
start_local-InOrder_example = start_local-InOrder settings true machine info nothing (codes "v6v4")
