-- ===== src/Xml/Tunnel/Payload.antt =====
-- `tspXMLParse` of tspc-advanced/src/xml/xml_tun.c, and `tspExtractPayload` of
-- tspc-advanced/src/tsp/tsp_client.c.
use gw6c.Base.{
  codes, ℕ, zero, List, [], ◌∷◌, Option, none, some, Bool, true, false, ◌==◌, if◌then◌else◌, map,
}
use Prim.Native.String.{String}
use gw6c.Session.{pos}
use gw6c.Xml.{null, Node, Fault, null_read}
use gw6c.Xml.Parser.{Parsed, parsed, fault, xml_parse}
use gw6c.Xml.Tunnel.{
  Info, Process, Tables, State, p_tunnel, p_server, p_client, p_broker, p_address, p_dns_server,
  p_router, p_prefix, p_as, p_keepalive,
}
use gw6c.Xml.Tunnel.Handlers.{at_root}

abbrev pub no_info : Info
no_info = record {
  action = none;
  type = none;
  lifetime = none;
  proxy = none;
  mtu = none;
  client_address_ipv4 = none;
  client_address_ipv6 = none;
  client_dns_name = none;
  server_address_ipv4 = none;
  server_address_ipv6 = none;
  router_protocol = none;
  prefix_length = none;
  prefix = none;
  client_as = none;
  server_as = none;
  keepalive_interval = none;
  keepalive_address = none;
  dns_server_address_ipv4 = [];
  dns_server_address_ipv6 = [];
  redirect = record {
    broker_redirect_ipv4 = [];
    broker_redirect_ipv6 = [];
    broker_redirect_dn = [];
  };
}

-- A call of `tspXMLParse` on a cleared `tTunnel`; `keepalive` keeps its value.
abbrev pub cleared : State → State
cleared st = record st {
  info = no_info;
  client = false;
  server = false;
  router = false;
  dns_server = false;
  broker = false;
}

unfoldable pub put_root : Parsed Process State → Parsed Process State
put_root (parsed value t s) = parsed value t (record s { tables = record s.tables { root = t } })
put_root (fault f) = fault f

unfoldable pub tsp_xml_parse : List ℕ → State → Parsed Process State
tsp_xml_parse text st = put_root (xml_parse at_root text st.tables.root (cleared st))

-- `strchr`: from the first such byte on.
unfoldable pub strchr : ℕ → List ℕ → Option (List ℕ)
strchr b [] = none
strchr b (c ∷ cs) = if c == b then some (c ∷ cs) else strchr b cs

-- `tspExtractPayload`: whether there is a tunnel, and the state with it.
unfoldable pub extracted : State → Parsed Process State → Option Fault × Bool × State
extracted st (fault f) = (some f, false, st)
extracted st (parsed (pos zero) t s) = (none, true, s)
extracted st (parsed _ t s) = (none, false, s)

unfoldable pub from_tag : State → Option (List ℕ) → Option Fault × Bool × State
from_tag st none = (none, false, record st { info = no_info })
from_tag st (some text) = extracted st (tsp_xml_parse text st)

unfoldable pub from_line : State → Option (List ℕ) → Option Fault × Bool × State
from_line st none = (some null_read, false, st)
from_line st (some line) = from_tag st (strchr b'<' line)

unfoldable pub extract_payload : List ℕ → State → Option Fault × Bool × State
extract_payload payload st = from_line st (strchr 10 payload)

-- The tables at the start of the process.
abbrev node : String → Process → List (List ℕ) → Node Process
node name process names = record {
  name = codes name;
  process = process;
  attributes = map (λ (a : List ℕ). (a, null)) names;
}

abbrev pub tables : Tables
tables = record {
  root =
      node "tunnel" p_tunnel
        (codes "action" ∷ codes "type" ∷ codes "lifetime" ∷ codes "proxy" ∷ codes "mtu" ∷ [])
      ∷ [];
  tunnel = node "server" p_server [] ∷ node "client" p_client [] ∷ node "broker" p_broker [] ∷ [];
  server =
      node "address" p_address (codes "type" ∷ [])
      ∷ node "router" p_router (codes "protocol" ∷ [])
      ∷ [];
  client =
      node "address" p_address (codes "type" ∷ [])
      ∷ node "router" p_router (codes "protocol" ∷ [])
      ∷ node "keepalive" p_keepalive (codes "interval" ∷ [])
      ∷ [];
  router =
      node "prefix" p_prefix (codes "length" ∷ [])
      ∷ node "dns_server" p_dns_server (codes "type" ∷ [])
      ∷ node "as" p_as (codes "number" ∷ [])
      ∷ [];
  dns = node "address" p_address (codes "type" ∷ []) ∷ [];
  broker = node "address" p_address (codes "type" ∷ []) ∷ [];
  keepalive = node "address" p_address (codes "type" ∷ []) ∷ [];
}

-- The state at the start of the process.
abbrev pub initial : State
initial = record {
  info = no_info;
  tables = tables;
  client = false;
  server = false;
  router = false;
  dns_server = false;
  broker = false;
  keepalive = false;
}
