-- ===== src/Xml/Tests/Calls.antt =====
-- A request of tspc-advanced/src/xml/xml_req.c, and the brokers that a reply lists.
use gw6c.Base.{
  ◌++◌, decimal_from, length, ◌≤◌, codes, ◌≡◌, refl, List, [], ◌∷◌, some, false, true, arith,
}
use gw6c.Session.{pos}
use gw6c.Xml.{
  span, skip_blanks, strip, strstr, end_token, end_of_name, set_attribute, after_byte, starts_alpha,
  read_value, read_equals, read_attributes, close_tag,
}
use gw6c.Xml.Parser.{
  find_node, store, release, settle, call, enclosed, element, skip_tag, after_closing,
  after_attributes, open_tag, bare_tag, spaced_tag, named_tag, read_name, start_tag, step,
  parse_loop, xml_parse,
}
use gw6c.Xml.Elements.{IsElement, print_elements}
use gw6c.Xml.Tunnel.{
  with_text, client_address, dns_address, server_address, add_redirect, broker_address,
  process_address, put_back, nested, assigning,
}
use gw6c.Xml.Tunnel.Handlers.{
  at_addresses, process_dns_server, process_prefix, process_as, at_router, process_router,
  process_keepalive, at_side, process_server, process_client, process_broker, at_tunnel,
  process_tunnel, at_root,
}
use gw6c.Xml.Tunnel.Payload.{
  put_root, tsp_xml_parse, strchr, extracted, from_tag, from_line, extract_payload,
}
use gw6c.Broker.{AddressType, Broker, ok, max_brokers, create_broker_list, add_all, add_broker}
use gw6c.Broker.Create.{Lists}
use gw6c.Session.Tests.{plain, always}
use gw6c.Xml.Brokers.{found, create_broker_list-message}
use gw6c.Xml.Request.{
  Config, decimal_int, v6anyv4, build_create_request, for_router, with_prefixlen, cut,
}
use gw6c.Xml.Asks.{request_element}
use gw6c.Xml.Wellformed.{build_create_request-IsElement}
use gw6c.Xml.Tests.{entries, info-IsAttribute, entries-Flat}

-- A host that asks for a tunnel with keepalive, and a router with two names servers.
abbrev host : Config
host = record {
  tunnel_mode = v6anyv4;
  proxy_client = false;
  client_v4 = codes "192.0.2.7";
  client_v6 = [];
  keepalive = true;
  keepalive_interval = pos 30;
  host_type = codes "host";
  protocol = codes "default_route";
  prefixlen = pos 0;
  dns_server = [];
  routing_info = [];
}

abbrev router : Config
router = record host { host_type = codes "router"; dns_server = codes "ns1:ns2" }

interval_short : length (decimal_int host.keepalive_interval) ≤ 900
unfolding decimal_from
interval_short = omega arith

build_create_request-IsElement_example :
    (build_create_request host ≡ (print_elements (request_element host ∷ []) (codes "\r\n"), host))
    × IsElement (request_element host)
build_create_request-IsElement_example =
    build_create_request-IsElement host refl (omega arith)
      (refl, (refl, (refl, (refl, (refl, (refl, (refl, (refl, (refl, tt))))))))) interval_short

-- `strtok` cuts the list of names servers in the configuration, so that the next request has the
-- first one only; the length of the prefix is kept too.
second_request :
    (build_create_request router).1 ≡ record router { prefixlen = pos 48; dns_server = codes "ns1" }
unfolding build_create_request for_router with_prefixlen cut
second_request = refl

-- The brokers of the redirection, as the client creates its list.
abbrev created : List Broker
created =
    record { address = codes "203.0.113.8"; address_type = AddressType.ipv4; distance = 0 }
    ∷ record { address = codes "203.0.113.7"; address_type = AddressType.ipv4; distance = 0 }
    ∷ record { address = codes "2001:db8::1"; address_type = AddressType.ipv6; distance = 0 }
    ∷ record { address = codes "broker.example"; address_type = AddressType.fqdn; distance = 0 }
    ∷ []

is_created :
    create_broker_list plain always (found (codes "1200 Redirection") (codes "Info") entries)
    ≡ (ok, created, 4)
unfolding span skip_blanks strip strstr end_token end_of_name set_attribute after_byte starts_alpha
    read_value read_equals read_attributes close_tag find_node store release settle call enclosed
    element skip_tag after_closing after_attributes open_tag bare_tag spaced_tag named_tag read_name
    start_tag step parse_loop xml_parse with_text client_address dns_address server_address
    add_redirect broker_address process_address put_back nested assigning at_addresses
    process_dns_server process_prefix process_as at_router process_router process_keepalive at_side
    process_server process_client process_broker at_tunnel process_tunnel at_root put_root
    tsp_xml_parse strchr extracted from_tag from_line extract_payload create_broker_list add_all
    add_broker
is_created = refl

create_broker_list-message_example :
    (v4 : List Broker) × (v6 : List Broker) × (names : List Broker) × Lists plain always
      AddressType.ipv4
      (some (codes "203.0.113.8") ∷ some (codes "203.0.113.7") ∷ [])
      v4
    × Lists plain always AddressType.ipv6 (some (codes "2001:db8::1") ∷ []) v6
    × Lists plain always AddressType.fqdn (some (codes "broker.example") ∷ []) names
    × (created ≡ (v4 ++ v6) ++ names)
    × (4 ≡ length created)
    × (4 ≤ max_brokers)
create_broker_list-message_example =
    create_broker_list-message plain always (codes "1200 Redirection") (codes "Info") entries
      created 4
      (
        refl,
        (
          refl,
          (
            refl,
            (
              refl,
              (
                refl,
                (
                  refl,
                  (
                    refl,
                    (refl, (refl, (refl, (refl, (refl, (refl, (refl, (refl, (refl, tt))))))))),
                  ),
                ),
              ),
            ),
          ),
        ),
      )
      info-IsAttribute entries-Flat is_created
