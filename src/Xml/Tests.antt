-- ===== src/Xml/Tests.antt =====
-- Replies of a broker, parsed by tspc-advanced/src/xml/xmlparse.c and xml_tun.c.
mod Calls
use gw6c.Base.{
  ◌++◌, decimal_from, length, ◌≤◌, codes, ℕ, ◌≡◌, ◌≢◌, refl, List, [], ◌∷◌, none, some, false, true,
  All, arith,
}
use gw6c.Session.{pos}
use gw6c.Xml.{
  live, null, over_read, null_read, no_fuel, span, skip_blanks, strip, strstr, end_token,
  end_of_name, set_attribute, after_byte, starts_alpha, read_value, read_equals, read_attributes,
  close_tag,
}
use gw6c.Xml.Parser.{
  parsed, find_node, store, release, settle, call, enclosed, element, skip_tag, after_closing,
  after_attributes, open_tag, bare_tag, spaced_tag, named_tag, read_name, start_tag, step,
  parse_loop, xml_parse,
}
use gw6c.Xml.Scan.{IsAttribute}
use gw6c.Xml.Clear.{Clear-Closes, Clear-flat}
use gw6c.Xml.Elements.{Element, IsElement, print_elements}
use gw6c.Xml.Events.{Runs, finished, ignored, called, xml_parse-Runs}
use gw6c.Xml.Tunnel.{
  State, p_address, with_text, client_address, dns_address, server_address, add_redirect,
  broker_address, process_address, put_back, nested, assigning,
}
use gw6c.Xml.Tunnel.Handlers.{
  at_addresses, process_dns_server, process_prefix, process_as, at_router, process_router,
  process_keepalive, at_side, process_server, process_client, process_broker, at_tunnel,
  process_tunnel, at_root,
}
use gw6c.Xml.Tunnel.Payload.{
  no_info, initial, put_root, tsp_xml_parse, strchr, extracted, from_tag, from_line,
  extract_payload,
}
use gw6c.Xml.Redirection.{Entry, ipv4, ipv6, dn, Flat, broker_table}
use gw6c.Xml.Message.{message}
use gw6c.Broker.{AddressType, Broker, ok, max_brokers, create_broker_list, add_all, add_broker}
use gw6c.Broker.Create.{Lists}
use gw6c.Session.Tests.{plain, always}
use gw6c.Xml.Brokers.{found, create_broker_list-message}
use gw6c.Xml.Reply.{extract_payload-message}
use gw6c.Xml.Request.{
  Config, decimal_int, v6anyv4, build_create_request, for_router, with_prefixlen, cut,
}
use gw6c.Xml.Asks.{request_element}
use gw6c.Xml.Wellformed.{build_create_request-IsElement}
use gw6c.Xml.Total.{extract_payload-returns}

abbrev reply : List ℕ
reply =
    codes
      "200 Success\n <tunnel action=\"Info\" type=\"v6v4\" lifetime=\"1440\">\n <server>\n  <address type=\"ipv4\">206.123.31.114</address>\n </server>\n <client>\n  <address type=\"ipv6\">3FFE::1</address>\n  <keepalive interval=\"30\"><address type=\"ipv6\">::</address></keepalive>\n </client>\n</tunnel>\n"

-- A reply with a tunnel: texts come in lower case.
reply_test :
    ((extract_payload reply initial).1 ≡ true)
    × ((extract_payload reply initial).2.info.client_address_ipv6 ≡ some (codes "3ffe::1"))
    × ((extract_payload reply initial).2.info.keepalive_interval ≡ some (codes "30"))
unfolding span skip_blanks strip strstr end_token end_of_name set_attribute after_byte starts_alpha
    read_value read_equals read_attributes close_tag find_node store release settle call enclosed
    element skip_tag after_closing after_attributes open_tag bare_tag spaced_tag named_tag read_name
    start_tag step parse_loop xml_parse with_text client_address dns_address server_address
    add_redirect broker_address process_address put_back nested assigning at_addresses
    process_dns_server process_prefix process_as at_router process_router process_keepalive at_side
    process_server process_client process_broker at_tunnel process_tunnel at_root put_root
    tsp_xml_parse strchr extracted from_tag from_line extract_payload
reply_test = (refl, refl, refl)

-- A name with a blank behind it at the end: the parser reads behind the text.
over_read_test : (extract_payload (codes "\n<tunnel ") initial).0 ≡ some over_read
unfolding span skip_blanks strip strstr end_token end_of_name set_attribute after_byte starts_alpha
    read_value read_equals read_attributes close_tag find_node store release settle call enclosed
    element skip_tag after_closing after_attributes open_tag bare_tag spaced_tag named_tag read_name
    start_tag step parse_loop xml_parse with_text client_address dns_address server_address
    add_redirect broker_address process_address put_back nested assigning at_addresses
    process_dns_server process_prefix process_as at_router process_router process_keepalive at_side
    process_server process_client process_broker at_tunnel process_tunnel at_root put_root
    tsp_xml_parse strchr extracted from_tag from_line extract_payload
over_read_test = refl

-- A line without an end: `strchr` is given a null pointer.
null_read_test : (extract_payload (codes "<tunnel>") initial).0 ≡ some null_read
unfolding extract_payload strchr from_line
null_read_test = refl

-- A reply with a redirection.
abbrev entries : List Entry
entries =
    record { kind = ipv4; text = codes "203.0.113.7" }
    ∷ record { kind = ipv6; text = codes "2001:db8::1" }
    ∷ record { kind = ipv4; text = codes "203.0.113.8" }
    ∷ record { kind = dn; text = codes "broker.example" }
    ∷ []

info-IsAttribute : IsAttribute (codes "action", codes "Info")
unfolding starts_alpha
info-IsAttribute = record {
  starts = refl;
  named = (refl, (refl, (refl, (refl, (refl, (refl, tt))))));
  valued = (refl, (refl, (refl, (refl, tt))));
  flat = (refl, (refl, (refl, (refl, tt))));
}

entries-Flat : Flat entries
entries-Flat = (
  (refl, (refl, (refl, (refl, (refl, (refl, (refl, (refl, (refl, (refl, (refl, tt))))))))))),
  (
    (refl, (refl, (refl, (refl, (refl, (refl, (refl, (refl, (refl, (refl, (refl, tt))))))))))),
    (
      (refl, (refl, (refl, (refl, (refl, (refl, (refl, (refl, (refl, (refl, (refl, tt))))))))))),
      (
        (
          refl,
          (
            refl,
            (
              refl,
              (
                refl,
                (refl, (refl, (refl, (refl, (refl, (refl, (refl, (refl, (refl, (refl, tt)))))))))),
              ),
            ),
          ),
        ),
        tt,
      ),
    ),
  ),
)

extract_payload-message_example :
    (s : State) × (extract_payload
        (message (codes "1200 Redirection") (codes "Info") entries)
        initial
      ≡ (none, true, s))
    × (s.info ≡ record no_info {
      action = some (codes "info");
      redirect = record {
        broker_redirect_ipv4 = some (codes "203.0.113.8") ∷ some (codes "203.0.113.7") ∷ [];
        broker_redirect_ipv6 = some (codes "2001:db8::1") ∷ [];
        broker_redirect_dn = some (codes "broker.example") ∷ [];
      };
    })
extract_payload-message_example =
    extract_payload-message (codes "1200 Redirection") (codes "Info") entries
      (
        refl,
        (
          refl,
          (
            refl,
            (
              refl,
              (
                refl,
                (
                  refl,
                  (
                    refl,
                    (refl, (refl, (refl, (refl, (refl, (refl, (refl, (refl, (refl, tt))))))))),
                  ),
                ),
              ),
            ),
          ),
        ),
      )
      info-IsAttribute entries-Flat

extract_payload-returns_example : (extract_payload reply initial).0 ≢ some no_fuel
extract_payload-returns_example = extract_payload-returns reply initial

-- A document of a node of the table and one that is not.
abbrev first_address : Element
first_address = record {
  gap = codes "\n ";
  name = codes "address";
  attributes = (codes "type", codes "ipv4") ∷ [];
  content = codes "203.0.113.7";
}

abbrev other_node : Element
other_node = record { gap = []; name = codes "port"; attributes = []; content = codes "3653" }

abbrev at_broker : State
at_broker = record initial { broker = true }

abbrev redirected : State
redirected = record at_broker {
  info = record no_info {
    redirect = record no_info.redirect { broker_redirect_ipv4 = some (codes "203.0.113.7") ∷ [] };
  };
}

nodes-Runs :
    Runs at_addresses
      (first_address ∷ other_node ∷ [])
      (broker_table null)
      at_broker
      (broker_table (live (codes "ipv4")))
      redirected
unfolding at_addresses process_address with_text broker_address add_redirect find_node store
    set_attribute
nodes-Runs =
    called first_address (other_node ∷ []) (broker_table null) at_broker
      (broker_table (live (codes "ipv4"))) redirected
      (record {
        name = codes "address";
        process = p_address;
        attributes = (codes "type", null) ∷ [];
      })
      (codes "203.0.113.7") ((codes "type", live (codes "ipv4")) ∷ []) redirected refl refl
      (ignored other_node [] (broker_table (live (codes "ipv4"))) redirected
        (broker_table (live (codes "ipv4"))) redirected refl
        (finished (broker_table (live (codes "ipv4"))) redirected))

nodes-IsElement : All IsElement (first_address ∷ other_node ∷ [])
unfolding starts_alpha
nodes-IsElement = (
  record {
    blank = (refl, (refl, tt));
    starts = refl;
    named = (refl, (refl, (refl, (refl, (refl, (refl, (refl, tt)))))));
    short = omega arith;
    attributed = (
      record {
        starts = refl;
        named = (refl, (refl, (refl, (refl, tt))));
        valued = (refl, (refl, (refl, (refl, tt))));
        flat = (refl, (refl, (refl, (refl, tt))));
      },
      tt,
    );
    closes = Clear-Closes (codes "address") (codes "203.0.113.7") (
        Clear-flat (codes "address") (codes "203.0.113.7") (
          refl,
          (refl, (refl, (refl, (refl, (refl, (refl, (refl, (refl, (refl, (refl, tt)))))))))),
        ));
  },
  (
    record {
      blank = tt;
      starts = refl;
      named = (refl, (refl, (refl, (refl, tt))));
      short = omega arith;
      attributed = tt;
      closes =
          Clear-Closes (codes "port") (codes "3653")
            (Clear-flat (codes "port") (codes "3653") (refl, (refl, (refl, (refl, tt)))));
    },
    tt,
  ),
)

xml_parse-Runs_example :
    xml_parse at_addresses
      (print_elements (first_address ∷ other_node ∷ []) (codes "\n"))
      (broker_table null)
      at_broker
    ≡ parsed (pos 0) (release (broker_table (live (codes "ipv4")))) redirected
xml_parse-Runs_example =
    xml_parse-Runs at_addresses (first_address ∷ other_node ∷ []) (codes "\n") (broker_table null)
      at_broker (broker_table (live (codes "ipv4"))) redirected nodes-Runs nodes-IsElement
      (refl, tt)
