-- ===== src/Xml/Reply.antt =====
-- What the client takes from a reply that lists brokers: `tspExtractPayload` of
-- tspc-advanced/src/tsp/tsp_client.c.
use gw6c.Base.{
  codes, ℕ, ◌≡◌, refl, sym, ap, ◌∙◌, List, [], ◌∷◌, ◌++◌, Option, none, some, Bool, true, false,
  not, ◌==◌, if_false, map,
}
use mathlib.Core.List.{reverse, append-nil}
use gw6c.Session.{pos}
use gw6c.Broker.{TunnelInfo}
use gw6c.Xml.{Slot, live, null, Slots, set_attribute}
use gw6c.Xml.Parser.{parsed, handled, find_node, store, release}
use gw6c.Xml.Scan.{Passes, IsAttribute}
use gw6c.Xml.Elements.{print_elements}
use gw6c.Xml.Events.{Runs, finished, called, xml_parse-Runs}
use gw6c.Xml.Tunnel.{State, Info, Table, p_tunnel, nested, assigning, put_back, lowered}
use gw6c.Xml.Tunnel.Handlers.{at_tunnel, at_root, process_tunnel}
use gw6c.Xml.Tunnel.Payload.{
  no_info, tables, tsp_xml_parse, strchr, extract_payload, initial, put_root, extracted, from_tag,
  from_line,
}
use gw6c.Xml.Redirection.{Entry, Flat, after_broker, at_start, of_kind, ipv4, ipv6, dn}
use gw6c.Xml.Message.{
  broker_element, list_of_brokers, tunnel_element, message, broker-IsElement, tunnel-IsElement,
  broker-Runs,
}

-- What the client has taken when it leaves the tunnel.
abbrev with_action : List ℕ → Info
with_action action = record no_info { action = some (lowered action) }

-- The values of the attributes of the tunnel.
abbrev attributes_of : List ℕ → Slots
attributes_of action =
    (codes "action", live action)
    ∷ (codes "type", null)
    ∷ (codes "lifetime", null)
    ∷ (codes "proxy", null)
    ∷ (codes "mtu", null)
    ∷ []

abbrev after_tunnel : List ℕ → List Entry → Slot → State
after_tunnel action es v =
    let s = after_broker es (with_action action) v in
    record s { tables = record s.tables { tunnel = release tables.tunnel } }

tunnel_call :
    (action : List ℕ) (es : List Entry)
    → Flat es
    → (v : Slot) × (at_root p_tunnel (list_of_brokers es) (attributes_of action) (at_start no_info)
        ≡ handled
            (pos 0)
            (list_of_brokers es)
            (attributes_of (lowered action))
            (after_tunnel action es v))
unfolding at_root process_tunnel assigning nested put_back
tunnel_call action es flat =
    let i = with_action action in
    let (v, runs) = broker-Runs es i flat in
    (
      v,
      ap
          (put_back (λ t s. record s { tables = record s.tables { tunnel = t } })
            (list_of_brokers es) (attributes_of (lowered action)))
          (xml_parse-Runs at_tunnel (broker_element es ∷ []) [] tables.tunnel (at_start i)
            tables.tunnel (after_broker es i v) runs (broker-IsElement es flat, tt) tt),
    )

abbrev root_table : Slots → Table
root_table slots = record { name = codes "tunnel"; process = p_tunnel; attributes = slots } ∷ []

abbrev at_end : List ℕ → List Entry → Slot → State
at_end action es v =
    let s = after_tunnel action es v in
    record s {
      tables = record s.tables { root = release (root_table (attributes_of (lowered action))) };
    }

tunnel-Runs :
    (action : List ℕ) (es : List Entry)
    → Flat es
    → (v : Slot) × Runs at_root
        (tunnel_element action es ∷ [])
        tables.root
        (at_start no_info)
        (root_table (attributes_of (lowered action)))
        (after_tunnel action es v)
unfolding find_node store set_attribute
tunnel-Runs action es flat =
    let (v, call) = tunnel_call action es flat in
    (
      v,
      called (tunnel_element action es) [] tables.root (at_start no_info)
          (root_table (attributes_of (lowered action))) (after_tunnel action es v)
          (record {
            name = codes "tunnel";
            process = p_tunnel;
            attributes = map (λ (x : List ℕ × Slot). (x.0, null)) (attributes_of action);
          })
          (list_of_brokers es) (attributes_of (lowered action)) (after_tunnel action es v) refl call
          (finished (root_table (attributes_of (lowered action))) (after_tunnel action es v)),
    )

abbrev lists : (a b c : List (Option (List ℕ))) → TunnelInfo
lists a b c = record { broker_redirect_ipv4 = a; broker_redirect_ipv6 = b; broker_redirect_dn = c }

abbrev pub not_newline : ℕ → Bool
not_newline c = not (c == 10)

strchr-until :
    (line rest : List ℕ)
    → Passes not_newline line
    → strchr 10 (line ++ (10 ∷ rest)) ≡ some (10 ∷ rest)
unfolding strchr
strchr-until [] rest passes = refl
strchr-until (c ∷ cs) rest (p, passes) =
    if_false _ _ (not_true (c == 10) p) ∙ strchr-until cs rest passes
  where
    not_true : (b : Bool) → not b ≡ true → b ≡ false
    not_true false h = refl
    not_true true h = sym h

tsp_xml_parse-tunnel :
    (action : List ℕ) (es : List Entry)
    → IsAttribute (codes "action", action)
    → Flat es
    → (v : Slot) × (tsp_xml_parse (print_elements (tunnel_element action es ∷ []) []) initial
        ≡ parsed
            (pos 0)
            (release (root_table (attributes_of (lowered action))))
            (at_end action es v))
unfolding tsp_xml_parse put_root
tsp_xml_parse-tunnel action es a flat =
    let (v, runs) = tunnel-Runs action es flat in
    (
      v,
      ap put_root (
          xml_parse-Runs at_root (tunnel_element action es ∷ []) [] tables.root (at_start no_info)
            (root_table (attributes_of (lowered action))) (after_tunnel action es v) runs
            (tunnel-IsElement action es a flat, tt) tt),
    )

-- A reply is a line without a newline byte, a newline and a document: a tunnel with an action
-- around a broker with addresses, each with its kind (ipv4, ipv6 or dn) and a text without `<`. If
-- it is the first reply, the client finds a tunnel in it, without a fault, and has from it the
-- action in lower case and, for each kind, the addresses of that kind, the last one first; all
-- else that it knows of the tunnel is empty.
pub extract_payload-message :
    (line action : List ℕ) (es : List Entry)
    → Passes not_newline line
    → IsAttribute (codes "action", action)
    → Flat es
    → (s : State) × (extract_payload (message line action es) initial ≡ (none, true, s))
      × (s.info ≡ record no_info {
        action = some (lowered action);
        redirect = record {
          broker_redirect_ipv4 = reverse (of_kind ipv4 es);
          broker_redirect_ipv6 = reverse (of_kind ipv6 es);
          broker_redirect_dn = reverse (of_kind dn es);
        };
      })
unfolding extract_payload from_line from_tag extracted strchr
extract_payload-message line action es passes a flat =
    let (v, parse) = tsp_xml_parse-tunnel action es a flat in
    let document = print_elements (tunnel_element action es ∷ []) [] in
    let s = at_end action es v in
    (
      s,
      ap (from_line initial) (strchr-until line document passes) ∙ ap (extracted initial) parse,
      ap (λ t. record no_info { action = some (lowered action); redirect = t })
          (lists_cong (append-nil (reverse (of_kind ipv4 es)))
            (append-nil (reverse (of_kind ipv6 es))) (append-nil (reverse (of_kind dn es)))),
    )
  where
    lists_cong :
        {a a' b b' c c' : List (Option (List ℕ))}
        → a ≡ a'
        → b ≡ b'
        → c ≡ c'
        → lists a b c ≡ lists a' b' c'
    lists_cong p q r = cc
