-- ===== src/Xml/Brokers.antt =====
-- From a reply to the list of brokers: `tspExtractPayload` of tspc-advanced/src/tsp/tsp_client.c,
-- and `tspCreateBrokerList` of tspc-advanced/src/tsp/tsp_redirect.c on what it found.
use gw6c.Base.{codes, ℕ, ◌≤◌, ◌≡◌, sym, ap, ◌∙◌, List, ◌++◌, Bool, length}
use mathlib.Core.List.{reverse}
use gw6c.Broker.{AddressType, ok, Broker, TunnelInfo, create_broker_list, max_brokers}
use gw6c.Broker.Create.{Lists, create_broker_list-Lists}
use gw6c.Xml.Scan.{Passes, IsAttribute}
use gw6c.Xml.Redirection.{Entry, Flat, of_kind, ipv4, ipv6, dn}
use gw6c.Xml.Message.{message}
use gw6c.Xml.Tunnel.{Info}
use gw6c.Xml.Tunnel.Payload.{extract_payload, initial}
use gw6c.Xml.Reply.{not_newline, extract_payload-message}

-- What a reply lists.
abbrev lists : List Entry → TunnelInfo
lists es = record {
  broker_redirect_ipv4 = reverse (of_kind ipv4 es);
  broker_redirect_ipv6 = reverse (of_kind ipv6 es);
  broker_redirect_dn = reverse (of_kind dn es);
}

abbrev pub found : (line action : List ℕ) → List Entry → TunnelInfo
found line action es = (extract_payload (message line action es) initial).2.info.redirect

-- A reply is a line without a newline byte, a newline and a document: a tunnel with an action
-- around a broker with addresses, each with its kind (ipv4, ipv6 or dn) and a text without `<`. If
-- the list of brokers is created of what the client takes from it as its first reply, then the list
-- has the IPv4 addresses of the reply, then its IPv6 addresses, then its names, the last one of
-- each kind first, whole and with its type; they are at most 50, and the count is theirs.
pub create_broker_list-message :
    (expand : List ℕ → List ℕ) (can_alloc : ℕ → Bool) (line action : List ℕ) (es : List Entry)
    (brokers : List Broker) (count : ℕ)
    → Passes not_newline line
    → IsAttribute (codes "action", action)
    → Flat es
    → create_broker_list expand can_alloc (found line action es) ≡ (ok, brokers, count)
    → (v4 : List Broker) × (v6 : List Broker) × (names : List Broker) × Lists expand can_alloc
        AddressType.ipv4
        (reverse (of_kind ipv4 es))
        v4
      × Lists expand can_alloc AddressType.ipv6 (reverse (of_kind ipv6 es)) v6
      × Lists expand can_alloc AddressType.fqdn (reverse (of_kind dn es)) names
      × (brokers ≡ (v4 ++ v6) ++ names)
      × (count ≡ length brokers)
      × (count ≤ max_brokers)
create_broker_list-message expand can_alloc line action es brokers count passes a flat created =
    let (s, payload, info) = extract_payload-message line action es passes a flat in
    let known : found line action es ≡ s.info.redirect = ap (λ r. r.2.info.redirect) payload in
    create_broker_list-Lists expand can_alloc (lists es) brokers count (
      ap (create_broker_list expand can_alloc) (sym (known ∙ ap (λ (i : Info). i.redirect) info))
      ∙ created)
