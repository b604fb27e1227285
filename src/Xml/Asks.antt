-- ===== src/Xml/Asks.antt =====
-- The request of a host, built by tspc-advanced/src/xml/xml_req.c, as a document.
use gw6c.Base.{
  codes, ℕ, ◌+◌, ◌≤◌, ◌≡◌, refl, sym, ap, ◌∙◌, List, [], ◌∷◌, ◌++◌, false, ◌=s◌, Bool-cases, inl,
  inr, if◌then◌else◌, length, length-append, take-length, arith,
}
use mathlib.Core.List.{append_assoc}
use gw6c.Xml.{end_token}
use gw6c.Xml.Scan.{print_attributes}
use gw6c.Xml.Elements.{print_attributes-append, Element, print_element, print_elements, body}
use gw6c.Xml.Request.{
  Mode, v6v4, v6udpv4, v6anyv4, v4v6, Config, formatted, decimal_int, name_of, yes_no, is_v4v6,
  client_address, keepalive_section, for_router, build_create_request,
}

-- The address of the client, its kind, and the one that keepalive asks for.
abbrev pub kind_of : Mode → List ℕ
kind_of v4v6 = codes "ipv6"
kind_of v6v4 = codes "ipv4"
kind_of v6udpv4 = codes "ipv4"
kind_of v6anyv4 = codes "ipv4"

abbrev pub own_address : Config → List ℕ
own_address conf = if is_v4v6 conf.tunnel_mode then conf.client_v6 else conf.client_v4

abbrev pub address_element : List ℕ → List ℕ → List ℕ → Element
address_element gap kind text = record {
  gap = gap;
  name = codes "address";
  attributes = (codes "type", kind) ∷ [];
  content = text;
}

abbrev pub pinged : Mode → Element
pinged v4v6 = address_element (codes "\r\n    ") (codes "ipv4") (codes "127.0.0.1")
pinged v6v4 = address_element (codes "\r\n    ") (codes "ipv6") (codes "::")
pinged v6udpv4 = address_element (codes "\r\n    ") (codes "ipv6") (codes "::")
pinged v6anyv4 = address_element (codes "\r\n    ") (codes "ipv6") (codes "::")

abbrev pub keepalive_node : Mode → List ℕ → Element
keepalive_node m interval = record {
  gap = codes "\r\n  ";
  name = codes "keepalive";
  attributes = (codes "interval", interval) ∷ [];
  content = print_elements (pinged m ∷ []) (codes "\r\n  ");
}

abbrev pub keepalive_element : Config → Element
keepalive_element conf = keepalive_node conf.tunnel_mode (decimal_int conf.keepalive_interval)

abbrev pub client_nodes : Config → List Element
client_nodes conf =
    address_element (codes "\r\n  ") (kind_of conf.tunnel_mode) (own_address conf)
    ∷ (if conf.keepalive then keepalive_element conf ∷ [] else [])

abbrev pub client_element : Config → Element
client_element conf = record {
  gap = codes "\r\n ";
  name = codes "client";
  attributes = [];
  content = print_elements (client_nodes conf) (codes "\r\n ");
}

abbrev pub request_element : Config → Element
request_element conf = record {
  gap = [];
  name = codes "tunnel";
  attributes =
      (codes "action", codes "create")
      ∷ (codes "type", name_of conf.tunnel_mode)
      ∷ (codes "proxy", yes_no conf.proxy_client)
      ∷ [];
  content = print_elements (client_element conf ∷ []) (codes "\r\n");
}

-- A text that fits into `Buffer` between the constant parts.
formatted-whole :
    (before text after : List ℕ)
    → length before + length text + length after ≤ 1023
    → formatted (before ++ (text ++ after)) ≡ before ++ (text ++ after)
formatted-whole before text after le =
    take-length 1023 _
      (omega (arith, length-append before (text ++ after), length-append text after))

address_part :
    (conf : Config)
    → length (own_address conf) ≤ 900
    → client_address conf
      ≡ codes "  <address type=\""
        ++ (kind_of conf.tunnel_mode
            ++ (codes "\">" ++ (own_address conf ++ codes "</address>\r\n")))
unfolding client_address
address_part conf le = go conf.tunnel_mode conf.client_v4 conf.client_v6 le
  where
    go :
        (m : Mode) (v4 v6 : List ℕ)
        → length (if is_v4v6 m then v6 else v4) ≤ 900
        → (if is_v4v6 m
            then formatted (codes "  <address type=\"ipv6\">" ++ (v6 ++ codes "</address>\r\n"))
            else formatted (codes "  <address type=\"ipv4\">" ++ (v4 ++ codes "</address>\r\n")))
          ≡ codes "  <address type=\""
            ++ (kind_of m
                ++ (codes "\">" ++ ((if is_v4v6 m then v6 else v4) ++ codes "</address>\r\n")))
    go v4v6 v4 v6 le =
        formatted-whole (codes "  <address type=\"ipv6\">") v6 (codes "</address>\r\n")
          (omega arith)
    go v6v4 v4 v6 le =
        formatted-whole (codes "  <address type=\"ipv4\">") v4 (codes "</address>\r\n")
          (omega arith)
    go v6udpv4 v4 v6 le =
        formatted-whole (codes "  <address type=\"ipv4\">") v4 (codes "</address>\r\n")
          (omega arith)
    go v6anyv4 v4 v6 le =
        formatted-whole (codes "  <address type=\"ipv4\">") v4 (codes "</address>\r\n")
          (omega arith)

-- What follows a document follows its last node.
print_elements-append :
    (es : List Element) (tail rest : List ℕ)
    → print_elements es tail ++ rest ≡ print_elements es (tail ++ rest)
print_elements-append [] tail rest = refl
print_elements-append (e ∷ es) tail rest =
    let r = print_elements es tail in
    let inner = print_attributes e.attributes (b'>' ∷ body e r) in
    append_assoc e.gap (b'<' ∷ (e.name ++ inner)) rest
    ∙ ap (λ x. e.gap ++ (b'<' ∷ x)) (append_assoc e.name inner rest)
    ∙ ap (λ x. e.gap ++ (b'<' ∷ (e.name ++ x)))
        (print_attributes_append e.attributes (b'>' ∷ body e r) rest
          ∙ ap (λ x. print_attributes e.attributes (b'>' ∷ x))
              (append_assoc e.content (end_token e.name ++ r) rest
                ∙ ap (λ x. e.content ++ x)
                    (append_assoc (end_token e.name) r rest
                      ∙ ap (λ x. end_token e.name ++ x) (print_elements-append es tail rest))))
  where
    print_attributes_append :
        (attributes : List (List ℕ × List ℕ)) (x rest : List ℕ)
        → print_attributes attributes x ++ rest ≡ print_attributes attributes (x ++ rest)
    print_attributes_append attributes x rest =
        ap (λ y. y ++ rest) (print_attributes-append attributes x)
        ∙ append_assoc (print_attributes attributes []) x rest
        ∙ sym (print_attributes-append attributes (x ++ rest))

abbrev ending : List ℕ
ending = codes " </client>\r\n</tunnel>\r\n"

keepalive_part :
    (conf : Config)
    → length (decimal_int conf.keepalive_interval) ≤ 900
    → codes "\r\n" ++ (keepalive_section conf ++ ending)
      ≡ print_elements
          (if conf.keepalive then keepalive_element conf ∷ [] else [])
          (codes "\r\n" ++ ending)
unfolding keepalive_section end_token
keepalive_part conf le = elim (Bool-cases conf.keepalive) [
  | inr off ↦ rw off
  | inl on ↦ rw on (go conf.tunnel_mode (decimal_int conf.keepalive_interval) le)
]
  where
    behind : Mode → List ℕ
    behind v4v6 =
        codes "\">\r\n    <address type=\"ipv4\">127.0.0.1</address>\r\n  </keepalive>\r\n"
    behind v6v4 = codes "\">\r\n    <address type=\"ipv6\">::</address>\r\n  </keepalive>\r\n"
    behind v6udpv4 = codes "\">\r\n    <address type=\"ipv6\">::</address>\r\n  </keepalive>\r\n"
    behind v6anyv4 = codes "\">\r\n    <address type=\"ipv6\">::</address>\r\n  </keepalive>\r\n"

    whole :
        (interval after : List ℕ)
        → length interval ≤ 900
        → length after ≤ 90
        → codes "\r\n"
            ++ (formatted (codes "  <keepalive interval=\"" ++ (interval ++ after)) ++ ending)
          ≡ codes "\r\n  <keepalive interval=\"" ++ (interval ++ (after ++ ending))
    whole interval after le le' =
        ap (λ x. codes "\r\n" ++ (x ++ ending))
          (formatted-whole (codes "  <keepalive interval=\"") interval after (omega arith))
        ∙ ap (λ x. codes "\r\n  <keepalive interval=\"" ++ x) (append_assoc interval after ending)

    go :
        (m : Mode) (interval : List ℕ)
        → length interval ≤ 900
        → codes "\r\n"
            ++ ((if is_v4v6 m
                  then formatted (
                      codes "  <keepalive interval=\""
                      ++ (interval
                          ++ codes
                              "\">\r\n    <address type=\"ipv4\">127.0.0.1</address>\r\n  </keepalive>\r\n"))
                  else formatted (
                      codes "  <keepalive interval=\""
                      ++ (interval
                          ++ codes
                              "\">\r\n    <address type=\"ipv6\">::</address>\r\n  </keepalive>\r\n")))
                ++ ending)
          ≡ print_element (keepalive_node m interval) (codes "\r\n" ++ ending)
    go v4v6 interval le = whole interval (behind v4v6) le (omega arith)
    go v6v4 interval le = whole interval (behind v6v4) le (omega arith)
    go v6udpv4 interval le = whole interval (behind v6v4) le (omega arith)
    go v6anyv4 interval le = whole interval (behind v6v4) le (omega arith)

client_part :
    (conf : Config)
    → length (own_address conf) ≤ 900
    → length (decimal_int conf.keepalive_interval) ≤ 900
    → codes "\r\n" ++ (client_address conf ++ (keepalive_section conf ++ ending))
      ≡ print_elements (client_nodes conf) (codes "\r\n" ++ ending)
unfolding end_token
client_part conf le le' =
    let k = kind_of conf.tunnel_mode in
    let t = own_address conf in
    let q = keepalive_section conf ++ ending in
    ap (λ x. codes "\r\n" ++ (x ++ q)) (address_part conf le)
    ∙ ap (λ x. codes "\r\n  <address type=\"" ++ x)
        (append_assoc k (codes "\">" ++ (t ++ codes "</address>\r\n")) q
          ∙ ap (λ x. k ++ (codes "\">" ++ x)) (append_assoc t (codes "</address>\r\n") q))
    ∙ ap
        (λ x.
          codes "\r\n  <address type=\""
          ++ (k ++ (codes "\">" ++ (t ++ (codes "</address>" ++ x)))))
        (keepalive_part conf le')

-- The request of a host as a document.
pub print_request :
    (conf : Config)
    → (conf.host_type =s codes "router") ≡ false
    → length (own_address conf) ≤ 900
    → length (decimal_int conf.keepalive_interval) ≤ 900
    → build_create_request conf ≡ (print_elements (request_element conf ∷ []) (codes "\r\n"), conf)
unfolding build_create_request for_router end_token
print_request conf host le le' =
    let m = name_of conf.tunnel_mode in
    let y = yes_no conf.proxy_client in
    let w = codes "</client>\r\n</tunnel>\r\n" in
    rw host (
      ap
        (λ x. (
          codes "<tunnel action=\"create\" type=\""
              ++ (m ++ (codes "\" proxy=\"" ++ (y ++ (codes "\">" ++ x)))),
          conf,
        ))
        (ap (λ x. codes "\r\n <client>" ++ x)
            (client_part conf le le'
              ∙ sym (print_elements-append (client_nodes conf) (codes "\r\n ") w))
          ∙ sym (
              print_elements-append (client_element conf ∷ []) (codes "\r\n")
                (codes "</tunnel>\r\n"))))
