-- ===== src/Xml/Message.antt =====
-- Replies that list brokers, as documents that tspc-advanced/src/xml/xmlparse.c reads.
use gw6c.Base.{codes, ℕ, ◌≢◌, refl, ap, List, [], ◌∷◌, ◌++◌, ◌=s◌, All, map, arith}
use gw6c.Xml.{Slot, is_name, starts_alpha, set_attribute}
use gw6c.Xml.Parser.{find_node, store}
use gw6c.Xml.Scan.{Passes, IsAttribute}
use gw6c.Xml.Clear.{Clear, Clear-Closes, Clear-flat}
use gw6c.Xml.Elements.{Element, IsElement, print_elements}
use gw6c.Xml.Events.{Runs, finished, called}
use gw6c.Xml.Nested.{Apart, print_elements-Clear}
use gw6c.Xml.Tunnel.{Info, p_broker}
use gw6c.Xml.Tunnel.Handlers.{at_tunnel}
use gw6c.Xml.Tunnel.Payload.{tables}
use gw6c.Xml.Redirection.{
  Entry, Flat, entry_element, entry-IsElement, brokers, after_broker, at_start, broker_call,
}

abbrev pub broker_element : List Entry → Element
broker_element es = record {
  gap = [];
  name = codes "broker";
  attributes = [];
  content = brokers es;
}

abbrev pub list_of_brokers : List Entry → List ℕ
list_of_brokers es = print_elements (broker_element es ∷ []) []

abbrev pub tunnel_element : List ℕ → List Entry → Element
tunnel_element action es = record {
  gap = [];
  name = codes "tunnel";
  attributes = (codes "action", action) ∷ [];
  content = list_of_brokers es;
}

-- A line with the status, and the document.
abbrev pub message : List ℕ → List ℕ → List Entry → List ℕ
message line action es = line ++ (10 ∷ print_elements (tunnel_element action es ∷ []) [])

module _ (name : List ℕ) (named : Passes is_name name) (differs : name ≢ codes "address") where
  entries-Apart : (es : List Entry) → Flat es → All (Apart name) (map entry_element es)
  entries-Apart [] flat = tt
  entries-Apart (e ∷ es) (f, flat) = (
    record {
      wellformed = entry-IsElement e f;
      differs = differs;
      inner = Clear-flat name e.text f;
    },
    entries-Apart es flat,
  )

  brokers-Clear : (es : List Entry) → Flat es → Clear name (brokers es)
  brokers-Clear es flat =
      print_elements-Clear name named (map entry_element es) [] (entries-Apart es flat) tt

broker_named : Passes is_name (codes "broker")
broker_named = (refl, (refl, (refl, (refl, (refl, (refl, tt))))))

tunnel_named : Passes is_name (codes "tunnel")
tunnel_named = (refl, (refl, (refl, (refl, (refl, (refl, tt))))))

pub broker-IsElement : (es : List Entry) → Flat es → IsElement (broker_element es)
unfolding starts_alpha
broker-IsElement es flat = record {
  blank = tt;
  starts = refl;
  named = broker_named;
  short = omega arith;
  attributed = tt;
  closes =
      Clear-Closes (codes "broker") (brokers es)
        (brokers-Clear (codes "broker") broker_named (λ e. cc) es flat);
}

tunnel_or_broker : codes "tunnel" ≢ codes "broker"
tunnel_or_broker e = cc (ap (λ x. x =s codes "broker") e)

broker-Apart : (es : List Entry) → Flat es → Apart (codes "tunnel") (broker_element es)
broker-Apart es flat = record {
  wellformed = broker-IsElement es flat;
  differs = tunnel_or_broker;
  inner = brokers-Clear (codes "tunnel") tunnel_named (λ e. cc) es flat;
}

pub tunnel-IsElement :
    (action : List ℕ) (es : List Entry)
    → IsAttribute (codes "action", action)
    → Flat es
    → IsElement (tunnel_element action es)
unfolding starts_alpha
tunnel-IsElement action es a flat = record {
  blank = tt;
  starts = refl;
  named = tunnel_named;
  short = omega arith;
  attributed = (a, tt);
  closes = Clear-Closes (codes "tunnel") (list_of_brokers es) (
      print_elements-Clear (codes "tunnel") tunnel_named (broker_element es ∷ []) []
        (broker-Apart es flat, tt) tt);
}

pub broker-Runs :
    (es : List Entry) (i : Info)
    → Flat es
    → (v : Slot) × Runs at_tunnel
        (broker_element es ∷ [])
        tables.tunnel
        (at_start i)
        tables.tunnel
        (after_broker es i v)
unfolding find_node store set_attribute
broker-Runs es i flat =
    let (v, call) = broker_call es i flat in
    (
      v,
      called (broker_element es) [] tables.tunnel (at_start i) tables.tunnel (after_broker es i v)
          (record { name = codes "broker"; process = p_broker; attributes = [] }) (brokers es) []
          (after_broker es i v) refl call (finished tables.tunnel (after_broker es i v)),
    )
