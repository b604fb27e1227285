-- ===== src/Xml/Redirection.antt =====
-- A redirection as a message: what `tspExtractPayload` of tspc-advanced/src/tsp/tsp_client.c takes
-- from a reply that lists brokers.
use gw6c.Base.{
  codes, ℕ, ◌≡◌, refl, sym, ap, ◌∙◌, List, [], ◌∷◌, ◌++◌, Option, some, Bool, true, false,
  if◌then◌else◌, if_true, if_false, All, map, arith,
}
use mathlib.Core.Path.{subst}
use mathlib.Core.List.{reverse, reverse-cons, append_assoc}
use gw6c.Session.{pos}
use gw6c.Broker.{TunnelInfo}
use gw6c.Xml.{Slot, live, null, starts_alpha, set_attribute}
use gw6c.Xml.Parser.{handled, find_node, store, release}
use gw6c.Xml.Scan.{Passes, IsAttribute}
use gw6c.Xml.Clear.{Clear-Closes, Clear-flat, not_lt}
use gw6c.Xml.Elements.{Element, IsElement, print_elements}
use gw6c.Xml.Events.{Runs, finished, called, xml_parse-Runs}
use gw6c.Xml.Tunnel.{
  State, Info, Table, p_address, p_broker, process_address, broker_address, add_redirect, with_text,
  nested, put_back,
}
use gw6c.Xml.Tunnel.Handlers.{at_addresses, at_tunnel, process_broker}
use gw6c.Xml.Tunnel.Payload.{tables, initial}

-- The kinds of addresses of brokers, as the attribute `type` names them.
pub data Kind : Type 0 where
  ipv4 ipv6 dn : Kind

abbrev pub type_of : Kind → List ℕ
type_of ipv4 = codes "ipv4"
type_of ipv6 = codes "ipv6"
type_of dn = codes "dn"

-- An address of a broker: a text without `<`.
pub record Entry : Type 0 where
  pub kind : Kind
  pub text : List ℕ

abbrev pub entry_element : Entry → Element
entry_element e = record {
  gap = [];
  name = codes "address";
  attributes = (codes "type", type_of e.kind) ∷ [];
  content = e.text;
}

-- The addresses of a kind, in the order of the message.
abbrev pub is_kind : Kind → Kind → Bool
is_kind ipv4 ipv4 = true
is_kind ipv6 ipv6 = true
is_kind dn dn = true
is_kind _ _ = false

abbrev pub of_kind : Kind → List Entry → List (Option (List ℕ))
of_kind k [] = []
of_kind k (e ∷ es) = if is_kind k e.kind then some e.text ∷ of_kind k es else of_kind k es

-- The lists of a message in front of others.
abbrev pub onto : List Entry → TunnelInfo → TunnelInfo
onto es t = record {
  broker_redirect_ipv4 = reverse (of_kind ipv4 es) ++ t.broker_redirect_ipv4;
  broker_redirect_ipv6 = reverse (of_kind ipv6 es) ++ t.broker_redirect_ipv6;
  broker_redirect_dn = reverse (of_kind dn es) ++ t.broker_redirect_dn;
}

pub type-IsAttribute : (k : Kind) → IsAttribute (codes "type", type_of k)
unfolding starts_alpha
type-IsAttribute ipv4 = record {
  starts = refl;
  named = (refl, (refl, (refl, (refl, tt))));
  valued = (refl, (refl, (refl, (refl, tt))));
  flat = (refl, (refl, (refl, (refl, tt))));
}
type-IsAttribute ipv6 = record {
  starts = refl;
  named = (refl, (refl, (refl, (refl, tt))));
  valued = (refl, (refl, (refl, (refl, tt))));
  flat = (refl, (refl, (refl, (refl, tt))));
}
type-IsAttribute dn = record {
  starts = refl;
  named = (refl, (refl, (refl, (refl, tt))));
  valued = (refl, (refl, tt));
  flat = (refl, (refl, tt));
}

pub entry-IsElement : (e : Entry) → Passes not_lt e.text → IsElement (entry_element e)
unfolding starts_alpha
entry-IsElement e flat = record {
  blank = tt;
  starts = refl;
  named = (refl, (refl, (refl, (refl, (refl, (refl, (refl, tt)))))));
  short = omega arith;
  attributed = (type-IsAttribute e.kind, tt);
  closes = Clear-Closes (codes "address") e.text (Clear-flat (codes "address") e.text flat);
}

-- The table of a broker after it has seen an address, or not.
abbrev pub broker_table : Slot → Table
broker_table v =
    record { name = codes "address"; process = p_address; attributes = (codes "type", v) ∷ [] } ∷ []

abbrev pub with_redirect : State → TunnelInfo → State
with_redirect s t = record s { info = record s.info { redirect = t } }

-- A broker is put before the others of its kind.
push :
    (x : Option (List ℕ)) (xs ys : List (Option (List ℕ)))
    → reverse xs ++ (x ∷ ys) ≡ reverse (x ∷ xs) ++ ys
push x xs ys =
    sym (append_assoc (reverse xs) (x ∷ []) ys) ∙ ap (λ r. r ++ ys) (sym (reverse-cons x xs))

onto-kind :
    (k : Kind) (text : List ℕ) (es : List Entry) (t : TunnelInfo)
    → onto es (add_redirect (type_of k) text t) ≡ onto (record { kind = k; text = text } ∷ es) t
unfolding add_redirect
onto-kind ipv4 text es t =
    ap (λ r. record (onto es t) { broker_redirect_ipv4 = r })
      (push (some text) (of_kind ipv4 es) t.broker_redirect_ipv4)
onto-kind ipv6 text es t =
    ap (λ r. record (onto es t) { broker_redirect_ipv6 = r })
      (push (some text) (of_kind ipv6 es) t.broker_redirect_ipv6)
onto-kind dn text es t =
    ap (λ r. record (onto es t) { broker_redirect_dn = r })
      (push (some text) (of_kind dn es) t.broker_redirect_dn)

-- The call for an address of a broker.
entry_call :
    (e : Entry) (v : Slot) (s : State)
    → s.client ≡ false
    → s.server ≡ false
    → s.broker ≡ true
    → at_addresses p_address e.text ((codes "type", live (type_of e.kind)) ∷ []) s
      ≡ handled
          (pos 0)
          e.text
          ((codes "type", live (type_of e.kind)) ∷ [])
          (with_redirect s (add_redirect (type_of e.kind) e.text s.info.redirect))
unfolding at_addresses process_address with_text broker_address
entry_call e v s c sv b = if_false _ _ c ∙ if_false _ _ sv ∙ if_true _ _ b

entries-Runs :
    (es : List Entry) (v : Slot) (s : State)
    → s.client ≡ false
    → s.server ≡ false
    → s.broker ≡ true
    → (v' : Slot) × Runs at_addresses
        (map entry_element es)
        (broker_table v)
        s
        (broker_table v')
        (with_redirect s (onto es s.info.redirect))
unfolding find_node store set_attribute
entries-Runs [] v s c sv b = (v, finished (broker_table v) s)
entries-Runs (e ∷ es) v s c sv b =
    let type : Slot = live (type_of e.kind) in
    let s₁ = with_redirect s (add_redirect (type_of e.kind) e.text s.info.redirect) in
    let (v', runs) = entries-Runs es type s₁ c sv b in
    (
      v',
      called (entry_element e) (map entry_element es) (broker_table v) s (broker_table v') _
          (record {
            name = codes "address";
            process = p_address;
            attributes = (codes "type", v) ∷ [];
          })
          e.text ((codes "type", type) ∷ []) s₁ refl (entry_call e v s c sv b)
          (subst
            (λ t.
              Runs at_addresses (map entry_element es) (broker_table type) s₁ (broker_table v')
                (with_redirect s t))
            (onto-kind e.kind e.text es s.info.redirect) runs),
    )

-- The texts of the addresses.
abbrev pub Flat : List Entry → Type 0
Flat = All (λ e. Passes not_lt e.text)

pub entries-IsElement : (es : List Entry) → Flat es → All IsElement (map entry_element es)
entries-IsElement [] flat = tt
entries-IsElement (e ∷ es) (f, flat) = (entry-IsElement e f, entries-IsElement es flat)

-- What the client knows when it meets the list of brokers.
abbrev pub at_start : Info → State
at_start i = record initial { info = i }

abbrev pub brokers : List Entry → List ℕ
brokers es = print_elements (map entry_element es) []

abbrev pub with_brokers : List Entry → Info → Info
with_brokers es i = record i { redirect = onto es i.redirect }

abbrev pub after_broker : List Entry → Info → Slot → State
after_broker es i v = record initial {
  info = with_brokers es i;
  tables = record tables { broker = release (broker_table v) };
}

pub broker_call :
    (es : List Entry) (i : Info)
    → Flat es
    → (v : Slot) × (at_tunnel p_broker (brokers es) [] (at_start i)
        ≡ handled (pos 0) (brokers es) [] (after_broker es i v))
unfolding at_tunnel process_broker nested put_back
broker_call es i flat =
    let s₁ = record (at_start i) { broker = true } in
    let (v, runs) = entries-Runs es null s₁ refl refl refl in
    (
      v,
      ap
          (put_back (λ t s. record s { tables = record s.tables { broker = t }; broker = false })
            (brokers es) [])
          (xml_parse-Runs at_addresses (map entry_element es) [] (broker_table null) s₁
            (broker_table v) (with_redirect s₁ (onto es i.redirect)) runs
            (entries-IsElement es flat) tt),
    )
