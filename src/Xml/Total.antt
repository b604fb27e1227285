-- ===== src/Xml/Total.antt =====
-- `tspExtractPayload` of tspc-advanced/src/tsp/tsp_client.c returns: the handlers of
-- tspc-advanced/src/xml/xml_tun.c and the parsers that they call all end.
use gw6c.Base.{
  codes, ℕ, zero, suc, ◌≤◌, ◌≢◌, List, [], ◌∷◌, Option, none, some, ◌=s◌, ◌||◌, if_both, length,
  arith,
}
use gw6c.Session.{pos, negsuc}
use gw6c.Xml.{Slot, live, freed, null, Slots, no_fuel}
use gw6c.Xml.Parser.{Handled, Parsed, parsed, fault, xml_parse}
use gw6c.Xml.Ends.{IsTame, Ended, xml_parse-Ended}
use gw6c.Xml.Tunnel.{
  State, Info, Table, Process, p_tunnel, p_server, p_client, p_broker, p_address, p_dns_server,
  p_router, p_prefix, p_as, p_keepalive, Processor, lowered, slot, any_stale, with_text, leave,
  client_address, dns_address, server_address, broker_address, process_address, put_back, nested,
  assigning,
}
use gw6c.Xml.Tunnel.Handlers.{
  at_addresses, process_dns_server, process_prefix, process_as, at_router, process_router,
  process_keepalive, at_side, process_server, process_client, process_broker, at_tunnel,
  process_tunnel, at_root,
}
use gw6c.Xml.Tunnel.Payload.{
  put_root, cleared, tsp_xml_parse, strchr, extracted, from_tag, from_line, extract_payload,
}

abbrev Tame : Processor → Type 0
Tame p = (content : List ℕ) (slots : Slots) (st : State) → IsTame content (p content slots st)

abbrev TameAt : (Process → Processor) → Type 0
TameAt process = (p : Process) → Tame (process p)

length-lowered : (content : List ℕ) → length (lowered content) ≤ length content
length-lowered [] = omega arith
length-lowered (c ∷ cs) = omega (arith, length-lowered cs)

leave-Tame : Tame leave
leave-Tame content slots st = omega arith

with_text-IsTame :
    (content : List ℕ) (v : Slot) (go : List ℕ → Handled State)
    → ((t : List ℕ) → IsTame content (go t))
    → IsTame content (with_text v go)
unfolding with_text
with_text-IsTame content null go tame = tt
with_text-IsTame content freed go tame = tt
with_text-IsTame content (live t) go tame = tame t

module _ (type : List ℕ) where
  client_address-Tame : Tame (client_address type)
  unfolding client_address
  client_address-Tame content slots st =
      let kept = length-lowered content in
      if_both (IsTame content) (type =s codes "ipv4") kept (
        if_both (IsTame content) (type =s codes "ipv6") kept
          (if_both (IsTame content) (type =s codes "dn") kept (leave-Tame content slots st)))

  dns_address-Tame : Tame (dns_address type)
  unfolding dns_address
  dns_address-Tame content slots st =
      let same = leave-Tame content slots st in
      if_both (IsTame content) (type =s codes "ipv4") same
        (if_both (IsTame content) (type =s codes "ipv6") same same)

  server_address-Tame : Tame (server_address type)
  unfolding server_address
  server_address-Tame content slots st =
      let kept = length-lowered content in
      if_both (IsTame content) (type =s codes "ipv4") kept
        (if_both (IsTame content) (type =s codes "ipv6") kept (leave-Tame content slots st))

  broker_address-Tame : Tame (broker_address type)
  unfolding broker_address
  broker_address-Tame content slots st = leave-Tame content slots st

process_address-Tame : Tame process_address
unfolding process_address
process_address-Tame content slots st =
    let v = slot 0 slots in
    let same = leave-Tame content slots st in
    if_both (IsTame content) st.client
      (if_both (IsTame content) st.keepalive
        (with_text-IsTame content v _ (λ t.
          if_both (IsTame content) ((t =s codes "ipv6") || (t =s codes "ipv4"))
            (length-lowered content) same))
        (if_both (IsTame content) st.router
          (if_both (IsTame content) st.dns_server
            (with_text-IsTame content v _ (λ t. dns_address-Tame t content slots st)) same)
          (with_text-IsTame content v _ (λ t. client_address-Tame t content slots st))))
      (if_both (IsTame content) st.server
        (with_text-IsTame content v _ (λ t. server_address-Tame t content slots st))
        (if_both (IsTame content) st.broker
          (with_text-IsTame content v _ (λ t. broker_address-Tame t content slots st)) same))

nested-Tame :
    (process : Process → Processor) (table : Table) (put : Table → State → State)
    → TameAt process
    → Tame (nested process table put)
unfolding nested put_back
nested-Tame process table put tame content slots st =
    back (xml_parse process content table st) (xml_parse-Ended process tame content table st)
  where
    back : (r : Parsed Process State) → Ended r → IsTame content (put_back put content slots r)
    back (parsed value t s) e = omega arith
    back (fault f) e = e

assigning-IsTame :
    (content : List ℕ) (slots : Slots) (st : State) (f : Info → Info)
    (go : Slots → State → Handled State)
    → ((slots' : Slots) (st' : State) → IsTame content (go slots' st'))
    → IsTame content (assigning slots st f go)
unfolding assigning
assigning-IsTame content slots st f go tame =
    if_both (IsTame content) (any_stale slots) tt (tame _ _)

at_addresses-Tame : TameAt at_addresses
unfolding at_addresses
at_addresses-Tame p_address = process_address-Tame
at_addresses-Tame p_tunnel = leave-Tame
at_addresses-Tame p_server = leave-Tame
at_addresses-Tame p_client = leave-Tame
at_addresses-Tame p_broker = leave-Tame
at_addresses-Tame p_dns_server = leave-Tame
at_addresses-Tame p_router = leave-Tame
at_addresses-Tame p_prefix = leave-Tame
at_addresses-Tame p_as = leave-Tame
at_addresses-Tame p_keepalive = leave-Tame

process_dns_server-Tame : Tame process_dns_server
unfolding process_dns_server
process_dns_server-Tame content slots st =
    nested-Tame at_addresses _ _ at_addresses-Tame content slots _

process_prefix-Tame : Tame process_prefix
unfolding process_prefix
process_prefix-Tame content slots st =
    assigning-IsTame content slots st _ _ (λ slots' st'. length-lowered content)

process_as-Tame : Tame process_as
unfolding process_as
process_as-Tame content slots st =
    if_both (IsTame content) st.client (assigning-IsTame content slots st _ _ (leave-Tame content))
      (if_both (IsTame content) st.server
        (assigning-IsTame content slots st _ _ (leave-Tame content)) (leave-Tame content slots st))

at_router-Tame : TameAt at_router
unfolding at_router
at_router-Tame p_prefix = process_prefix-Tame
at_router-Tame p_dns_server = process_dns_server-Tame
at_router-Tame p_as = process_as-Tame
at_router-Tame p_tunnel = leave-Tame
at_router-Tame p_server = leave-Tame
at_router-Tame p_client = leave-Tame
at_router-Tame p_broker = leave-Tame
at_router-Tame p_address = leave-Tame
at_router-Tame p_router = leave-Tame
at_router-Tame p_keepalive = leave-Tame

process_router-Tame : Tame process_router
unfolding process_router
process_router-Tame content slots st =
    assigning-IsTame content slots st _ _
      (λ slots' st'. nested-Tame at_router _ _ at_router-Tame content slots' _)

process_keepalive-Tame : Tame process_keepalive
unfolding process_keepalive
process_keepalive-Tame content slots st =
    assigning-IsTame content slots st _ _
      (λ slots' st'. nested-Tame at_addresses _ _ at_addresses-Tame content slots' _)

at_side-Tame : TameAt at_side
unfolding at_side
at_side-Tame p_address = process_address-Tame
at_side-Tame p_router = process_router-Tame
at_side-Tame p_keepalive = process_keepalive-Tame
at_side-Tame p_tunnel = leave-Tame
at_side-Tame p_server = leave-Tame
at_side-Tame p_client = leave-Tame
at_side-Tame p_broker = leave-Tame
at_side-Tame p_dns_server = leave-Tame
at_side-Tame p_prefix = leave-Tame
at_side-Tame p_as = leave-Tame

at_tunnel-Tame : TameAt at_tunnel
unfolding at_tunnel process_server process_client process_broker
at_tunnel-Tame p_server content slots st = nested-Tame at_side _ _ at_side-Tame content slots _
at_tunnel-Tame p_client content slots st = nested-Tame at_side _ _ at_side-Tame content slots _
at_tunnel-Tame p_broker content slots st =
    nested-Tame at_addresses _ _ at_addresses-Tame content slots _
at_tunnel-Tame p_tunnel content slots st = leave-Tame content slots st
at_tunnel-Tame p_address content slots st = leave-Tame content slots st
at_tunnel-Tame p_dns_server content slots st = leave-Tame content slots st
at_tunnel-Tame p_router content slots st = leave-Tame content slots st
at_tunnel-Tame p_prefix content slots st = leave-Tame content slots st
at_tunnel-Tame p_as content slots st = leave-Tame content slots st
at_tunnel-Tame p_keepalive content slots st = leave-Tame content slots st

at_root-Tame : TameAt at_root
unfolding at_root process_tunnel
at_root-Tame p_tunnel content slots st =
    assigning-IsTame content slots st _ _
      (λ slots' st'. nested-Tame at_tunnel _ _ at_tunnel-Tame content slots' st')
at_root-Tame p_server content slots st = leave-Tame content slots st
at_root-Tame p_client content slots st = leave-Tame content slots st
at_root-Tame p_broker content slots st = leave-Tame content slots st
at_root-Tame p_address content slots st = leave-Tame content slots st
at_root-Tame p_dns_server content slots st = leave-Tame content slots st
at_root-Tame p_router content slots st = leave-Tame content slots st
at_root-Tame p_prefix content slots st = leave-Tame content slots st
at_root-Tame p_as content slots st = leave-Tame content slots st
at_root-Tame p_keepalive content slots st = leave-Tame content slots st

tsp_xml_parse-Ended : (text : List ℕ) (st : State) → Ended (tsp_xml_parse text st)
unfolding tsp_xml_parse put_root
tsp_xml_parse-Ended text st =
    root (xml_parse at_root text st.tables.root (cleared st))
      (xml_parse-Ended at_root at_root-Tame text st.tables.root (cleared st))
  where
    root : (r : Parsed Process State) → Ended r → Ended (put_root r)
    root (parsed value t s) e = tt
    root (fault f) e = e

-- Whatever the payload is and the client knows, the parsers end: the extraction returns, or meets
-- a fault of the code, and never needs more passes than the model allows.
pub extract_payload-returns :
    (payload : List ℕ) (st : State) → (extract_payload payload st).0 ≢ some no_fuel
unfolding extract_payload from_line from_tag extracted
extract_payload-returns payload st = line (strchr 10 payload)
  where
    real : (r : Parsed Process State) → Ended r → (extracted st r).0 ≢ some no_fuel
    real (parsed (pos zero) t s) e = λ h. cc
    real (parsed (pos (suc n)) t s) e = λ h. cc
    real (parsed (negsuc n) t s) e = λ h. cc
    real (fault no_fuel) e = λ h. e
    real (fault f) e = λ h. cc

    tag : (x : Option (List ℕ)) → (from_tag st x).0 ≢ some no_fuel
    tag none = λ h. cc
    tag (some text) = real (tsp_xml_parse text st) (tsp_xml_parse-Ended text st)

    line : (x : Option (List ℕ)) → (from_line st x).0 ≢ some no_fuel
    line none = λ h. cc
    line (some text) = tag (strchr b'<' text)
