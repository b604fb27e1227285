-- ===== src/Xml/Tunnel/Handlers.antt =====
-- The handlers of nodes with other nodes in them, of tspc-advanced/src/xml/xml_tun.c.
use gw6c.Base.{true, false, if◌then◌else◌}
use gw6c.Xml.Tunnel.{
  Process, assigned, slot, Processor, keep, leave, process_address, nested, assigning, p_tunnel,
  p_server, p_client, p_broker, p_address, p_dns_server, p_router, p_prefix, p_as, p_keepalive,
}

-- The tables of names servers, of a broker and of keepalive have addresses only.
unfoldable pub at_addresses : Process → Processor
at_addresses p_address = process_address
at_addresses _ = leave

unfoldable pub process_dns_server : Processor
process_dns_server content slots st =
    nested at_addresses st.tables.dns
      (λ t s. record s { tables = record s.tables { dns = t }; dns_server = false }) content slots
      (record st { dns_server = true })

unfoldable pub process_prefix : Processor
process_prefix content slots st =
    assigning slots st (λ i. record i { prefix_length = assigned (slot 0 slots) i.prefix_length })
      (λ slots' st'. keep content slots' st' (λ v i. record i { prefix = v }))

unfoldable pub process_as : Processor
process_as content slots st =
    if st.client
    then assigning slots st (λ i. record i { client_as = assigned (slot 0 slots) i.client_as })
        (leave content)
    else if st.server
    then assigning slots st (λ i. record i { server_as = assigned (slot 0 slots) i.server_as })
        (leave content)
    else leave content slots st

unfoldable pub at_router : Process → Processor
at_router p_prefix = process_prefix
at_router p_dns_server = process_dns_server
at_router p_as = process_as
at_router _ = leave

unfoldable pub process_router : Processor
process_router content slots st =
    assigning slots st
      (λ i. record i { router_protocol = assigned (slot 0 slots) i.router_protocol })
      (λ slots' st'.
        nested at_router st'.tables.router
          (λ t s. record s { tables = record s.tables { router = t }; router = false }) content
          slots' (record st' { router = true }))

unfoldable pub process_keepalive : Processor
process_keepalive content slots st =
    assigning slots st
      (λ i. record i { keepalive_interval = assigned (slot 0 slots) i.keepalive_interval })
      (λ slots' st'.
        nested at_addresses st'.tables.keepalive
          (λ t s. record s { tables = record s.tables { keepalive = t }; keepalive = false })
          content slots' (record st' { keepalive = true }))

-- In a server or a client.
unfoldable pub at_side : Process → Processor
at_side p_address = process_address
at_side p_router = process_router
at_side p_keepalive = process_keepalive
at_side _ = leave

unfoldable pub process_server : Processor
process_server content slots st =
    nested at_side st.tables.server
      (λ t s. record s { tables = record s.tables { server = t }; server = false }) content slots
      (record st { server = true })

unfoldable pub process_client : Processor
process_client content slots st =
    nested at_side st.tables.client
      (λ t s. record s { tables = record s.tables { client = t }; client = false }) content slots
      (record st { client = true })

unfoldable pub process_broker : Processor
process_broker content slots st =
    nested at_addresses st.tables.broker
      (λ t s. record s { tables = record s.tables { broker = t }; broker = false }) content slots
      (record st { broker = true })

unfoldable pub at_tunnel : Process → Processor
at_tunnel p_server = process_server
at_tunnel p_client = process_client
at_tunnel p_broker = process_broker
at_tunnel _ = leave

unfoldable pub process_tunnel : Processor
process_tunnel content slots st =
    assigning slots st
      (λ i. record i {
        action = assigned (slot 0 slots) i.action;
        type = assigned (slot 1 slots) i.type;
        lifetime = assigned (slot 2 slots) i.lifetime;
        proxy = assigned (slot 3 slots) i.proxy;
        mtu = assigned (slot 4 slots) i.mtu;
      })
      (λ slots' st'.
        nested at_tunnel st'.tables.tunnel
          (λ t s. record s { tables = record s.tables { tunnel = t } }) content slots' st')

unfoldable pub at_root : Process → Processor
at_root p_tunnel = process_tunnel
at_root _ = leave
