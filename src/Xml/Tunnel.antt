-- ===== src/Xml/Tunnel.antt =====
-- What the client takes from a reply: tspc-advanced/src/xml/xml_tun.c and include/xml_tun.h, with
-- the handlers of nodes that hold text.
pub mod Handlers
pub mod Payload
use gw6c.Base.{
  codes, ℕ, zero, suc, ◌+◌, List, [], ◌∷◌, Option, none, some, Bool, true, false, leb, ◌==◌, ◌=s◌,
  ◌&&◌, ◌||◌, if◌then◌else◌, map,
}
use Prim.Native.String.{String}
use gw6c.Session.{pos}
use gw6c.Broker.{TunnelInfo}
use gw6c.Xml.{Slot, null, live, freed, Node, Fault, null_read, stale_read}
use gw6c.Xml.Parser.{Handled, handled, trapped, Parsed, parsed, fault, xml_parse}

-- `tTunnel`: texts, and three kinds of lists of texts, the last one first.
pub record Info : Type 0 where
  pub action : Option (List ℕ)
  pub type : Option (List ℕ)
  pub lifetime : Option (List ℕ)
  pub proxy : Option (List ℕ)
  pub mtu : Option (List ℕ)
  pub client_address_ipv4 : Option (List ℕ)
  pub client_address_ipv6 : Option (List ℕ)
  pub client_dns_name : Option (List ℕ)
  pub server_address_ipv4 : Option (List ℕ)
  pub server_address_ipv6 : Option (List ℕ)
  pub router_protocol : Option (List ℕ)
  pub prefix_length : Option (List ℕ)
  pub prefix : Option (List ℕ)
  pub client_as : Option (List ℕ)
  pub server_as : Option (List ℕ)
  pub keepalive_interval : Option (List ℕ)
  pub keepalive_address : Option (List ℕ)
  pub dns_server_address_ipv4 : List (Option (List ℕ))
  pub dns_server_address_ipv6 : List (Option (List ℕ))
  pub redirect : TunnelInfo

-- The processing functions.
pub data Process : Type 0 where
  p_tunnel p_server p_client p_broker p_address p_dns_server p_router p_prefix p_as p_keepalive :
      Process

abbrev pub Table : Type 0
Table = List (Node Process)

-- The static tables, whose attributes keep their pointers.
pub record Tables : Type 0 where
  pub root : Table
  pub tunnel : Table
  pub server : Table
  pub client : Table
  pub router : Table
  pub dns : Table
  pub broker : Table
  pub keepalive : Table

-- The static variables, with `theTunnelInfo`.
pub record State : Type 0 where
  pub info : Info
  pub tables : Tables
  pub client : Bool
  pub server : Bool
  pub router : Bool
  pub dns_server : Bool
  pub broker : Bool
  pub keepalive : Bool

abbrev pub lower : ℕ → ℕ
lower c = if leb b'A' c && leb c b'Z' then c + 32 else c

-- `Assign`: the text in lower case, in place too; a null pointer changes nothing.
abbrev pub lowered : List ℕ → List ℕ
lowered = map lower

abbrev pub lowered_slot : Slot → Slot
lowered_slot (live text) = live (lowered text)
lowered_slot null = null
lowered_slot freed = freed

abbrev pub assigned : Slot → Option (List ℕ) → Option (List ℕ)
assigned (live text) old = some (lowered text)
assigned null old = old
assigned freed old = old

abbrev pub is_stale : Slot → Bool
is_stale freed = true
is_stale _ = false

-- The value of the attribute with a number; there are as many as the tables say.
abbrev pub slot : ℕ → List (List ℕ × Slot) → Slot
slot n [] = null
slot zero ((a, v) ∷ more) = v
slot (suc n) ((a, v) ∷ more) = slot n more

abbrev pub any_stale : List (List ℕ × Slot) → Bool
any_stale [] = false
any_stale ((a, v) ∷ more) = is_stale v || any_stale more

abbrev pub lowered_slots : List (List ℕ × Slot) → List (List ℕ × Slot)
lowered_slots = map (λ (x : List ℕ × Slot). (x.0, lowered_slot x.1))

abbrev pub Processor : Type 0
Processor = List ℕ → List (List ℕ × Slot) → State → Handled State

-- The comparisons of `type` read the value.
unfoldable pub with_text : Slot → (List ℕ → Handled State) → Handled State
with_text null go = trapped null_read
with_text freed go = trapped stale_read
with_text (live text) go = go text

abbrev pub change : State → (Info → Info) → State
change st f = record st { info = f st.info }

abbrev pub change_list : State → (TunnelInfo → TunnelInfo) → State
change_list st f = record st { info = record st.info { redirect = f st.info.redirect } }

-- `Assign(content, …)` and `AssignToList(content, …)`.
abbrev pub keep :
    List ℕ → List (List ℕ × Slot) → State → (Option (List ℕ) → Info → Info) → Handled State
keep content slots st f =
    handled (pos 0) (lowered content) slots (change st (f (some (lowered content))))

abbrev pub collect : List ℕ → List (List ℕ × Slot) → State → (Info → Info) → Handled State
collect content slots st f = handled (pos 0) content slots (change st f)

abbrev pub leave : Processor
leave content slots st = handled (pos 0) content slots st

unfoldable pub client_address : List ℕ → Processor
client_address type content slots st =
    if type =s codes "ipv4"
    then keep content slots st (λ v i. record i { client_address_ipv4 = v })
    else if type =s codes "ipv6"
    then keep content slots st (λ v i. record i { client_address_ipv6 = v })
    else if type =s codes "dn"
    then keep content slots st (λ v i. record i { client_dns_name = v })
    else leave content slots st

unfoldable pub dns_address : List ℕ → Processor
dns_address type content slots st =
    if type =s codes "ipv4"
    then collect content slots st
        (λ i. record i { dns_server_address_ipv4 = some content ∷ i.dns_server_address_ipv4 })
    else if type =s codes "ipv6"
    then collect content slots st
        (λ i. record i { dns_server_address_ipv6 = some content ∷ i.dns_server_address_ipv6 })
    else leave content slots st

unfoldable pub server_address : List ℕ → Processor
server_address type content slots st =
    if type =s codes "ipv4"
    then keep content slots st (λ v i. record i { server_address_ipv4 = v })
    else if type =s codes "ipv6"
    then keep content slots st (λ v i. record i { server_address_ipv6 = v })
    else leave content slots st

-- One more broker of a type, before the others.
unfoldable pub add_redirect : List ℕ → List ℕ → TunnelInfo → TunnelInfo
add_redirect type content t =
    if type =s codes "ipv4"
    then record t { broker_redirect_ipv4 = some content ∷ t.broker_redirect_ipv4 }
    else if type =s codes "ipv6"
    then record t { broker_redirect_ipv6 = some content ∷ t.broker_redirect_ipv6 }
    else if type =s codes "dn"
    then record t { broker_redirect_dn = some content ∷ t.broker_redirect_dn }
    else t

unfoldable pub broker_address : List ℕ → Processor
broker_address type content slots st =
    collect content slots st (λ i. record i { redirect = add_redirect type content i.redirect })

unfoldable pub process_address : Processor
process_address content slots st =
    let type = slot 0 slots in
    if st.client
    then (if st.keepalive
        then with_text type (λ t.
          if (t =s codes "ipv6") || (t =s codes "ipv4")
          then keep content slots st (λ v i. record i { keepalive_address = v })
          else leave content slots st)
        else if st.router
        then (if st.dns_server
            then with_text type (λ t. dns_address t content slots st)
            else leave content slots st)
        else with_text type (λ t. client_address t content slots st))
    else if st.server
    then with_text type (λ t. server_address t content slots st)
    else if st.broker
    then with_text type (λ t. broker_address t content slots st)
    else leave content slots st

-- A function that parses its content with a table, and puts the table back.
unfoldable pub put_back :
    (Table → State → State) → List ℕ → List (List ℕ × Slot) → Parsed Process State → Handled State
put_back put content slots (parsed value table st) = handled value content slots (put table st)
put_back put content slots (fault f) = trapped f

unfoldable pub nested : (Process → Processor) → Table → (Table → State → State) → Processor
nested process table put content slots st =
    put_back put content slots (xml_parse process content table st)

-- `Assign` of the attributes of a node; `f` stores them.
unfoldable pub assigning :
    List (List ℕ × Slot)
    → State
    → (Info → Info)
    → (List (List ℕ × Slot) → State → Handled State)
    → Handled State
assigning slots st f go =
    if any_stale slots then trapped stale_read else go (lowered_slots slots) (change st f)
