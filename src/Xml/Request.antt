-- ===== src/Xml/Request.antt =====
-- The requests of the client: tspc-advanced/src/xml/xml_req.c.
use gw6c.Base.{
  decimal, codes, ℕ, suc, List, [], ◌∷◌, ◌++◌, Bool, true, false, not, ◌==◌, ◌=s◌, ◌&&◌,
  if◌then◌else◌, take,
}
use gw6c.Session.{ℤ, pos, negsuc}

-- `tTunnelMode`
pub data Mode : Type 0 where
  v6v4 v6udpv4 v6anyv4 v4v6 : Mode

-- The fields of `tConf` that a request is made of.
pub record Config : Type 0 where
  pub tunnel_mode : Mode
  pub proxy_client : Bool
  pub client_v4 : List ℕ
  pub client_v6 : List ℕ
  pub keepalive : Bool
  pub keepalive_interval : ℤ
  pub host_type : List ℕ
  pub protocol : List ℕ
  pub prefixlen : ℤ
  pub dns_server : List ℕ
  pub routing_info : List ℕ

-- `snprintf` into `Buffer`, which has 1024 bytes.
abbrev pub formatted : List ℕ → List ℕ
formatted text = take 1023 text

-- `%d`
abbrev pub decimal_int : ℤ → List ℕ
decimal_int (pos n) = decimal n
decimal_int (negsuc n) = b'-' ∷ decimal (suc n)

abbrev pub name_of : Mode → List ℕ
name_of v6udpv4 = codes "v6udpv4"
name_of v6v4 = codes "v6v4"
name_of v4v6 = codes "v4v6"
name_of v6anyv4 = codes "v6anyv4"

abbrev pub yes_no : Bool → List ℕ
yes_no true = codes "yes"
yes_no false = codes "no"

abbrev pub is_v4v6 : Mode → Bool
is_v4v6 v4v6 = true
is_v4v6 v6v4 = false
is_v4v6 v6udpv4 = false
is_v4v6 v6anyv4 = false

-- The address that the client asks with.
unfoldable pub client_address : Config → List ℕ
client_address conf =
    if is_v4v6 conf.tunnel_mode
    then formatted (codes "  <address type=\"ipv6\">" ++ (conf.client_v6 ++ codes "</address>\r\n"))
    else formatted (codes "  <address type=\"ipv4\">" ++ (conf.client_v4 ++ codes "</address>\r\n"))

unfoldable pub keepalive_section : Config → List ℕ
keepalive_section conf =
    if not conf.keepalive
    then []
    else if is_v4v6 conf.tunnel_mode
    then formatted (
        codes "  <keepalive interval=\""
        ++ (decimal_int conf.keepalive_interval
            ++ codes "\">\r\n    <address type=\"ipv4\">127.0.0.1</address>\r\n  </keepalive>\r\n"))
    else formatted (
        codes "  <keepalive interval=\""
        ++ (decimal_int conf.keepalive_interval
            ++ codes "\">\r\n    <address type=\"ipv6\">::</address>\r\n  </keepalive>\r\n"))

abbrev pub is_zero : ℤ → Bool
is_zero (pos n) = n == 0
is_zero (negsuc n) = false

-- The default length of the prefix is put into the configuration.
unfoldable pub with_prefixlen : Config → Config
with_prefixlen conf =
    if is_zero conf.prefixlen
    then record conf { prefixlen = if is_v4v6 conf.tunnel_mode then pos 24 else pos 48 }
    else conf

abbrev pub is_empty : List ℕ → Bool
is_empty [] = true
is_empty (c ∷ cs) = false

-- The names that `strtok` finds between colons; `name` is what it has of one.
unfoldable pub servers : List ℕ → List ℕ → List (List ℕ)
servers name [] = if is_empty name then [] else name ∷ []
servers name (c ∷ cs) =
    let more = servers (if c == b':' then [] else name ++ (c ∷ [])) cs in
    if (c == b':') && not (is_empty name) then name ∷ more else more

-- What `strtok` leaves of the text: it puts a zero behind the first name.
unfoldable pub cut : Bool → List ℕ → List ℕ
cut within [] = []
cut within (c ∷ cs) =
    let rest = cut (not (c == b':')) cs in if (c == b':') && within then [] else c ∷ rest

unfoldable pub server_elements : List (List ℕ) → List ℕ
server_elements [] = []
server_elements (name ∷ more) =
    formatted (codes "     <address type=\"dn\">" ++ (name ++ codes "</address>\r\n"))
    ++ server_elements more

unfoldable pub dns_section : Config → List ℕ
dns_section conf =
    if is_empty conf.dns_server
    then []
    else codes "   <dns_server>\r\n"
      ++ (server_elements (servers [] conf.dns_server) ++ codes "   </dns_server>\r\n")

abbrev pub default_route : Config → Bool
default_route conf = conf.protocol =s codes "default_route"

unfoldable pub routing_section : Config → List ℕ
routing_section conf =
    if default_route conf && not (is_empty conf.routing_info)
    then formatted (codes "    " ++ (conf.routing_info ++ codes "\r\n"))
    else []

unfoldable pub router_section : Config → List ℕ
router_section conf =
    codes "  <router"
    ++ ((if default_route conf
          then []
          else formatted (codes " protocol=\"" ++ (conf.protocol ++ codes "\"")))
        ++ (codes ">\r\n"
            ++ (formatted
                  (codes "   <prefix length=\"" ++ (decimal_int conf.prefixlen ++ codes "\"/>\r\n"))
                ++ (dns_section conf ++ (routing_section conf ++ codes "  </router>\r\n")))))

-- The part for routers, and the configuration as it is left.
unfoldable pub for_router : Config → List ℕ × Config
for_router conf =
    let conf' = with_prefixlen conf in
    if conf.host_type =s codes "router"
    then (router_section conf', record conf' { dns_server = cut false conf.dns_server })
    else ([], conf)

-- `tspBuildCreateRequest`: the request, and the configuration as it is left.
unfoldable pub build_create_request : Config → List ℕ × Config
build_create_request conf =
    let (router, conf') = for_router conf in
    (
      codes "<tunnel action=\"create\" type=\""
          ++ (name_of conf.tunnel_mode
              ++ (codes "\" proxy=\""
                  ++ (yes_no conf.proxy_client
                      ++ (codes "\">\r\n <client>\r\n"
                          ++ (client_address conf
                              ++ (keepalive_section conf
                                  ++ (router ++ codes " </client>\r\n</tunnel>\r\n"))))))),
      conf',
    )

-- `tspBuildCreateAcknowledge`
unfoldable pub build_create_acknowledge : List ℕ
build_create_acknowledge = codes "<tunnel action=\"accept\"></tunnel>\r\n"
