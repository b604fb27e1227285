-- ===== src/Tunnel.antt =====
-- The environment of the template script: `validate_tunnel_info` and `set_tsp_env_variables` of
-- tspc-advanced/src/tsp/tsp_setup.c, as Linux has them, without V4V6_SUPPORT; `IsAll` is from
-- src/lib/lib.c.
mod Tests
pub mod Setup
pub mod Start
pub mod Seen
pub mod Groups
pub mod Leases
pub mod Ordered
pub mod Guards
use gw6c.Base.{
  codes, ℕ, zero, suc, ◌+◌, ◌-◌, ◌*◌, ◌/◌, ◌%◌, ◌^◌, ltb, leb, ◌==◌, ◌||◌, ◌&&◌, not, Bool, true,
  false, List, [], ◌∷◌, ◌++◌, Option, none, some, if◌then◌else◌, length, take,
}
use gw6c.Session.{ℤ, pos, negsuc, atoi}
use gw6c.Session.Capability.{same_word}
use gw6c.Xml.Tunnel.{Info}

-- The fields of `tConf` that go into the environment, and `TspHomeDir`.
pub record Settings : Type 0 where
  pub host_type : List ℕ
  pub if_tunnel_v6v4 : List ℕ
  pub if_tunnel_v6udpv4 : List ℕ
  pub if_prefix : List ℕ
  pub template : List ℕ
  pub server : List ℕ
  pub home_dir : List ℕ

-- `Gw6cTunnelType`
pub data Kind : Type 0 where
  v6v4 v6udpv4 : Kind

-- `gTunnelInfo`, what the GUI is told; `none` is a null pointer.
pub record Shown : Type 0 where
  pub broker_name : Option (List ℕ)
  pub tunnel_type : Option Kind
  pub ipv4_local : Option (List ℕ)
  pub ipv6_local : Option (List ℕ)
  pub ipv4_remote : Option (List ℕ)
  pub ipv6_remote : Option (List ℕ)
  pub delegated_prefix : Option (List ℕ)
  pub user_domain : Option (List ℕ)
  pub up_time : ℕ

-- The environment, the last setting first, and what the GUI is told.
pub record State : Type 0 where
  pub env : List (List ℕ × List ℕ)
  pub shown : Shown

-- A read through a null pointer, a write behind `chPrefix`, or a read behind a text.
pub data Fault : Type 0 where
  null_read over_write over_read : Fault

pub data Set : Type 0 where
  set : State → Set
  trapped : Fault → Set

-- `IsAll`: NULL is refused.
unfoldable pub is_in : ℕ → List ℕ → Bool
is_in c [] = false
is_in c (x ∷ xs) = (x == c) || is_in c xs

unfoldable pub is_all : (allowed : List ℕ) → Option (List ℕ) → Bool
is_all allowed none = false
is_all allowed (some []) = true
is_all allowed (some (c ∷ cs)) = is_in c allowed && is_all allowed (some cs)

abbrev pub ipv4_addr : List ℕ
ipv4_addr = codes ".0123456789"

abbrev pub ipv6_addr : List ℕ
ipv6_addr = codes "ABCDEFabcdef:0123456789"

abbrev pub ip_addr_any : List ℕ
ip_addr_any = codes "ABCDEFabcdef:.0123456789"

abbrev pub numeric : List ℕ
numeric = codes "0123456789"

abbrev pub one_if_not : Bool → ℕ
one_if_not ok = if ok then 0 else 1

-- The errors in the prefix, if there is one.
unfoldable pub prefix_errors : Info → Option (List ℕ) → ℕ
prefix_errors t none = 0
prefix_errors t (some prefix) =
    one_if_not (is_all ip_addr_any (some prefix)) + one_if_not (is_all numeric t.prefix_length)

-- The number of errors.
unfoldable pub validate_tunnel_info : Info → ℕ
validate_tunnel_info t =
    one_if_not (is_all ipv4_addr t.client_address_ipv4)
    + one_if_not (is_all ipv6_addr t.client_address_ipv6)
    + one_if_not (is_all ipv4_addr t.server_address_ipv4)
    + one_if_not (is_all ipv6_addr t.server_address_ipv6)
    + prefix_errors t t.prefix

unfoldable pub set_env : (name value : List ℕ) → State → State
set_env name value s = record s { env = (name, value) ∷ s.env }

-- `setenv` of a pointer.
unfoldable pub with_text : Option (List ℕ) → (List ℕ → Set) → Set
with_text none go = trapped null_read
with_text (some text) go = go text

abbrev pub is_v6 : List ℕ → Bool
is_v6 type = same_word type (codes "v6v4") || same_word type (codes "v6udpv4")

unfoldable pub set_interface : Settings → (type : List ℕ) → State → State
set_interface c type s =
    let chosen = λ (interface : List ℕ) (k : Kind).
      record (set_env (codes "TSP_TUNNEL_INTERFACE") interface s) {
        shown = record s.shown { tunnel_type = some k };
      } in
    if same_word type (codes "v6v4")
    then chosen c.if_tunnel_v6v4 v6v4
    else if same_word type (codes "v6udpv4")
    then chosen c.if_tunnel_v6udpv4 v6udpv4
    else s

unfoldable pub set_dns_name : Option (List ℕ) → State → State
set_dns_name none s = s
set_dns_name (some name) s = record (set_env (codes "TSP_CLIENT_DNS_NAME") name s) {
  shown = record s.shown { user_domain = some name };
}

-- `len + sep` as a `size_t`, of the length of a prefix of an IPv6 tunnel.
unfoldable pub extent : ℤ → ℕ
extent (pos n) =
    if n % 16 == 0
    then (n / 16 * 4 + (n / 16 + 2 ^ 64 - 1)) % 2 ^ 64
    else ((n / 16 + 1) * 4 + n / 16) % 2 ^ 64
extent (negsuc n) =
    let m = suc n in
    if m % 16 == 0 then 2 ^ 64 - (m / 16 * 5 + 1) else (4 + 2 ^ 64 - m / 16 * 5) % 2 ^ 64

-- The text that `memcpy` leaves in `chPrefix`, and for the GUI its length behind a slash, for which
-- there is room for eight digits.
unfoldable pub set_prefix : (prefix text length : List ℕ) → State → State
set_prefix prefix text prefix_length s =
    let s' = set_env (codes "TSP_PREFIXLEN") prefix_length (set_env (codes "TSP_PREFIX") text s) in
    record s' {
      shown = record s.shown { delegated_prefix = some (text ++ (b'/' ∷ prefix_length)) };
    }

unfoldable pub delegate : (type prefix prefix_length : List ℕ) → State → Set
delegate type prefix prefix_length s =
    let size = if is_v6 type then extent (atoi prefix_length) else length prefix in
    if ltb 128 size
    then trapped over_write
    else if ltb (length prefix + 1) size || (size == 128 && ltb 127 (length prefix))
    then trapped over_read
    else if ltb 8 (length prefix_length)
    then trapped over_write
    else set (set_prefix prefix (take size prefix) prefix_length s)

-- The last part: the prefix that was delegated before is forgotten.
unfoldable pub set_delegated : Info → (type : List ℕ) → Option (List ℕ) → State → Set
set_delegated t type none s = set s
set_delegated t type (some prefix) s =
    with_text t.prefix_length (λ prefix_length. delegate type prefix prefix_length s)

unfoldable pub set_prefixlen : (type : List ℕ) → State → State
set_prefixlen type s =
    if is_v6 type then set_env (codes "TSP_TUNNEL_PREFIXLEN") (codes "128") s else s

-- The four addresses, each kept for the GUI too.
unfoldable pub set_addresses :
    Option (List ℕ) → (client_v4 client_v6 server_v4 server_v6 : List ℕ) → State → State
set_addresses dns client_v4 client_v6 server_v4 server_v6 s =
    let s₁ =
      set_env (codes "TSP_CLIENT_ADDRESS_IPV6") client_v6
        (set_env (codes "TSP_CLIENT_ADDRESS_IPV4") client_v4 s) in
    let s₂ = set_dns_name dns s₁ in
    let s₃ =
      set_env (codes "TSP_SERVER_ADDRESS_IPV6") server_v6
        (set_env (codes "TSP_SERVER_ADDRESS_IPV4") server_v4 s₂) in
    record s₃ {
      shown = record s₃.shown {
        ipv4_local = some client_v4;
        ipv6_local = some client_v6;
        ipv4_remote = some server_v4;
        ipv6_remote = some server_v6;
      };
    }

unfoldable pub set_first : Settings → (type : List ℕ) → State → State
set_first c type s = set_env (codes "TSP_HOME_INTERFACE") c.if_prefix (
    set_interface c type (
      set_env (codes "TSP_HOST_TYPE") c.host_type (
        set_env (codes "TSP_TUNNEL_MODE") type (
          set_env (codes "TSP_HOME_DIR") c.home_dir
            (set_env (codes "TSP_VERBOSE") (codes "3") s)))))

unfoldable pub set_tsp_env_variables : Settings → Info → State → Set
set_tsp_env_variables c t s = with_text t.type (λ type.
    with_text t.client_address_ipv4 (λ client_v4. with_text t.client_address_ipv6 (λ client_v6.
      with_text t.server_address_ipv4 (λ server_v4. with_text t.server_address_ipv6 (λ server_v6.
        let s₁ = set_prefixlen type (
          set_addresses t.client_dns_name client_v4 client_v6 server_v4 server_v6
            (set_first c type s)) in
        set_delegated t type t.prefix
          (record s₁ { shown = record s₁.shown { delegated_prefix = none } }))))))
