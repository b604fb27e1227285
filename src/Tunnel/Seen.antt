-- ===== src/Tunnel/Seen.antt =====
-- What the template script of tspc-advanced/src/tsp/tsp_setup.c sees of the server's answer.
use mathlib.Core.Path.{subst}
use gw6c.Base.{
  codes, ℕ, ◌+◌, ◌≡◌, ◌⊎◌, inl, inr, refl, sym, Bool, true, false, ◌&&◌, ◌||◌, ◌==◌, ◌=s◌, ==_iff,
  List, [], ◌∷◌, Option, none, some, All, length, take, if◌then◌else◌, if_both, arith, ltb,
}
use gw6c.Session.{atoi}
use gw6c.Xml.Tunnel.{Info}
use gw6c.Tunnel.{
  Settings, State, Set, set, trapped, is_in, is_all, ipv4_addr, ipv6_addr, ip_addr_any, numeric,
  one_if_not, prefix_errors, validate_tunnel_info, set_env, with_text, is_v6, set_dns_name, extent,
  set_prefix, delegate, set_delegated, set_prefixlen, set_addresses, set_first,
  set_tsp_env_variables,
}

-- `getenv`
abbrev pub get_env : List (List ℕ × List ℕ) → List ℕ → Option (List ℕ)
get_env [] name = none
get_env ((n, v) ∷ env) name = if n =s name then some v else get_env env name

abbrev pub OneOf : List ℕ → ℕ → Type 0
OneOf [] c = ⊥
OneOf (x ∷ xs) c = (x ≡ c) ⊎ OneOf xs c

-- A text that is there and has only these characters.
abbrev pub Clean : List ℕ → Option (List ℕ) → Type 0
Clean allowed none = ⊥
Clean allowed (some text) = All (OneOf allowed) text

either : (a b : Bool) → (a || b) ≡ true → (a ≡ true) ⊎ (b ≡ true)
either true b h = inl refl
either false b h = inr h

both : (a b : Bool) → (a && b) ≡ true → (a ≡ true) × (b ≡ true)
both true b h = (refl, h)
both false b h = cc

is_in-OneOf : (c : ℕ) (allowed : List ℕ) → is_in c allowed ≡ true → OneOf allowed c
unfolding is_in
is_in-OneOf c [] h = cc
is_in-OneOf c (x ∷ xs) h = elim (either (x == c) (is_in c xs) h) [
  | inl e ↦ inl ((==_iff x c).0 e)
  | inr e ↦ inr (is_in-OneOf c xs e)
]

is_all-Clean :
    (allowed : List ℕ) (text : Option (List ℕ)) → is_all allowed text ≡ true → Clean allowed text
unfolding is_all
is_all-Clean allowed none h = cc
is_all-Clean allowed (some []) h = tt
is_all-Clean allowed (some (c ∷ cs)) h =
    let (first, rest) = both (is_in c allowed) (is_all allowed (some cs)) h in
    (is_in-OneOf c allowed first, is_all-Clean allowed (some cs) rest)

pub record IsSound (t : Info) : Type 0 where
  pub client_v4 : Clean ipv4_addr t.client_address_ipv4
  pub client_v6 : Clean ipv6_addr t.client_address_ipv6
  pub server_v4 : Clean ipv4_addr t.server_address_ipv4
  pub server_v6 : Clean ipv6_addr t.server_address_ipv6
  pub prefixes :
      (p : List ℕ) → t.prefix ≡ some p → All (OneOf ip_addr_any) p × Clean numeric t.prefix_length

passed : (b : Bool) → one_if_not b ≡ 0 → b ≡ true
passed true h = refl
passed false h = absurd (omega arith)

prefix_errors-Sound :
    (t : Info) (x : Option (List ℕ))
    → prefix_errors t x ≡ 0
    → (p : List ℕ) → x ≡ some p
    → All (OneOf ip_addr_any) p × Clean numeric t.prefix_length
unfolding prefix_errors
prefix_errors-Sound t none h p e = cc
prefix_errors-Sound t (some q) h p e =
    let a = passed (is_all ip_addr_any (some q)) (omega (arith, h)) in
    let b = passed (is_all numeric t.prefix_length) (omega (arith, h)) in
    (
      subst (Clean ip_addr_any) e (is_all-Clean ip_addr_any (some q) a),
      is_all-Clean numeric t.prefix_length b,
    )

pub validate_tunnel_info-Sound : (t : Info) → validate_tunnel_info t ≡ 0 → IsSound t
unfolding validate_tunnel_info
validate_tunnel_info-Sound t h = record {
  client_v4 = is_all-Clean _ _ (passed (is_all ipv4_addr t.client_address_ipv4) (omega (arith, h)));
  client_v6 = is_all-Clean _ _ (passed (is_all ipv6_addr t.client_address_ipv6) (omega (arith, h)));
  server_v4 = is_all-Clean _ _ (passed (is_all ipv4_addr t.server_address_ipv4) (omega (arith, h)));
  server_v6 = is_all-Clean _ _ (passed (is_all ipv6_addr t.server_address_ipv6) (omega (arith, h)));
  prefixes = prefix_errors-Sound t t.prefix (omega (arith, h));
}

abbrev pub Env : Type 0
Env = List (List ℕ × List ℕ)

-- The addresses in an environment.
pub record Addresses (env : Env) (client_v4 client_v6 server_v4 server_v6 : Option (List ℕ))
    : Type 0 where
  pub of_client_v4 : get_env env (codes "TSP_CLIENT_ADDRESS_IPV4") ≡ client_v4
  pub of_client_v6 : get_env env (codes "TSP_CLIENT_ADDRESS_IPV6") ≡ client_v6
  pub of_server_v4 : get_env env (codes "TSP_SERVER_ADDRESS_IPV4") ≡ server_v4
  pub of_server_v6 : get_env env (codes "TSP_SERVER_ADDRESS_IPV6") ≡ server_v6

set_addresses-Addresses :
    (dns : Option (List ℕ)) (a b c d : List ℕ) (s : State)
    → Addresses (set_addresses dns a b c d s).env (some a) (some b) (some c) (some d)
unfolding set_addresses set_env set_dns_name
set_addresses-Addresses none a b c d s = record {
  of_client_v4 = refl;
  of_client_v6 = refl;
  of_server_v4 = refl;
  of_server_v6 = refl;
}
set_addresses-Addresses (some dns) a b c d s = record {
  of_client_v4 = refl;
  of_client_v6 = refl;
  of_server_v4 = refl;
  of_server_v6 = refl;
}

set_prefixlen-Addresses :
    (type : List ℕ) (s : State) {a b c d : Option (List ℕ)}
    → Addresses s.env a b c d
    → Addresses (set_prefixlen type s).env a b c d
unfolding set_prefixlen set_env
set_prefixlen-Addresses type s {a} {b} {c} {d} h =
    if_both (λ (s' : State). Addresses s'.env a b c d) (is_v6 type)
      (record {
        of_client_v4 = h.of_client_v4;
        of_client_v6 = h.of_client_v6;
        of_server_v4 = h.of_server_v4;
        of_server_v6 = h.of_server_v6;
      })
      h

-- The prefix in an environment: what is cut from it, and its length.
abbrev pub Delegated : Info → Option (List ℕ) → Env → Type 0
Delegated t none env = Unit
Delegated t (some prefix) env =
    (n : ℕ) × (get_env env (codes "TSP_PREFIX") ≡ some (take n prefix))
    × (get_env env (codes "TSP_PREFIXLEN") ≡ t.prefix_length)

abbrev pub Sets : (Env → Type 0) → Set → Type 0
Sets P (set s) = P s.env
Sets P (trapped f) = Unit

with_text-Sets :
    (P : Env → Type 0) (x : Option (List ℕ)) (go : List ℕ → Set)
    → ((v : List ℕ) → x ≡ some v → Sets P (go v))
    → Sets P (with_text x go)
unfolding with_text
with_text-Sets P none go h = tt
with_text-Sets P (some v) go h = h v refl

-- What the script sees of an answer.
abbrev pub Sees : Info → Env → Type 0
Sees t env =
    Addresses env t.client_address_ipv4 t.client_address_ipv6 t.server_address_ipv4
      t.server_address_ipv6
    × Delegated t t.prefix env

delegate-Sees :
    (t : Info) (type prefix length_text : List ℕ) (s : State) {a b c d : Option (List ℕ)}
    → t.prefix_length ≡ some length_text
    → Addresses s.env a b c d
    → Sets
        (λ env. Addresses env a b c d × Delegated t (some prefix) env)
        (delegate type prefix length_text s)
unfolding delegate set_prefix set_env
delegate-Sees t type prefix length_text s {a} {b} {c} {d} e h =
    let size = if is_v6 type then extent (atoi length_text) else length prefix in
    let P = λ (env : Env). Addresses env a b c d × Delegated t (some prefix) env in
    if_both (Sets P) (ltb 128 size) tt (
      if_both (Sets P) (ltb (length prefix + 1) size || (size == 128 && ltb 127 (length prefix))) tt
        (if_both (Sets P) (ltb 8 (length length_text)) tt (
          record {
            of_client_v4 = h.of_client_v4;
            of_client_v6 = h.of_client_v6;
            of_server_v4 = h.of_server_v4;
            of_server_v6 = h.of_server_v6;
          },
          (size, refl, sym e),
        )))

set_delegated-Sees :
    (t : Info) (type : List ℕ) (x : Option (List ℕ)) (s : State) {a b c d : Option (List ℕ)}
    → Addresses s.env a b c d
    → Sets (λ env. Addresses env a b c d × Delegated t x env) (set_delegated t type x s)
unfolding set_delegated
set_delegated-Sees t type none s h = (h, tt)
set_delegated-Sees t type (some prefix) s h =
    with_text-Sets _ t.prefix_length _ (λ n e. delegate-Sees t type prefix n s e h)

pub set_tsp_env_variables-Sees :
    (c : Settings) (t : Info) (s : State) → Sets (Sees t) (set_tsp_env_variables c t s)
unfolding set_tsp_env_variables
set_tsp_env_variables-Sees c t s = with_text-Sets (Sees t) t.type _ (λ type e.
    with_text-Sets (Sees t) t.client_address_ipv4 _ (λ a ea.
      with_text-Sets (Sees t) t.client_address_ipv6 _ (λ b eb.
        with_text-Sets (Sees t) t.server_address_ipv4 _ (λ c' ec.
          with_text-Sets (Sees t) t.server_address_ipv6 _ (λ d ed.
            set_delegated-Sees t type t.prefix _ (
              set_prefixlen-Addresses type _ (
                rw (ea, eb, ec, ed)
                  (set_addresses-Addresses t.client_dns_name a b c' d (set_first c type s)))))))))
