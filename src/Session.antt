-- ===== src/Session.antt =====
-- What the parts of a session with a broker share: the codes of
-- tspc-advanced/include/errors.h, the replies of a broker and the handling of a redirection in
-- tspc-advanced/src/tsp/tsp_client.c, and the broker list in memory.
pub mod Tests
pub mod Errors
pub mod Words
pub mod Capability
pub mod Auth
pub mod Digest
pub mod Passdss
pub mod Setup
pub mod Kept
pub mod Calls
pub mod Chosen
pub mod Mutual
pub mod MutualTests
pub mod Announced
pub mod Payload
use gw6c.Base.{
  ℕ, zero, suc, ◌+◌, ◌*◌, ◌-◌, List, [], ◌∷◌, Option, none, some, Bool, true, false, ◌==◌, ◌&&◌,
  ◌||◌, leb, if◌then◌else◌,
}
use gw6c.Session.Errors
use gw6c.Broker.{Broker, TunnelInfo, is_ok, is_redirect_status}
use gw6c.Broker.Redirect.{Surroundings, handle_redirect}

-- An `int`.
pub data ℤ : Type 0 where
  pos : ℕ → ℤ
  negsuc : ℕ → ℤ

unfoldable pub is_code : ℤ → ℕ → Bool
is_code (pos n) k = n == k
is_code (negsuc n) k = false

abbrev pub negate : ℕ → ℤ
negate zero = pos zero
negate (suc n) = negsuc n

-- `isspace` in the C locale.
abbrev pub is_space : ℕ → Bool
is_space c = (c == b' ') || (leb 9 c && leb c 13)

unfoldable pub digits_from : ℕ → List ℕ → ℕ
digits_from n [] = n
digits_from n (c ∷ cs) =
    if leb b'0' c && leb c b'9' then digits_from (n * 10 + (c - b'0')) cs else n

-- `atoi`: blanks, a sign, digits. The digits of a reply do not leave the range of `int`.
unfoldable pub atoi : List ℕ → ℤ
atoi [] = pos 0
atoi (c ∷ cs) =
    let rest = atoi cs in
    if is_space c
    then rest
    else if c == b'-'
    then negate (digits_from 0 cs)
    else if c == b'+'
    then pos (digits_from 0 cs)
    else pos (digits_from 0 (c ∷ cs))

-- `tspGetStatusCode`: `none` is a null pointer.
unfoldable pub get_status_code : Option (List ℕ) → ℤ
get_status_code none = pos 0
get_status_code (some payload) = atoi payload

-- `tspIsRedirectStatus`
unfoldable pub redirects : ℤ → Bool
redirects (pos n) = is_redirect_status n
redirects (negsuc n) = false

-- The broker list in memory: the number of the allocation, so that a pointer into a list that
-- was freed can be told from one into the list that took its place, and the list, [] if NULL.
pub record Store : Type 0 where
  pub generation : ℕ
  pub brokers : List Broker

-- `tspFreeBrokerList` and `broker_list = NULL`.
unfoldable pub free_broker_list : Store → Store
free_broker_list s = record { generation = s.generation + 1; brokers = [] }

-- A reply of a broker: its bytes, what `tspExtractPayload` makes of them, and what the handling
-- of a redirection meets.
pub record Reply : Type 0 where
  pub bytes : List ℕ
  pub info : Option TunnelInfo
  pub around : Surroundings

-- The calls of `tspHandleRedirect` in a session: `BROKER_REDIRECTION` or
-- `BROKER_REDIRECTION_ERROR`. The old list is freed once the message is understood.
unfoldable pub follow : (expand : List ℕ → List ℕ) → Reply → Store → ℕ × Store
follow expand reply store =
    let (status, list, file) = handle_redirect expand reply.around reply.info store.brokers in
    let store' : Store = elim reply.info [
      | none ↦ store
      | some i ↦ record { generation = store.generation + 1; brokers = list }
    ] in
    (if is_ok status then Errors.broker_redirection else Errors.broker_redirection_error, store')
