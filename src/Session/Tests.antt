-- ===== src/Session/Tests.antt =====
-- A session with a broker of tspc-advanced/src/tsp/tsp_client.c that grants a tunnel, and the
-- theorems at it.
use gw6c.Base.{
  ◌++◌, inl, arith, ℕ, ◌≡◌, ◌≢◌, refl, List, [], ◌∷◌, none, some, Bool, true, false, bit_and,
  length,
}
use gw6c.Broker.{is_redirect_status}
use gw6c.Broker.Redirect.{Surroundings}
use gw6c.Session.Words
use gw6c.Session.{Reply, Store, get_status_code, atoi, digits_from, is_code, redirects}
use gw6c.Session.Capability.{
  get_capabilities, extract_capability, extract_from, complete, set_capability,
}
use gw6c.Session.Auth.{success, ended, authenticate, has, mechanism, auth_plain_exchange, judge}
use gw6c.Session.Setup.{
  rudp, answered, Peer, setup_tunnel, after_authentication, request_tunnel, take_answer, run_tunnel,
}
use gw6c.Session.Kept.{Kept, setup_tunnel-Kept}
use gw6c.Session.Payload.{Payload, IsValid, added, add_payload_string, add_payload_string-IsValid}
use gw6c.Session.Calls.{ClosesOnce, setup_tunnel-closes, IsGranted, start_local-IsGranted}
use gw6c.Session.Announced.{Setting, announce, bits_of, extract_capability-announce}

abbrev pub plain : List ℕ → List ℕ
plain address = address

abbrev pub always : ℕ → Bool
always k = true

abbrev pub around : Surroundings
around = record {
  can_create = always;
  can_copy = always;
  threads = record {
    array_ok = true;
    args_ok = true;
    attr_ok = true;
    created = always;
    joined = always;
    measure = λ b. length b.address;
  };
  file_named = true;
  file_opens = true;
  can_write = always;
}

abbrev pub reply : List ℕ → Reply
reply bytes = record { bytes = bytes; info = none; around = around }

-- TUNNEL=V6V4
abbrev pub tunnel : Setting
tunnel = record {
  name_head = b'T';
  name_tail = b'U' ∷ b'N' ∷ b'N' ∷ b'E' ∷ b'L' ∷ [];
  value_head = b'V';
  value_tail = b'6' ∷ b'V' ∷ b'4' ∷ [];
}

-- AUTH=PLAIN
abbrev auth : Setting
auth = record {
  name_head = b'A';
  name_tail = b'U' ∷ b'T' ∷ b'H' ∷ [];
  value_head = b'P';
  value_tail = b'L' ∷ b'A' ∷ b'I' ∷ b'N' ∷ [];
}

abbrev pub granted : Reply
granted = reply (b'2' ∷ b'0' ∷ b'0' ∷ b' ' ∷ [])

abbrev pub peer : Peer
peer = record {
  connects = true;
  greeting = some (reply (announce tunnel (auth ∷ [])));
  exchanges = record {
    passdss = ended false;
    digest_md5 = ended false;
    plain_sent = true;
    plain = some granted;
    anonymous = none;
  };
  source_known = true;
  answer = answered granted;
  ack_sent = true;
  local_status = 0;
}

abbrev empty : Store
empty = record { generation = 0; brokers = [] }

extract_capability-announce_example :
    extract_capability (announce tunnel (auth ∷ [])) ≡ bits_of 0 tunnel (auth ∷ [])
extract_capability-announce_example =
    extract_capability-announce tunnel (auth ∷ [])
      (
        (
          (refl, refl),
          ((refl, refl), ((refl, refl), ((refl, refl), ((refl, refl), ((refl, refl), tt))))),
        ),
        ((refl, refl), ((refl, refl), ((refl, refl), tt))),
      )
      (
        (
          ((refl, refl), ((refl, refl), ((refl, refl), ((refl, refl), tt)))),
          ((refl, refl), ((refl, refl), ((refl, refl), ((refl, refl), tt)))),
        ),
        tt,
      )

setup_tunnel-Kept_example : Kept empty (setup_tunnel plain peer 1 Words.any rudp 0 empty)
setup_tunnel-Kept_example = setup_tunnel-Kept plain peer 1 Words.any rudp 0 empty

setup_tunnel-closes_example :
    ClosesOnce peer.answer (setup_tunnel plain peer 1 Words.any rudp 0 empty).calls
setup_tunnel-closes_example = setup_tunnel-closes plain peer 1 Words.any rudp 0 empty

start_local-IsGranted_example :
    (bit_and 1 (get_capabilities plain peer.greeting empty).1 ≢ 0)
    × ((authenticate plain peer.exchanges Words.any
          (get_capabilities plain peer.greeting empty).1
          (get_capabilities plain peer.greeting empty).2).0
        ≡ success)
    × IsGranted peer 0 peer.answer
unfolding setup_tunnel get_capabilities extract_capability extract_from complete set_capability
    get_status_code atoi digits_from is_code redirects authenticate has mechanism
    auth_plain_exchange judge after_authentication request_tunnel take_answer run_tunnel
    is_redirect_status
start_local-IsGranted_example = start_local-IsGranted plain peer 1 Words.any rudp 0 empty refl

abbrev unused : Payload
unused = record { size = 0; capacity = 0; text = [] }

unused-IsValid : IsValid unused
unused-IsValid = record { counted = refl; fits = inl refl; empty = λ e. refl }

add_payload_string-IsValid_example :
    (p' : Payload) × (add_payload_string true true unused (some Words.any) ≡ added p')
    × (p'.text ≡ [] ++ Words.any)
    × IsValid p'
add_payload_string-IsValid_example =
    add_payload_string-IsValid unused Words.any unused-IsValid (omega arith)
