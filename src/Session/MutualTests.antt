-- ===== src/Session/MutualTests.antt =====
-- A session of tspc-advanced/src/tsp/tsp_client.c with a broker that knows DIGEST-MD5, and the
-- theorem at it.
use gw6c.Base.{refl, [], ◌∷◌, codes, none, some, true, false, arith}
use gw6c.Broker.{is_redirect_status}
use gw6c.Session.Words
use gw6c.Session.{get_status_code, atoi, digits_from, is_code, redirects}
use gw6c.Session.Capability.{
  get_capabilities, extract_capability, extract_from, complete, set_capability,
}
use gw6c.Session.Announced.{Setting, announce}
use gw6c.Session.Auth.{ended, authenticate, has, mechanism, run_exchange, success}
use gw6c.Session.Setup.{
  rudp, Peer, setup_tunnel, after_authentication, request_tunnel, take_answer, run_tunnel,
}
use gw6c.Session.Calls.{IsGranted}
use gw6c.Session.Tests.{plain, reply, tunnel, peer}
use gw6c.Session.Digest.Tests.{
  sum_hash, sixteen, account, version, challenge, answer, store, later, in_range, accepted_test,
}
use gw6c.Session.Passdss.Login.{gives_up, auth_passdss_3des_1}
use gw6c.Session.Passdss.Tests.{toy, zeros, place}
use gw6c.Session.Mutual.{DigestRun, PassdssRun, Shown, start_local-Shown}

-- AUTH=DIGEST-MD5
abbrev auth : Setting
auth = record {
  name_head = b'A';
  name_tail = codes "UTH";
  value_head = b'D';
  value_tail = codes "IGEST-MD5";
}

abbrev broker : Peer
broker = record peer {
  greeting = some (reply (announce tunnel (auth ∷ [])));
  exchanges = record {
    passdss = ended false;
    digest_md5 = ended true;
    plain_sent = false;
    plain = none;
    anonymous = none;
  };
}

by_digest :
    DigestRun sum_hash sixteen version later account 1000 in_range zeros toy place none plain
      broker.exchanges.digest_md5
      (get_capabilities plain broker.greeting store).2
unfolding run_exchange get_capabilities extract_capability extract_from complete set_capability
    get_status_code atoi digits_from is_code redirects is_redirect_status
by_digest = record {
  first = some challenge;
  second = some answer;
  last = some (codes "200 Success");
  outcome = success;
  store' = store;
  runs = accepted_test;
  met = refl;
}

by_passdss :
    PassdssRun sum_hash sixteen version later account 1000 in_range zeros toy place none plain
      broker.exchanges.passdss
      (get_capabilities plain broker.greeting store).2
unfolding run_exchange auth_passdss_3des_1 gives_up get_capabilities extract_capability extract_from
    complete set_capability get_status_code atoi digits_from is_code redirects is_redirect_status
by_passdss = record { sent = false; first = none; second = none; end = _; runs = refl; met = refl }

start_local-Shown_example :
    Shown sum_hash sixteen version later account 1000 in_range zeros toy place none plain broker
      store
      (mechanism Words.any)
      by_passdss
      by_digest
    × IsGranted broker 0 broker.answer
unfolding setup_tunnel get_capabilities extract_capability extract_from complete set_capability
    get_status_code atoi digits_from is_code redirects authenticate has mechanism run_exchange
    after_authentication request_tunnel take_answer run_tunnel is_redirect_status
start_local-Shown_example =
    start_local-Shown sum_hash sixteen version later account 1000 in_range zeros toy place none
      plain broker store 1 Words.any rudp 0 by_passdss by_digest (omega arith) (omega arith) refl
      refl
