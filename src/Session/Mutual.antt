-- ===== src/Session/Mutual.antt =====
-- `tspSetupTunnel` of tspc-advanced/src/tsp/tsp_client.c with the exchanges of tsp_auth.c and
-- tsp_auth_passdss.c that `tspAuthenticate` runs.
use mathlib.Core.Path.{subst}
use gw6c.Base.{
  ℕ, ◌≡◌, ◌≤◌, ◌∙◌, sym, ap, List, Option, some, Bool, true, false, done, Always, length, ◌=s◌,
  take,
}
use gw6c.Buffer.{Memory}
use gw6c.Buffer.Aux.Numbers.{IsShort}
use gw6c.Session.Words
use gw6c.Session.{Reply, Store}
use gw6c.Session.Capability.{
  get_capabilities, same_word, auth_plain, auth_digest_md5, auth_passdss_3des_1,
}
use gw6c.Session.Auth.{Outcome, success, Exchange, run_exchange, mechanism, has, success_code}
use gw6c.Session.Setup.{Transport, Peer, setup_tunnel}
use gw6c.Session.Calls
use gw6c.Session.Calls.{is_start_local, IsGranted, start_local-IsGranted}
use gw6c.Session.Digest.{Account}
use gw6c.Session.Digest.Login.{digest_md5, ended}
use gw6c.Session.Digest.Rfc.{is_later, InTime}
use gw6c.Session.Digest.Accepts.{Proven, digest_md5-iff_Proven}
use gw6c.Session.Digest.Exchange.{IsExchange, digest_md5-IsExchange}
use gw6c.Session.Passdss.{Crypto}
use gw6c.Session.Passdss.Met.{Met, auth_passdss_3des_1-Met}
use gw6c.Session.Passdss.Keys.{Place}
use gw6c.Session.Passdss.Login.{Ended}
use gw6c.Session.Passdss.Login as Login
use gw6c.Session.Passdss.Authentic.{caller, IsAuthentic, Authentic, auth_passdss_3des_1-Authentic}
use gw6c.Session.Chosen.{
  Succeeds, by_passdss, by_digest, by_plain, authenticate-Succeeds, plain-success,
}

module _ (hash : List ℕ → List ℕ) (sixteen : (s : List ℕ) → length (hash s) ≡ 16) (version : List ℕ)
    (later : is_later version ≡ true) (a : Account) (cnonce : ℕ) (time : InTime cnonce)
    (raw : Memory) (c : Crypto) (place : Place) (file : Option (List ℕ))
    (expand : List ℕ → List ℕ) where
  -- A run of `AuthDIGEST_MD5` that comes to what the attempt meets.
  pub record DigestRun (x : Exchange) (store : Store) : Type 0 where
    pub first : Option Reply
    pub second : Option Reply
    pub last : Option (List ℕ)
    pub outcome : Outcome
    pub store' : Store
    pub runs :
        digest_md5 hash version a cnonce expand first second last store ≡ ended outcome store'
    pub met : run_exchange expand x store ≡ (outcome, store')

  -- A run of `AuthPASSDSS_3DES_1` that does.
  pub record PassdssRun (x : Exchange) (store : Store) : Type 0 where
    pub sent : Bool
    pub first : Option (List ℕ)
    pub second : Option Reply
    pub end : Ended
    pub runs :
        Login.auth_passdss_3des_1 raw c place
          (caller raw c place a.userid (some a.passwd) a.server expand store file first second)
          expand
          store
          file
          sent
          first
          second
        ≡ done (Login.ended end)
    pub met : run_exchange expand x store ≡ (end.outcome, end.store)

  -- Every run that comes to an end is one of those.
  pub some_DigestRun :
      (first second : Option Reply) (last : Option (List ℕ)) (o : Outcome) (store store' : Store)
      → digest_md5 hash version a cnonce expand first second last store ≡ ended o store'
      → (x : Exchange) × DigestRun x store
  some_DigestRun first second last o store store' e =
      let (x, met) =
        subst (IsExchange hash version a cnonce expand store) e
          (digest_md5-IsExchange hash version a cnonce expand store first second last) in
      (
        x,
        record {
          first = first;
          second = second;
          last = last;
          outcome = o;
          store' = store';
          runs = e;
          met = met;
        },
      )

  pub some_PassdssRun :
      (sent : Bool) (first : Option (List ℕ)) (second : Option Reply) (end : Ended) (store : Store)
      → Login.auth_passdss_3des_1 raw c place
          (caller raw c place a.userid (some a.passwd) a.server expand store file first second)
          expand
          store
          file
          sent
          first
          second
        ≡ done (Login.ended end)
      → (x : Exchange) × PassdssRun x store
  some_PassdssRun sent first second end store e =
      let user =
        caller raw c place a.userid (some a.passwd) a.server expand store file first second in
      let (x, met) =
        subst (λ r. Always (Met raw c place user expand store) r) e
          (auth_passdss_3des_1-Met raw c place user expand store file sent first second) in
      (x, record { sent = sent; first = first; second = second; end = end; runs = e; met = met })

  DigestRun-Proven :
      (x : Exchange) (store : Store) (d : DigestRun x store)
      → (run_exchange expand x store).0 ≡ success
      → Proven hash sixteen version later a cnonce time d.first d.second d.last
  DigestRun-Proven x store d h =
      let won : d.outcome ≡ success = sym (ap (λ r. r.0) d.met) ∙ h in
      ((digest_md5-iff_Proven hash sixteen version later a cnonce time expand d.first d.second
          d.last store d.store').0
        (d.runs ∙ ap (λ o. ended o d.store') won)).0

  PassdssRun-IsAuthentic :
      (x : Exchange) (store : Store) (p : PassdssRun x store)
      → length a.userid ≤ 1024
      → IsShort c.bn c.public
      → (run_exchange expand x store).0 ≡ success
      → IsAuthentic raw c place a.userid
          (some a.passwd)
          a.server
          expand
          store
          file
          p.first
          p.second
          p.end
  PassdssRun-IsAuthentic x store p name own h =
      let won : p.end.outcome ≡ success = sym (ap (λ r. r.0) p.met) ∙ h in
      subst
        (λ r.
          Always
            (Authentic raw c place a.userid (some a.passwd) a.server expand store file p.first
              p.second)
            r)
        p.runs
        (auth_passdss_3des_1-Authentic raw c place a.userid (some a.passwd) a.server expand store
          file p.first p.second p.sent name own)
        won

  module _ (peer : Peer) (store : Store) where
    -- What the broker offers, and the broker list behind its greeting.
    abbrev pub offered : ℕ
    offered = (get_capabilities expand peer.greeting store).1

    abbrev pub now : Store
    now = (get_capabilities expand peer.greeting store).2

    module _ (m : ℕ) (p : PassdssRun peer.exchanges.passdss now)
        (d : DigestRun peer.exchanges.digest_md5 now) where
      -- What the broker has shown by the strongest mechanism that both sides know.
      pub data Shown : Type 0 where
        signed :
            has m offered auth_passdss_3des_1 ≡ true
            → IsAuthentic raw c place a.userid
                (some a.passwd)
                a.server
                expand
                now
                file
                p.first
                p.second
                p.end
            → Shown
        proven :
            has m offered auth_passdss_3des_1 ≡ false
            → has m offered auth_digest_md5 ≡ true
            → Proven hash sixteen version later a cnonce time d.first d.second d.last
            → Shown
        told :
            has m offered auth_passdss_3des_1 ≡ false
            → has m offered auth_digest_md5 ≡ false
            → has m offered auth_plain ≡ true
            → (reply : Reply) → peer.exchanges.plain ≡ some reply
            → (success_code =s take 3 reply.bytes) ≡ true
            → Shown

      Succeeds-Shown :
          length a.userid ≤ 1024
          → IsShort c.bn c.public
          → Succeeds expand peer.exchanges m offered now
          → Shown
      Succeeds-Shown name own (by_passdss h k) =
          signed h (PassdssRun-IsAuthentic peer.exchanges.passdss now p name own k)
      Succeeds-Shown name own (by_digest h i k) =
          proven h i (DigestRun-Proven peer.exchanges.digest_md5 now d k)
      Succeeds-Shown name own (by_plain h i j k) =
          let (sent, (reply, e, says)) =
            plain-success expand peer.exchanges.plain_sent peer.exchanges.plain now k in
          told h i j reply e says

    -- A client that is not anonymous sets up a tunnel only if the broker has granted it, and has
    -- shown, by the strongest mechanism that both sides know, that it is the one: by a signature
    -- with a key of the key file; if PASSDSS-3DES-1 is not common, by the value that RFC 2831 asks
    -- for; and only if DIGEST-MD5 is not common either, by a reply to the password in the clear. For
    -- a user name and a public value of at most 1 KiB, a hash of 16 bytes, a version of the protocol
    -- after 2.0.0, a time of at most 15 digits, and runs of the two exchanges that come to an end.
    pub start_local-Shown :
        (mode : ℕ) (auth_method : List ℕ) (transport : Transport) (v : ℕ)
        (p : PassdssRun peer.exchanges.passdss now) (d : DigestRun peer.exchanges.digest_md5 now)
        → length a.userid ≤ 1024
        → IsShort c.bn c.public
        → same_word auth_method Words.anonymous ≡ false
        → Calls.has is_start_local
            (setup_tunnel expand peer mode auth_method transport v store).calls
          ≡ true
        → Shown (mechanism auth_method) p d × IsGranted peer v peer.answer
    start_local-Shown mode auth_method transport v p d name own named h =
        let (offers, won, granted) =
          start_local-IsGranted expand peer mode auth_method transport v store h in
        (
          Succeeds-Shown (mechanism auth_method) p d name own
              (authenticate-Succeeds expand peer.exchanges auth_method offered now named won),
          granted,
        )
