-- ===== src/Session/Chosen.antt =====
-- Which mechanism `tspAuthenticate` of tspc-advanced/src/tsp/tsp_auth.c takes, and its success.
use gw6c.Base.{
  ℕ, ◌≡◌, refl, List, Option, none, some, Bool, true, false, inl, inr, Bool-cases, ◌=s◌, take,
}
use gw6c.Session.Words
use gw6c.Session.{Reply, Store}
use gw6c.Session.Capability.{same_word, auth_plain, auth_digest_md5, auth_passdss_3des_1}
use gw6c.Session.Auth.{
  success, Exchanges, run_exchange, mechanism, has, auth_plain_exchange, authenticate, success_code,
}
use gw6c.Session.Passdss.Authentic.{judge-success}

-- The strongest of the mechanisms that both sides know, and what it comes to.
pub data Succeeds (expand : List ℕ → List ℕ) (x : Exchanges) (m cap : ℕ) (store : Store)
    : Type 0 where
  by_passdss :
      has m cap auth_passdss_3des_1 ≡ true
      → (run_exchange expand x.passdss store).0 ≡ success
      → Succeeds expand x m cap store
  by_digest :
      has m cap auth_passdss_3des_1 ≡ false
      → has m cap auth_digest_md5 ≡ true
      → (run_exchange expand x.digest_md5 store).0 ≡ success
      → Succeeds expand x m cap store
  by_plain :
      has m cap auth_passdss_3des_1 ≡ false
      → has m cap auth_digest_md5 ≡ false
      → has m cap auth_plain ≡ true
      → (auth_plain_exchange expand x.plain_sent x.plain store).0 ≡ success
      → Succeeds expand x m cap store

pub authenticate-Succeeds :
    (expand : List ℕ → List ℕ) (x : Exchanges) (auth_method : List ℕ) (cap : ℕ) (store : Store)
    → same_word auth_method Words.anonymous ≡ false
    → (authenticate expand x auth_method cap store).0 ≡ success
    → Succeeds expand x (mechanism auth_method) cap store
unfolding authenticate
authenticate-Succeeds expand x auth_method cap store named h =
    let m = mechanism auth_method in
    elim (Bool-cases (has m cap auth_passdss_3des_1)) [
      | inl p ↦ by_passdss p (rw (named, p) at h)
      | inr p ↦ elim (Bool-cases (has m cap auth_digest_md5)) [
        | inl d ↦ by_digest p d (rw (named, p, d) at h)
        | inr d ↦ elim (Bool-cases (has m cap auth_plain)) [
          | inl q ↦ by_plain p d q (rw (named, p, d, q) at h)
          | inr q ↦ cc (rw (named, p, d, q) at h)
        ]
      ]
    ]

pub plain-success :
    (expand : List ℕ → List ℕ) (sent : Bool) (x : Option Reply) (store : Store)
    → (auth_plain_exchange expand sent x store).0 ≡ success
    → (sent ≡ true)
      × ((reply : Reply) × (x ≡ some reply) × ((success_code =s take 3 reply.bytes) ≡ true))
unfolding auth_plain_exchange
plain-success expand sent none store h = cc
plain-success expand true (some reply) store h =
    (refl, (reply, refl, judge-success expand reply store h))
plain-success expand false (some reply) store h = cc
