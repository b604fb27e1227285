-- ===== src/Session/Digest/Exchange.antt =====
-- `AuthDIGEST_MD5` of tspc-advanced/src/tsp/tsp_auth.c as an exchange that `tspAuthenticate` runs.
use gw6c.Base.{
  codes, ℕ, ◌≡◌, refl, List, Option, none, some, true, false, ◌=s◌, if_both, take, drop, length,
  ◌++◌,
}
use gw6c.Session.{Reply, Store, get_status_code, redirects}
use gw6c.Session.Auth.{Outcome, Exchange, run_exchange, success_code}
use gw6c.Session.Auth
use gw6c.Session.Digest.{Challenge, Account, read_challenge}
use gw6c.Session.Digest.Login.{
  Prepared, prepared, refused, Verdict, ended, trapped, redirected, finish, check, verify,
  with_reply, after_response, after_challenge, digest_md5, respond,
}

module _ (hash : List ℕ → List ℕ) (version : List ℕ) (a : Account) (cnonce : ℕ)
    (expand : List ℕ → List ℕ) (store : Store) where
  -- A verdict is that of an exchange that ends, well or not, or follows a redirection.
  abbrev pub IsExchange : Verdict → Type 0
  IsExchange (ended outcome store') =
      (x : Exchange) × (run_exchange expand x store ≡ (outcome, store'))
  IsExchange (trapped f) = Unit

  fails : IsExchange (ended Auth.failed store)
  unfolding run_exchange
  fails = (Auth.ended false, refl)

  follows : (reply : Reply) → IsExchange (redirected hash version a cnonce expand reply store)
  unfolding run_exchange
  follows reply = (Auth.redirected reply, refl)

  finish-IsExchange :
      (reply : Reply) (last : Option (List ℕ)) (buffer : List ℕ)
      → IsExchange (finish hash version a cnonce expand reply last buffer store)
  unfolding finish run_exchange
  finish-IsExchange reply none buffer = fails
  finish-IsExchange reply (some bytes) buffer =
      if_both IsExchange (redirects (get_status_code (some reply.bytes))) (follows reply) (
        if_both IsExchange (success_code =s take 3 (bytes ++ drop (length bytes) buffer))
          (Auth.ended true, refl) fails)

  check-IsExchange :
      (reply : Reply) (last : Option (List ℕ)) (buffer expected : List ℕ) (x : Option (List ℕ))
      → IsExchange (check hash version a cnonce expand reply last buffer expected store x)
  unfolding check
  check-IsExchange reply last buffer expected none = tt
  check-IsExchange reply last buffer expected (some answer) =
      if_both IsExchange (take 32 answer =s take 32 expected) (finish-IsExchange reply last buffer)
        fails

  verify-IsExchange :
      (reply : Reply) (last : Option (List ℕ)) (buffer expected : List ℕ) (x : Option Challenge)
      → IsExchange (verify hash version a cnonce expand reply last buffer expected store x)
  unfolding verify
  verify-IsExchange reply last buffer expected none = tt
  verify-IsExchange reply last buffer expected (some c) =
      check-IsExchange reply last buffer expected c.rspauth

  with_reply-IsExchange :
      (x : Option Reply) (go : Reply → Verdict)
      → ((r : Reply) → IsExchange (go r))
      → IsExchange (with_reply hash version a cnonce expand x store go)
  unfolding with_reply
  with_reply-IsExchange none go is = fails
  with_reply-IsExchange (some r) go is =
      if_both IsExchange (redirects (get_status_code (some r.bytes))) (follows r)
        (if_both IsExchange (take 3 r.bytes =s codes "300") fails (is r))

  after_response-IsExchange :
      (second : Option Reply) (last : Option (List ℕ)) (x : Prepared)
      → IsExchange (after_response hash version a cnonce expand second last store x)
  unfolding after_response
  after_response-IsExchange second last (refused f) = tt
  after_response-IsExchange second last (prepared buffer expected) =
      with_reply-IsExchange second _
        (λ r. verify-IsExchange r last buffer expected (read_challenge r.bytes))

  after_challenge-IsExchange :
      (second : Option Reply) (last : Option (List ℕ)) (x : Option Challenge)
      → IsExchange (after_challenge hash version a cnonce expand second last store x)
  unfolding after_challenge
  after_challenge-IsExchange second last none = tt
  after_challenge-IsExchange second last (some c) =
      after_response-IsExchange second last (respond hash version a cnonce c)

  -- What the exchange of DIGEST-MD5 comes to, if it comes to an end, is what `tspAuthenticate`
  -- reckons with: success or failure with the broker list unchanged, or a redirection that a reply
  -- asked for and that was followed.
  pub digest_md5-IsExchange :
      (first second : Option Reply) (last : Option (List ℕ))
      → IsExchange (digest_md5 hash version a cnonce expand first second last store)
  unfolding digest_md5
  digest_md5-IsExchange first second last =
      with_reply-IsExchange first _
        (λ r. after_challenge-IsExchange second last (read_challenge r.bytes))
