-- ===== src/Session/Passdss/Met.antt =====
-- `AuthPASSDSS_3DES_1` of tspc-advanced/src/tsp/tsp_auth_passdss.c as an exchange that
-- `tspAuthenticate` runs.
use gw6c.Base.{
  ℕ, ◌≡◌, refl, Bool, true, false, List, [], ◌∷◌, ◌++◌, Option, none, some, Always, any_Always,
  if_both, ◌==◌, take, ◌=s◌,
}
use gw6c.Base64.{decode}
use gw6c.Buffer.{Memory, Buffer, init, append, clear}
use gw6c.Session.{Reply, Store, get_status_code, redirects}
use gw6c.Session.Auth.{Outcome, Exchange, run_exchange, judge, success_code}
use gw6c.Session.Auth
use gw6c.Session.Passdss.{
  Crypto, Hello, bytes, first_message, read_hello, signed_hash, second_message,
}
use gw6c.Session.Passdss.Keys.{Place, add_dsakey_to_keyfile}
use gw6c.Session.Passdss.Login.{
  Account, Verdict, ended, trapped, gives_up, finish, with_secret, with_computed, with_key,
  with_hello, after_first, auth_passdss_3des_1,
}

judge-met :
    (expand : List ℕ → List ℕ) (reply : Reply) (store : Store)
    → (x : Exchange) × (run_exchange expand x store ≡ judge expand reply store)
unfolding run_exchange judge
judge-met expand reply store =
    let P : Outcome × Store → Type 0 = λ r. (x : Exchange) × (run_exchange expand x store ≡ r) in
    if_both P (redirects (get_status_code (some reply.bytes))) (Auth.redirected reply, refl)
      (if_both P (success_code =s take 3 reply.bytes) (Auth.ended true, refl)
        (Auth.ended false, refl))

module _ (raw : Memory) (c : Crypto) (place : Place) (a : Account) (expand : List ℕ → List ℕ)
    (store : Store) where
  open c use {bn}

  -- A verdict is that of an exchange that ends, well or not, or follows a redirection.
  abbrev pub Met : Verdict → Type 0
  Met (ended e) = (x : Exchange) × (run_exchange expand x store ≡ (e.outcome, e.store))
  Met trapped = Unit

  gives_up-Met :
      (file : Option (List ℕ)) (sent : List (List ℕ))
      → Met (gives_up raw c place a expand store file sent)
  unfolding gives_up run_exchange
  gives_up-Met file sent = (Auth.ended false, refl)

  finish-Met :
      (file : Option (List ℕ)) (sent : List (List ℕ)) (second : Option Reply)
      → Met (finish raw c place a expand store file sent second)
  unfolding finish
  finish-Met file sent none = gives_up-Met file sent
  finish-Met file sent (some reply) = judge-met expand reply store

  module _ (hello : Hello bn.Num) (space : Buffer) (sent : List (List ℕ))
      (second : Option Reply) where
    with_secret-Met :
        (dh_k : bn.Num) (file : Option (List ℕ))
        → Always Met (with_secret raw c place a expand store hello space dh_k file sent second)
    unfolding with_secret
    with_secret-Met dh_k file =
        any_Always Met (signed_hash raw c hello.transcript space dh_k) _ (λ r e.
          if_both (Always Met) (c.do_verify r.0 hello.sig_r hello.sig_s hello.dsa == 1)
            (any_Always Met
              (second_message raw c hello.transcript r.1 dh_k r.0 hello.ssecmask a.passwd) _
              (λ message e. finish-Met file (sent ++ (message ∷ [])) second))
            (gives_up-Met file sent))

    with_computed-Met :
        (file : Option (List ℕ)) (s : Option (List ℕ))
        → Always Met (with_computed raw c place a expand store hello space file sent second s)
    unfolding with_computed
    with_computed-Met file none = gives_up-Met file sent
    with_computed-Met file (some s) = with_secret-Met (bn.bin2bn s) file

    with_key-Met :
        (added : Option (Bool × Option (List ℕ)))
        → Always Met (with_key raw c place a expand store hello space sent second added)
    unfolding with_key
    with_key-Met none = tt
    with_key-Met (some (false, file)) = gives_up-Met file sent
    with_key-Met (some (true, file)) = with_computed-Met file (c.compute_key hello.server_pubkey)

  with_hello-Met :
      (space : Buffer) (file : Option (List ℕ)) (sent : List (List ℕ)) (second : Option Reply)
      (x : Option (Hello bn.Num))
      → Always Met (with_hello raw c place a expand store space file sent second x)
  unfolding with_hello
  with_hello-Met space file sent second none = gives_up-Met file sent
  with_hello-Met space file sent second (some hello) =
      any_Always Met (add_dsakey_to_keyfile raw c place hello.dsa a.server file) _
        (λ added e. with_key-Met hello space sent second added)

  after_first-Met :
      (transcript space : Buffer) (file : Option (List ℕ)) (sent : List (List ℕ))
      (first : Option (List ℕ)) (second : Option Reply)
      → Always Met (after_first raw c place a expand store transcript space file sent first second)
  unfolding after_first
  after_first-Met transcript space file sent none second = gives_up-Met file sent
  after_first-Met transcript space file sent (some reply) second =
      any_Always Met (append raw (clear space) (take (decode reply).1 (decode reply).0)) _ (λ b₁ e.
        any_Always Met (read_hello raw c transcript b₁) _
          (λ hello e. with_hello-Met b₁ file sent second hello))

  -- What the exchange comes to, if it comes to an end, is what `tspAuthenticate` reckons with.
  pub auth_passdss_3des_1-Met :
      (file : Option (List ℕ)) (sent : Bool) (first : Option (List ℕ)) (second : Option Reply)
      → Always Met (auth_passdss_3des_1 raw c place a expand store file sent first second)
  unfolding auth_passdss_3des_1
  auth_passdss_3des_1-Met file false first second = gives_up-Met file []
  auth_passdss_3des_1-Met file true first second =
      any_Always Met (first_message raw c a.userid) _ (λ space e.
        any_Always Met (append raw (init raw) (bytes space)) _
          (λ transcript e. after_first-Met transcript space file _ first second))
