-- ===== src/Session/Passdss/Authentic.antt =====
-- What a success of `AuthPASSDSS_3DES_1` of tspc-advanced/src/tsp/tsp_auth_passdss.c rests on,
-- whatever the server has sent.
use mathlib.Core.List.{append-nil}
use gw6c.Base.{
  ℕ, ◌≤◌, ◌≡◌, refl, sym, ap, ◌∙◌, Bool, true, false, ◌==◌, ◌=s◌, ==_iff, List, [], ◌∷◌, ◌++◌,
  Option, none, some, length, take, done, Always, then_Always, any_Always, if_where, arith,
}
use gw6c.Base64.{decode}
use gw6c.Buffer.{Memory, Buffer, append, clear}
use gw6c.Buffer.Holds.{Holds, init-Sized, clear-Sized, append-Sized}
use gw6c.Buffer.Aux.Numbers.{mpint, IsShort}
use gw6c.Session.{Reply, Store, get_status_code, redirects}
use gw6c.Session.Auth.{Outcome, success, success_code, judge}
use gw6c.Session.Passdss.{Crypto, Hello, read_hello, signed_hash, second_message}
use gw6c.Session.Passdss.Keys.{Place, add_dsakey_to_keyfile}
use gw6c.Session.Passdss.Login.{
  Account, Ended, Verdict, ended, trapped, auth_passdss_3des_1, after_first, with_hello, with_key,
  with_computed, with_secret, finish, gives_up,
}
use gw6c.Session.Passdss.Layout.{client_values}
use gw6c.Session.Passdss.Follows.{bytes-eq, first_message-Writes, client_values-length}
use gw6c.Session.Passdss.Reads.{moved}
use gw6c.Session.Passdss.Extends.{Extends, read_hello-Extends, Kept}
use gw6c.Session.Passdss.Signed.{sized, append-Always, signed_hash-Always}

-- A last reply that is taken for a success says 200.
abbrev pub Says : Outcome × Store → Reply → Type 0
Says r reply = r.0 ≡ success → (success_code =s take 3 reply.bytes) ≡ true

pub judge-success :
    (expand : List ℕ → List ℕ) (reply : Reply) (store : Store)
    → Says (judge expand reply store) reply
unfolding judge
judge-success expand reply store =
    let S = λ (r : Outcome × Store). Says r reply in
    if_where S (redirects (get_status_code (some reply.bytes))) (λ e is. cc)
      (λ e. if_where S (success_code =s take 3 reply.bytes) (λ yes is. yes) (λ no is. cc))

module _ (raw : Memory) (c : Crypto) (place : Place) (userid : List ℕ) (passwd : Option (List ℕ))
    (server : List ℕ) (expand : List ℕ → List ℕ) (store : Store) (file : Option (List ℕ))
    (first : Option (List ℕ)) (second : Option Reply) where
  open c use {bn}

  abbrev pub caller : Account
  caller = record { userid = some userid; passwd = passwd; server = server }

  -- The message of the first reply, decoded and read behind the client's own values; `more` is what
  -- it has added to the transcript.
  pub record Greeting (hello : Hello bn.Num) (more : List ℕ) : Type 0 where
    pub one : List ℕ
    pub came_first : first ≡ some one
    pub before : Buffer
    pub space : Buffer
    pub own : Holds before (client_values c userid)
    pub decoded : Holds space (take (decode one).1 (decode one).0)
    pub read : read_hello raw c before space ≡ done (some hello)
    pub transcript : Holds hello.transcript (client_values c userid ++ more)

  -- A key of the first message that the key file has or has taken, a signature of that message by
  -- it of a hash of the transcript and of the secret that belongs to the public value of that
  -- message, and a last reply that says 200.
  pub record IsAuthentic (e : Ended) : Type 0 where
    pub hello : Hello bn.Num
    pub more : List ℕ
    pub greeting : Greeting hello more
    pub secret : List ℕ
    pub taken : add_dsakey_to_keyfile raw c place hello.dsa server file ≡ done (some (true, e.file))
    pub shared : c.compute_key hello.server_pubkey ≡ some secret
    pub signed :
        c.do_verify
          (c.sha1 ((client_values c userid ++ more) ++ mpint bn (bn.bin2bn secret)))
          hello.sig_r
          hello.sig_s
          hello.dsa
        ≡ 1
    pub reply : Reply
    pub received : second ≡ some reply
    pub says : (success_code =s take 3 reply.bytes) ≡ true

  abbrev pub Authentic : Verdict → Type 0
  Authentic (ended e) = e.outcome ≡ success → IsAuthentic e
  Authentic trapped = Unit

  gives_up-Authentic :
      (f : Option (List ℕ)) (sent : List (List ℕ))
      → Authentic (gives_up raw c place caller expand store f sent)
  unfolding gives_up
  gives_up-Authentic f sent is = cc

  module _ (hello : Hello bn.Num) (more : List ℕ) (greeting : Greeting hello more) where
    finish-Authentic :
        (f : Option (List ℕ)) (sent : List (List ℕ)) (secret : List ℕ)
        → add_dsakey_to_keyfile raw c place hello.dsa server file ≡ done (some (true, f))
        → c.compute_key hello.server_pubkey ≡ some secret
        → c.do_verify
            (c.sha1 ((client_values c userid ++ more) ++ mpint bn (bn.bin2bn secret)))
            hello.sig_r
            hello.sig_s
            hello.dsa
          ≡ 1
        → (x : Option Reply) → second ≡ x
        → Authentic (finish raw c place caller expand store f sent x)
    unfolding finish
    finish-Authentic f sent secret taken shared signed none e = gives_up-Authentic f sent
    finish-Authentic f sent secret taken shared signed (some reply) e = λ is. record {
      hello = hello;
      more = more;
      greeting = greeting;
      secret = secret;
      taken = taken;
      shared = shared;
      signed = signed;
      reply = reply;
      received = e;
      says = judge-success expand reply store is;
    }

    with_secret-Authentic :
        (b : Buffer) (p : List ℕ) (f : Option (List ℕ)) (sent : List (List ℕ)) (secret : List ℕ)
        → Holds b p
        → add_dsakey_to_keyfile raw c place hello.dsa server file ≡ done (some (true, f))
        → c.compute_key hello.server_pubkey ≡ some secret
        → Always Authentic
            (with_secret raw c place caller expand store hello b (bn.bin2bn secret) f sent second)
    unfolding with_secret
    with_secret-Authentic b p f sent secret hb taken shared =
        let k = bn.bin2bn secret in
        then_Always (λ r. r.0 ≡ c.sha1 ((client_values c userid ++ more) ++ mpint bn k)) Authentic
          (signed_hash raw c hello.transcript b k) _
          (signed_hash-Always raw c hello.transcript b (client_values c userid ++ more) p k
            greeting.transcript hb)
          (λ (hash, b₁) e is.
            if_where (Always Authentic) (c.do_verify hash hello.sig_r hello.sig_s hello.dsa == 1)
              (λ test.
                any_Always Authentic
                  (second_message raw c hello.transcript b₁ k hash hello.ssecmask passwd) _
                  (λ message e'.
                    finish-Authentic f (sent ++ (message ∷ [])) secret taken shared
                      (ap (λ h. c.do_verify h hello.sig_r hello.sig_s hello.dsa) (sym is)
                        ∙ (==_iff _ 1).0 test)
                      second refl))
              (λ test. gives_up-Authentic f sent))

    with_computed-Authentic :
        (b : Buffer) (p : List ℕ) (f : Option (List ℕ)) (sent : List (List ℕ))
        → Holds b p
        → add_dsakey_to_keyfile raw c place hello.dsa server file ≡ done (some (true, f))
        → (x : Option (List ℕ)) → c.compute_key hello.server_pubkey ≡ x
        → Always Authentic (with_computed raw c place caller expand store hello b f sent second x)
    unfolding with_computed
    with_computed-Authentic b p f sent hb taken none e = gives_up-Authentic f sent
    with_computed-Authentic b p f sent hb taken (some secret) e =
        with_secret-Authentic b p f sent secret hb taken e

    with_key-Authentic :
        (b : Buffer) (p : List ℕ) (sent : List (List ℕ))
        → Holds b p
        → (x : Option (Bool × Option (List ℕ)))
        → add_dsakey_to_keyfile raw c place hello.dsa server file ≡ done x
        → Always Authentic (with_key raw c place caller expand store hello b sent second x)
    unfolding with_key
    with_key-Authentic b p sent hb none e = tt
    with_key-Authentic b p sent hb (some (false, f)) e = gives_up-Authentic f sent
    with_key-Authentic b p sent hb (some (true, f)) e =
        with_computed-Authentic b p f sent hb e (c.compute_key hello.server_pubkey) refl

  -- What a message that was read has to be.
  abbrev Greets : Option (Hello bn.Num) → Type 0
  Greets none = Unit
  Greets (some hello) = (more : List ℕ) × Greeting hello more

  with_hello-Authentic :
      (b : Buffer) (p : List ℕ) (sent : List (List ℕ)) (x : Option (Hello bn.Num))
      → Holds b p
      → Greets x
      → Always Authentic (with_hello raw c place caller expand store b file sent second x)
  unfolding with_hello
  with_hello-Authentic b p sent none hb greets = gives_up-Authentic file sent
  with_hello-Authentic b p sent (some hello) hb (more, greeting) =
      any_Always Authentic (add_dsakey_to_keyfile raw c place hello.dsa server file) _
        (λ x e. with_key-Authentic hello more greeting b p sent hb x e)

  read-Greets :
      (one : List ℕ) (h b : Buffer) (x : Option (Hello bn.Num))
      → first ≡ some one
      → Holds h (client_values c userid)
      → Holds b (take (decode one).1 (decode one).0)
      → read_hello raw c h b ≡ done x
      → Kept raw c (Extends raw c (client_values c userid)) x
      → Greets x
  read-Greets one h b none came own decoded e kept = tt
  read-Greets one h b (some hello) came own decoded e (more, transcript) = (
    more,
    record {
      one = one;
      came_first = came;
      before = h;
      space = b;
      own = own;
      decoded = decoded;
      read = e;
      transcript = transcript;
    },
  )

  after_first-Authentic :
      (h b : Buffer) (p : List ℕ) (sent : List (List ℕ)) (x : Option (List ℕ))
      → first ≡ x
      → Holds h (client_values c userid)
      → Holds b p
      → Always Authentic (after_first raw c place caller expand store h b file sent x second)
  unfolding after_first
  after_first-Authentic h b p sent none came hh hb = gives_up-Authentic file sent
  after_first-Authentic h b p sent (some reply) came hh hb =
      let own = client_values c userid in
      let out = take (decode reply).1 (decode reply).0 in
      then_Always (λ b'. Holds b' out) Authentic (append raw (clear b) out) _
        (append-Always raw c (clear b) [] out ((clear-Sized (sized b p hb)).holds))
        (λ b₁ e₁ h₁.
          then_Always (Kept raw c (Extends raw c own)) Authentic (read_hello raw c h b₁) _
            (read_hello-Extends raw c own h b₁ ([], moved (sym (append-nil own)) hh))
            (λ x e₂ kept.
              with_hello-Authentic b₁ out sent x h₁ (read-Greets reply h b₁ x came hh h₁ e₂ kept)))

  -- Whatever the server sends, the exchange ends with success only if the key of the first message,
  -- as `read_hello` reads it from the decoded first reply, is one that the key file has for the
  -- server or that the user has let in, if the signature of that message is one by it of a hash that
  -- covers the client's own values, what that message added to them, and the secret that belongs to
  -- the public value of that message, and if the last reply says 200. For a user name and a public
  -- value of at most 1 KiB.
  pub auth_passdss_3des_1-Authentic :
      (sent : Bool)
      → length userid ≤ 1024
      → IsShort bn c.public
      → Always Authentic
          (auth_passdss_3des_1 raw c place caller expand store file sent first second)
  unfolding auth_passdss_3des_1
  auth_passdss_3des_1-Authentic false name own = gives_up-Authentic file []
  auth_passdss_3des_1-Authentic true name own =
      let (b, e, s) = first_message-Writes raw c userid name own in
      let (h, e₁, s₁) =
        append-Sized raw (client_values c userid) (client_values-length raw c userid name own)
          (omega arith) (init-Sized raw) in
      rw (e, bytes-eq s, e₁)
        (after_first-Authentic h b (client_values c userid) _ first refl s₁.holds s.holds)
