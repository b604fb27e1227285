-- ===== src/Session/Passdss/Login.antt =====
-- `AuthPASSDSS_3DES_1` of tspc-advanced/src/tsp/tsp_auth_passdss.c, with the replies of the server.
use gw6c.Base.{
  codes, ℕ, Bool, true, false, List, [], ◌∷◌, ◌++◌, Option, none, some, if◌then◌else◌, take, Run,
  done, ◌>>=◌, ◌==◌,
}
use gw6c.Base64.{decode}
use gw6c.Buffer.{Memory, Buffer, init, clear, append}
use gw6c.Session.{Reply, Store}
use gw6c.Session.Auth.{Outcome, failed, judge}
use gw6c.Session.Passdss.{
  Crypto, Hello, bytes, first_message, read_hello, signed_hash, second_message,
}
use gw6c.Session.Passdss.Keys.{Place, add_dsakey_to_keyfile}

-- `conf`: a missing user name or passphrase is `none`.
pub record Account : Type 0 where
  pub userid : Option (List ℕ)
  pub passwd : Option (List ℕ)
  pub server : List ℕ

-- `Buf_Space` is cleared after the first reply is read, so what is left in it is not handed on.
-- How the exchange ends: the outcome, the broker list, the key file, and what was sent; or a read
-- through a null pointer.
pub record Ended : Type 0 where
  pub outcome : Outcome
  pub store : Store
  pub file : Option (List ℕ)
  pub sent : List (List ℕ)

pub data Verdict : Type 0 where
  ended : Ended → Verdict
  trapped : Verdict

-- `sizeof(authenticate)` counts the final zero.
abbrev pub authenticate : List ℕ
authenticate = codes "AUTHENTICATE PASSDSS-3DES-1\r\n" ++ (0 ∷ [])

module _ (raw : Memory) (c : Crypto) (place : Place) (a : Account) (expand : List ℕ → List ℕ)
    (store : Store) where
  open c use {bn, encode}

  unfoldable pub gives_up : Option (List ℕ) → List (List ℕ) → Verdict
  gives_up file sent = ended (record { outcome = failed; store = store; file = file; sent = sent })

  -- The last reply.
  unfoldable pub finish : Option (List ℕ) → List (List ℕ) → Option Reply → Verdict
  finish file sent none = gives_up file sent
  finish file sent (some reply) =
      let (outcome, store') = judge expand reply store in
      ended (record { outcome = outcome; store = store'; file = file; sent = sent })

  -- The signature, and the second message.
  unfoldable pub with_secret :
      Hello bn.Num
      → (space : Buffer) → (dh_k : bn.Num) → Option (List ℕ)
      → List (List ℕ)
      → Option Reply
      → Run Verdict
  with_secret hello space dh_k file sent second = do
    (hash, b₁) ← signed_hash raw c hello.transcript space dh_k
    if c.do_verify hash hello.sig_r hello.sig_s hello.dsa == 1
        then (do
          message ← second_message raw c hello.transcript b₁ dh_k hash hello.ssecmask a.passwd
          done (finish file (sent ++ (message ∷ [])) second))
        else done (gives_up file sent)

  -- The shared secret, from `DH_compute_key`.
  unfoldable pub with_computed :
      Hello bn.Num
      → (space : Buffer) → Option (List ℕ)
      → List (List ℕ)
      → Option Reply
      → Option (List ℕ)
      → Run Verdict
  with_computed hello space file sent second none = done (gives_up file sent)
  with_computed hello space file sent second (some s) =
      with_secret hello space (bn.bin2bn s) file sent second

  unfoldable pub with_key :
      Hello bn.Num
      → (space : Buffer) → List (List ℕ)
      → Option Reply
      → Option (Bool × Option (List ℕ))
      → Run Verdict
  with_key hello space sent second none = done trapped
  with_key hello space sent second (some (false, file)) = done (gives_up file sent)
  with_key hello space sent second (some (true, file)) =
      with_computed hello space file sent second (c.compute_key hello.server_pubkey)

  unfoldable pub with_hello :
      (space : Buffer)
      → Option (List ℕ)
      → List (List ℕ)
      → Option Reply
      → Option (Hello bn.Num)
      → Run Verdict
  with_hello space file sent second none = done (gives_up file sent)
  with_hello space file sent second (some hello) = do
    added ← add_dsakey_to_keyfile raw c place hello.dsa a.server file
    with_key hello space sent second added

  -- The first reply, decoded into `Buf_Space`.
  unfoldable pub after_first :
      (transcript space : Buffer)
      → Option (List ℕ)
      → List (List ℕ)
      → (first : Option (List ℕ)) → Option Reply
      → Run Verdict
  after_first transcript space file sent none second = done (gives_up file sent)
  after_first transcript space file sent (some reply) second =
      let (out, buflen) = decode reply in
      (do
        b₁ ← append raw (clear space) (take buflen out)
        hello ← read_hello raw c transcript b₁
        with_hello b₁ file sent second hello)

  -- `sent`: the name of the mechanism could be sent.
  unfoldable pub auth_passdss_3des_1 :
      Option (List ℕ)
      → (sent : Bool) → (first : Option (List ℕ)) → (second : Option Reply) → Run Verdict
  auth_passdss_3des_1 file false first second = done (gives_up file [])
  auth_passdss_3des_1 file true first second = do
    space ← first_message raw c a.userid
    transcript ← append raw (init raw) (bytes space)
    after_first transcript space file (authenticate ∷ encode (bytes space) ∷ []) first second
