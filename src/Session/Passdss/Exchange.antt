-- ===== src/Session/Passdss/Exchange.antt =====
-- The whole of `AuthPASSDSS_3DES_1` of tspc-advanced/src/tsp/tsp_auth_passdss.c with a server whose
-- message has the layout of `Layout`.
use gw6c.Base.{
  ℕ, ◌<◌, ◌≡◌, refl, true, arith, List, [], ◌∷◌, ◌++◌, Option, some, take, done, ◌≢◌, ne→==, ==_iff,
  ℕ_discrete,
}
use gw6c.Base64.{decode}
use gw6c.Buffer.{Memory, Buffer}
use gw6c.Buffer.Holds.{Sized, append-Sized, init-Sized, clear-Sized}
use gw6c.Session.{Reply, Store}
use gw6c.Session.Passdss.{Crypto, Hello}
use gw6c.Session.Passdss.Keys.{Place, add_dsakey_to_keyfile}
use gw6c.Session.Passdss.Login.{
  Account, Verdict, authenticate, auth_passdss_3des_1, after_first, with_hello, with_key,
  with_computed, with_secret, finish, gives_up,
}
use gw6c.Session.Passdss.Layout.{
  ServerMessage, client_values, server_values, items, hash, last_message, IsFair,
}
use gw6c.Session.Passdss.Reads.{read_hello-server_values}
use gw6c.Session.Passdss.Follows.{
  bytes-eq, signed_hash-Steps, second_message-sends, first_message-Writes, client_values-length,
}

module _ (raw : Memory) (c : Crypto) {userid passwd : List ℕ} {k : c.bn.Num}
    (m : ServerMessage c.bn.Num) (fair : IsFair c userid passwd m k) where
  open c use {bn, encode}

  module _ (place : Place) (server : List ℕ) (expand : List ℕ → List ℕ) (store : Store) where
    abbrev pub account : Account
    account = record { userid = some userid; passwd = some passwd; server = server }

    abbrev pub greeting : List (List ℕ)
    greeting = authenticate ∷ encode (client_values c userid) ∷ []

    -- What becomes of the server's message: the last message is sent, with a maximal buffer size of
    -- zero, where the draft asks for 32 at least, and the last reply decides, only if the hash is
    -- signed.
    abbrev pub Specified : Option (List ℕ) → Option Reply → Verdict → Type 0
    Specified file second v =
        (c.do_verify (hash c userid m k) m.r m.s m.dsa ≡ 1
          → v
            ≡ finish raw c place account expand store file
                (greeting ++ (last_message c userid m k (0 ∷ 0 ∷ 0 ∷ []) passwd ∷ [])) second)
        × (c.do_verify (hash c userid m k) m.r m.s m.dsa ≢ 1
            → v ≡ gives_up raw c place account expand store file greeting)

    abbrev server_hello : Buffer → Hello bn.Num
    server_hello transcript = record {
      transcript = transcript;
      dsa = m.dsa;
      server_pubkey = m.y;
      ssecmask = m.ssecmask;
      sig_r = m.r;
      sig_s = m.s;
    }

    with_secret-Specified :
        {h b : Buffer} {p : List ℕ} {i j : ℕ} (file : Option (List ℕ)) (second : Option Reply)
        → i < 70
        → j < 30
        → Sized h (items c userid m) i
        → Sized b p j
        → (v : Verdict) × (with_secret raw c place account expand store
              (server_hello h)
              b
              k
              file
              greeting
              second
            ≡ done v)
          × Specified file second v
    unfolding with_secret
    with_secret-Specified {h} {b} file second fewer few sh sb =
        let (b₁, p₁, e₁, s₁) =
          signed_hash-Steps raw c k fair.secret fair.signed (omega arith) sh sb in
        let e₂ =
          second_message-sends raw c k fair.secret (hash c userid m k) (c.sha1_size _) m.ssecmask
            passwd fair.mask fair.phrase fewer (omega arith) sh s₁ in
        elim (ℕ_discrete (c.do_verify (hash c userid m k) m.r m.s m.dsa) 1) [
          | yes proven ↦
              let test = (==_iff (c.do_verify (hash c userid m k) m.r m.s m.dsa) 1).1 proven in
              (_, rw (e₁, test, e₂), ((λ _. refl), (λ refuted. absurd (refuted proven))))
          | no refuted ↦
              let test = ne→== (c.do_verify (hash c userid m k) m.r m.s m.dsa) 1 refuted in
              (_, rw (e₁, test), ((λ proven. absurd (refuted proven)), (λ _. refl)))
        ]

    -- A server whose message has the layout of the draft, but for numbers, which are magnitudes
    -- without a zero byte before them, and whose key the key file has or takes, gets from the client
    -- two messages of that layout: the second one, with a maximal buffer size of zero, only if the
    -- signature is one of the hash of the items and the shared secret, and then the last reply
    -- decides; if it is not, the exchange fails. For values of moderate size; the exchange then
    -- never ends the process.
    pub auth_passdss_3des_1-Specified :
        (file file' : Option (List ℕ)) (reply secret : List ℕ) (second : Option Reply)
        → take (decode reply).1 (decode reply).0 ≡ server_values c m
        → add_dsakey_to_keyfile raw c place m.dsa server file ≡ done (some (true, file'))
        → c.compute_key m.y ≡ some secret
        → bn.bin2bn secret ≡ k
        → (v : Verdict) × (auth_passdss_3des_1 raw c place account expand store file true
              (some reply)
              second
            ≡ done v)
          × Specified file' second v
    unfolding auth_passdss_3des_1 after_first with_hello with_key with_computed
    auth_passdss_3des_1-Specified file file' reply secret second decodes accepted computed is =
        let (b, e, s) = first_message-Writes raw c userid fair.name fair.own in
        let (h, e₁, s₁) =
          append-Sized raw (client_values c userid)
            (client_values-length raw c userid fair.name fair.own) (omega arith) (init-Sized raw) in
        let (b₁, e₂, s₂) =
          append-Sized raw (server_values c m) fair.values (omega arith) (clear-Sized s) in
        let (h', e₃, s₃) = read_hello-server_values raw c m fair (omega arith) s₁ s₂.holds in
        let (v, e₄, spec) = with_secret-Specified file' second (omega arith) (omega arith) s₃ s₂ in
        (v, rw (e, bytes-eq s, e₁, decodes, e₂, e₃, accepted, computed, is) e₄, spec)
