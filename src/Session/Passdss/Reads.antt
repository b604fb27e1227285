-- ===== src/Session/Passdss/Reads.antt =====
-- `AuthPASSDSS_3DES_1` of tspc-advanced/src/tsp/tsp_auth_passdss.c reads the message of a server
-- whose message has the layout of `Layout`.
use mathlib.Core.List.{append_assoc, append-nil}
use gw6c.Base.{
  codes, ℕ, suc, ◌+◌, ◌≤◌, ◌<◌, ◌^◌, ◌≡◌, refl, sym, ap, ◌∙◌, false, arith, List, [], ◌∷◌, ◌++◌,
  some, length, length-append, done,
}
use gw6c.Buffer.{Memory, Buffer, read}
use gw6c.Buffer.Holds.{Holds, get-Reads, Sized, append-Sized, max_piece}
use gw6c.Buffer.Aux.{put_32bit}
use gw6c.Buffer.Aux.Words.{length-put_32bit}
use gw6c.Buffer.Aux.RoundTrip.{get_int-Reads, get_octet-Reads, get_string-Reads}
use gw6c.Buffer.Aux.Numbers.{string, mpint, got, get_bignum-Reads, put_int-Sized, put_bignum-Sized}
use gw6c.Session.Passdss.{Crypto, int_below, read_signature, read_hello}
use gw6c.Session.Passdss.Layout.{ServerMessage, dss_key, options, signature, server_values, IsFair}

pub length-string : (s : List ℕ) → length (string s) ≡ 4 + length s
length-string s =
    length-append (put_32bit (length s)) s ∙ omega (arith, length-put_32bit (length s))

int_enough : (limit n : ℕ) → limit ≤ n → n < 2 ^ 31 → int_below n limit ≡ false
int_enough limit n le lt = ground arith

pub front_read :
    {b : Buffer} (xs ys : List ℕ) → Holds b (xs ++ ys) → read b.buf b.offset (length xs) ≡ xs
front_read {b} xs ys h =
    let (b', e, k) = get-Reads xs ys (length xs) refl h in (got b b' (length xs) xs e).1

pub moved : {b : Buffer} {xs ys : List ℕ} → xs ≡ ys → Holds b xs → Holds b ys
moved {b} e h = record { valid = h.valid; bytes = h.bytes ∙ e }

pub unwrapped :
    (a b c d e r : List ℕ) → (a ++ (b ++ (c ++ (d ++ e)))) ++ r ≡ a ++ (b ++ (c ++ (d ++ (e ++ r))))
unwrapped a b c d e r = rw (
  append_assoc a (b ++ (c ++ (d ++ e))) r,
  append_assoc b (c ++ (d ++ e)) r,
  append_assoc c (d ++ e) r,
  append_assoc d e r,
)

pub gathered : (q a b c d : List ℕ) → ((((q ++ a) ++ b) ++ c) ++ d) ≡ q ++ (a ++ (b ++ (c ++ d)))
gathered q a b c d =
    append_assoc ((q ++ a) ++ b) c d
    ∙ append_assoc (q ++ a) b (c ++ d)
    ∙ append_assoc q a (b ++ (c ++ d))

module _ (raw : Memory) (c : Crypto) {userid passwd : List ℕ} {k : c.bn.Num}
    (m : ServerMessage c.bn.Num) (fair : IsFair c userid passwd m k) where
  open c use {bn}

  read_signature-signature :
      (transcript b : Buffer)
      → Holds b (options c m ++ string (signature c m))
      → read_signature raw c transcript m.dsa m.y b
        ≡ done (
            some (record {
              transcript = transcript;
              dsa = m.dsa;
              server_pubkey = m.y;
              ssecmask = m.ssecmask;
              sig_r = m.r;
              sig_s = m.s;
            }))
  unfolding read_signature
  read_signature-signature transcript b h =
      let octets = m.first_octet ∷ m.second_octet ∷ m.third_octet ∷ [] in
      let size : length (signature c m) ≤ max_piece = omega (
        arith,
        fair.r,
        fair.s,
        length-string (codes "ssh-dss"),
        length-string (c.bn.bn2bin m.r),
        length-string (c.bn.bn2bin m.s),
        length-append (string (codes "ssh-dss")) (mpint bn m.r ++ mpint bn m.s),
        length-append (mpint bn m.r) (mpint bn m.s),
      ) in
      let (b₁, e₁, k₁) =
        get_octet-Reads (octets ++ string (signature c m)) {b = b} m.ssecmask fair.mask (
          moved (ap (λ (n : ℕ). n ∷ (octets ++ string (signature c m))) (omega (arith, fair.mask)))
            h) in
      let (b₂, e₂, k₂) = get-Reads octets (string (signature c m)) 3 refl k₁ in
      let (b₃, e₃, k₃) = get_int-Reads (signature c m) (length (signature c m)) (omega arith) k₂ in
      let (b₄, e₄, k₄) =
        get_string-Reads (mpint bn m.r ++ mpint bn m.s) (codes "ssh-dss") (omega arith) k₃ in
      let (b₅, e₅, k₅) = get_bignum-Reads bn raw (mpint bn m.s) m.r fair.r k₄ in
      let (b₆, e₆, k₆) =
        get_bignum-Reads bn raw [] m.s fair.s (moved (sym (append-nil (mpint bn m.s))) k₅) in
      rw (
        e₁,
        e₂,
        e₃,
        int_enough 59 (length (signature c m)) fair.enough_signature (omega arith),
        e₄,
        e₅,
        e₆,
      )

  -- The copies of the transcript on the way.
  pub read_hello-server_values :
      {h b : Buffer} {q : List ℕ} {count : ℕ}
      → count ≤ 70
      → Sized h q count
      → Holds b (server_values c m)
      → (h' : Buffer) × (read_hello raw c h b
          ≡ done (
              some (record {
                transcript = h';
                dsa = m.dsa;
                server_pubkey = m.y;
                ssecmask = m.ssecmask;
                sig_r = m.r;
                sig_s = m.s;
              })))
        × Sized h'
            (q
              ++ (put_32bit (length (dss_key c m.dsa))
                  ++ (dss_key c m.dsa ++ (mpint bn m.y ++ options c m))))
            (suc (suc (suc (suc (suc count)))))
  unfolding read_hello
  read_hello-server_values {h} {b} {q} {count} few sized holds =
      let key = dss_key c m.dsa in
      let rest = mpint bn m.y ++ (options c m ++ string (signature c m)) in
      let size : length key ≤ max_piece = omega (
        arith,
        fair.values,
        length-append (put_32bit (length key)) (key ++ rest),
        length-append key rest,
      ) in
      let (b₁, e₁, k₁) = get_int-Reads (key ++ rest) (length key) (omega arith) holds in
      let (h₁, d₁, s₁) = put_int-Sized bn raw (omega arith) sized (length key) in
      let copied : read b₁.buf b₁.offset (length key) ≡ key = front_read key rest k₁ in
      let (h₂, d₂, s₂) = append-Sized raw key size (omega arith) s₁ in
      let (b₂, e₂, k₂) =
        get_string-Reads
          (mpint bn m.dsa.p
            ++ (mpint bn m.dsa.q ++ (mpint bn m.dsa.g ++ (mpint bn m.dsa.pub_key ++ rest))))
          (codes "ssh-dss") (omega arith)
          (moved
            (unwrapped (string (codes "ssh-dss")) (mpint bn m.dsa.p) (mpint bn m.dsa.q)
              (mpint bn m.dsa.g) (mpint bn m.dsa.pub_key) rest)
            k₁) in
      let (b₃, e₃, k₃) = get_bignum-Reads bn raw _ m.dsa.p fair.p k₂ in
      let (b₄, e₄, k₄) = get_bignum-Reads bn raw _ m.dsa.q fair.q k₃ in
      let (b₅, e₅, k₅) = get_bignum-Reads bn raw _ m.dsa.g fair.g k₄ in
      let (b₆, e₆, k₆) = get_bignum-Reads bn raw rest m.dsa.pub_key fair.z k₅ in
      let (b₇, e₇, k₇) =
        get_bignum-Reads bn raw (options c m ++ string (signature c m)) m.y fair.y k₆ in
      let (h₃, d₃, s₃) = put_bignum-Sized bn raw (omega arith) s₂ m.y fair.y in
      let four : read b₇.buf b₇.offset 4 ≡ options c m =
        front_read (options c m) (string (signature c m)) k₇ in
      let (h₄, d₄, s₄) = append-Sized raw (options c m) (omega arith) (omega arith) s₃ in
      (
        h₄,
        rw
            (
              e₁,
              int_enough 240 (length key) fair.enough_key (omega arith),
              d₁,
              copied,
              d₂,
              e₂,
              e₃,
              e₄,
              e₅,
              e₆,
              e₇,
              d₃,
              four,
              d₄,
            )
            (read_signature-signature h₄ b₇ k₇),
        record {
          holds =
              moved (gathered q (put_32bit (length key)) key (mpint bn m.y) (options c m)) s₄.holds;
          room = s₄.room;
        },
      )
