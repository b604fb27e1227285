-- ===== src/Session/Passdss/Tests.antt =====
-- An exchange of PASSDSS-3DES-1 of tspc-advanced/src/tsp/tsp_auth_passdss.c, and the theorems at it.
use gw6c.Base.{
  codes, ℕ, ◌+◌, ◌*◌, ◌/◌, ◌≡◌, refl, sym, ◌∙◌, Bool, true, List, [], ◌∷◌, Option, none, some,
  length, replicate, take, arith, Run, done, Always, ◌=s◌, same-eq, same_refl, ap,
}
use gw6c.Base64.{
  pr2six, basis_64, six, char_of, nprbytes, first_byte, second_byte, third_byte, decode_rest,
  decode_loop, decode_binary, decode, encode_binary,
}
use gw6c.Buffer.{Memory, append, append_space, restart, rewind, init}
use gw6c.Buffer.Aux.{BigNum, put_32bit, put_int, put_cstring, put_bignum, put_string}
use gw6c.Session.{Reply, Store}
use gw6c.Session.Tests.{around}
use gw6c.Session.Passdss.{Crypto, Key}
use gw6c.Session.Passdss.Keys.{
  Place, write_key, is_dsakey_in_keyfile, add_found, add_dsakey_to_keyfile,
}
use gw6c.Session.Passdss.Login.{Verdict, auth_passdss_3des_1}
use gw6c.Session.Passdss.Layout.{ServerMessage, server_values, IsFair}
use gw6c.Session.Passdss.Exchange.{account, Specified, auth_passdss_3des_1-Specified}
use gw6c.Session.Passdss.Authentic.{caller, Authentic, auth_passdss_3des_1-Authentic}

-- Numbers that are their bytes.
pub whole_bytes : (n : ℕ) → n ≡ (n * 8 + 7) / 8
whole_bytes n = omega arith

abbrev pub byte_numbers : BigNum
byte_numbers = record {
  Num = List ℕ;
  num_bits = λ v. length v * 8;
  bn2bin = λ v. v;
  bin2bn = λ v. v;
  bn2bin_size = λ v. whole_bytes (length v);
  bin2bn-bn2bin = λ v. refl;
}

abbrev pub twenty : List ℕ
twenty = replicate 20 7

abbrev pub toy : Crypto
toy = record {
  bn = byte_numbers;
  same = λ a b. a =s b;
  same_iff = λ a b. ((λ e. same-eq a b e), (λ e. ap (λ t. a =s t) (sym e) ∙ same_refl a));
  sha1 = λ s. twenty;
  hmac = λ key s. twenty;
  encrypt = λ key iv s. s;
  encode = λ s. s;
  public = 3 ∷ [];
  compute_key = λ y. some (9 ∷ []);
  do_verify = λ hash r s key. 1;
  sha1_size = λ s. refl;
  hmac_size = λ key s. refl;
}

abbrev pub zeros : Memory
zeros i = 0

abbrev dsa : Key (List ℕ)
dsa = record { p = replicate 220 1; q = 2 ∷ []; g = 3 ∷ []; pub_key = 4 ∷ [] }

abbrev message : ServerMessage (List ℕ)
message = record {
  dsa = dsa;
  y = 5 ∷ [];
  ssecmask = 1;
  first_octet = 0;
  second_octet = 0;
  third_octet = 32;
  r = replicate 20 6;
  s = replicate 20 7;
}

abbrev pub place : Place
place = record { left = λ file. []; answer = true; can_write = true }

abbrev last : Option Reply
last = some (record { bytes = codes "200 Success"; info = none; around = around })

abbrev store' : Store
store' = record { generation = 0; brokers = [] }

fair : IsFair toy (codes "me") (codes "pw") message (9 ∷ [])
unfolding put_32bit
fair = record {
  own = omega arith;
  p = omega arith;
  q = omega arith;
  g = omega arith;
  z = omega arith;
  y = omega arith;
  r = omega arith;
  s = omega arith;
  secret = omega arith;
  mask = omega arith;
  name = omega arith;
  phrase = omega arith;
  enough_key = omega arith;
  enough_signature = omega arith;
  values = omega arith;
  signed = omega arith;
}

abbrev reply : List ℕ
reply = encode_binary (server_values toy message)

decodes : take (decode reply).1 (decode reply).0 ≡ server_values toy message
unfolding pr2six basis_64 six char_of nprbytes first_byte second_byte third_byte decode_rest
    decode_loop decode_binary decode encode_binary put_32bit
decodes = refl

abbrev file_of : Run (Option (Bool × Option (List ℕ))) → Option (List ℕ)
file_of (done (some (taken, file))) = file
file_of _ = none

-- The user lets the key in, and it is added.
abbrev file : Option (List ℕ)
file = file_of (add_dsakey_to_keyfile zeros toy place dsa (codes "broker") none)

accepted :
    add_dsakey_to_keyfile zeros toy place dsa (codes "broker") none ≡ done (some (true, file))
unfolding add_dsakey_to_keyfile is_dsakey_in_keyfile add_found write_key put_cstring put_string
    put_int put_bignum append append_space restart rewind put_32bit init
accepted = refl

auth_passdss_3des_1-Specified_example :
    (v : Verdict) × (auth_passdss_3des_1 zeros toy place
        (account zeros toy message fair place (codes "broker") (λ s. s) store')
        (λ s. s)
        store'
        none
        true
        (some reply)
        last
      ≡ done v)
    × Specified zeros toy message fair place (codes "broker") (λ s. s) store' file last v
auth_passdss_3des_1-Specified_example =
    auth_passdss_3des_1-Specified zeros toy message fair place (codes "broker") (λ s. s) store' none
      file reply (9 ∷ []) last decodes accepted refl refl

auth_passdss_3des_1-Authentic_example :
    Always
      (Authentic zeros toy place
        (codes "me")
        (some (codes "pw"))
        (codes "broker")
        (λ s. s)
        store'
        none
        (some reply)
        last)
      (auth_passdss_3des_1 zeros toy place
        (caller zeros toy place
          (codes "me")
          (some (codes "pw"))
          (codes "broker")
          (λ s. s)
          store'
          none
          (some reply)
          last)
        (λ s. s)
        store'
        none
        true
        (some reply)
        last)
auth_passdss_3des_1-Authentic_example =
    auth_passdss_3des_1-Authentic zeros toy place (codes "me") (some (codes "pw")) (codes "broker")
      (λ s. s) store' none (some reply) last true (omega arith) (omega arith)
