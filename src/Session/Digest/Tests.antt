-- ===== src/Session/Digest/Tests.antt =====
-- An exchange of DIGEST-MD5 of tspc-advanced/src/tsp/tsp_auth.c, and the theorems at it.
use gw6c.Base.{
  decimal_from, codes, ℕ, ◌+◌, ◌%◌, ◌≡◌, ◌↔◌, refl, List, [], ◌∷◌, ◌++◌, none, some, true, length,
  replicate, All, arith,
}
use gw6c.Base64.{
  pr2six, basis_64, six, char_of, nprbytes, decode_len, first_byte, second_byte, third_byte,
  decode_rest, decode_loop, decode_binary, decode, encode_len, encode_binary, encode,
}
use gw6c.Session.{Reply, Store, get_status_code, atoi, digits_from, redirects}
use gw6c.Broker.{is_redirect_status}
use gw6c.Session.Auth.{success}
use gw6c.Session.Tests.{plain, around}
use gw6c.Session.Digest.{
  Account, insert, chop_end, flush, advance, scan, extract_challenge, string_of, read_challenge,
  hex, is_above, escape, hash_uri, hash_secret, challenge_response, response_text,
}
use gw6c.Session.Digest.Login.{
  ended, write_message, respond_to, with_qop, with_nonce, with_realm, respond, finish, check,
  verify, with_reply, after_response, after_challenge, digest_md5,
}
use gw6c.Session.Digest.Scan.{Field, IsField, print_fields, extract_challenge-print_fields}
use gw6c.Session.Digest.Rfc.{rfc_response, is_later, InTime}
use gw6c.Session.Digest.Accepts.{Proven, digest_md5-iff_Proven}

abbrev pub total : List ℕ → ℕ
total [] = 0
total (c ∷ cs) = c + total cs

-- A hash of 16 bytes.
abbrev pub sum_hash : List ℕ → List ℕ
sum_hash s = replicate 16 (total s % 256)

pub sixteen : (s : List ℕ) → length (sum_hash s) ≡ 16
sixteen s = refl

abbrev pub account : Account
account = record { userid = codes "me"; passwd = codes "pw"; server = codes "broker" }

abbrev pub version : List ℕ
version = codes "2.0.1"

abbrev pub field : List ℕ → List ℕ → Field
field token value = record { token = token; value = value }

abbrev pub realm : Field
realm = field (codes "realm") (codes "home")

abbrev pub others : List Field
others =
    field (codes "nonce") (codes "ab")
    ∷ field (codes "qop") (codes "auth")
    ∷ field (codes "charset") (codes "utf-8")
    ∷ []

abbrev pub reply : List ℕ → Reply
reply bytes = record { bytes = bytes; info = none; around = around }

-- The challenge and the answer of a broker that knows the secret, encoded.
abbrev pub challenge : Reply
challenge = reply (string_of (encode_binary (print_fields realm others)))

abbrev pub answer : Reply
answer = reply (
    string_of (
      encode_binary (
        codes "rspauth="
        ++ rfc_response sum_hash account (codes "home") (codes "ab") (codes "1000") (codes "auth")
            [])))

abbrev pub store : Store
store = record { generation = 0; brokers = [] }

pub later : is_later version ≡ true
unfolding is_above
later = refl

pub in_range : InTime 1000
in_range = omega arith

digest_md5-iff_Proven_example :
    (digest_md5 sum_hash version account 1000 plain
        (some challenge)
        (some answer)
        (some (codes "200 Success"))
        store
      ≡ ended success store)
    ↔ (Proven sum_hash sixteen version later account 1000 in_range
          (some challenge)
          (some answer)
          (some (codes "200 Success"))
        × (store ≡ store))
digest_md5-iff_Proven_example =
    digest_md5-iff_Proven sum_hash sixteen version later account 1000 in_range plain
      (some challenge) (some answer) (some (codes "200 Success")) store store

-- The exchange of that broker succeeds.
pub accepted_test :
    digest_md5 sum_hash version account 1000 plain
      (some challenge)
      (some answer)
      (some (codes "200 Success"))
      store
    ≡ ended success store
unfolding insert chop_end flush advance scan extract_challenge string_of read_challenge hex
    decimal_from is_above escape hash_uri hash_secret challenge_response response_text write_message
    respond_to with_qop with_nonce with_realm respond finish check verify with_reply after_response
    after_challenge digest_md5 pr2six basis_64 six char_of nprbytes decode_len first_byte
    second_byte third_byte decode_rest decode_loop decode_binary decode encode_len encode_binary
    encode get_status_code atoi digits_from redirects is_redirect_status
accepted_test = refl

-- A challenge with a comma at the end is read behind its end.
over_read_test : extract_challenge (codes "realm=home,") ≡ none
unfolding extract_challenge scan advance flush
over_read_test = refl

realm-IsField : IsField realm
realm-IsField = record {
  named = refl;
  plain = (refl, (refl, (refl, (refl, (refl, tt)))));
  valued = refl;
  whole = (refl, (refl, (refl, (refl, tt))));
}

others-IsField : All IsField others
others-IsField = (
  record {
    named = refl;
    plain = (refl, (refl, (refl, (refl, (refl, tt)))));
    valued = refl;
    whole = (refl, (refl, tt));
  },
  (
    record {
      named = refl;
      plain = (refl, (refl, (refl, tt)));
      valued = refl;
      whole = (refl, (refl, (refl, (refl, tt))));
    },
    (
      record {
        named = refl;
        plain = (refl, (refl, (refl, (refl, (refl, (refl, (refl, tt)))))));
        valued = refl;
        whole = (refl, (refl, (refl, (refl, (refl, tt)))));
      },
      tt,
    ),
  ),
)

extract_challenge-print_fields_example :
    extract_challenge (codes "realm=\"home\",nonce=\"ab\",qop=\"auth\",charset=\"utf-8\"")
    ≡ some (record {
      realm = some (codes "home");
      nonce = some (codes "ab");
      qop = some (codes "auth");
      algorithm = none;
      charset = some (codes "utf-8");
      rspauth = none;
    })
unfolding insert
extract_challenge-print_fields_example =
    extract_challenge-print_fields realm others realm-IsField others-IsField
