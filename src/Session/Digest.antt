-- ===== src/Session/Digest.antt =====
-- The exchange of DIGEST-MD5: `AuthDIGEST_MD5` of tspc-advanced/src/tsp/tsp_auth.c, and `md5` of
-- tspc-advanced/src/lib/md5c.c over the hash, which is an argument. Memory is given.
pub mod Rfc
pub mod Scan
pub mod Proof
pub mod Accepts
pub mod Exchange
pub mod Tests
pub mod Login
use gw6c.Base.{
  decimal, codes, ℕ, zero, suc, ◌+◌, ◌-◌, ◌/◌, ◌%◌, ◌<◌, List, [], ◌∷◌, ◌++◌, Option, none, some,
  Bool, true, false, not, ltb, ◌==◌, ◌=s◌, ◌&&◌, ◌||◌, if◌then◌else◌, length, take, drop,
}
use gw6c.Base64.{decode, encode_binary}
use gw6c.Session.{Reply, Store, follow, get_status_code, redirects}
use gw6c.Session.Auth.{Outcome, success, failed, redirection, success_code}

-- `tChallenge`: null pointers at first.
pub record Challenge : Type 0 where
  pub realm : Option (List ℕ)
  pub nonce : Option (List ℕ)
  pub qop : Option (List ℕ)
  pub algorithm : Option (List ℕ)
  pub charset : Option (List ℕ)
  pub rspauth : Option (List ℕ)

abbrev pub no_challenge : Challenge
no_challenge = record {
  realm = none;
  nonce = none;
  qop = none;
  algorithm = none;
  charset = none;
  rspauth = none;
}

-- `InsertInChallegeStruct`: other names are passed over.
unfoldable pub insert : List ℕ → List ℕ → Challenge → Challenge
insert token value c =
    if token =s codes "realm"
    then record c { realm = some value }
    else if token =s codes "nonce"
    then record c { nonce = some value }
    else if token =s codes "qop"
    then record c { qop = some value }
    else if token =s codes "algorithm"
    then record c { algorithm = some value }
    else if token =s codes "charset"
    then record c { charset = some value }
    else if token =s codes "rspauth"
    then record c { rspauth = some value }
    else c

-- The loop of `ExtractChallenge`: `segment` is what is between `s` and `e`, and `fresh` says that
-- `e` has just been moved to `s`, and is moved on before it is looked at.
pub record Scanner : Type 0 where
  pub challenge : Challenge
  pub token : List ℕ
  pub segment : List ℕ
  pub fresh : Bool

abbrev pub is_separator : ℕ → Bool
is_separator c = (c == b',') || ((c == 13) || (c == 10))

-- Without a quote at the start, and one at the end.
unfoldable pub chop_end : List ℕ → List ℕ
chop_end [] = []
chop_end (c ∷ []) = if c == b'"' then [] else c ∷ []
chop_end (c ∷ d ∷ cs) = c ∷ chop_end (d ∷ cs)

abbrev pub chop_start : List ℕ → List ℕ
chop_start [] = []
chop_start (c ∷ cs) = if c == b'"' then cs else c ∷ cs

abbrev pub chop : List ℕ → List ℕ
chop segment = chop_end (chop_start segment)

abbrev pub is_empty : List ℕ → Bool
is_empty [] = true
is_empty (c ∷ cs) = false

-- At a separator or the end: a value is taken if there is a token, and is not empty.
unfoldable pub flush : Scanner → Scanner
flush s =
    if is_empty s.segment || (is_empty s.token || is_empty (chop s.segment))
    then s
    else record s { challenge = insert s.token (chop s.segment) s.challenge; token = [] }

unfoldable pub advance : Scanner → ℕ → Scanner
advance s c =
    if s.fresh
    then record s { segment = c ∷ []; fresh = false }
    else if is_separator c
    then record (flush s) { segment = []; fresh = true }
    else if (c == b'=') && (is_empty s.token && not (is_empty s.segment))
    then record s { token = s.segment; segment = []; fresh = true }
    else record s { segment = s.segment ++ (c ∷ []) }

unfoldable pub scan : Scanner → List ℕ → Scanner
scan s [] = s
scan s (c ∷ cs) = scan (advance s c) cs

abbrev pub start : Scanner
start = record { challenge = no_challenge; token = []; segment = []; fresh = false }

-- `ExtractChallenge`; `none` if it reads behind the text.
unfoldable pub extract_challenge : List ℕ → Option Challenge
extract_challenge text =
    let s = scan start text in if s.fresh then none else some ((flush s).challenge)

-- The bytes before the first zero.
unfoldable pub string_of : List ℕ → List ℕ
string_of [] = []
string_of (c ∷ cs) = let rest = string_of cs in if c == 0 then [] else c ∷ rest

-- A reply, decoded, as a challenge.
unfoldable pub read_challenge : List ℕ → Option Challenge
read_challenge reply = extract_challenge (string_of (decode reply).0)

-- `%02x`
abbrev pub hex_digit : ℕ → ℕ
hex_digit n = if ltb n 10 then n + b'0' else n - 10 + b'a'

unfoldable pub hex : List ℕ → List ℕ
hex [] = []
hex (c ∷ cs) = hex_digit (c / 16) ∷ hex_digit (c % 16) ∷ hex cs

-- `snprintf` into so many bytes.
abbrev pub snprintf : ℕ → List ℕ → List ℕ
snprintf len text = take (len - 1) text

-- `strcmp` gives a positive number.
unfoldable pub is_above : List ℕ → List ℕ → Bool
is_above [] ys = false
is_above (x ∷ xs) [] = true
is_above (x ∷ xs) (y ∷ ys) = let rest = is_above xs ys in if x == y then rest else ltb y x

-- What the client is configured with.
pub record Account : Type 0 where
  pub userid : List ℕ
  pub passwd : List ℕ
  pub server : List ℕ

-- The escaped name of the user, into an array of 512 bytes; `i` bytes are written.
abbrev pub is_special : ℕ → Bool
is_special c = (c == b'"') || (c == b'\\')

unfoldable pub escape : ℕ → List ℕ → List ℕ
escape i [] = []
escape i (c ∷ cs) =
    let rest = escape (if is_special c then i + 2 else i + 1) cs in
    if not (ltb i 512) then [] else if is_special c then b'\\' ∷ c ∷ rest else c ∷ rest

module _ (hash : List ℕ → List ℕ) where
  abbrev pub md5 : List ℕ → List ℕ
  md5 s = hex (hash s)

  -- `A2` for "AUTHENTICATE" and `cA2` for "".
  unfoldable pub hash_uri : List ℕ → List ℕ → List ℕ
  hash_uri word server = md5 (
      snprintf (length (codes "%s:tsp/%s") + 12 + length server + 1)
        (word ++ (codes ":tsp/" ++ server)))

  -- `A1`, with what early brokers made of a hash with a zero byte in it.
  unfoldable pub hash_secret :
      (version : List ℕ) → Account → (realm nonce : List ℕ) → (cnonce : ℕ) → List ℕ
  hash_secret version a realm nonce cnonce =
      let secret = hash (
        snprintf (length (codes "%s:%s:%s") + length a.userid + length realm + length a.passwd + 1)
          (a.userid ++ (b':' ∷ (realm ++ (b':' ∷ a.passwd))))) in
      let len = 16 + 1 + length nonce + 16 + 1 in
      let text = secret ++ snprintf (len - 16) (b':' ∷ (nonce ++ (b':' ∷ decimal cnonce))) in
      if ltb (length (string_of secret)) 16
        && not (ltb 5 (length version) || is_above version (codes "2.0.0"))
      then md5 (string_of text)
      else md5 text

  -- `Response` and `cResponse`.
  unfoldable pub challenge_response :
      (a1 nonce : List ℕ) → (cnonce : ℕ) → (qop a2 : List ℕ) → List ℕ
  challenge_response a1 nonce cnonce qop a2 = md5 (
      snprintf
        (length (codes "%s:%s:00000001:%lu:%s:%s") + 32 + length nonce + 16 + length qop + 32 + 1)
        (a1
          ++ (b':'
              ∷ (nonce
                  ++ (codes ":00000001:" ++ (decimal cnonce ++ (b':' ∷ (qop ++ (b':' ∷ a2)))))))))

-- The message with the response, before it is encoded.
unfoldable pub response_text :
    Account → (charset userid realm nonce : List ℕ) → (cnonce : ℕ) → (response : List ℕ) → List ℕ
response_text a charset userid realm nonce cnonce response =
    snprintf
      (length (
          codes
            "charset=%s,username=\"%s\",realm=\"%s\",nonce=\"%s\",nc=00000001,cnonce=\"%lu\",digest-uri=\"tsp/%s\",response=%s,qop=auth")
        + length charset
        + length userid
        + length realm
        + length nonce
        + 16
        + length a.server
        + 32)
      (codes "charset="
        ++ (charset
            ++ (codes ",username=\""
                ++ (userid
                    ++ (codes "\",realm=\""
                        ++ (realm
                            ++ (codes "\",nonce=\""
                                ++ (nonce
                                    ++ (codes "\",nc=00000001,cnonce=\""
                                        ++ (decimal cnonce
                                            ++ (codes "\",digest-uri=\"tsp/"
                                                ++ (a.server
                                                    ++ (codes "\",response="
                                                        ++ (response
                                                            ++ codes ",qop=auth"))))))))))))))
