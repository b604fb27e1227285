-- ===== src/Session/Capability.antt =====
-- The capabilities of tspc-advanced/src/tsp/tsp_cap.c: a bit field that a broker announces as
-- `CAPABILITY TUNNEL=V6V4 AUTH=PLAIN …`.
use gw6c.Base.{
  ℕ, ◌-◌, List, [], ◌∷◌, ◌++◌, Option, none, some, Bool, true, false, ◌==◌, ◌=s◌, ◌&&◌, ◌||◌, leb,
  not, if◌then◌else◌, bit_or, map, take, drop,
}
use gw6c.Session.Errors
use gw6c.Session.Words
use gw6c.Session.{Reply, Store, follow, get_status_code, is_code, redirects}

abbrev pub tunnel_v6v4 : ℕ
tunnel_v6v4 = 1

abbrev pub tunnel_v6udpv4 : ℕ
tunnel_v6udpv4 = 2

abbrev pub tunnel_v4v6 : ℕ
tunnel_v4v6 = 4

abbrev pub auth_anonymous : ℕ
auth_anonymous = 16

abbrev pub auth_plain : ℕ
auth_plain = 32

abbrev pub auth_digest_md5 : ℕ
auth_digest_md5 = 64

abbrev pub auth_passdss_3des_1 : ℕ
auth_passdss_3des_1 = 128

abbrev pub auth_any : ℕ
auth_any = 240

-- `toupper` in the C locale.
abbrev pub upper : ℕ → ℕ
upper c = if leb b'a' c && leb c b'z' then c - 32 else c

-- `strcasecmp(…) == 0`
abbrev pub same_word : List ℕ → List ℕ → Bool
same_word a b = map upper a =s map upper b

-- The bit of a token and a value; 0 if they are not known.
unfoldable pub set_capability : (token value : List ℕ) → ℕ
set_capability token value =
    if (Words.tunnel =s token) && (Words.v6v4 =s value)
    then tunnel_v6v4
    else if (Words.tunnel =s token) && (Words.v6udpv4 =s value)
    then tunnel_v6udpv4
    else if (Words.tunnel =s token) && (Words.v4v6 =s value)
    then tunnel_v4v6
    else if not (Words.auth =s token)
    then 0
    else if same_word Words.passdss value
    then auth_passdss_3des_1
    else if same_word Words.digest_md5 value
    then auth_digest_md5
    else if same_word Words.anonymous value
    then auth_anonymous
    else if same_word Words.plain value
    then auth_plain
    else 0

abbrev pub is_separator : ℕ → Bool
is_separator c = ((c == b' ') || (c == 13)) || (c == 10)

abbrev pub is_empty : List ℕ → Bool
is_empty [] = true
is_empty (x ∷ xs) = false

-- What a separator completes: the value, if there is a token, and then the flags.
unfoldable pub complete : (pending token : List ℕ) → ℕ → List ℕ × ℕ
complete pending token flags =
    if is_empty pending || is_empty token
    then (token, flags)
    else ([], bit_or flags (set_capability token pending))

-- The loop of `tspExtractCapability`. `pending` is what stands between `s` and `e`. Behind a
-- separator and behind `=` the loop steps over the next byte, which is then pending, whatever it is.
-- The buffer is filled with zeros, so past the end the loop stops.
unfoldable pub extract_from : (pending token : List ℕ) → ℕ → List ℕ → ℕ
extract_from pending token flags [] = flags
extract_from pending token flags (c ∷ []) =
    if is_separator c then (complete pending token flags).1 else flags
extract_from pending token flags (c ∷ d ∷ cs) =
    let (token', flags') = complete pending token flags in
    let next = extract_from (d ∷ []) token' flags' cs in
    let named = extract_from (d ∷ []) pending flags cs in
    let longer = extract_from (pending ++ (c ∷ [])) token flags (d ∷ cs) in
    if is_separator c then next else if (c == b'=') && not (is_empty pending) then named else longer

-- Behind the 11 bytes of `CAPABILITY `.
unfoldable pub extract_capability : List ℕ → ℕ
extract_capability reply = extract_from [] [] 0 (drop 11 reply)

-- The result, the capabilities, and the broker list. `none`: the reply did not come.
unfoldable pub get_capabilities : (expand : List ℕ → List ℕ) → Option Reply → Store → ℕ × ℕ × Store
get_capabilities expand none store = (Errors.socket_error, 0, store)
get_capabilities expand (some reply) store =
    let code = get_status_code (some reply.bytes) in
    let (followed, store') = follow expand reply store in
    if Words.capability =s take 11 reply.bytes
    then (Errors.no_error, extract_capability reply.bytes, store)
    else if is_code code 302
    then (Errors.tsp_version_error, 0, store)
    else if redirects code
    then (followed, 0, store')
    else (Errors.tsp_error, 0, store)
