-- ===== src/Session/Passdss/Layout.antt =====
-- The layout of the messages of PASSDSS-3DES-1, from the steps of draft-newman-sasl-passdss-01 that
-- the comments of tspc-advanced/src/tsp/tsp_auth_passdss.c quote. In one point it is that of the
-- code and not of the draft: a number is its magnitude, without the zero byte that the draft puts
-- before a magnitude whose first bit is set (the comment in src/lib/bufaux.c).
use gw6c.Base.{codes, ℕ, ◌≤◌, ◌<◌, List, [], ◌∷◌, ◌++◌, length, take}
use gw6c.Buffer.Holds.{max_piece}
use gw6c.Buffer.Aux.{put_32bit}
use gw6c.Buffer.Aux.Numbers.{string, mpint, IsShort}
use gw6c.Session.Passdss.{Crypto, Key}

-- The values of the server's message; `sbuflen` is three octets.
pub record ServerMessage (N : Type 0) : Type 0 where
  pub dsa : Key N
  pub y : N
  pub ssecmask : ℕ
  pub first_octet : ℕ
  pub second_octet : ℕ
  pub third_octet : ℕ
  pub r : N
  pub s : N

module _ (c : Crypto) where
  open c use {bn, sha1, hmac, encrypt, encode, public}

  abbrev pub client_values : (userid : List ℕ) → List ℕ
  client_values userid = put_32bit 0 ++ (string userid ++ mpint bn public)

  abbrev pub dss_key : Key bn.Num → List ℕ
  dss_key k =
      string (codes "ssh-dss")
      ++ (mpint bn k.p ++ (mpint bn k.q ++ (mpint bn k.g ++ mpint bn k.pub_key)))

  abbrev pub options : ServerMessage bn.Num → List ℕ
  options m = m.ssecmask ∷ m.first_octet ∷ m.second_octet ∷ m.third_octet ∷ []

  abbrev pub signature : ServerMessage bn.Num → List ℕ
  signature m = string (codes "ssh-dss") ++ (mpint bn m.r ++ mpint bn m.s)

  abbrev pub server_values : ServerMessage bn.Num → List ℕ
  server_values m =
      put_32bit (length (dss_key m.dsa))
      ++ (dss_key m.dsa ++ (mpint bn m.y ++ (options m ++ string (signature m))))

  -- Items (1) to (7), which are signed with the shared secret.
  abbrev pub items : (userid : List ℕ) → ServerMessage bn.Num → List ℕ
  items userid m =
      client_values userid
      ++ (put_32bit (length (dss_key m.dsa)) ++ (dss_key m.dsa ++ (mpint bn m.y ++ options m)))

  module _ (userid : List ℕ) (m : ServerMessage bn.Num) (k : bn.Num) where
    abbrev pub hash : List ℕ
    hash = sha1 (items userid m ++ mpint bn k)

    abbrev pub key_for : (letter : ℕ) → List ℕ
    key_for letter = sha1 (mpint bn k ++ (letter ∷ hash))

    -- cs-encryption-iv, cs-encryption-key and cs-integrity-key of step (I).
    abbrev pub encryption_iv : List ℕ
    encryption_iv = take 8 (key_for b'A')

    abbrev pub encryption_key : List ℕ
    encryption_key = take 24 (key_for b'C' ++ sha1 (mpint bn k ++ key_for b'C'))

    -- Steps (J), (L) and (M): the selected layer with the three octets of the maximal buffer size,
    -- the passphrase, and their code.
    module _ (max_size : List ℕ) where
      abbrev pub layer : List ℕ
      layer = m.ssecmask ∷ max_size

      abbrev pub code : List ℕ
      code = hmac (key_for b'E') (items userid m ++ layer)

      abbrev pub last_message : (passwd : List ℕ) → List ℕ
      last_message passwd =
          encode (encrypt encryption_key encryption_iv ((layer ++ string passwd) ++ code))

  -- Numbers of at most 1 KiB and texts that fit the buffers of the code, a key and a signature
  -- that are not shorter than the code asks for.
  pub record IsFair (userid passwd : List ℕ) (m : ServerMessage bn.Num) (k : bn.Num) : Type 0 where
    pub own : IsShort bn public
    pub p : IsShort bn m.dsa.p
    pub q : IsShort bn m.dsa.q
    pub g : IsShort bn m.dsa.g
    pub z : IsShort bn m.dsa.pub_key
    pub y : IsShort bn m.y
    pub r : IsShort bn m.r
    pub s : IsShort bn m.s
    pub secret : IsShort bn k
    pub mask : m.ssecmask < 256
    pub name : length userid ≤ 1024
    pub phrase : length passwd ≤ 1024
    pub enough_key : 240 ≤ length (dss_key m.dsa)
    pub enough_signature : 59 ≤ length (signature m)
    pub values : length (server_values m) ≤ max_piece
    pub signed : length (items userid m) ≤ max_piece
