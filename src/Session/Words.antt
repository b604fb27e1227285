-- ===== src/Session/Words.antt =====
-- The words of the protocol, in tspc-advanced/src/tsp/tsp_cap.c and tsp_auth.c.
use gw6c.Base.{ℕ, List, [], ◌∷◌}

abbrev pub tunnel : List ℕ
tunnel = b'T' ∷ b'U' ∷ b'N' ∷ b'N' ∷ b'E' ∷ b'L' ∷ []

abbrev pub auth : List ℕ
auth = b'A' ∷ b'U' ∷ b'T' ∷ b'H' ∷ []

abbrev pub v6v4 : List ℕ
v6v4 = b'V' ∷ b'6' ∷ b'V' ∷ b'4' ∷ []

abbrev pub v6udpv4 : List ℕ
v6udpv4 = b'V' ∷ b'6' ∷ b'U' ∷ b'D' ∷ b'P' ∷ b'V' ∷ b'4' ∷ []

abbrev pub v4v6 : List ℕ
v4v6 = b'V' ∷ b'4' ∷ b'V' ∷ b'6' ∷ []

abbrev pub passdss : List ℕ
passdss =
    b'P' ∷ b'A' ∷ b'S' ∷ b'S' ∷ b'D' ∷ b'S' ∷ b'S' ∷ b'-' ∷ b'3' ∷ b'D' ∷ b'E' ∷ b'S' ∷ b'-' ∷ b'1'
    ∷ []

abbrev pub digest_md5 : List ℕ
digest_md5 = b'D' ∷ b'I' ∷ b'G' ∷ b'E' ∷ b'S' ∷ b'T' ∷ b'-' ∷ b'M' ∷ b'D' ∷ b'5' ∷ []

abbrev pub anonymous : List ℕ
anonymous = b'A' ∷ b'N' ∷ b'O' ∷ b'N' ∷ b'Y' ∷ b'M' ∷ b'O' ∷ b'U' ∷ b'S' ∷ []

abbrev pub plain : List ℕ
plain = b'P' ∷ b'L' ∷ b'A' ∷ b'I' ∷ b'N' ∷ []

abbrev pub any : List ℕ
any = b'A' ∷ b'N' ∷ b'Y' ∷ []

abbrev pub capability : List ℕ
capability = b'C' ∷ b'A' ∷ b'P' ∷ b'A' ∷ b'B' ∷ b'I' ∷ b'L' ∷ b'I' ∷ b'T' ∷ b'Y' ∷ b' ' ∷ []
