-- ===== src/Broker/Log.antt =====
-- `tspLogRedirectionList` of tspc-advanced/src/tsp/tsp_redirect.c: the text that it writes into a
-- local buffer of 4096 bytes.
use gw6c.Base.{
  ℕ, ◌+◌, ◌-◌, ◌*◌, ◌≤◌, ◌≡◌, refl, List, [], ◌∷◌, ◌++◌, Bool, true, false, leb, if◌then◌else◌,
  length, length-append, All, arith,
}
use gw6c.Broker.{Broker}

abbrev pub max_list_string : ℕ
max_list_string = 4096

abbrev list_start : List ℕ
list_start = b'[' ∷ b' ' ∷ []

abbrev list_end : List ℕ
list_end = b' ' ∷ b']' ∷ []

abbrev separator : List ℕ
separator = b',' ∷ b' ' ∷ []

abbrev suspension : List ℕ
suspension = b'.' ∷ b'.' ∷ b'.' ∷ []

-- `space_left`, which the loop does not change.
abbrev pub space_left : ℕ
space_left = max_list_string - 1 - (2 + 2 + 3 + 2)

-- The loop; `first` is `first_broker`.
unfoldable pub log_from : (first : Bool) → List Broker → List ℕ
log_from first [] = []
log_from true (b ∷ bs) =
    if leb (length b.address) space_left then b.address ++ log_from false bs else suspension
log_from false (b ∷ bs) =
    if leb (2 + length b.address) space_left
    then separator ++ (b.address ++ log_from false bs)
    else separator ++ suspension

-- The string without its final zero.
unfoldable pub log_redirection_list : List Broker → List ℕ
log_redirection_list brokers = list_start ++ (log_from true brokers ++ list_end)

abbrev pub total : List Broker → ℕ
total [] = 0
total (b ∷ bs) = length b.address + total bs

abbrev pub Short : Broker → Type 0
Short b = length b.address ≤ 254

length-log_from :
    (bs : List Broker) → All Short bs → length (log_from false bs) ≡ total bs + 2 * length bs
unfolding log_from
length-log_from [] h = refl
length-log_from (b ∷ bs) h = ground (
  arith,
  length-log_from bs h.1,
  length-append b.address (log_from false bs),
  length-append separator (b.address ++ log_from false bs),
)

-- For addresses of at most 254 bytes, which is what a broker can hold, the text is never cut,
-- whatever the size of the buffer: it has all the addresses, two bytes between each, and four
-- bytes more.
pub length-log_redirection_list :
    (b : Broker) (bs : List Broker)
    → All Short (b ∷ bs)
    → length (log_redirection_list (b ∷ bs)) ≡ total (b ∷ bs) + 2 * length bs + 4
unfolding log_redirection_list log_from
length-log_redirection_list b bs h =
    let size : length (log_from true (b ∷ bs)) ≡ total (b ∷ bs) + 2 * length bs =
      ground (arith, length-log_from bs h.1, length-append b.address (log_from false bs)) in
    omega (arith, size, length-append (log_from true (b ∷ bs)) list_end)
