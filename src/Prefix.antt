-- ===== src/Prefix.antt =====
-- `IsAddressInPrefix` of tspc-advanced/src/lib/lib.c. `resolve` is what `getaddrinfo` gives for a
-- numeric IPv6 address: its 16 bytes, `none` on an error.
pub mod Laws
mod Tests
use gw6c.Base.{
  ℕ, ◌/◌, ◌%◌, ◌^◌, List, Option, none, some, Bool, true, false, not, ltb, leb, ◌==◌, ◌=s◌, ◌&&◌,
  if◌then◌else◌, take, get_or,
}
use gw6c.Session.{ℤ, pos, negsuc}

-- 0, 1 and -1.
pub data Verdict : Type 0 where
  part_of not_part_of invalid : Verdict

abbrev pub is_prefix_length : ℤ → Bool
is_prefix_length (pos n) = ltb 0 n && leb n 128
is_prefix_length (negsuc n) = false

abbrev pub size_of : ℤ → ℕ
size_of (pos n) = n
size_of (negsuc n) = 0

-- `compare_bytes` whole bytes, and then `compare_bits` bits of the next: the shift is by the
-- number of bits, not by what they leave of the byte.
unfoldable pub compare_addresses : (compare_bytes compare_bits : ℕ) → (a p : List ℕ) → Verdict
compare_addresses compare_bytes compare_bits a p =
    let left = get_or a compare_bytes 0 / 2 ^ compare_bits in
    let right = get_or p compare_bytes 0 / 2 ^ compare_bits in
    if not (take compare_bytes a =s take compare_bytes p)
    then not_part_of
    else if ltb 0 compare_bits && not (left == right)
    then not_part_of
    else part_of

unfoldable pub compare_resolved : (prefix_len : ℕ) → (a p : Option (List ℕ)) → Verdict
compare_resolved prefix_len none p = invalid
compare_resolved prefix_len (some a) none = invalid
compare_resolved prefix_len (some a) (some p) =
    compare_addresses (prefix_len / 8) (prefix_len % 8) a p

unfoldable pub is_address_in_prefix :
    (resolve : List ℕ → Option (List ℕ))
    → (address prefix : Option (List ℕ)) → (prefix_len : ℤ) → Verdict
is_address_in_prefix resolve none prefix prefix_len = invalid
is_address_in_prefix resolve (some address) none prefix_len = invalid
is_address_in_prefix resolve (some address) (some prefix) prefix_len =
    if is_prefix_length prefix_len
    then compare_resolved (size_of prefix_len) (resolve address) (resolve prefix)
    else invalid
