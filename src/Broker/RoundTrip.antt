-- ===== src/Broker/RoundTrip.antt =====
-- The broker list file: a list that is written and read back.
use mathlib.Core.List.{append_assoc, append-nil}
use gw6c.Base.{
  ℕ, zero, suc, ◌+◌, ◌-◌, ◌≤◌, ◌<◌, ◌≡◌, refl, sym, ap, ◌∙◌, List, [], ◌∷◌, ◌++◌, Bool, true, false,
  ltb, ◌==◌, ==_refl, lt→ltb, All, length, take, arith, map,
}
use gw6c.Broker.{ok, Broker, no_type, add_broker, max_brokers}
use gw6c.Broker.Files.{
  lines_from, file_lines, c_string, chop, trim, write_from, write_broker_list, read_from,
  read_broker_list, line_feed, carriage_return, line_room,
}

-- A byte of an address: neither zero nor an end of line.
abbrev pub IsLetter : ℕ → Type 0
IsLetter c = ((c == 0) ≡ false) × ((c == line_feed) ≡ false) × ((c == carriage_return) ≡ false)

-- An address that fits a line with its line feed and is no format.
abbrev pub IsPlain : (expand : List ℕ → List ℕ) → Broker → Type 0
IsPlain expand b =
    All IsLetter b.address
    × (0 < length b.address)
    × (length b.address < line_room)
    × (expand b.address ≡ b.address)

-- What reading gives of a broker: the address is all that the file holds.
abbrev pub forgotten : Broker → Broker
forgotten b = record { address = b.address; address_type = no_type; distance = 0 }

-- A line that fits.
lines-line :
    (room : ℕ) (cur w rest : List ℕ)
    → All IsLetter w
    → length w < room
    → lines_from room cur (w ++ (line_feed ∷ rest))
      ≡ (cur ++ (w ++ (line_feed ∷ []))) ∷ lines_from line_room [] rest
unfolding lines_from
lines-line room [] [] rest h fit = refl
lines-line room (y ∷ cur) [] rest h fit = refl
lines-line room [] (x ∷ w) rest h fit =
    let room_left : (room == 1) ≡ false = ground arith in
    rw (h.0.1, room_left) (lines-line (room - 1) (x ∷ []) w rest h.1 (omega arith))
lines-line room (y ∷ cur) (x ∷ w) rest h fit =
    let room_left : (room == 1) ≡ false = ground arith in
    rw (h.0.1, room_left)
      (lines-line (room - 1) (y ∷ (cur ++ (x ∷ []))) w rest h.1 (omega arith)
        ∙ ap (λ l. (y ∷ l) ∷ lines_from line_room [] rest)
            (append_assoc cur (x ∷ []) (w ++ (line_feed ∷ []))))

c_string-letters :
    (w : List ℕ) → All IsLetter w → c_string (w ++ (line_feed ∷ [])) ≡ w ++ (line_feed ∷ [])
unfolding c_string
c_string-letters [] h = refl
c_string-letters (x ∷ w) h = rw (h.0.0) (ap (λ r. x ∷ r) (c_string-letters w h.1))

chop-line : (w : List ℕ) → chop (w ++ (line_feed ∷ [])) ≡ w
unfolding chop
chop-line [] = refl
chop-line (x ∷ []) = refl
chop-line (x ∷ y ∷ w) = ap (λ r. x ∷ r) (chop-line (y ∷ w))

chop-letters : (w : List ℕ) → All IsLetter w → chop w ≡ w
unfolding chop
chop-letters [] h = refl
chop-letters (x ∷ []) h = rw (h.0.1, h.0.2) refl
chop-letters (x ∷ y ∷ w) h = ap (λ r. x ∷ r) (chop-letters (y ∷ w) h.1)

trim-line : (w : List ℕ) → All IsLetter w → trim (w ++ (line_feed ∷ [])) ≡ w
unfolding trim
trim-line w h =
    ap (λ l. chop (chop l)) (c_string-letters w h) ∙ ap chop (chop-line w) ∙ chop-letters w h

abbrev pub contents : List Broker → List ℕ
contents [] = []
contents (b ∷ bs) = b.address ++ (line_feed ∷ contents bs)

write_from-contents :
    (can_write : ℕ → Bool) (i : ℕ) (out : List ℕ) (bs : List Broker)
    → ((k : ℕ) → can_write k ≡ true)
    → write_from can_write i out bs ≡ (ok, out ++ contents bs)
unfolding write_from
write_from-contents can_write i out [] h = ap (λ o. (ok, o)) (sym (append-nil out))
write_from-contents can_write i out (b ∷ bs) h = rw (h i) (
    write_from-contents can_write (i + 1) (out ++ (b.address ++ (line_feed ∷ []))) bs h
    ∙ ap (λ o. (ok, o))
        (append_assoc out (b.address ++ (line_feed ∷ [])) (contents bs)
          ∙ ap (λ o. out ++ o) (append_assoc b.address (line_feed ∷ []) (contents bs))))

abbrev line_of : Broker → List ℕ
line_of b = b.address ++ (line_feed ∷ [])

lines-contents :
    (expand : List ℕ → List ℕ) (bs : List Broker)
    → All (IsPlain expand) bs
    → file_lines (contents bs) ≡ map line_of bs
unfolding file_lines lines_from
lines-contents expand [] h = refl
lines-contents expand (b ∷ bs) h =
    lines-line line_room [] b.address (contents bs) h.0.0 h.0.2
    ∙ ap (λ l. line_of b ∷ l) (lines-contents expand bs h.1)

take-short : (n : ℕ) (xs : List ℕ) → length xs ≤ n → take n xs ≡ xs
take-short zero [] h = refl
take-short zero (x ∷ xs) h = ground arith
take-short (suc n) [] h = refl
take-short (suc n) (x ∷ xs) h = ap (λ r. x ∷ r) (take-short n xs (omega arith))

module _ (expand : List ℕ → List ℕ) (can_alloc : ℕ → Bool)
    (mem : (k : ℕ) → can_alloc k ≡ true) where
  read_from-lines :
      (bs read : List Broker) (count : ℕ)
      → All (IsPlain expand) bs
      → count + length bs ≤ max_brokers
      → read_from expand can_alloc (map line_of bs) read count ≡ (ok, read ++ map forgotten bs)
  unfolding read_from add_broker
  read_from-lines [] read count h room = ap (λ l. (ok, l)) (sym (append-nil read))
  read_from-lines (b ∷ bs) read count h room =
      let some_bytes : ltb 0 (length b.address) ≡ true = lt→ltb 0 (length b.address) h.0.1 in
      let place : ltb count max_brokers ≡ true = lt→ltb count max_brokers (omega arith) in
      let whole : take 254 b.address ≡ b.address =
        take-short 254 b.address (omega (arith, h.0.2)) in
      rw
        (
          trim-line b.address h.0.0,
          h.0.3,
          whole,
          some_bytes,
          place,
          mem count,
          ==_refl (length b.address),
        )
        (read_from-lines bs (read ++ (forgotten b ∷ [])) (count + 1) h.1 (omega arith)
          ∙ ap (λ l. (ok, l)) (append_assoc read (forgotten b ∷ []) (map forgotten bs)))

-- A list of at most 50 brokers, whose addresses have 1 to 253 bytes and neither zero, line ends
-- nor conversions of a format, is written to the file; reading the file gives brokers with the same
-- addresses in the same order, but none with its type or its distance.
pub read_broker_list-write :
    (expand : List ℕ → List ℕ) (can_alloc can_write : ℕ → Bool) (brokers : List Broker)
    → ((k : ℕ) → can_alloc k ≡ true)
    → ((k : ℕ) → can_write k ≡ true)
    → All (IsPlain expand) brokers
    → length brokers ≤ max_brokers
    → ((write_broker_list true true can_write brokers).0 ≡ ok)
      × (read_broker_list expand true can_alloc (write_broker_list true true can_write brokers).1
          ≡ (ok, map forgotten brokers))
unfolding write_broker_list read_broker_list
read_broker_list-write expand can_alloc can_write brokers mem disk plain fit =
    rw (write_from-contents can_write 0 [] brokers disk, lines-contents expand brokers plain)
      (refl, read_from-lines expand can_alloc mem brokers [] 0 plain (omega arith))
