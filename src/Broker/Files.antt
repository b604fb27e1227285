-- ===== src/Broker/Files.antt =====
-- The two files of tspc-advanced/src/tsp/tsp_redirect.c: the broker list and the last server.
-- A file is the list of its bytes, `none` one that cannot be opened.
use gw6c.Base.{
  ℕ, ◌+◌, ◌-◌, List, [], ◌∷◌, ◌++◌, Option, none, some, Bool, true, false, not, ltb, ◌==◌, ◌||◌,
  if◌then◌else◌, length,
}
use gw6c.Broker.{
  Status, ok, internal_err, cant_open_file, no_last_server, cant_write_to_file,
  cant_add_broker_to_list, too_many_brokers, is_ok, Broker, no_type, max_brokers, add_broker,
}

abbrev pub line_feed : ℕ
line_feed = 10

abbrev pub carriage_return : ℕ
carriage_return = 13

abbrev pub line_room : ℕ
line_room = 254

-- The results of `fgets` with a buffer of 255 bytes, one after the other: a line ends behind a
-- line feed, or when 254 bytes are read. `room` is what the line `cur` may still take.
unfoldable pub lines_from : ℕ → List ℕ → List ℕ → List (List ℕ)
lines_from room [] [] = []
lines_from room (x ∷ cur) [] = (x ∷ cur) ∷ []
lines_from room cur (c ∷ cs) =
    let line = cur ++ (c ∷ []) in
    let next = lines_from (room - 1) line cs in
    let fresh = lines_from line_room [] cs in
    if c == line_feed || room == 1 then line ∷ fresh else next

unfoldable pub file_lines : List ℕ → List (List ℕ)
file_lines bytes = lines_from line_room [] bytes

-- `line` as a C string: up to the first zero byte.
unfoldable pub c_string : List ℕ → List ℕ
c_string [] = []
c_string (c ∷ cs) = if c == 0 then [] else c ∷ c_string cs

-- Drops the last byte if it is CR or LF.
unfoldable pub chop : List ℕ → List ℕ
chop [] = []
chop (c ∷ []) = if c == line_feed || c == carriage_return then [] else c ∷ []
chop (c ∷ d ∷ cs) = c ∷ chop (d ∷ cs)

unfoldable pub trim : List ℕ → List ℕ
trim line = chop (chop (c_string line))

-- `fprintf(file, "%s\n", …)` for each broker; `can_write` tells which call succeeds. The result
-- is the status and what the file holds.
unfoldable pub write_from : (ℕ → Bool) → ℕ → List ℕ → List Broker → Status × List ℕ
write_from can_write i out [] = (ok, out)
write_from can_write i out (b ∷ bs) =
    let rest = write_from can_write (i + 1) (out ++ (b.address ++ (line_feed ∷ []))) bs in
    if can_write i then rest else (cant_write_to_file, out)

-- `named`: the caller has a file name; `can_open`: the file can be opened for writing.
unfoldable pub write_broker_list :
    (named can_open : Bool) → (ℕ → Bool) → List Broker → Status × Option (List ℕ)
write_broker_list named can_open can_write brokers =
    if not named
    then (internal_err, none)
    else if not can_open
    then (cant_open_file, none)
    else (let (status, out) = write_from can_write 0 [] brokers in (status, some out))

module _ (expand : List ℕ → List ℕ) where
  -- The loop over the lines, from the list and the count so far.
  unfoldable pub read_from : (ℕ → Bool) → List (List ℕ) → List Broker → ℕ → Status × List Broker
  read_from can_alloc [] brokers count = (ok, brokers)
  read_from can_alloc (l ∷ ls) brokers count =
      let line = trim l in
      let (status, brokers') = add_broker expand (can_alloc count) brokers (some line) no_type 0 in
      let skip = read_from can_alloc ls brokers count in
      let more = read_from can_alloc ls brokers' (count + 1) in
      if not (ltb 0 (length line))
      then skip
      else if ltb count max_brokers
      then (if is_ok status then more else (cant_add_broker_to_list, brokers'))
      else (too_many_brokers, brokers)

  unfoldable pub read_broker_list :
      (named : Bool) → (ℕ → Bool) → Option (List ℕ) → Status × List Broker
  read_broker_list named can_alloc none = if named then (cant_open_file, []) else (internal_err, [])
  read_broker_list named can_alloc (some bytes) =
      if named then read_from can_alloc (file_lines bytes) [] 0 else (internal_err, [])

  -- `*line == '#'`, and blank lines.
  unfoldable pub is_comment : List ℕ → Bool
  is_comment [] = false
  is_comment (c ∷ cs) = (c == b'#' || c == carriage_return) || c == line_feed

  -- The server is passed to `sprintf` as a format.
  unfoldable pub find_server : List (List ℕ) → Option (List ℕ)
  find_server [] = none
  find_server (l ∷ ls) = if is_comment l then find_server ls else some (expand (trim l))

  unfoldable pub read_last_server : (named : Bool) → Option (List ℕ) → Status × Option (List ℕ)
  read_last_server false file = (internal_err, none)
  read_last_server true none = (cant_open_file, none)
  read_last_server true (some bytes) = elim (find_server (file_lines bytes)) [
    | none ↦ (no_last_server, none)
    | some server ↦ (ok, some server)
  ]

unfoldable pub write_last_server :
    (named can_open can_write : Bool) → Option (List ℕ) → Status × Option (List ℕ)
write_last_server named can_open can_write none = (internal_err, none)
write_last_server named can_open can_write (some server) =
    if not named
    then (internal_err, none)
    else if not can_open
    then (cant_open_file, none)
    else if not can_write
    then (cant_write_to_file, some [])
    else (ok, some (server ++ (line_feed ∷ [])))
