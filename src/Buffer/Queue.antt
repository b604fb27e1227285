-- ===== src/Buffer/Queue.antt =====
-- What a buffer promises: a queue of bytes, read from the front and cut at either end.
use gw6c.Base.{
  ℕ, ◌-◌, List, [], ◌∷◌, ◌++◌, Option, none, some, ltb, if◌then◌else◌, length, take, drop,
}
use gw6c.Buffer.{Op, put, take_out, drop_front, drop_back, reset}

-- `none` where more bytes are asked for than there are.
unfoldable pub apply : Op → List ℕ → Option (List ℕ × List ℕ)
apply (put bytes) q = some ([], q ++ bytes)
apply (take_out n) q = if ltb (length q) n then none else some (take n q, drop n q)
apply (drop_front n) q = if ltb (length q) n then none else some ([], drop n q)
apply (drop_back n) q = if ltb (length q) n then none else some ([], take (length q - n) q)
apply reset q = some ([], [])

unfoldable pub run : List Op → List ℕ → Option (List (List ℕ) × List ℕ)
run [] q = some ([], q)
run (op ∷ ops) q = elim (apply op q) [
  | none ↦ none
  | some (out, q') ↦ elim (run ops q') [ none ↦ none | some (outs, q'') ↦ some (out ∷ outs, q'') ]
]
