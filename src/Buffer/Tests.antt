-- ===== src/Buffer/Tests.antt =====
-- Runs of tspc-advanced/src/lib/buffer.c and bufaux.c, and the theorems at them.
use gw6c.Base.{refl, Run, done, exit, no_fuel, map, ℕ, ◌≡◌, List, [], ◌∷◌, arith}
use gw6c.Buffer.{
  read, append_space, restart, rewind, Memory, Buffer, Op, put, take_out, drop_front, drop_back,
  init, append, run,
}
use gw6c.Buffer.Inv.{contents, init-IsValid}
use gw6c.Buffer.Refine.{Simulates, run-Simulates}
use gw6c.Buffer.Aux.{put_int, put_octet, put_string, put_32bit}
use gw6c.Buffer.Aux.RoundTrip.{
  Field, word, octet, text, kind, put_field, put_fields, get_fields, get_fields-put_fields,
}

abbrev zeros : Memory
zeros i = 0

abbrev fresh : Buffer
fresh = init zeros

abbrev few : List ℕ
few = 3 ∷ 1 ∷ 4 ∷ []

abbrev calls : List Op
calls = put few ∷ take_out 1 ∷ drop_back 1 ∷ put (5 ∷ []) ∷ drop_front 1 ∷ take_out 1 ∷ []

run-Simulates_example : Simulates calls fresh (run zeros calls fresh)
run-Simulates_example = run-Simulates zeros calls fresh (init-IsValid zeros)

abbrev fields : List Field
fields = word 305419896 ∷ octet 7 ∷ text few ∷ []

abbrev outcome : Run Buffer → Buffer
outcome (done b) = b
outcome (exit c) = fresh
outcome no_fuel = fresh

get_fields-put_fields_example :
    (b : Buffer) × (get_fields (map kind fields) (outcome (put_fields zeros fresh fields))
      ≡ done (fields, b))
    × (contents b ≡ [])
unfolding put_fields put_field put_int put_octet put_string append append_space restart rewind init
    read put_32bit
get_fields-put_fields_example =
    get_fields-put_fields zeros fresh (outcome (put_fields zeros fresh fields)) fields
      (init-IsValid zeros) refl (omega arith, (omega arith, (omega arith, tt))) refl
