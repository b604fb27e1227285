-- ===== src/Buffer.antt =====
-- tspc-advanced/src/lib/buffer.c, the growing byte FIFO: the structure and its functions. The
-- memory behind `buf` is a function from addresses to bytes, `raw` what `malloc` and `realloc`
-- leave in fresh memory; both are taken to succeed, which the code does not check.
mod Tests
pub mod Queue
pub mod Memory
pub mod Inv
pub mod Append
pub mod Refine
pub mod Holds
pub mod Aux
use gw6c.Base.{
  ℕ, zero, suc, ◌+◌, ◌-◌, ◌/◌, ◌%◌, ◌^◌, Bool, List, [], ◌∷◌, ltb, leb, ◌==◌, ◌&&◌, if◌then◌else◌,
  length, get_or, Run, done, exit, no_fuel, ◌>>=◌,
}

abbrev pub Memory : Type 0
Memory = ℕ → ℕ

-- `memcpy` of bytes to address `p`, and reading `n` bytes from it.
unfoldable pub store : Memory → ℕ → List ℕ → Memory
store m p [] i = m i
store m p (x ∷ xs) i = if i == p then x else store m (p + 1) xs i

unfoldable pub read : Memory → ℕ → ℕ → List ℕ
read m p zero = []
read m p (suc n) = m p ∷ read m (p + 1) n

-- `Buffer`
pub record Buffer : Type 0 where
  pub buf : Memory
  pub alloc : ℕ
  pub offset : ℕ
  pub end : ℕ

-- `size_t` is 64 bits wide, and wraps.
abbrev pub add_size : ℕ → ℕ → ℕ
add_size a b = (a + b) % 2 ^ 64

abbrev pub sub_size : ℕ → ℕ → ℕ
sub_size a b = (a + 2 ^ 64 - b) % 2 ^ 64

abbrev pub failure : ℕ
failure = 255

abbrev pub max_append : ℕ
max_append = 0x100000

abbrev pub max_alloc : ℕ
max_alloc = 0xa00000

module _ (raw : Memory) where
  unfoldable pub init : Buffer
  init = record { buf = raw; alloc = 4096; offset = 0; end = 0 }

  -- `realloc` keeps the old bytes.
  unfoldable pub grow : Buffer → ℕ → Buffer
  grow b newlen = record b { buf = λ i. if ltb i b.alloc then b.buf i else raw i; alloc = newlen }

unfoldable pub free : Buffer → Buffer
free b = if ltb 0 b.alloc then record b { buf = λ i. 0; alloc = 0 } else b

unfoldable pub clear : Buffer → Buffer
clear b = record b { offset = 0; end = 0 }

unfoldable pub len : Buffer → ℕ
len b = sub_size b.end b.offset

-- The `memmove` to the beginning.
unfoldable pub compact : Buffer → Buffer
compact b =
    let size = sub_size b.end b.offset in
    record b {
      buf = λ i. if ltb i size then b.buf (b.offset + i) else b.buf i;
      offset = 0;
      end = size;
    }

-- An empty buffer starts again from the beginning.
unfoldable pub rewind : Buffer → Buffer
rewind b = if b.offset == b.end then record b { offset = 0; end = 0 } else b

module _ (raw : Memory) where
  -- From the label `restart` on, with fuel; the result is the index of the space.
  unfoldable pub restart : ℕ → Buffer → ℕ → Run (ℕ × Buffer)
  restart zero b n = no_fuel
  restart (suc fuel) b n =
      let newlen = add_size (add_size b.alloc n) 32768 in
      let moved = restart fuel (compact b) n in
      let grown = restart fuel (grow raw b newlen) n in
      if ltb (add_size b.end n) b.alloc
      then done (b.end, record b { end = add_size b.end n })
      else if ltb (b.alloc / 2) b.offset
      then moved
      else if ltb max_alloc newlen
      then exit failure
      else grown

  -- Three rounds: as it is, after a move, after growing.
  unfoldable pub append_space : Buffer → ℕ → Run (ℕ × Buffer)
  append_space b n = if ltb max_append n then exit failure else restart 3 (rewind b) n

  unfoldable pub append : Buffer → List ℕ → Run Buffer
  append b bytes = do
    (p, b') ← append_space b (length bytes)
    done (record b' { buf = store b'.buf p bytes })

-- The bytes that go out, and the buffer.
unfoldable pub get : Buffer → ℕ → Run (List ℕ × Buffer)
get b n =
    if ltb (sub_size b.end b.offset) n
    then exit failure
    else done (read b.buf b.offset n, record b { offset = add_size b.offset n })

unfoldable pub consume : Buffer → ℕ → Run Buffer
consume b n =
    if ltb (sub_size b.end b.offset) n
    then exit failure
    else done (record b { offset = add_size b.offset n })

unfoldable pub consume_end : Buffer → ℕ → Run Buffer
consume_end b n =
    if ltb (sub_size b.end b.offset) n
    then exit failure
    else done (record b { end = sub_size b.end n })

-- A client's calls, and what they hand back.
pub data Op : Type 0 where
  put : List ℕ → Op
  take_out : ℕ → Op
  drop_front : ℕ → Op
  drop_back : ℕ → Op
  reset : Op

module _ (raw : Memory) where
  unfoldable pub apply : Op → Buffer → Run (List ℕ × Buffer)
  apply (put bytes) b = do b' ← append raw b bytes; done ([], b')
  apply (take_out n) b = get b n
  apply (drop_front n) b = do b' ← consume b n; done ([], b')
  apply (drop_back n) b = do b' ← consume_end b n; done ([], b')
  apply reset b = done ([], clear b)

  unfoldable pub run : List Op → Buffer → Run (List (List ℕ) × Buffer)
  run [] b = done ([], b)
  run (op ∷ ops) b = do (out, b') ← apply op b; (outs, b'') ← run ops b'; done (out ∷ outs, b'')
