-- ===== src/Buffer/Inv.antt =====
-- The representation invariant of `Buffer`: the bytes lie inside the allocation, and no `size_t`
-- of the code wraps.
use gw6c.Base.{ℕ, ◌-◌, ◌≤◌, ◌<◌, ◌≡◌, List, arith, length}
use gw6c.Buffer.{Memory, Buffer, max_alloc, sub_size, init, read, rewind, len}
use gw6c.Buffer.Memory.{length-read}

pub record IsValid (b : Buffer) : Type 0 where
  pub ordered : b.offset ≤ b.end
  pub inside : b.end < b.alloc
  pub small : b.alloc ≤ max_alloc

-- The bytes in the queue.
abbrev pub contents : Buffer → List ℕ
contents b = read b.buf b.offset (b.end - b.offset)

pub init-IsValid : (raw : Memory) → IsValid (init raw)
unfolding init
init-IsValid raw = ground arith

pub sub_size-eq : {b : Buffer} → IsValid b → sub_size b.end b.offset ≡ b.end - b.offset
sub_size-eq v = omega arith

pub length-contents : (b : Buffer) → length (contents b) ≡ b.end - b.offset
length-contents b = length-read b.buf b.offset (b.end - b.offset)

pub len-contents : {b : Buffer} → IsValid b → len b ≡ length (contents b)
unfolding len
len-contents {b} v = omega (arith, length-contents b)

pub rewind-IsValid : {b : Buffer} → IsValid b → IsValid (rewind b)
unfolding rewind
rewind-IsValid v = ground arith
