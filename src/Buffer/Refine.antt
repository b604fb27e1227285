-- ===== src/Buffer/Refine.antt =====
-- The functions of buffer.c against the byte queue of `Buffer.Queue`.
use gw6c.Base.{
  ℕ, ◌+◌, ◌-◌, ◌≤◌, ◌<◌, ◌≡◌, refl, ap, ◌∙◌, sym, true, false, ◌⊎◌, inl, inr, List, [], ◌∷◌, none,
  some, arith, length, take, drop, ltb, dec_lt, lt→ltb, le→ltb, Run, done, exit, no_fuel, ◌>>=◌,
}
use gw6c.Buffer.{
  Memory, Buffer, Op, put, take_out, drop_front, drop_back, reset, read, failure, max_append,
  max_alloc, append, get, consume, consume_end, clear, apply, run,
}
use gw6c.Buffer.Queue
use gw6c.Buffer.Memory.{read-take, read-drop}
use gw6c.Buffer.Inv.{IsValid, contents, length-contents}
use gw6c.Buffer.Append.{Appended, append-Appended}

-- Where only the limits of the code stand against a call.
abbrev pub Crowded : Op → Buffer → Type 0
Crowded (put xs) b = (max_append < length xs) ⊎ (max_alloc < b.alloc + length xs + 32768)
Crowded _ b = ⊥

abbrev pub Follows : Op → Buffer → Run (List ℕ × Buffer) → Type 0
Follows op b (done (out, b')) = IsValid b' × (Queue.apply op (contents b) ≡ some (out, contents b'))
Follows op b (exit c) = (c ≡ failure) × ((Queue.apply op (contents b) ≡ none) ⊎ Crowded op b)
Follows op b no_fuel = ⊥

put-Follows :
    (b : Buffer) (xs : List ℕ) (r : Run Buffer)
    → Appended b xs r
    → Follows (put xs) b (r >>= λ b'. done ([], b'))
unfolding Queue.apply
put-Follows b xs (done b') a = (a.0, ap (λ q. some ([], q)) (sym a.1))
put-Follows b xs (exit c) a = (a.0, inr a.1)
put-Follows b xs no_fuel a = a

-- Taking `n` bytes when there are fewer, and when there are as many.
module _ {b : Buffer} (n : ℕ) (v : IsValid b) where
  get-short : b.end - b.offset < n → get b n ≡ exit failure
  unfolding get
  get-short h = ground arith

  pub get-enough :
      n ≤ b.end - b.offset
      → get b n ≡ done (read b.buf b.offset n, record b { offset = b.offset + n })
  unfolding get
  get-enough h = ground arith

  consume-short : b.end - b.offset < n → consume b n ≡ exit failure
  unfolding consume
  consume-short h = ground arith

  consume-enough : n ≤ b.end - b.offset → consume b n ≡ done (record b { offset = b.offset + n })
  unfolding consume
  consume-enough h = ground arith

  consume_end-short : b.end - b.offset < n → consume_end b n ≡ exit failure
  unfolding consume_end
  consume_end-short h = ground arith

  consume_end-enough : n ≤ b.end - b.offset → consume_end b n ≡ done (record b { end = b.end - n })
  unfolding consume_end
  consume_end-enough h = ground arith

  pub front_gone :
      n ≤ b.end - b.offset → drop n (contents b) ≡ contents (record b { offset = b.offset + n })
  front_gone h =
      read-drop b.buf b.offset n (b.end - b.offset) h
      ∙ ap (λ (k : ℕ). read b.buf (b.offset + n) k) (omega arith)

  back_gone :
      n ≤ b.end - b.offset
      → take (length (contents b) - n) (contents b) ≡ contents (record b { end = b.end - n })
  back_gone h = rw (length-contents b) (
      read-take b.buf b.offset (b.end - b.offset - n) (b.end - b.offset) (omega arith)
      ∙ ap (λ (k : ℕ). read b.buf b.offset k) (omega arith))

  short_test : b.end - b.offset < n → ltb (length (contents b)) n ≡ true
  short_test h = rw (length-contents b) (lt→ltb _ n h)

  enough_test : n ≤ b.end - b.offset → ltb (length (contents b)) n ≡ false
  enough_test h = rw (length-contents b) (le→ltb _ n h)

  get-Follows : Follows (take_out n) b (get b n)
  unfolding Queue.apply
  get-Follows = elim (dec_lt (b.end - b.offset) n) [
    | yes h ↦ rw (get-short h, short_test h) (refl, inl refl)
    | no h ↦
        let le : n ≤ b.end - b.offset = omega arith in
        rw (get-enough le, enough_test le, front_gone le, read-take b.buf b.offset n _ le)
          (ground arith, refl)
  ]

  consume-Follows : Follows (drop_front n) b (consume b n >>= λ b'. done ([], b'))
  unfolding Queue.apply
  consume-Follows = elim (dec_lt (b.end - b.offset) n) [
    | yes h ↦ rw (consume-short h, short_test h) (refl, inl refl)
    | no h ↦
        let le : n ≤ b.end - b.offset = omega arith in
        rw (consume-enough le, enough_test le, front_gone le) (ground arith, refl)
  ]

  consume_end-Follows : Follows (drop_back n) b (consume_end b n >>= λ b'. done ([], b'))
  unfolding Queue.apply
  consume_end-Follows = elim (dec_lt (b.end - b.offset) n) [
    | yes h ↦ rw (consume_end-short h, short_test h) (refl, inl refl)
    | no h ↦
        let le : n ≤ b.end - b.offset = omega arith in
        rw (consume_end-enough le, enough_test le, back_gone le) (ground arith, refl)
  ]

-- Each function of buffer.c, called on a valid buffer, either hands back what the byte queue
-- does, with the queue's bytes left in a valid buffer, or ends the process with the failure
-- status; it ends only where the queue has too few bytes, or where an append passes the limits.
pub apply-Follows :
    (raw : Memory) (op : Op) (b : Buffer) → IsValid b → Follows op b (apply raw op b)
unfolding apply
apply-Follows raw (put xs) b v = put-Follows b xs (append raw b xs) (append-Appended raw b xs v)
apply-Follows raw (take_out n) b v = get-Follows n v
apply-Follows raw (drop_front n) b v = consume-Follows n v
apply-Follows raw (drop_back n) b v = consume_end-Follows n v
apply-Follows raw reset b v = unfold clear Queue.apply read in (ground arith, refl)

abbrev pub Simulates : List Op → Buffer → Run (List (List ℕ) × Buffer) → Type 0
Simulates ops b (done (outs, b')) =
    IsValid b' × (Queue.run ops (contents b) ≡ some (outs, contents b'))
Simulates ops b (exit c) = c ≡ failure
Simulates ops b no_fuel = ⊥

-- A sequence of calls on a valid buffer hands back what it does on the byte queue, unless the
-- process ends with the failure status; it never runs out of fuel.
pub run-Simulates :
    (raw : Memory) (ops : List Op) (b : Buffer) → IsValid b → Simulates ops b (run raw ops b)
unfolding run Queue.run
run-Simulates raw [] b v = (v, refl)
run-Simulates raw (op ∷ ops) b v =
    first (run-Simulates raw ops) (apply raw op b) (apply-Follows raw op b v)
  where
    rest :
        (out : List ℕ) (b' : Buffer) (r : Run (List (List ℕ) × Buffer))
        → Queue.apply op (contents b) ≡ some (out, contents b')
        → Simulates ops b' r
        → Simulates (op ∷ ops) b (r >>= λ (outs, b''). done (out ∷ outs, b''))
    rest out b' (done (outs, b'')) e s = (s.0, rw (e, s.1, Queue.run))
    rest out b' (exit c) e s = s
    rest out b' no_fuel e s = s

    first :
        ((b' : Buffer) → IsValid b' → Simulates ops b' (run raw ops b'))
        → (r : Run (List ℕ × Buffer)) → Follows op b r
        → Simulates
            (op ∷ ops)
            b
            (r >>= λ (out, b'). run raw ops b' >>= λ (outs, b''). done (out ∷ outs, b''))
    first ih (done (out, b')) f = rest out b' (run raw ops b') f.1 (ih b' f.0)
    first ih (exit c) f = f.0
    first ih no_fuel f = f
