-- ===== src/Keepalive/Left.antt =====
-- What one round of `NetKeepaliveDo` of tspc-advanced/src/net/net_ka.c leaves, from any state.
use mathlib.Core.Path.{subst}
use gw6c.Base.{
  if_true, if_false, ℕ, ◌+◌, ◌<◌, ◌≡◌, refl, Bool, true, false, ◌||◌, if_where, Bool-cases, ne→==,
  inl, inr, arith, ap, sym, ◌∙◌,
}
use gw6c.Keepalive.{
  Keepalive, Call, Result, everything_ok, too_many_timeouts, maximal_cycles, note_read, note_write,
  seems_up, ping, round, keepalive_do,
}
use gw6c.Keepalive.Rounds.{
  reached, Down, down, after, outcome, last_or_more, outcome-last, outcome-more, round-quiet, due,
  keepalive_do-on,
}

-- What a round of at most four timeouts leaves.
pub data Left (c : Call) (p : Result × Keepalive) : Type 0 where
  given_up : p.0 ≡ too_many_timeouts → Left c p
  left :
      (t : ℕ) (k : Keepalive)
      → p ≡ (everything_ok, k)
      → Down t c.next_sec c.next_usec k
      → t < maximal_cycles
      → Left c p

rest : Call → Keepalive → Keepalive
rest c k = record k {
  doit = true;
  count = 0;
  still_up = false;
  next_event_sec = c.next_sec;
  next_event_usec = c.next_usec;
}

round-up :
    (c : Call) (k : Keepalive)
    → seems_up k ≡ true
    → k.consecutive_timeout < maximal_cycles
    → round c k ≡ (everything_ok, rest c k)
unfolding round rest
round-up c k up few = simp (up, ne→== k.consecutive_timeout 5 (λ e. absurd (omega arith)))

round-Left :
    (c : Call) (k : Keepalive)
    → k.init ≡ true
    → k.got_read ≡ false
    → k.consecutive_timeout < maximal_cycles
    → Left c (round c k)
unfolding rest after ping outcome
round-Left c k on unread few = elim (Bool-cases (seems_up k)) [
  | inl up ↦
      left k.consecutive_timeout (rest c k) (round-up c k up few)
        (down on unread refl refl refl refl refl) few
  | inr quiet ↦ elim (last_or_more k.consecutive_timeout few) [
    | inl last ↦ given_up (ap (λ p. p.0) (round-quiet c k quiet) ∙ ap outcome last ∙ outcome-last)
    | inr more ↦
        left (k.consecutive_timeout + 1) (after c k)
          (round-quiet c k quiet ∙ ap (λ r. (r, after c k)) (outcome-more _ more))
          (down on unread refl refl refl refl refl) (omega arith)
  ]
]

-- Initialised, with fewer than five timeouts, and the event at that time.
pub record Ready (sec usec : ℕ) (k : Keepalive) : Type 0 where
  pub on : k.init ≡ true
  pub few : k.consecutive_timeout < maximal_cycles
  pub at : k.next_event_sec ≡ sec
  pub within : k.next_event_usec ≡ usec

note_write-Ready :
    (sec usec : ℕ) (k : Keepalive)
    → Ready sec usec k × (k.got_read ≡ false)
    → Ready sec usec (note_write k) × ((note_write k).got_read ≡ false)
unfolding note_write
note_write-Ready sec usec k (ready, unread) =
    if_where (λ (x : Keepalive). Ready sec usec x × (x.got_read ≡ false)) k.got_write
      (λ wrote.
        (record { on = ready.on; few = ready.few; at = ready.at; within = ready.within }, unread))
      (λ idle. (ready, unread))

note_read-Ready :
    (read : Bool) (sec usec : ℕ) (k : Keepalive)
    → Ready sec usec k
    → (read ≡ false → k.got_read ≡ false)
    → Ready sec usec (note_read read k) × ((note_read read k).got_read ≡ false)
unfolding note_read
note_read-Ready true sec usec k ready unread =
    (record { on = ready.on; few = omega arith; at = ready.at; within = ready.within }, refl)
note_read-Ready false sec usec k ready unread = (ready, unread refl)

unread_before : (a b : Bool) → (a || b) ≡ false → a ≡ false
unread_before true b none = none
unread_before false b none = refl

noted-Ready :
    (c : Call) (sec usec : ℕ) (k : Keepalive)
    → Ready sec usec k
    → Ready sec usec (note_write (note_read (k.got_read || c.reply) k))
      × ((note_write (note_read (k.got_read || c.reply) k)).got_read ≡ false)
noted-Ready c sec usec k ready =
    let read : Bool = k.got_read || c.reply in
    note_write-Ready sec usec (note_read read k)
      (note_read-Ready read sec usec k ready (unread_before k.got_read c.reply))

module _ (c : Call) {sec usec : ℕ} (k : Keepalive) (ready : Ready sec usec k) where
  pub keepalive_do-Left : reached sec usec c.now ≡ true → Left c (keepalive_do c k)
  keepalive_do-Left late =
      let read : Bool = k.got_read || c.reply in
      let noted = note_write (note_read read k) in
      let (still, unread) = noted-Ready c sec usec k ready in
      subst (Left c)
        (sym (
          keepalive_do-on c k read ready.on refl
          ∙ if_true _ _ (due noted c true still.at still.within late)))
        (round-Left c noted still.on unread still.few)

  pub keepalive_do-Ready :
      reached sec usec c.now ≡ false
      → (k' : Keepalive) × (keepalive_do c k ≡ (everything_ok, k')) × Ready sec usec k'
  keepalive_do-Ready early =
      let read : Bool = k.got_read || c.reply in
      let noted = note_write (note_read read k) in
      let (still, unread) = noted-Ready c sec usec k ready in
      (
        noted,
        keepalive_do-on c k read ready.on refl
            ∙ if_false _ _ (due noted c false still.at still.within early),
        still,
      )
