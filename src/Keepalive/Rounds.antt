-- ===== src/Keepalive/Rounds.antt =====
-- The rounds of `NetKeepaliveDo` of tspc-advanced/src/net/net_ka.c: what a call does in each state.
use gw6c.Base.{
  leb, if_true, if_false, and_false, dec_lt, ◌⊎◌, ℕ, ◌+◌, ◌≤◌, ◌<◌, ◌≡◌, refl, Bool, true, false,
  not, ltb, ◌==◌, ◌&&◌, ◌||◌, if◌then◌else◌, if_where, Bool-cases, ne→==, inl, inr, arith, ap, ap₂,
  ◌∙◌,
}
use gw6c.Keepalive.{
  Keepalive, Call, Result, everything_ok, too_many_timeouts, maximal_cycles, is_due, note_read,
  note_write, seems_up, ping, round, keepalive_do,
}

pinged_timeouts :
    (c : Call) (k : Keepalive) (up : Bool)
    → (if up then k else ping c k).consecutive_timeout ≤ k.consecutive_timeout + 1
unfolding ping
pinged_timeouts c k true = omega arith
pinged_timeouts c k false = omega arith

round-goes_on :
    (c : Call) (k : Keepalive) → k.consecutive_timeout < 4 → (round c k).0 ≡ everything_ok
unfolding round
round-goes_on c k few =
    let bound = pinged_timeouts c k (seems_up k) in
    let under : ((if seems_up k then k else ping c k).consecutive_timeout == maximal_cycles)
        ≡ false =
      ne→== _ _ (λ e. absurd (omega arith)) in
    rw under refl

-- What a call of an initialised keepalive does.
pub keepalive_do-on :
    (c : Call) (k : Keepalive) (read : Bool)
    → k.init ≡ true
    → (k.got_read || c.reply) ≡ read
    → keepalive_do c k ≡ (
        let noted = note_write (note_read read k) in
        if is_due noted c then round c noted else (everything_ok, noted))
unfolding keepalive_do
keepalive_do-on c k read on is_read =
    if_false _ _ (ap not on)
    ∙ ap
        (λ r.
          let noted = note_write (note_read r k) in
          if is_due noted c then round c noted else (everything_ok, noted))
        is_read

note_read-resets : (k : Keepalive) → (note_write (note_read true k)).consecutive_timeout < 4
unfolding note_read note_write
note_read-resets k = elim (Bool-cases k.got_write) [
  | inl wrote ↦ rw wrote (omega arith)
  | inr not_yet ↦ rw not_yet (omega arith)
]

-- A call of an initialised keepalive that sees a packet from the other end reports that all is well.
pub keepalive_do-read :
    (c : Call) (k : Keepalive)
    → k.init ≡ true
    → (k.got_read || c.reply) ≡ true
    → (keepalive_do c k).0 ≡ everything_ok
keepalive_do-read c k on read =
    let noted = note_write (note_read true k) in
    let few : noted.consecutive_timeout < 4 = note_read-resets k in
    ap (λ r. r.0) (keepalive_do-on c k true on read)
    ∙ if_where (λ (r : Result × Keepalive). r.0 ≡ everything_ok) (is_due noted c)
        (λ due. round-goes_on c noted few) (λ not_due. refl)

-- A time in seconds reaches an event, as the code compares them.
abbrev pub reached : (sec usec now : ℕ) → Bool
reached sec usec now = if now == sec then leb usec now else ltb sec now

-- Nothing was read since the last round, which had `t` timeouts.
pub data Down (t sec usec : ℕ) (k : Keepalive) : Type 0 where
  down :
      k.init ≡ true
      → k.got_read ≡ false
      → k.count ≡ 0
      → k.still_up ≡ false
      → k.consecutive_timeout ≡ t
      → k.next_event_sec ≡ sec
      → k.next_event_usec ≡ usec
      → Down t sec usec k

pub due :
    (k : Keepalive) (c : Call) {sec usec : ℕ} (b : Bool)
    → k.next_event_sec ≡ sec
    → k.next_event_usec ≡ usec
    → reached sec usec c.now ≡ b
    → is_due k c ≡ b
unfolding is_due
due k c b at within time = ap₂ (λ s u. reached s u c.now) at within ∙ time

pub note_write-Down :
    {t sec usec : ℕ} (k : Keepalive) → Down t sec usec k → Down t sec usec (note_write k)
unfolding note_write
note_write-Down k (down on unread none off timeouts event within) =
    if_where (Down _ _ _) k.got_write (λ wrote. down on unread none off timeouts event within)
      (λ no. down on unread none off timeouts event within)

seems_up-quiet : (k : Keepalive) → k.count ≡ 0 → k.still_up ≡ false → seems_up k ≡ false
unfolding seems_up
seems_up-quiet k none off =
    if_where (λ b. b ≡ false)
      ((not (k.consecutive_timeout == 0) || ((k.count == 2) || (k.count == 1))) || k.doit)
      (λ shown. refl)
      (λ hidden.
        if_false true k.still_up (ap (λ n. not k.doit && ltb 0 n) none ∙ and_false (not k.doit))
        ∙ off)

unfoldable pub after : Call → Keepalive → Keepalive
after c k = record (ping c k) {
  doit = true;
  count = 0;
  still_up = false;
  next_event_sec = c.next_sec;
  next_event_usec = c.next_usec;
}

pub round-quiet :
    (c : Call) (k : Keepalive)
    → seems_up k ≡ false
    → round c k ≡ (
      if k.consecutive_timeout + 1 == maximal_cycles then too_many_timeouts else everything_ok,
      after c k,
    )
unfolding round ping after
round-quiet c k quiet =
    let at : Bool = k.consecutive_timeout + 1 == maximal_cycles in
    elim (Bool-cases at) [ inl last ↦ simp (quiet, last) | inr more ↦ simp (quiet, more) ]

unfoldable pub outcome : ℕ → Result
outcome t = if t + 1 == maximal_cycles then too_many_timeouts else everything_ok

round-Down :
    {t sec usec : ℕ} (c : Call) (k : Keepalive)
    → Down t sec usec k
    → reached sec usec c.now ≡ true
    → (if is_due k c then round c k else (everything_ok, k)) ≡ (outcome t, after c k)
unfolding outcome
round-Down c k (down on unread none off timeouts event within) late =
    if_true _ _ (due k c true event within late)
    ∙ round-quiet c k (seems_up-quiet k none off)
    ∙ ap (λ u. (outcome u, after c k)) timeouts

module _ {t sec usec : ℕ} (c : Call) (k : Keepalive) (d : Down t sec usec k)
    (silent : c.reply ≡ false) where
  pub keepalive_do-Down :
      reached sec usec c.now ≡ true → keepalive_do c k ≡ (outcome t, after c (note_write k))
  unfolding note_read
  keepalive_do-Down late = elim d [
    | down on unread none off timeouts event within ↦
        keepalive_do-on c k false on (ap₂ (λ a b. a || b) unread silent)
        ∙ round-Down c (note_write k)
            (note_write-Down k (down on unread none off timeouts event within)) late
  ]

  -- Between the events nothing is counted.
  pub keepalive_do-waits :
      reached sec usec c.now ≡ false → keepalive_do c k ≡ (everything_ok, note_write k)
  unfolding note_read
  keepalive_do-waits early = elim d [
    | down on unread none off timeouts event within ↦
        elim (note_write-Down k (down on unread none off timeouts event within)) [
          | down on' unread' none' off' timeouts' event' within' ↦
              keepalive_do-on c k false on (ap₂ (λ a b. a || b) unread silent)
              ∙ if_false _ _ (due (note_write k) c false event' within' early)
        ]
  ]

pub after-Down :
    {t sec usec : ℕ} (c : Call) (k : Keepalive)
    → Down t sec usec k
    → Down (t + 1) c.next_sec c.next_usec (after c k)
unfolding after ping
after-Down c k (down on unread none off timeouts event within) =
    down on unread refl refl (ap (λ u. u + 1) timeouts) refl refl

pub outcome-last : outcome 4 ≡ too_many_timeouts
unfolding outcome
outcome-last = refl

pub outcome-more : (t : ℕ) → t < 4 → outcome t ≡ everything_ok
unfolding outcome
outcome-more t few = if_false _ _ (ne→== (t + 1) 5 (λ e. absurd (omega arith)))

pub last_or_more : (t : ℕ) → t < maximal_cycles → (t ≡ 4) ⊎ (t < 4)
last_or_more t few = elim (dec_lt t 4) [ yes more ↦ inr more | no last ↦ inl (omega arith) ]
