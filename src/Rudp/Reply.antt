-- ===== src/Rudp/Reply.antt =====
-- The reply that `internal_send_recv` of tspc-advanced/src/net/net_rudp.c returns.
use gw6c.Base.{
  take-append_long, drop-append_long, ℕ, ◌+◌, ◌-◌, ◌%◌, ◌^◌, ◌≤◌, ◌≡◌, ◌⊎◌, inl, inr, refl, sym, ap,
  ◌∙◌, List, [], ◌∷◌, ◌++◌, Bool, true, false, not, ltb, ◌=s◌, if_where, ltb→lt, length, take, drop,
  replicate, All, length-drop, take-append, arith,
}
use gw6c.Buffer.Aux.{put_32bit}
use gw6c.Rudp.{
  Float, Stats, Round, Selected, timed_out, delivered, read_failed, select_failed, Outcome, failed,
  replied, overrun, null_write, waiting, Verdict, expired, broken, nothing_yet, matched, Result,
  select_loop, gives_up, before_sending, deinit, step_back, accept, conclude, send_loop, send_recv,
  stamped, get_timestamp, header_size,
}

pub not-true : (b : Bool) → not b ≡ true → b ≡ false
not-true true off = sym off
not-true false off = refl

-- The data of a datagram, read from the buffer.
pub data_of :
    (bytes rest : List ℕ)
    → header_size ≤ length bytes
    → take (length bytes - header_size) (drop header_size (bytes ++ rest)) ≡ drop header_size bytes
data_of bytes rest long =
    let size : length bytes - header_size ≡ length (drop header_size bytes) =
      sym (length-drop header_size bytes) in
    ap (take (length bytes - header_size)) (drop-append_long header_size bytes rest long)
    ∙ ap (λ n. take n (drop header_size bytes ++ rest)) size
    ∙ take-append (drop header_size bytes) rest

-- The datagram is among those read in a round, or in the rounds.
abbrev pub Among : List ℕ → List Selected → Type 0
Among bytes [] = ⊥
Among bytes (delivered d ∷ more) = (d ≡ bytes) ⊎ Among bytes more
Among bytes (_ ∷ more) = Among bytes more

abbrev pub AmongRounds : List ℕ → List Round → Type 0
AmongRounds bytes [] = ⊥
AmongRounds bytes (r ∷ rs) = Among bytes r.selected ⊎ AmongRounds bytes rs

-- A datagram has a header, and is no longer than the buffer.
abbrev pub Fits : ℕ → Selected → Type 0
Fits ol (delivered bytes) = (header_size ≤ length bytes) × (length bytes ≤ header_size + ol)
Fits ol _ = Unit

abbrev Found : ℕ → List ℕ → List Selected → Verdict → Type 0
Found ol own selected (matched n im) =
    (bytes : List ℕ) × (rest : List ℕ) × Among bytes selected
    × (im ≡ bytes ++ rest)
    × (n ≡ length bytes)
    × (header_size ≤ n)
    × (n ≤ header_size + ol)
    × ((take 4 bytes =s own) ≡ true)
Found ol own selected _ = Unit

Found-more :
    (ol : ℕ) (own d : List ℕ) (more : List Selected) (v : Verdict)
    → Found ol own more v
    → Found ol own (delivered d ∷ more) v
Found-more ol own d more (expired im) f = tt
Found-more ol own d more (broken im) f = tt
Found-more ol own d more (nothing_yet im) f = tt
Found-more ol own d more (matched n im) (bytes, rest, among, e, l, h, o, t) =
    (bytes, rest, inr among, e, l, h, o, t)

select_loop-Found :
    (ol : ℕ) (own im : List ℕ) (selected : List Selected)
    → All (Fits ol) selected
    → Found ol own selected (select_loop own im selected)
unfolding select_loop
select_loop-Found ol own im [] fits = tt
select_loop-Found ol own im (timed_out ∷ more) fits = tt
select_loop-Found ol own im (read_failed ∷ more) fits = tt
select_loop-Found ol own im (select_failed ∷ more) fits = tt
select_loop-Found ol own im (delivered d ∷ more) ((long, short), fits) =
    let rest = drop (length d) im in
    if_where (Found ol own (delivered d ∷ more)) (take 4 (d ++ rest) =s own)
      (λ same. (
        d,
        rest,
        inl refl,
        refl,
        refl,
        long,
        short,
        sym (ap (λ t. t =s own) (take-append_long 4 d rest (omega arith))) ∙ same,
      ))
      (λ differs. Found-more ol own d more _ (select_loop-Found ol own (d ++ rest) more fits))

module _ (F : Float) (ol : ℕ) (own payload : List ℕ) where
  -- The reply is the data of a datagram that was read, with the sequence number of the message,
  -- and fits into the buffer of the caller.
  abbrev pub Genuine : List Round → Outcome → Stats F.Num → Type 0
  Genuine rounds (replied out) s =
      (bytes : List ℕ) × AmongRounds bytes rounds
      × ((take 4 bytes =s own) ≡ true)
      × (out ≡ drop header_size bytes)
      × (length out ≤ ol)
      × (s.has_peer ≡ true)
      × (s.retries ≡ 0)
  Genuine rounds overrun s = ⊥
  Genuine rounds null_write s = ⊥
  Genuine rounds failed s = s.initiated ≡ false
  Genuine rounds waiting s = Unit

  Genuine-later :
      (r : Round) (rs : List Round) (o : Outcome) (s : Stats F.Num)
      → Genuine rs o s
      → Genuine (r ∷ rs) o s
  Genuine-later r rs (replied out) s (bytes, among, same, e, small, peer, none) =
      (bytes, inr among, same, e, small, peer, none)
  Genuine-later r rs failed s g = g
  Genuine-later r rs overrun s g = g
  Genuine-later r rs null_write s g = g
  Genuine-later r rs waiting s g = g

  conclude-Genuine :
      (next : List ℕ → Result F) (s : Stats F.Num) (r : Round) (rs : List Round) (message : List ℕ)
      (v : Verdict)
      → Found ol own r.selected v
      → ((im : List ℕ) → Genuine rs (next im).0 (next im).1)
      → Genuine
          (r ∷ rs)
          (conclude F next s r.read_at message v).0
          (conclude F next s r.read_at message v).1
  unfolding conclude accept deinit
  conclude-Genuine next s r rs message (expired im) f h = Genuine-later r rs _ _ (h im)
  conclude-Genuine next s r rs message (broken im) f h = refl
  conclude-Genuine next s r rs message (nothing_yet im) f h = tt
  conclude-Genuine next s r rs message (matched n im) (bytes, rest, among, e, l, long, short, same)
        h =
      let out : take (n - header_size) (drop header_size im) ≡ drop header_size bytes =
        ap (λ k. take (k - header_size) (drop header_size im)) l
        ∙ ap (λ m. take (length bytes - header_size) (drop header_size m)) e
        ∙ data_of bytes rest (omega arith) in
      if_where (λ (x : Outcome × Stats F.Num). Genuine (r ∷ rs) x.0 x.1) (ltb n header_size)
        (λ less. absurd (omega (arith, ltb→lt n header_size less)))
        (λ enough. (
          bytes,
          inl among,
          same,
          out,
          omega (arith, ap length out, length-drop header_size bytes),
          refl,
          refl,
        ))

  send_loop-Genuine :
      (s : Stats F.Num) (im : List ℕ) (rounds : List Round)
      → All (λ r. All (Fits ol) r.selected) rounds
      → Genuine rounds
          (send_loop F own payload s im rounds).0
          (send_loop F own payload s im rounds).1
  unfolding send_loop deinit
  send_loop-Genuine s im [] fits =
      if_where (λ (x : Result F). Genuine [] x.0 x.1) (gives_up s) (λ g. refl) (λ w. tt)
  send_loop-Genuine s im (r ∷ rs) (fits, more) =
      let P = λ (x : Result F). Genuine (r ∷ rs) x.0 x.1 in
      if_where P (gives_up s) (λ g. refl)
        (λ goes.
          if_where P (not r.can_send) (λ n. refl)
            (λ can.
              conclude-Genuine
                (λ im'. send_loop F own payload (step_back F (before_sending s)) im' rs)
                (before_sending s) r rs
                (own ++ (put_32bit (get_timestamp s.initial_timestamp r.sent_at) ++ payload))
                (select_loop own im r.selected) (select_loop-Found ol own im r.selected fits)
                (λ im'. send_loop-Genuine (step_back F (before_sending s)) im' rs more)))

-- A reply that is returned is the data of a datagram that was read in this call and has the sequence
-- number of the message; it fits into the buffer of the caller, who is known as a peer from
-- then on. No byte is written outside of the buffers, and a failure ends the engine or finds it
-- ended. Datagrams have a header and at most the size of the buffer, and memory is given.
pub send_recv-Genuine :
    (F : Float) (fresh : List ℕ) (s : Stats F.Num) (payload : List ℕ) (ol : ℕ) (rounds : List Round)
    → All (λ r. All (Fits ol) r.selected) rounds
    → Genuine F ol
        (stamped F s.sequence)
        payload
        rounds
        (send_recv F true true fresh s payload ol rounds).0
        (send_recv F true true fresh s payload ol rounds).1
unfolding send_recv
send_recv-Genuine F fresh s payload ol rounds fits =
    if_where (λ (x : Result F). Genuine F ol (stamped F s.sequence) payload rounds x.0 x.1)
      (not s.initiated) (λ off. not-true _ off)
      (λ on.
        send_loop-Genuine F ol (stamped F s.sequence) payload
          (record s { sequence = (s.sequence + 1) % 2 ^ 32 }) (replicate ol 0 ++ fresh) rounds fits)
