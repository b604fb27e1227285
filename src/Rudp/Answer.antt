-- ===== src/Rudp/Answer.antt =====
-- An answer that comes in time: `internal_send_recv` of tspc-advanced/src/net/net_rudp.c.
use mathlib.Core.Path.{subst}
use gw6c.Base.{
  take-append_long, ℕ, suc, ◌+◌, ◌%◌, ◌^◌, ◌≤◌, ◌<◌, ◌≡◌, refl, sym, ap, ◌∙◌, List, [], ◌∷◌, ◌++◌,
  true, not, ltb, ◌=s◌, if_where, if_true, if_false, ltb→lt, length, take, drop, replicate, All,
  arith,
}
use gw6c.Buffer.Aux.{put_32bit}
use gw6c.Rudp.{
  Float, Stats, Time, Round, Selected, delivered, Outcome, replied, Verdict, expired, matched,
  Result, select_loop, before_sending, step_back, accept, conclude, send_loop, send_recv, stamped,
  get_timestamp, header_size,
}
use gw6c.Rudp.Retries.{
  Stray, Silent, Carries, limit, Stray-passed, select_loop-Silent, unspent, counted,
}
use gw6c.Rudp.Reply.{data_of}

module _ (F : Float) (ol : ℕ) (own payload : List ℕ) where
  -- The reply to the message, behind other datagrams.
  pub data Answered (answer : List ℕ) : List Selected → Type 0 where
    now : (more : List Selected) → Answered answer (delivered answer ∷ more)
    later :
        (bytes : List ℕ) (more : List Selected)
        → Stray own bytes
        → Answered answer more
        → Answered answer (delivered bytes ∷ more)

  select_loop-Answered :
      (answer im : List ℕ) (selected : List Selected)
      → Answered answer selected
      → 4 ≤ length answer
      → (take 4 answer =s own) ≡ true
      → (rest : List ℕ) × (select_loop own im selected ≡ matched (length answer) (answer ++ rest))
  unfolding select_loop
  select_loop-Answered answer im _ (now more) long same =
      let rest = drop (length answer) im in
      (rest, if_true _ _ (ap (λ t. t =s own) (take-append_long 4 answer rest long) ∙ same))
  select_loop-Answered answer im _ (later bytes more stray answered) long same =
      let rest = drop (length bytes) im in
      let (rest', e) = select_loop-Answered answer (bytes ++ rest) more answered long same in
      (rest', if_false _ _ (Stray-passed own bytes rest stray) ∙ e)

  -- The call returns the data of the answer after `n` messages, each with its sequence number and
  -- its data, and the engine is ready for the next message.
  abbrev pub Returns : List ℕ → ℕ → Result F → Type 0
  Returns answer n x =
      (x.0 ≡ replied (drop header_size answer))
      × (x.1.has_peer ≡ true)
      × (x.1.retries ≡ 0)
      × (length x.2 ≡ n)
      × All (Carries F own payload) x.2

  conclude-Returns :
      (next : List ℕ → Result F) (s : Stats F.Num) (read_at : Time) (message answer rest : List ℕ)
      (v : Verdict)
      → v ≡ matched (length answer) (answer ++ rest)
      → header_size ≤ length answer
      → Carries F own payload message
      → Returns answer 1 (conclude F next s read_at message v)
  unfolding conclude accept
  conclude-Returns next s read_at message answer rest v e long carries =
      subst (λ v. Returns answer 1 (conclude F next s read_at message v)) (sym e)
        (if_where (λ (x : Outcome × Stats F.Num). Returns answer 1 (x.0, x.1, message ∷ []))
          (ltb (length answer) header_size)
          (λ less. absurd (omega (arith, ltb→lt (length answer) header_size less)))
          (λ enough. (ap replied (data_of answer rest long), refl, refl, refl, (carries, tt))))

  conclude-again :
      (answer : List ℕ) (n : ℕ) (next : List ℕ → Result F) (s : Stats F.Num) (read_at : Time)
      (message im : List ℕ) (v : Verdict)
      → v ≡ expired im
      → Carries F own payload message
      → Returns answer n (next im)
      → Returns answer (suc n) (conclude F next s read_at message v)
  unfolding conclude
  conclude-again answer n next s read_at message im v e carries (content, peer, ready, sent, all) =
      subst (λ v. Returns answer (suc n) (conclude F next s read_at message v)) (sym e)
        (content, peer, ready, omega arith, (carries, all))

  send_loop-Returns :
      (answer : List ℕ) (s : Stats F.Num) (im : List ℕ) (before : List Round) (r : Round)
      (after : List Round)
      → All (λ r. (r.can_send ≡ true) × Silent own r.selected) before
      → s.retries + length before < limit s
      → r.can_send ≡ true
      → Answered answer r.selected
      → header_size ≤ length answer
      → (take 4 answer =s own) ≡ true
      → Returns answer (suc (length before)) (send_loop F own payload s im (before ++ (r ∷ after)))
  unfolding send_loop
  send_loop-Returns answer s im [] r after all few can answered long same =
      let (rest, e) = select_loop-Answered answer im r.selected answered (omega arith) same in
      subst (Returns answer 1)
        (sym (if_false _ _ (unspent s (omega arith)) ∙ if_false _ _ (ap not can)))
        (conclude-Returns
          (λ im'. send_loop F own payload (step_back F (before_sending s)) im' after)
          (before_sending s) r.read_at
          (own ++ (put_32bit (get_timestamp s.initial_timestamp r.sent_at) ++ payload)) answer rest
          (select_loop own im r.selected) e long
          (get_timestamp s.initial_timestamp r.sent_at, refl))
  send_loop-Returns answer s im (b ∷ before) r after ((sends, silent), all) few can answered long
        same =
      let (kept, more) = counted F s in
      let (im', e) = select_loop-Silent own im b.selected silent in
      subst (Returns answer (suc (suc (length before))))
        (sym (if_false _ _ (unspent s (omega arith)) ∙ if_false _ _ (ap not sends)))
        (conclude-again answer (suc (length before))
          (λ im'.
            send_loop F own payload (step_back F (before_sending s)) im' (before ++ (r ∷ after)))
          (before_sending s) b.read_at
          (own ++ (put_32bit (get_timestamp s.initial_timestamp b.sent_at) ++ payload)) im'
          (select_loop own im b.selected) e (get_timestamp s.initial_timestamp b.sent_at, refl)
          (send_loop-Returns answer (step_back F (before_sending s)) im' before r after all
            (omega arith) can answered long same))

-- After fewer silent transmissions than the call may make, and behind any number of other
-- datagrams, the reply to the message is returned, and one message more was sent than there were
-- silent transmissions, each with the sequence number and the data of the call.
pub send_recv-Returns :
    (F : Float) (fresh : List ℕ) (s : Stats F.Num) (payload : List ℕ) (ol : ℕ) (answer : List ℕ)
    (before : List Round) (r : Round) (after : List Round)
    → s.initiated ≡ true
    → All (λ r. (r.can_send ≡ true) × Silent (stamped F s.sequence) r.selected) before
    → s.retries + length before < limit s
    → r.can_send ≡ true
    → Answered F ol (stamped F s.sequence) payload answer r.selected
    → header_size ≤ length answer
    → (take 4 answer =s stamped F s.sequence) ≡ true
    → Returns F ol
        (stamped F s.sequence)
        payload
        answer
        (suc (length before))
        (send_recv F true true fresh s payload ol (before ++ (r ∷ after)))
unfolding send_recv
send_recv-Returns F fresh s payload ol answer before r after on all few can answered long same =
    subst (Returns F ol (stamped F s.sequence) payload answer (suc (length before)))
      (sym (if_false _ _ (ap not on)))
      (send_loop-Returns F ol (stamped F s.sequence) payload answer
        (record s { sequence = (s.sequence + 1) % 2 ^ 32 }) (replicate ol 0 ++ fresh) before r after
        all few can answered long same)
