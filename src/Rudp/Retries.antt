-- ===== src/Rudp/Retries.antt =====
-- How often `internal_send_recv` of tspc-advanced/src/net/net_rudp.c sends its message.
use mathlib.Core.Path.{subst}
use gw6c.Base.{
  take-append_long, ltb, replicate, ◌%◌, ◌^◌, ℕ, zero, suc, ◌+◌, ◌-◌, ◌≤◌, ◌<◌, ◌≡◌, refl, sym, ap,
  ◌∙◌, List, [], ◌∷◌, ◌++◌, Bool, true, false, not, ◌=s◌, ◌==◌, ◌||◌, ◌&&◌, if◌then◌else◌, if_where,
  if_true, if_false, Bool-cases, inl, inr, length, take, drop, All, arith,
}
use gw6c.Buffer.Aux.{put_32bit}
use gw6c.Rudp.{
  conclude, Result, Time, get_timestamp, Float, Stats, Round, Selected, timed_out, delivered,
  failed, Verdict, expired, broken, nothing_yet, matched, select_loop, gives_up, before_sending,
  deinit, step_back, send_loop, send_recv, stamped, max_rtt, max_rt,
}

-- A datagram with another sequence number.
abbrev pub Stray : List ℕ → List ℕ → Type 0
Stray own bytes = (4 ≤ length bytes) × ((take 4 bytes =s own) ≡ false)

-- Other datagrams, and then no reply in time.
pub data Silent (own : List ℕ) : List Selected → Type 0 where
  nothing : (more : List Selected) → Silent own (timed_out ∷ more)
  other :
      (bytes : List ℕ) (more : List Selected)
      → Stray own bytes
      → Silent own more
      → Silent own (delivered bytes ∷ more)

-- The transmissions that a call may make before it gives up.
abbrev pub limit : {Num : Type 0} → Stats Num → ℕ
limit s = if s.has_peer then max_rt else max_rtt

pub Stray-passed :
    (own bytes rest : List ℕ) → Stray own bytes → (take 4 (bytes ++ rest) =s own) ≡ false
Stray-passed own bytes rest (long, differs) =
    ap (λ t. t =s own) (take-append_long 4 bytes rest long) ∙ differs

pub select_loop-Silent :
    (own im : List ℕ) (selected : List Selected)
    → Silent own selected
    → (im' : List ℕ) × (select_loop own im selected ≡ expired im')
unfolding select_loop
select_loop-Silent own im _ (nothing more) = (im, refl)
select_loop-Silent own im _ (other bytes more stray silent) =
    let (im', e) = select_loop-Silent own (bytes ++ drop (length bytes) im) more silent in
    (im', if_false _ _ (Stray-passed own bytes (drop (length bytes) im) stray) ∙ e)

pub may_send :
    {Num : Type 0} (s : Stats Num) → s.retries ≤ limit s → gives_up s ≡ false → s.retries < limit s
unfolding gives_up
may_send s le goes = ground arith

-- The two updates keep the peer, and the second counts the transmission.
pub counted :
    (F : Float) (s : Stats F.Num)
    → (limit (step_back F (before_sending s)) ≡ limit s)
      × ((step_back F (before_sending s)).retries ≡ s.retries + 1)
unfolding step_back before_sending
counted F s = elim (Bool-cases (s.retries == max_rtt)) [
  | inl third ↦ simp third (refl, refl)
  | inr fewer ↦ simp fewer (refl, refl)
]

spent : {Num : Type 0} (s : Stats Num) → s.retries ≡ limit s → gives_up s ≡ true
unfolding gives_up
spent s last = ground arith

pub unspent : {Num : Type 0} (s : Stats Num) → s.retries < limit s → gives_up s ≡ false
unfolding gives_up
unspent s few = ground arith

module _ (F : Float) (own payload : List ℕ) where
  -- The message with the sequence number and the data of this call, and some time.
  abbrev pub Carries : List ℕ → Type 0
  Carries message = (stamp : ℕ) × (message ≡ own ++ (put_32bit stamp ++ payload))

  -- At most `n` messages were sent, all with the sequence number and the data.
  abbrev pub Within : ℕ → Result F → Type 0
  Within n x = (length x.2 ≤ n) × All Carries x.2

  conclude-Within :
      (next : List ℕ → Result F) (s : Stats F.Num) (read_at : Time) (message : List ℕ) (v : Verdict)
      (n : ℕ)
      → Carries message
      → ((im : List ℕ) → Within n (next im))
      → Within (suc n) (conclude F next s read_at message v)
  unfolding conclude
  conclude-Within next s read_at message (expired im) n c h =
      let (le, all) = h im in (omega arith, (c, all))
  conclude-Within next s read_at message (broken im) n c h = (omega arith, (c, tt))
  conclude-Within next s read_at message (nothing_yet im) n c h = (omega arith, (c, tt))
  conclude-Within next s read_at message (matched k im) n c h = (omega arith, (c, tt))

  send_loop-Within :
      (s : Stats F.Num) (im : List ℕ) (rounds : List Round) (n : ℕ)
      → s.retries + n ≡ limit s
      → Within n (send_loop F own payload s im rounds)
  unfolding send_loop
  send_loop-Within s im [] n left =
      if_where (Within n) (gives_up s) (λ g. (omega arith, tt)) (λ w. (omega arith, tt))
  send_loop-Within s im (r ∷ rs) zero left =
      subst (Within zero) (sym (if_true _ _ (spent s (omega arith)))) (omega arith, tt)
  send_loop-Within s im (r ∷ rs) (suc n) left =
      let (same, more) = counted F s in
      if_where (Within (suc n)) (gives_up s) (λ g. (omega arith, tt))
        (λ goes.
          if_where (Within (suc n)) (not r.can_send) (λ fails. (omega arith, tt))
            (λ can.
              conclude-Within
                (λ im'. send_loop F own payload (step_back F (before_sending s)) im' rs)
                (before_sending s) r.read_at
                (own ++ (put_32bit (get_timestamp s.initial_timestamp r.sent_at) ++ payload))
                (select_loop own im r.selected) n
                (get_timestamp s.initial_timestamp r.sent_at, refl)
                (λ im'. send_loop-Within (step_back F (before_sending s)) im' rs n (omega arith))))

  -- The call fails after `n` messages, and the engine has to be set up anew.
  abbrev pub GivenUp : ℕ → Result F → Type 0
  GivenUp n x = (x.0 ≡ failed) × (length x.2 ≡ n) × (x.1.initiated ≡ false)

  conclude-expired :
      (next : List ℕ → Result F) (s : Stats F.Num) (read_at : Time) (message im : List ℕ)
      (v : Verdict) (n : ℕ)
      → v ≡ expired im
      → GivenUp n (next im)
      → GivenUp (suc n) (conclude F next s read_at message v)
  unfolding conclude
  conclude-expired next s read_at message im v n e given =
      subst (λ v. GivenUp (suc n) (conclude F next s read_at message v)) (sym e)
        (given.0, omega arith, given.2)

  -- With `n` transmissions left and as many silent rounds, all are made, and the call fails.
  send_loop-GivenUp :
      (s : Stats F.Num) (im : List ℕ) (rounds : List Round) (n : ℕ)
      → s.retries + n ≡ limit s
      → n ≤ length rounds
      → All (λ r. (r.can_send ≡ true) × Silent own r.selected) rounds
      → GivenUp n (send_loop F own payload s im rounds)
  unfolding send_loop deinit
  send_loop-GivenUp s im [] n left few all =
      subst (GivenUp n) (sym (if_true _ _ (spent s (omega arith)))) (refl, omega arith, refl)
  send_loop-GivenUp s im (r ∷ rs) zero left few all =
      subst (GivenUp zero) (sym (if_true _ _ (spent s (omega arith)))) (refl, omega arith, refl)
  send_loop-GivenUp s im (r ∷ rs) (suc n) left few ((can, silent), all) =
      let (same, more) = counted F s in
      let (im', e) = select_loop-Silent own im r.selected silent in
      subst (GivenUp (suc n))
        (sym (if_false _ _ (unspent s (omega arith)) ∙ if_false _ _ (ap not can)))
        (conclude-expired (λ im'. send_loop F own payload (step_back F (before_sending s)) im' rs)
          (before_sending s) r.read_at
          (own ++ (put_32bit (get_timestamp s.initial_timestamp r.sent_at) ++ payload)) im'
          (select_loop own im r.selected) n e
          (send_loop-GivenUp (step_back F (before_sending s)) im' rs n (omega arith) (omega arith)
            all))

module _ (F : Float) (fresh : List ℕ) (s : Stats F.Num) (payload : List ℕ) (ol : ℕ)
    (rounds : List Round) where
  -- Whatever a call meets, a message is sent at most eight times, and at most three times as long as
  -- no reply ever came, less the attempts before; each time it has the same sequence number and
  -- the same data, and only the time differs.
  pub send_recv-Within :
      (om_ok im_ok : Bool)
      → s.retries ≤ limit s
      → Within F
          (stamped F s.sequence)
          payload
          (limit s - s.retries)
          (send_recv F om_ok im_ok fresh s payload ol rounds)
  unfolding send_recv
  send_recv-Within om_ok im_ok le =
      let P = Within F (stamped F s.sequence) payload (limit s - s.retries) in
      if_where P (not s.initiated) (λ n. (omega arith, tt))
        (λ i.
          if_where P ((not om_ok && ltb 0 (length payload)) || (not im_ok && ltb 0 ol))
            (λ w. (omega arith, tt))
            (λ ok.
              if_where P (not om_ok || not im_ok) (λ w. (omega arith, tt))
                (λ both.
                  send_loop-Within F (stamped F s.sequence) payload
                    (record s { sequence = (s.sequence + 1) % 2 ^ 32 }) (replicate ol 0 ++ fresh)
                    rounds (limit s - s.retries) (omega arith))))

  -- When no reply to the message comes, whatever other datagrams do, the call fails after just
  -- eight transmissions, or three without a peer, less the attempts before.
  pub send_recv-GivenUp :
      s.retries ≤ limit s
      → s.initiated ≡ true
      → limit s ≤ s.retries + length rounds
      → All (λ r. (r.can_send ≡ true) × Silent (stamped F s.sequence) r.selected) rounds
      → GivenUp F
          (stamped F s.sequence)
          payload
          (limit s - s.retries)
          (send_recv F true true fresh s payload ol rounds)
  unfolding send_recv
  send_recv-GivenUp le on enough all =
      subst (GivenUp F (stamped F s.sequence) payload (limit s - s.retries))
        (sym (if_false _ _ (ap not on)))
        (send_loop-GivenUp F (stamped F s.sequence) payload
          (record s { sequence = (s.sequence + 1) % 2 ^ 32 }) (replicate ol 0 ++ fresh) rounds
          (limit s - s.retries) (omega arith) (omega arith) all)
