-- ===== src/Rudp/Rto.antt =====
-- The state of the engine of tspc-advanced/src/net/net_rudp.c between calls.
use gw6c.Base.{
  ◌==◌, ℕ, ◌+◌, ◌%◌, ◌^◌, ◌≤◌, ◌<◌, ◌≡◌, refl, List, [], ◌∷◌, ◌++◌, Bool, true, false, not, ltb,
  ◌||◌, ◌&&◌, if◌then◌else◌, if_where, length, replicate, arith,
}
use gw6c.Buffer.Aux.{put_32bit}
use gw6c.Rudp.{
  Outcome, max_rtt, Float, Stats, Time, Round, Verdict, expired, broken, nothing_yet, matched,
  Result, select_loop, gives_up, before_sending, deinit, step_back, accept, conclude, send_loop,
  send_recv, stamped, get_timestamp, header_size, update, get_adjusted_rto, init, connect, get_sai,
}
use gw6c.Rudp.Retries.{limit, may_send}

module _ (F : Float) where
  open F use {Num, of_nat, less, less-of_nat}

  -- Neither below two seconds nor above thirty.
  abbrev pub Paced : Num → Type 0
  Paced rto = (less rto (of_nat 2) ≡ false) × (less (of_nat 30) rto ≡ false)

  -- There are attempts left, or just none, and the timeout is in its bounds.
  unfoldable pub IsReady : Stats Num → Type 0
  IsReady s = (s.retries ≤ limit s) × Paced s.rto

  two : Paced (of_nat 2)
  two = (less-of_nat 2 2 (omega arith) (omega arith), less-of_nat 30 2 (omega arith) (omega arith))

  get_adjusted_rto-Paced : (rto : Num) → Paced (get_adjusted_rto F rto)
  unfolding get_adjusted_rto
  get_adjusted_rto-Paced rto =
      if_where Paced (less rto (of_nat 2)) (λ low. two)
        (λ enough.
          if_where Paced (less (of_nat 30) rto)
            (λ high. (
              less-of_nat 30 2 (omega arith) (omega arith),
              less-of_nat 30 30 (omega arith) (omega arith),
            ))
            (λ within. (enough, within)))

  step_back-IsReady : (s : Stats Num) → IsReady s → s.retries < limit s → IsReady (step_back F s)
  unfolding step_back IsReady
  step_back-IsReady s (le, p) few =
      (omega arith, if_where Paced s.apply_backoff (λ b. get_adjusted_rto-Paced _) (λ n. p))

  deinit-IsReady : (s : Stats Num) → IsReady s → IsReady (deinit s)
  unfolding deinit IsReady
  deinit-IsReady s ready = ready

  sequence-IsReady : (s : Stats Num) (n : ℕ) → IsReady s → IsReady (record s { sequence = n })
  unfolding IsReady
  sequence-IsReady s n ready = ready

  IsReady-le : (s : Stats Num) → IsReady s → s.retries ≤ limit s
  unfolding IsReady
  IsReady-le s ready = ready.0

  conclude-IsReady :
      (next : List ℕ → Result F) (s : Stats Num) (read_at : Time) (message : List ℕ) (v : Verdict)
      → IsReady s
      → ((im : List ℕ) → IsReady (next im).1)
      → IsReady (conclude F next s read_at message v).1
  unfolding conclude accept update deinit IsReady
  conclude-IsReady next s read_at message (expired im) ready h = h im
  conclude-IsReady next s read_at message (broken im) ready h = ready
  conclude-IsReady next s read_at message (nothing_yet im) ready h = ready
  conclude-IsReady next s read_at message (matched n im) ready h =
      if_where (λ (x : Outcome × Stats Num). IsReady x.1) (ltb n header_size)
        (λ less. (omega arith, get_adjusted_rto-Paced _))
        (λ enough. (omega arith, get_adjusted_rto-Paced _))

  before_sending-kept :
      (s : Stats Num)
      → IsReady s
      → IsReady (before_sending s)
        × ((before_sending s).retries ≡ s.retries)
        × (limit (before_sending s) ≡ limit s)
  unfolding before_sending IsReady
  before_sending-kept s ready =
      if_where
        (λ (x : Stats Num).
          ((x.retries ≤ limit x) × Paced x.rto) × (x.retries ≡ s.retries) × (limit x ≡ limit s))
        (s.retries == max_rtt) (λ t. (ready, refl, refl)) (λ f. (ready, refl, refl))

  send_loop-IsReady :
      (own payload : List ℕ) (s : Stats Num) (im : List ℕ) (rounds : List Round)
      → IsReady s
      → IsReady (send_loop F own payload s im rounds).1
  unfolding send_loop deinit
  send_loop-IsReady own payload s im [] ready =
      if_where (λ (x : Result F). IsReady x.1) (gives_up s) (λ g. deinit-IsReady s ready)
        (λ w. ready)
  send_loop-IsReady own payload s im (r ∷ rs) ready =
      let P = λ (x : Result F). IsReady x.1 in
      let (ready₁, same, kept) = before_sending-kept s ready in
      if_where P (gives_up s) (λ g. deinit-IsReady s ready)
        (λ goes.
          if_where P (not r.can_send) (λ n. deinit-IsReady _ ready₁)
            (λ can.
              conclude-IsReady
                (λ im'. send_loop F own payload (step_back F (before_sending s)) im' rs)
                (before_sending s) r.read_at
                (own ++ (put_32bit (get_timestamp s.initial_timestamp r.sent_at) ++ payload))
                (select_loop own im r.selected) ready₁
                (λ im'. send_loop-IsReady own payload (step_back F (before_sending s)) im' rs (
                  step_back-IsReady (before_sending s) ready₁
                    (omega (arith, may_send s (IsReady-le s ready) goes))))))

  -- Whatever a call meets, it leaves an engine that has no more attempts behind it than a message
  -- may have, eight, or three without a peer, with a timeout of 2 to 30 seconds.
  pub send_recv-IsReady :
      (om_ok im_ok : Bool) (fresh : List ℕ) (s : Stats Num) (payload : List ℕ) (ol : ℕ)
      (rounds : List Round)
      → IsReady s
      → IsReady (send_recv F om_ok im_ok fresh s payload ol rounds).1
  unfolding send_recv
  send_recv-IsReady om_ok im_ok fresh s payload ol rounds ready =
      let P = λ (x : Result F). IsReady x.1 in
      if_where P (not s.initiated) (λ n. ready)
        (λ i.
          if_where P ((not om_ok && ltb 0 (length payload)) || (not im_ok && ltb 0 ol)) (λ w. ready)
            (λ ok.
              if_where P (not om_ok || not im_ok) (λ w. deinit-IsReady s ready)
                (λ both.
                  send_loop-IsReady (stamped F s.sequence) payload
                    (record s { sequence = (s.sequence + 1) % 2 ^ 32 }) (replicate ol 0 ++ fresh)
                    rounds (sequence-IsReady s _ ready))))

  -- A connection starts with such an engine, if an engine that is in use is one.
  pub connect-IsReady :
      (s : Stats Num) (now : Time) (resolves mem_ok can_socket can_connect : Bool)
      → (s.initiated ≡ true → IsReady s)
      → IsReady (connect F s now resolves mem_ok can_socket can_connect).1
  unfolding connect get_sai init IsReady
  connect-IsReady s now resolves mem_ok can_socket can_connect used =
      let s₁ = if s.initiated then s else init F now in
      let ready : IsReady s₁ = if_where IsReady s.initiated used (λ n. (omega arith, two)) in
      if_where (λ (x : Bool × Stats Num). IsReady x.1) s₁.cached (λ c. ready)
        (λ n.
          if_where (λ (x : Bool × Stats Num). IsReady x.1) (resolves && mem_ok) (λ b. ready)
            (λ f. ready))
