-- ===== src/Keepalive/Silence.antt =====
-- The loop of a tunnel, `TunMainLoop` of tspc-advanced/platform/linux/tsp_tun.c, while the other end
-- is silent.
use mathlib.Core.Path.{subst}
use gw6c.Base.{
  Bool-cases, All, sym, suc, if_true, if_false, ℕ, ◌+◌, ◌≤◌, ◌<◌, ◌≡◌, inl, inr, refl, ap, ◌∙◌,
  List, [], ◌∷◌, true, false, if◌then◌else◌, if_where, arith,
}
use gw6c.Keepalive.{Keepalive, Result, maximal_cycles, keepalive_do, keepalive_write, note_write}
use gw6c.Keepalive.Rounds.{
  reached, keepalive_do-waits, Down, down, after, outcome, keepalive_do-Down, after-Down,
  outcome-last, outcome-more, last_or_more, note_write-Down,
}
use gw6c.Keepalive.Left.{Left, given_up, left, keepalive_do-Left, Ready, keepalive_do-Ready}
use gw6c.Keepalive.Loop.{
  Outgoing, idle, sent, quiet, Pass, Ending, running, keepalive_timeout, is_running, gives_up,
  send_out, take_in, exchange, tunnel_loop,
}

-- The device works, whether there is something to send or not.
pub data Sends : Outgoing → Type 0 where
  sends_none : Sends idle
  sends_some : Sends sent

-- A pass without a stop, a failure, a reply or a packet from the other end.
pub record Silent (p : Pass) : Type 0 where
  pub goes_on : p.stop ≡ false
  pub no_reply : p.call.reply ≡ false
  pub sends : Sends p.outgoing
  pub no_packet : p.incoming ≡ quiet

-- The events that passes come to, from the time of the first on: a pass that reaches an event sets
-- the next one, and one that does not leaves it as it is.
unfoldable pub events : (sec usec : ℕ) → List Pass → ℕ
events sec usec [] = 0
events sec usec (p ∷ ps) =
    let next = events p.call.next_sec p.call.next_usec ps in
    let same = events sec usec ps in if reached sec usec p.call.now then suc next else same

loop-step :
    (p : Pass) (ps : List Pass) (k : Keepalive) {r : Result} {k₁ k₂ : Keepalive}
    → p.stop ≡ false
    → keepalive_do p.call k ≡ (r, k₁)
    → exchange p k₁ ≡ (running, k₂)
    → tunnel_loop (p ∷ ps) k ≡ (if gives_up r then (keepalive_timeout, k₁) else tunnel_loop ps k₂)
unfolding tunnel_loop
loop-step p ps k {r} {k₁} goes_on called exchanged =
    let go : Ending × Keepalive → Ending × Keepalive =
      λ x. if is_running x.0 then tunnel_loop ps x.1 else (x.0, x.1) in
    if_false _ _ goes_on
    ∙ ap (λ q. if gives_up q.0 then (keepalive_timeout, q.1) else go (exchange p q.1)) called
    ∙ ap (λ x. if gives_up r then (keepalive_timeout, k₁) else go x) exchanged

kept_by_write :
    (k : Keepalive) → keepalive_write k ≡ (if k.init then record k { got_write = true } else k)
unfolding keepalive_write
kept_by_write k = refl

-- What sending keeps.
send_out-keeps :
    (P : Keepalive → Type 0)
    → ((k : Keepalive) → P k → P (record k { got_write = true }))
    → (p : Pass) (k : Keepalive) → Silent p
    → P k
    → (k' : Keepalive) × (exchange p k ≡ (running, k')) × P k'
unfolding exchange send_out take_in
send_out-keeps P writes p k silent h =
    let keeps : P (keepalive_write k) =
      subst P (sym (kept_by_write k)) (if_where P k.init (λ here. writes k h) (λ gone. h)) in
    let done_with =
      λ (s : Ending × Keepalive). if is_running s.0 then take_in p.incoming s.1 else (s.0, s.1) in
    let (k', out, h') = sent_out P p.outgoing k silent.sends h keeps in
    (k', ap done_with out ∙ ap (λ i. take_in i k') silent.no_packet, h')
  where
    sent_out :
        (P : Keepalive → Type 0) (o : Outgoing) (k : Keepalive)
        → Sends o
        → P k
        → P (keepalive_write k)
        → (k' : Keepalive) × (send_out o k ≡ (running, k')) × P k'
    sent_out P o k sends_none h keeps = (k, refl, h)
    sent_out P o k sends_some h keeps = (keepalive_write k, refl, keeps)

written-Down :
    {t sec usec : ℕ} (k : Keepalive)
    → Down t sec usec k
    → Down t sec usec (record k { got_write = true })
written-Down k (down on unread none off timeouts event within) =
    down on unread none off timeouts event within

exchange-Down :
    {t sec usec : ℕ} (p : Pass) (k : Keepalive)
    → Silent p
    → Down t sec usec k
    → (k' : Keepalive) × (exchange p k ≡ (running, k')) × Down t sec usec k'
exchange-Down {t} {sec} {usec} p k silent d =
    send_out-keeps (Down t sec usec) (λ k d. written-Down k d) p k silent d

exchange-Ready :
    {sec usec : ℕ} (p : Pass) (k : Keepalive)
    → Silent p
    → Ready sec usec k
    → (k' : Keepalive) × (exchange p k ≡ (running, k')) × Ready sec usec k'
exchange-Ready {sec} {usec} p k silent ready =
    send_out-keeps (Ready sec usec)
      (λ k r. record { on = r.on; few = r.few; at = r.at; within = r.within }) p k silent ready

-- With `t` events without an answer, `5 - t` more of them make the loop give up.
gives_up-Down :
    (ps : List Pass) (k : Keepalive) {t sec usec : ℕ}
    → Down t sec usec k
    → All Silent ps
    → t < maximal_cycles
    → maximal_cycles ≤ t + events sec usec ps
    → (tunnel_loop ps k).0 ≡ keepalive_timeout
unfolding events
gives_up-Down [] k d silent few enough = absurd (omega arith)
gives_up-Down (p ∷ ps) k {t} {sec} {usec} d (silent, others) few enough =
    let give = λ (k₁ : Keepalive) (k₂ : Keepalive) (r : Result).
      (if gives_up r then (keepalive_timeout, k₁) else tunnel_loop ps k₂).0 in
    elim (Bool-cases (reached sec usec p.call.now)) [
      | inl late ↦
          let k₁ = after p.call (note_write k) in
          let d₁ = after-Down p.call (note_write k) (note_write-Down k d) in
          let (k₂, exchanged, d₂) = exchange-Down p k₁ silent d₁ in
          let called = keepalive_do-Down p.call k d silent.no_reply late in
          let step = ap (λ x. x.0) (loop-step p ps k silent.goes_on called exchanged) in
          let left : maximal_cycles ≤ t + suc (events p.call.next_sec p.call.next_usec ps) =
            rw late at enough in
          elim (last_or_more t few) [
            | inl last ↦ step ∙ ap (give k₁ k₂) (ap outcome last ∙ outcome-last)
            | inr more ↦
                step
                ∙ ap (give k₁ k₂) (outcome-more t more)
                ∙ gives_up-Down ps k₂ d₂ others (omega arith) (omega arith)
          ]
      | inr early ↦
          let (k₂, exchanged, d₂) = exchange-Down p (note_write k) silent (note_write-Down k d) in
          let called = keepalive_do-waits p.call k d silent.no_reply early in
          ap (λ x. x.0) (loop-step p ps k silent.goes_on called exchanged)
          ∙ gives_up-Down ps k₂ d₂ others few (rw early at enough)
    ]

gives_up-Left :
    (p : Pass) (ps : List Pass) (k : Keepalive)
    → Silent p
    → Left p.call (keepalive_do p.call k)
    → All Silent ps
    → maximal_cycles ≤ events p.call.next_sec p.call.next_usec ps
    → (tunnel_loop (p ∷ ps) k).0 ≡ keepalive_timeout
unfolding tunnel_loop
gives_up-Left p ps k silent (given_up gone) others enough =
    ap (λ (x : Ending × Keepalive). x.0) (if_false _ _ silent.goes_on)
    ∙ ap (λ (x : Ending × Keepalive). x.0) (if_true _ _ (ap gives_up gone))
gives_up-Left p ps k silent (left t k₁ called d few) others enough =
    let (k₂, exchanged, d₂) = exchange-Down p k₁ silent d in
    ap (λ x. x.0) (loop-step p ps k silent.goes_on called exchanged)
    ∙ gives_up-Down ps k₂ d₂ others few (omega arith)

gives_up-Ready :
    (ps : List Pass) (k : Keepalive) {sec usec : ℕ}
    → Ready sec usec k
    → All Silent ps
    → maximal_cycles < events sec usec ps
    → (tunnel_loop ps k).0 ≡ keepalive_timeout
unfolding events
gives_up-Ready [] k ready silent enough = absurd (omega arith)
gives_up-Ready (p ∷ ps) k {sec} {usec} ready (silent, others) enough =
    elim (Bool-cases (reached sec usec p.call.now)) [
      | inl late ↦
          let more : maximal_cycles < suc (events p.call.next_sec p.call.next_usec ps) =
            rw late at enough in
          gives_up-Left p ps k silent (keepalive_do-Left p.call k ready late) others (omega arith)
      | inr early ↦
          let (k₁, called, ready₁) = keepalive_do-Ready p.call k ready early in
          let (k₂, exchanged, ready₂) = exchange-Ready p k₁ silent ready₁ in
          ap (λ x. x.0) (loop-step p ps k silent.goes_on called exchanged)
          ∙ gives_up-Ready ps k₂ ready₂ others (rw early at enough)
    ]

-- From any initialised keepalive with fewer than five timeouts in a row, the loop ends with
-- KEEPALIVE_TIMEOUT in passes that come to more than five events, at whatever times the passes are,
-- in which the loop is not stopped, the device does not fail, no reply is read and nothing is
-- received from the socket, whatever is sent.
pub tunnel_loop-Silent :
    (ps : List Pass) (k : Keepalive)
    → k.init ≡ true
    → k.consecutive_timeout < maximal_cycles
    → All Silent ps
    → maximal_cycles < events k.next_event_sec k.next_event_usec ps
    → (tunnel_loop ps k).0 ≡ keepalive_timeout
tunnel_loop-Silent ps k on few silent enough =
    gives_up-Ready ps k (record { on = on; few = few; at = refl; within = refl }) silent enough
