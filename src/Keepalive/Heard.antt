-- ===== src/Keepalive/Heard.antt =====
-- The loop of a tunnel, `TunMainLoop` of tspc-advanced/platform/linux/tsp_tun.c, while the other end
-- is heard.
use mathlib.Core.Bool.{true≢false, false≢true}
use gw6c.Base.{
  ◌≡◌, ◌≢◌, refl, sym, ap, ◌∙◌, if_where, List, [], ◌∷◌, Bool, true, false, ◌||◌, if◌then◌else◌,
}
use gw6c.Keepalive.{
  Keepalive, Call, Result, everything_ok, keepalive_do, keepalive_read, keepalive_write, note_read,
  note_write, round, ping, seems_up,
}
use gw6c.Keepalive.Rounds.{keepalive_do-read, keepalive_do-on}
use gw6c.Keepalive.Loop.{
  Pass, Ending, running, stopped, tunnel_error, keepalive_timeout, is_running, gives_up, Outgoing,
  idle, unreadable, unsent, sent, Incoming, quiet, unwritten, received, send_out, take_in, exchange,
  tunnel_loop,
}

abbrev pub is_received : Incoming → Bool
is_received received = true
is_received _ = false

-- In each pass a reply is read, or a packet was received in the pass before, for the first if `got`.
pub data Heard : Bool → List Pass → Type 0 where
  no_pass : (got : Bool) → Heard got []
  heard_pass :
      (got : Bool) (p : Pass) (ps : List Pass)
      → (got || p.call.reply) ≡ true
      → Heard (is_received p.incoming) ps
      → Heard got (p ∷ ps)

note_read-init : (read : Bool) (k : Keepalive) → (note_read read k).init ≡ k.init
unfolding note_read
note_read-init true k = refl
note_read-init false k = refl

note_write-init : (k : Keepalive) → (note_write k).init ≡ k.init
unfolding note_write
note_write-init k =
    if_where (λ (x : Keepalive). x.init ≡ k.init) k.got_write (λ w. refl) (λ n. refl)

pinged-init : (c : Call) (k : Keepalive) (up : Bool) → (if up then k else ping c k).init ≡ k.init
unfolding ping
pinged-init c k true = refl
pinged-init c k false = refl

round-init : (c : Call) (k : Keepalive) → (round c k).1.init ≡ k.init
unfolding round
round-init c k =
    let kept = pinged-init c k (seems_up k) in
    if_where (λ (r : Result × Keepalive). r.1.init ≡ k.init) _ (λ last. kept) (λ more. kept)

keepalive_do-init : (c : Call) (k : Keepalive) → k.init ≡ true → (keepalive_do c k).1.init ≡ true
keepalive_do-init c k on =
    let noted = note_write (note_read (k.got_read || c.reply) k) in
    let kept : noted.init ≡ true = note_write-init _ ∙ note_read-init _ k ∙ on in
    ap (λ (r : Result × Keepalive). r.1.init) (keepalive_do-on c k _ on refl)
    ∙ if_where (λ (r : Result × Keepalive). r.1.init ≡ true) _ (λ due. round-init c noted ∙ kept)
        (λ n. kept)

write-init : (k : Keepalive) → k.init ≡ true → (keepalive_write k).init ≡ true
unfolding keepalive_write
write-init k on = if_where (λ (x : Keepalive). x.init ≡ true) k.init (λ here. on) (λ gone. on)

read-got :
    (k : Keepalive)
    → k.init ≡ true
    → ((keepalive_read k).init ≡ true) × ((keepalive_read k).got_read ≡ true)
unfolding keepalive_read
read-got k on =
    if_where (λ (x : Keepalive). (x.init ≡ true) × (x.got_read ≡ true)) k.init (λ here. (on, refl))
      (λ gone. absurd (true≢false (sym on ∙ gone)))

abbrev timed_out : Ending → Bool
timed_out keepalive_timeout = true
timed_out _ = false

not_timeout : (x : Ending) → timed_out x ≡ false → x ≢ keepalive_timeout
not_timeout x other e = true≢false (sym (ap timed_out e) ∙ other)

send_out-init :
    (o : Outgoing) (k : Keepalive)
    → k.init ≡ true
    → ((send_out o k).1.init ≡ true) × ((send_out o k).0 ≢ keepalive_timeout)
unfolding send_out
send_out-init idle k on = (on, not_timeout _ refl)
send_out-init unreadable k on = (on, not_timeout _ refl)
send_out-init unsent k on = (write-init k on, not_timeout _ refl)
send_out-init sent k on = (write-init k on, not_timeout _ refl)

-- Initialised, the packet that was received noted, and no ending by a timeout.
Goes : Incoming → Ending × Keepalive → Type 0
Goes i x =
    (x.1.init ≡ true)
    × (x.0 ≡ running → is_received i ≡ true → x.1.got_read ≡ true)
    × (x.0 ≢ keepalive_timeout)

take_in-Goes : (i : Incoming) (k : Keepalive) → k.init ≡ true → Goes i (take_in i k)
unfolding take_in Goes
take_in-Goes quiet k on = (on, (λ r got. absurd (false≢true got)), not_timeout _ refl)
take_in-Goes unwritten k on =
    ((read-got k on).0, (λ r got. absurd (false≢true got)), not_timeout _ refl)
take_in-Goes received k on = ((read-got k on).0, (λ r got. (read-got k on).1), not_timeout _ refl)

ne_running : (x : Ending) → is_running x ≡ false → x ≢ running
ne_running running e same = true≢false e
ne_running stopped e same = false≢true (ap is_running same)
ne_running tunnel_error e same = false≢true (ap is_running same)
ne_running keepalive_timeout e same = false≢true (ap is_running same)

exchange-Goes : (p : Pass) (k : Keepalive) → k.init ≡ true → Goes p.incoming (exchange p k)
unfolding exchange Goes
exchange-Goes p k on =
    let (kept, no_timeout) = send_out-init p.outgoing k on in
    if_where (Goes p.incoming) (is_running (send_out p.outgoing k).0)
      (λ goes. take_in-Goes p.incoming (send_out p.outgoing k).1 kept)
      (λ ends. (kept, (λ r got. absurd (ne_running _ ends r)), no_timeout))

goes_on : (r : Result) → r ≡ everything_ok → gives_up r ≡ false
goes_on r e = ap gives_up e

or_true : {b : Bool} (a : Bool) → b ≡ true → (a || b) ≡ true
or_true true holds = refl
or_true false holds = holds

is_running-running : (x : Ending) → is_running x ≡ true → x ≡ running
is_running-running running e = refl
is_running-running stopped e = absurd (false≢true e)
is_running-running tunnel_error e = absurd (false≢true e)
is_running-running keepalive_timeout e = absurd (false≢true e)

alive :
    (got : Bool) (p : Pass) (k : Keepalive)
    → (got ≡ true → k.got_read ≡ true)
    → (got || p.call.reply) ≡ true
    → (k.got_read || p.call.reply) ≡ true
alive true p k noted heard = ap (λ g. g || p.call.reply) (noted refl)
alive false p k noted heard = or_true k.got_read heard

-- From an initialised keepalive, the loop does not end with KEEPALIVE_TIMEOUT, whatever else it
-- meets, if in each pass a reply to an echo request is read or a packet was received from the socket
-- in the pass before, for the first pass: if a packet is already noted.
pub tunnel_loop-Heard :
    (got : Bool) (ps : List Pass) (k : Keepalive)
    → k.init ≡ true
    → (got ≡ true → k.got_read ≡ true)
    → Heard got ps
    → (tunnel_loop ps k).0 ≢ keepalive_timeout
unfolding tunnel_loop Goes
tunnel_loop-Heard got [] k on noted heard = not_timeout _ refl
tunnel_loop-Heard got (p ∷ ps) k on noted (heard_pass _ _ _ heard more) =
    let all_well = keepalive_do-read p.call k on (alive got p k noted heard) in
    let k₁ = (keepalive_do p.call k).1 in
    let (kept, read, no_timeout) = exchange-Goes p k₁ (keepalive_do-init p.call k on) in
    let Fine = λ (x : Ending × Keepalive). x.0 ≢ keepalive_timeout in
    if_where Fine p.stop (λ s. not_timeout _ refl)
      (λ s.
        if_where Fine (gives_up (keepalive_do p.call k).0)
          (λ gone. absurd (true≢false (sym gone ∙ goes_on _ all_well)))
          (λ well.
            if_where Fine (is_running (exchange p k₁).0)
              (λ goes.
                tunnel_loop-Heard (is_received p.incoming) ps (exchange p k₁).1 kept
                  (read (is_running-running _ goes)) more)
              (λ ends. no_timeout)))
