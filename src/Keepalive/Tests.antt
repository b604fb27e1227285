-- ===== src/Keepalive/Tests.antt =====
-- Runs of the keepalive of tspc-advanced/src/net/net_ka.c, and the theorems at them.
use gw6c.Base.{ℕ, ◌≡◌, refl, List, [], ◌∷◌, Bool, true, false, arith}
use gw6c.Keepalive.{Keepalive, Call, is_due}
use mathlib.Core.Bool.{false≢true}
use gw6c.Base.{◌≢◌}
use gw6c.Keepalive.Heard.{tunnel_loop-Heard, heard_pass}
use gw6c.Keepalive.Heard
use gw6c.Keepalive.Loop.{received, Pass, tunnel_loop, keepalive_timeout, idle, sent, quiet}
use gw6c.Keepalive.Silence.{Silent, events, sends_some, tunnel_loop-Silent}

-- After a round at 100 s that was up; the next event is at 130.25 s.
abbrev fresh : Keepalive
fresh = record {
  init = true;
  got_read = false;
  got_write = false;
  doit = true;
  still_up = false;
  count = 0;
  consecutive_timeout = 0;
  next_event_sec = 130;
  next_event_usec = 250000;
}

abbrev at : Bool → ℕ → ℕ → Call
at reply now next = record {
  reply = reply;
  now = now;
  ping_sent = true;
  next_sec = next;
  next_usec = 0;
}

abbrev still : ℕ → ℕ → Pass
still now next = record {
  stop = false;
  call = at false now next;
  outgoing = sent;
  incoming = quiet;
}

abbrev answered_first : Pass
answered_first = record { stop = false; call = at true 131 150; outgoing = idle; incoming = quiet }

abbrev silence : List Pass
silence = still 151 160 ∷ still 161 170 ∷ still 171 180 ∷ still 181 190 ∷ still 191 200 ∷ []

-- In the second of the event the event does not happen, since 130 is less than 250000.
event_second : is_due fresh (at false 130 150) ≡ false
unfolding is_due
event_second = refl

still-Silent : (now next : ℕ) → Silent (still now next)
still-Silent now next = record {
  goes_on = refl;
  no_reply = refl;
  sends = sends_some;
  no_packet = refl;
}

-- Passes ten seconds apart, with one between the events.
tunnel_loop-Silent_example :
    (tunnel_loop (still 131 150 ∷ still 141 150 ∷ silence) fresh).0 ≡ keepalive_timeout
unfolding events
tunnel_loop-Silent_example =
    tunnel_loop-Silent (still 131 150 ∷ still 141 150 ∷ silence) fresh refl (omega arith)
      (
        still-Silent _ _,
        (
          still-Silent _ _,
          (
            still-Silent _ _,
            (still-Silent _ _, (still-Silent _ _, (still-Silent _ _, (still-Silent _ _, tt)))),
          ),
        ),
      )
      (omega arith)

-- A reply, then a packet, then nothing.
abbrev taking : Pass
taking = record { stop = false; call = at true 151 160; outgoing = sent; incoming = received }

tunnel_loop-Heard_example :
    (tunnel_loop (answered_first ∷ taking ∷ still 161 170 ∷ []) fresh).0 ≢ keepalive_timeout
tunnel_loop-Heard_example =
    tunnel_loop-Heard false (answered_first ∷ taking ∷ still 161 170 ∷ []) fresh refl
      (λ none_noted. absurd (false≢true none_noted))
      (heard_pass _ _ _ refl (heard_pass _ _ _ refl (heard_pass _ _ _ refl (Heard.no_pass _))))
