-- ===== src/Keepalive.antt =====
-- `NetKeepaliveDo` of tspc-advanced/src/net/net_ka.c, the state machine that watches a tunnel. The
-- time of the next event is drawn at random between bounds; here it is an argument of a call.
--
-- `keepalive_read` and `keepalive_write` are `NetKeepaliveGotRead` and `NetKeepaliveGotWrite`.
pub mod Rounds
pub mod Left
pub mod Loop
pub mod Silence
pub mod Heard
mod Tests
use gw6c.Base.{ℕ, ◌+◌, Bool, true, false, not, ltb, leb, ◌==◌, ◌&&◌, ◌||◌, if◌then◌else◌}

-- The part of `struct NetKeepAlive` that the function reads.
pub record Keepalive : Type 0 where
  pub init : Bool
  pub got_read : Bool
  pub got_write : Bool
  pub doit : Bool
  pub still_up : Bool
  pub count : ℕ
  pub consecutive_timeout : ℕ
  pub next_event_sec : ℕ
  pub next_event_usec : ℕ

-- What a call meets: whether an echo reply is read, the time in seconds, whether an echo request
-- goes out, and the time of the event after this one.
pub record Call : Type 0 where
  pub reply : Bool
  pub now : ℕ
  pub ping_sent : Bool
  pub next_sec : ℕ
  pub next_usec : ℕ

-- 0, 2 and 3; 1 is never returned.
pub data Result : Type 0 where
  everything_ok too_many_timeouts not_initialised : Result

abbrev pub maximal_cycles : ℕ
maximal_cycles = 5

-- In the second of the event, the seconds are compared with the microseconds of the event.
unfoldable pub is_due : Keepalive → Call → Bool
is_due k c =
    if c.now == k.next_event_sec then leb k.next_event_usec c.now else ltb k.next_event_sec c.now

unfoldable pub note_read : Bool → Keepalive → Keepalive
note_read read k =
    if read then record k { consecutive_timeout = 0; count = k.count + 1; got_read = false } else k

unfoldable pub note_write : Keepalive → Keepalive
note_write k = if k.got_write then record k { doit = false; got_write = false } else k

-- Whether the traffic since the last round shows that the tunnel is up.
unfoldable pub seems_up : Keepalive → Bool
seems_up k =
    let both = if not k.doit && ltb 0 k.count then true else k.still_up in
    if (not (k.consecutive_timeout == 0) || ((k.count == 2) || (k.count == 1))) || k.doit
    then false
    else both

unfoldable pub ping : Call → Keepalive → Keepalive
ping c k = record k {
  got_write = if c.ping_sent then true else k.got_write;
  consecutive_timeout = k.consecutive_timeout + 1;
}

-- A round: at the time of the event.
unfoldable pub round : Call → Keepalive → Result × Keepalive
round c k =
    let up = seems_up k in
    let pinged = if up then k else ping c k in
    let next = record pinged {
      doit = true;
      count = 0;
      still_up = up;
      next_event_sec = c.next_sec;
      next_event_usec = c.next_usec;
    } in
    if pinged.consecutive_timeout == maximal_cycles
    then (too_many_timeouts, next)
    else (everything_ok, record next { still_up = false })

unfoldable pub keepalive_do : Call → Keepalive → Result × Keepalive
keepalive_do c k =
    let noted = note_write (note_read (k.got_read || c.reply) k) in
    if not k.init
    then (not_initialised, k)
    else if is_due noted c
    then round c noted
    else (everything_ok, noted)

unfoldable pub keepalive_read : Keepalive → Keepalive
keepalive_read k = if k.init then record k { got_read = true } else k

unfoldable pub keepalive_write : Keepalive → Keepalive
keepalive_write k = if k.init then record k { got_write = true } else k
