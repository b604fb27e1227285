-- ===== src/Rudp/Tests.antt =====
-- Calls of `internal_send_recv` of tspc-advanced/src/net/net_rudp.c, and the theorems at them.
use gw6c.Base.{
  ℕ, ◌+◌, ◌-◌, ◌*◌, ◌/◌, ◌^◌, ◌<◌, ◌≡◌, refl, List, [], ◌∷◌, true, false, some, ltb, replicate,
  arith,
}
use gw6c.Rudp.{
  Float, Stats, Round, Selected, timed_out, delivered, overrun, send_recv, stamped, send_loop,
  conclude, accept, select_loop, before_sending, step_back, gives_up, deinit, update,
  get_adjusted_rto, get_timestamp,
}
use gw6c.Buffer.Aux.{put_32bit}
use gw6c.Rudp.Retries.{Silent, nothing, other, send_recv-GivenUp, GivenUp}
use gw6c.Rudp.Reply.{Genuine, send_recv-Genuine}
use gw6c.Rudp.Answer.{Answered, now, later, Returns, send_recv-Returns}
use gw6c.Rudp.Rto.{IsReady, send_recv-IsReady}

below : (a b : ℕ) → a < 2 ^ 24 → b < 2 ^ 24 → ltb a b ≡ ltb a b
below a b p q = refl

-- Whole numbers for `float`.
abbrev whole : Float
whole = record {
  Num = ℕ;
  of_nat = λ n. n;
  plus = λ a b. a + b;
  minus = λ a b. a - b;
  times = λ a b. a * b;
  over = λ a b. a / b;
  negated = λ a. 0;
  less = ltb;
  less-of_nat = below;
}

abbrev fresh : List ℕ
fresh = replicate 8 7

-- An engine that was set up at 1000 s.
abbrev engine : Stats ℕ
engine = record {
  cached = true;
  rtt = 0;
  srtt = 0;
  rttvar = 0;
  rto = 2;
  sequence = 240;
  retries = 0;
  initial_timestamp = 1000;
  apply_backoff = false;
  has_peer = false;
  initiated = true;
}

-- The sequence number on the wire is f0 00 00 f0.
first_sequence : stamped whole 240 ≡ 240 ∷ 0 ∷ 0 ∷ 240 ∷ []
unfolding stamped put_32bit
first_sequence = refl

-- "TSP", answered by "OK".
abbrev question : List ℕ
question = 84 ∷ 83 ∷ 80 ∷ []

abbrev answer : List ℕ
answer = 240 ∷ 0 ∷ 0 ∷ 240 ∷ 0 ∷ 0 ∷ 1 ∷ 0 ∷ 79 ∷ 75 ∷ []

abbrev stray : List ℕ
stray = 240 ∷ 0 ∷ 0 ∷ 241 ∷ 0 ∷ 0 ∷ 0 ∷ 0 ∷ 33 ∷ []

abbrev round : List Selected → Round
round selected = record {
  sent_at = some (1001, 0);
  can_send = true;
  selected = selected;
  read_at = some (1002, 0);
}

abbrev lost : Round
lost = round (delivered stray ∷ timed_out ∷ [])

abbrev heard : Round
heard = round (delivered stray ∷ delivered answer ∷ [])

-- A reply of five bytes with the right sequence number makes the length of the copy negative.
short_reply :
    (send_recv whole true true fresh engine question 4
      (round (delivered (240 ∷ 0 ∷ 0 ∷ 240 ∷ 9 ∷ []) ∷ []) ∷ [])).0
    ≡ overrun
unfolding send_recv send_loop conclude accept select_loop before_sending step_back gives_up deinit
    update get_adjusted_rto get_timestamp stamped put_32bit
short_reply = refl

send_recv-Genuine_example :
    Genuine whole 4
      (stamped whole 240)
      question
      (lost ∷ heard ∷ [])
      (send_recv whole true true fresh engine question 4 (lost ∷ heard ∷ [])).0
      (send_recv whole true true fresh engine question 4 (lost ∷ heard ∷ [])).1
send_recv-Genuine_example =
    send_recv-Genuine whole fresh engine question 4 (lost ∷ heard ∷ []) (omega arith)

lost-Silent : Silent (stamped whole 240) (delivered stray ∷ timed_out ∷ [])
unfolding stamped put_32bit
lost-Silent = other stray (timed_out ∷ []) (omega arith, refl) (nothing [])

heard-Answered :
    Answered whole 4 (stamped whole 240) question answer (delivered stray ∷ delivered answer ∷ [])
unfolding stamped put_32bit
heard-Answered = later stray (delivered answer ∷ []) (omega arith, refl) (now [])

send_recv-Returns_example :
    Returns whole 4
      (stamped whole 240)
      question
      answer
      3
      (send_recv whole true true fresh engine question 4 (lost ∷ lost ∷ heard ∷ []))
unfolding stamped put_32bit
send_recv-Returns_example =
    send_recv-Returns whole fresh engine question 4 answer (lost ∷ lost ∷ []) heard [] refl
      ((refl, lost-Silent), ((refl, lost-Silent), tt)) (omega arith) refl heard-Answered
      (omega arith) refl

send_recv-GivenUp_example :
    GivenUp whole
      (stamped whole 240)
      question
      3
      (send_recv whole true true fresh engine question 4 (lost ∷ lost ∷ lost ∷ []))
send_recv-GivenUp_example =
    send_recv-GivenUp whole fresh engine question 4 (lost ∷ lost ∷ lost ∷ []) (omega arith) refl
      (omega arith) ((refl, lost-Silent), ((refl, lost-Silent), ((refl, lost-Silent), tt)))

engine-IsReady : IsReady whole engine
unfolding IsReady
engine-IsReady = (omega arith, (refl, refl))

send_recv-IsReady_example :
    IsReady whole (send_recv whole true true fresh engine question 4 (lost ∷ heard ∷ [])).1
send_recv-IsReady_example =
    send_recv-IsReady whole true true fresh engine question 4 (lost ∷ heard ∷ []) engine-IsReady
