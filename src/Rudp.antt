-- ===== src/Rudp.antt =====
-- Reliable UDP, tspc-advanced/src/net/net_rudp.c and include/net_rudp.h: a message is sent again
-- until a reply with its sequence number comes, a few times at most. `float` is a parameter.
pub mod Reply
pub mod Answer
pub mod Retries
pub mod Rto
mod Tests
use gw6c.Base.{
  ℕ, ◌+◌, ◌-◌, ◌*◌, ◌/◌, ◌%◌, ◌^◌, ◌<◌, ◌≡◌, List, [], ◌∷◌, ◌++◌, Option, none, some, Bool, true,
  false, not, bit_or, ltb, ◌==◌, ◌=s◌, ◌&&◌, ◌||◌, if◌then◌else◌, length, take, drop, replicate,
}
use gw6c.Buffer.Aux.{put_32bit, get_32bit}

-- `float`: small integers are exact, and so their order is.
pub record Float : Type 1 where
  pub Num : Type 0
  pub of_nat : ℕ → Num
  pub plus : Num → Num → Num
  pub minus : Num → Num → Num
  pub times : Num → Num → Num
  pub over : Num → Num → Num
  pub negated : Num → Num
  pub less : Num → Num → Bool
  pub less-of_nat : (a b : ℕ) → a < 2 ^ 24 → b < 2 ^ 24 → less (of_nat a) (of_nat b) ≡ ltb a b

-- `rttengine_stat_t`; `cached` tells whether an address is cached.
pub record Stats (Num : Type 0) : Type 0 where
  pub cached : Bool
  pub rtt : Num
  pub srtt : Num
  pub rttvar : Num
  pub rto : Num
  pub sequence : ℕ
  pub retries : ℕ
  pub initial_timestamp : ℕ
  pub apply_backoff : Bool
  pub has_peer : Bool
  pub initiated : Bool

-- The seconds and microseconds that `gettimeofday` gives, if it does.
abbrev pub Time : Type 0
Time = Option (ℕ × ℕ)

-- What `select` and `recv` give: no reply in time, a datagram, or an error.
pub data Selected : Type 0 where
  timed_out : Selected
  delivered : List ℕ → Selected
  read_failed select_failed : Selected

-- What one transmission meets: the time, whether `send` works, what is read, and the time then.
pub record Round : Type 0 where
  pub sent_at : Time
  pub can_send : Bool
  pub selected : List Selected
  pub read_at : Time

-- The call returns -1 or the bytes of a reply, copies a negative number of bytes, writes through
-- a null pointer, or still waits when no more is known of the outside.
pub data Outcome : Type 0 where
  failed : Outcome
  replied : List ℕ → Outcome
  overrun null_write waiting : Outcome

abbrev pub max_rtt : ℕ
max_rtt = 3

abbrev pub max_rt : ℕ
max_rt = 8

abbrev pub header_size : ℕ
header_size = 8

-- How the loop on `select` is left, with the buffer for replies.
pub data Verdict : Type 0 where
  expired broken nothing_yet : List ℕ → Verdict
  matched : ℕ → List ℕ → Verdict

-- A datagram is written over the buffer; `own` is the sequence number as it was sent.
unfoldable pub select_loop : List ℕ → List ℕ → List Selected → Verdict
select_loop own im [] = nothing_yet im
select_loop own im (timed_out ∷ more) = expired im
select_loop own im (delivered bytes ∷ more) =
    let im' = bytes ++ drop (length bytes) im in
    let rest = select_loop own im' more in
    if take 4 im' =s own then matched (length bytes) im' else rest
select_loop own im (read_failed ∷ more) = broken im
select_loop own im (select_failed ∷ more) = broken im

-- With wrap-around at 32 bits.
unfoldable pub get_timestamp : ℕ → Time → ℕ
get_timestamp initial none = 0
get_timestamp initial (some (sec, usec)) =
    ((sec + 2 ^ 32 - initial % 2 ^ 32) * 1000 + usec / 1000) % 2 ^ 32

module _ {Num : Type 0} where
  unfoldable pub deinit : Stats Num → Stats Num
  deinit s = record s { cached = false; initiated = false }

  -- Three transmissions to a peer that never answered, or eight.
  unfoldable pub gives_up : Stats Num → Bool
  gives_up s = ((s.retries == max_rtt) && not s.has_peer) || (s.retries == max_rt)

  unfoldable pub before_sending : Stats Num → Stats Num
  before_sending s = if s.retries == max_rtt then record s { apply_backoff = true } else s

module _ (F : Float) where
  open F use {Num, of_nat, plus, minus, times, over, negated, less}

  unfoldable pub get_adjusted_rto : Num → Num
  get_adjusted_rto rto =
      if less rto (of_nat 2) then of_nat 2 else if less (of_nat 30) rto then of_nat 30 else rto

  unfoldable pub update : Stats Num → ℕ → Stats Num
  update s ms =
      let rtt = over (of_nat ms) (of_nat 1000) in
      let delta = minus rtt s.srtt in
      let srtt = plus s.srtt (times (over (of_nat 1) (of_nat 8)) delta) in
      let size = if less delta (of_nat 0) then negated delta else delta in
      let rttvar = plus s.rttvar (times (over (of_nat 1) (of_nat 4)) size) in
      record s {
        rtt = rtt;
        srtt = srtt;
        rttvar = rttvar;
        rto = get_adjusted_rto (plus srtt (times (of_nat 4) rttvar));
        retries = 0;
      }

  unfoldable pub step_back : Stats Num → Stats Num
  step_back s =
      let rto = if s.apply_backoff then get_adjusted_rto (times s.rto (of_nat 2)) else s.rto in
      record s { rto = rto; retries = s.retries + 1 }

  -- A reply of `n` bytes with the right sequence number.
  unfoldable pub accept : Stats Num → Time → ℕ → List ℕ → Outcome × Stats Num
  accept s read_at n im =
      let ms =
        (get_timestamp s.initial_timestamp read_at + 2 ^ 32 - get_32bit (drop 4 im)) % 2 ^ 32 in
      let s' = record (update s ms) { has_peer = true; retries = 0 } in
      if ltb n header_size
      then (overrun, s')
      else (replied (take (n - header_size) (drop header_size im)), s')

  -- The outcome, the state, and the messages sent.
  abbrev pub Result : Type 0
  Result = Outcome × Stats Num × List (List ℕ)

  -- What follows a transmission of `message`; `next` goes on with the next one.
  unfoldable pub conclude : (List ℕ → Result) → Stats Num → Time → List ℕ → Verdict → Result
  conclude next s read_at message (expired im) =
      let (outcome, s', sent) = next im in (outcome, s', message ∷ sent)
  conclude next s read_at message (broken im) = (failed, deinit s, message ∷ [])
  conclude next s read_at message (nothing_yet im) = (waiting, s, message ∷ [])
  conclude next s read_at message (matched n im) =
      let (outcome, s') = accept s read_at n im in (outcome, s', message ∷ [])

  -- The loop on transmissions.
  unfoldable pub send_loop : List ℕ → List ℕ → Stats Num → List ℕ → List Round → Result
  send_loop own payload s im [] = if gives_up s then (failed, deinit s, []) else (waiting, s, [])
  send_loop own payload s im (r ∷ rs) =
      let s₁ = before_sending s in
      let stamp = put_32bit (get_timestamp s.initial_timestamp r.sent_at) in
      let next = λ (im' : List ℕ). send_loop own payload (step_back s₁) im' rs in
      if gives_up s
      then (failed, deinit s, [])
      else if not r.can_send
      then (failed, deinit s₁, [])
      else conclude next s₁ r.read_at (own ++ (stamp ++ payload)) (select_loop own im r.selected)

  -- The sequence number in the byte order of the network, with the mark of the protocol.
  unfoldable pub stamped : ℕ → List ℕ
  stamped sequence = put_32bit (bit_or sequence (15 * 2 ^ 28))

  -- `internal_send_recv`: `om_ok` and `im_ok` tell whether there is memory for the two messages,
  -- and `fresh` is what the last bytes of the second hold.
  unfoldable pub send_recv :
      (om_ok im_ok : Bool) → List ℕ → Stats Num → List ℕ → ℕ → List Round → Result
  send_recv om_ok im_ok fresh s payload ol rounds =
      let s₁ = record s { sequence = (s.sequence + 1) % 2 ^ 32 } in
      if not s.initiated
      then (failed, s, [])
      else if (not om_ok && ltb 0 (length payload)) || (not im_ok && ltb 0 ol)
      then (null_write, s, [])
      else if not om_ok || not im_ok
      then (failed, deinit s, [])
      else send_loop (stamped s.sequence) payload s₁ (replicate ol 0 ++ fresh) rounds

  -- `rttengine_init` after the `memset` of `NetRUDPInit`.
  unfoldable pub init : Time → Stats Num
  init now = record {
    cached = false;
    rtt = of_nat 0;
    srtt = of_nat 0;
    rttvar = over (of_nat 1) (of_nat 2);
    rto = of_nat 2;
    sequence = 240;
    retries = 0;
    initial_timestamp = elim now [ none ↦ 0 | some (sec, usec) ↦ sec ];
    apply_backoff = false;
    has_peer = false;
    initiated = true;
  }

  -- `internal_get_sai`: an address that is cached serves whatever the host.
  unfoldable pub get_sai : Stats Num → (resolves mem_ok : Bool) → Bool × Stats Num
  get_sai s resolves mem_ok =
      if s.cached
      then (true, s)
      else if resolves && mem_ok
      then (true, record s { cached = true })
      else (false, s)

  -- `NetRUDPConnect`: whether there is a connected socket.
  unfoldable pub connect :
      Stats Num → Time → (resolves mem_ok can_socket can_connect : Bool) → Bool × Stats Num
  connect s now resolves mem_ok can_socket can_connect =
      let s₁ = if s.initiated then s else init now in
      let (found, s₂) = get_sai s₁ resolves mem_ok in (found && (can_socket && can_connect), s₂)

  -- `NetRUDPClose`, with the value of `NetRUDPDestroy`.
  unfoldable pub close : Stats Num → ℕ × Stats Num
  close s = (if (deinit s).initiated then 0 else 1, deinit s)

  -- `NetRUDPPrintf` of a text: at most 1023 bytes of it.
  unfoldable pub printf : Bool → Bool → List ℕ → Stats Num → List ℕ → ℕ → List Round → Result
  printf om_ok im_ok fresh s text ol rounds =
      send_recv om_ok im_ok fresh s (take 1023 text) ol rounds
