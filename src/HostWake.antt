-- ===== src/HostWake.antt =====
-- firmware/src/host_wake.c and host_wake.h: the CHWAKE line and the frames sent behind it.
-- `host_wake_t` is the record `HostWake`; a function that updates `*hw` returns the new record,
-- beside its result. Flags are Booleans, bytes and ticks are numbers below 2 ^ 8 and 2 ^ 32.
pub mod Moves
pub mod Invariant
pub mod Trace
pub mod Queue
pub mod Seen
pub mod Sends
pub mod Fairness
pub mod Drain
pub mod Latest
pub mod Timing
pub mod Bound
mod Tests
use open_controller.Prelude.{
  ℕ, ◌+◌, ◌*◌, ◌%◌, Bool, true, false, not, ◌&&◌, ◌||◌, List, ltb, leb, ◌==◌, if◌then◌else◌, get_or,
  set, replicate, u8, u16, u32, sub8, sub32,
}

-- `HOST_WAKE_QUEUE_SIZE`
abbrev pub queue_size : ℕ
queue_size = 8

-- `HOST_WAKE_STATE_*`
pub data State : Type 0 where
  idle guard wait_ack quarantine : State

-- `host_wake_t`
pub record HostWake : Type 0 where
  pub guard_ticks : ℕ
  pub ack_timeout_ticks : ℕ
  pub max_attempts : ℕ
  pub state : State
  pub head : ℕ
  pub count : ℕ
  pub attempts : ℕ
  pub acked : Bool
  pub sending_latest : Bool
  pub last_latest : Bool
  pub since : ℕ
  pub cmd : List ℕ
  pub val : List ℕ
  pub latest_pending : Bool
  pub latest_lost : Bool
  pub latest_cmd : ℕ
  pub latest_val : ℕ
  pub out_cmd : ℕ
  pub out_val : ℕ
  pub dropped : ℕ
  pub abandoned : ℕ
  pub retired : ℕ

-- `host_wake_step_t`
pub record Output : Type 0 where
  pub line : Bool
  pub send : Bool
  pub cmd : ℕ
  pub val : ℕ

-- `HostWake_Init`
unfoldable pub init : ℕ → ℕ → ℕ → HostWake
init guard_ticks ack_timeout_ticks max_attempts = record {
  guard_ticks = guard_ticks;
  ack_timeout_ticks = ack_timeout_ticks;
  max_attempts = if max_attempts == 0 then 1 else max_attempts;
  state = idle;
  head = 0;
  count = 0;
  attempts = 0;
  acked = false;
  sending_latest = false;
  last_latest = false;
  since = 0;
  cmd = replicate queue_size 0;
  val = replicate queue_size 0;
  latest_pending = false;
  latest_lost = false;
  latest_cmd = 0;
  latest_val = 0;
  out_cmd = 0;
  out_val = 0;
  dropped = 0;
  abandoned = 0;
  retired = 0;
}

-- `HostWake_Enqueue`: whether the frame was taken.
unfoldable pub enqueue : HostWake → ℕ → ℕ → HostWake × Bool
enqueue hw c v =
    if leb queue_size hw.count
    then (record hw { dropped = u16 (hw.dropped + 1) }, false)
    else let slot = u8 ((hw.head + hw.count) % queue_size) in
      (
        record hw { cmd = set hw.cmd slot c; val = set hw.val slot v; count = u8 (hw.count + 1) },
        true,
      )

-- `HostWake_SetLatest`
unfoldable pub set_latest : HostWake → ℕ → ℕ → HostWake
set_latest hw c v = record hw { latest_cmd = c; latest_val = v; latest_pending = true }

abbrev pub is_wait_ack : State → Bool
is_wait_ack wait_ack = true
is_wait_ack _ = false

abbrev pub is_idle : State → Bool
is_idle idle = true
is_idle _ = false

-- `HostWake_OnAck`
unfoldable pub on_ack : HostWake → HostWake
on_ack hw = if is_wait_ack hw.state then record hw { acked = true } else hw

-- `have_pending`
unfoldable pub have_pending : HostWake → Bool
have_pending hw = not (hw.count == 0) || hw.latest_pending

-- `transmit`
unfoldable pub transmit : HostWake → ℕ → HostWake × Output
transmit hw now = (
  record hw { attempts = u8 (hw.attempts + 1); since = now; acked = false; state = wait_ack },
  record { line = true; send = true; cmd = hw.out_cmd; val = hw.out_val },
)

-- The frame that `send_next` takes: the latest slot's, or the queue's first.
unfoldable pub take_next : HostWake → HostWake
take_next hw =
    if hw.latest_pending && not (hw.last_latest && not (hw.count == 0))
    then record hw {
      out_cmd = hw.latest_cmd;
      out_val = hw.latest_val;
      latest_pending = false;
      sending_latest = true;
    }
    else record hw {
      out_cmd = get_or hw.cmd hw.head 0;
      out_val = get_or hw.val hw.head 0;
      sending_latest = false;
    }

-- `send_next`
unfoldable pub send_next : HostWake → ℕ → HostWake × Output
send_next hw now =
    let h = take_next hw in transmit (record h { last_latest = h.sending_latest; attempts = 0 }) now

-- `out` as `retire` and `HostWake_Step` declare it: CHWAKE high, nothing to send.
abbrev pub hold : Output
hold = record { line = true; send = false; cmd = 0; val = 0 }

abbrev pub release : Output
release = record { line = false; send = false; cmd = 0; val = 0 }

-- The bookkeeping of `retire`, before it decides what comes next.
unfoldable pub close_frame : HostWake → Bool → HostWake
close_frame hw gave_up = record h {
  sending_latest = false;
  retired = u16 (hw.retired + 1);
  abandoned = if gave_up then u16 (hw.abandoned + 1) else hw.abandoned;
  attempts = 0;
  acked = false;
}
  where
    h : HostWake
    h =
        if not hw.sending_latest
        then record hw { head = u8 ((hw.head + 1) % queue_size); count = sub8 hw.count 1 }
        else if gave_up && not hw.latest_pending
        then record hw { latest_lost = true }
        else hw

-- `retire`
unfoldable pub retire : HostWake → ℕ → Bool → HostWake × Output
retire hw now gave_up =
    let resent = ltb 1 hw.attempts || gave_up in
    let h = close_frame hw gave_up in
    if resent
    then (record h { state = quarantine }, hold)
    else if have_pending h
    then send_next h now
    else (record h { state = idle }, release)

-- The cases of the switch in `HostWake_Step`.
unfoldable pub step_in : State → HostWake → ℕ → HostWake × Output
step_in guard hw now =
    if ltb (sub32 now hw.since) hw.guard_ticks then (hw, hold) else send_next hw now
step_in wait_ack hw now =
    if hw.acked
    then retire hw now false
    else if ltb (sub32 now hw.since) hw.ack_timeout_ticks
    then (hw, hold)
    else if leb hw.max_attempts hw.attempts
    then retire hw now true
    else transmit hw now
step_in quarantine hw now =
    if ltb (sub32 now hw.since) (u32 (2 * hw.ack_timeout_ticks))
    then (hw, hold)
    else if have_pending hw
    then send_next hw now
    else (record hw { state = idle }, release)
step_in idle hw now =
    if not (have_pending hw)
    then (hw, release)
    else (record hw { state = guard; since = now }, hold)

-- `HostWake_Step`
unfoldable pub step : HostWake → ℕ → HostWake × Output
step hw now = step_in hw.state hw now

-- `HostWake_Idle`
unfoldable pub is_quiet : HostWake → Bool
is_quiet hw = is_idle hw.state && not (have_pending hw)
