-- ===== src/SleepProtocol.antt =====
-- firmware/src/sleep_protocol.c and sleep_protocol.h: the capability gate and the arbitration of
-- sleep requests. `sleep_proto_t` is the record `SleepProto`; its flags are Booleans.
pub mod History
pub mod Actions
pub mod Ticks
mod Tests
use open_controller.Prelude.{
  ℕ, ◌+◌, Bool, true, false, not, ◌&&◌, ◌||◌, leb, ◌==◌, if◌then◌else◌, u32, sub32,
}

-- `SLEEP_PROTO_CMD_A6`, `SLEEP_PROTO_SUB_UNLOCK`, `SLEEP_PROTO_SUB_SLEEP`, `SLEEP_PROTO_SUB_AUTO`
-- and `SLEEP_PROTO_STATUS_READY`
abbrev pub cmd_a6 : ℕ
cmd_a6 = 0xA6

abbrev pub sub_unlock : ℕ
sub_unlock = 0x56

abbrev pub sub_sleep : ℕ
sub_sleep = 0x54

abbrev pub sub_auto : ℕ
sub_auto = 0x57

abbrev pub status_ready : ℕ
status_ready = 0x37

-- `sleep_proto_action_t`
pub data Action : Type 0 where
  none send_ready arm cancel : Action

-- `sleep_proto_t`
pub record SleepProto : Type 0 where
  pub unlocked : Bool
  pub sleep_pending : Bool
  pub autosleep : Bool

-- `SleepProtocol_Reset`
abbrev pub reset : SleepProto
reset = record { unlocked = false; sleep_pending = false; autosleep = false }

-- `SleepProtocol_IsStateChanging`
unfoldable pub is_state_changing : ℕ → ℕ → Bool
is_state_changing cmd sub =
    (cmd == 0xA1 || cmd == 0xA9)
    || cmd == 0xA6
      && (sub == 0x11
          || sub == 0x30
          || sub == 0x31
          || sub == 0x32
          || sub == 0x33
          || sub == 0x51
          || sub == 0x52
          || sub == 0x63
          || sub == 0x81)

-- The rest of `SleepProtocol_OnFrame` once auto-sleep is settled: A6 54 and cancellation.
unfoldable pub arbitrate : SleepProto → ℕ → ℕ → Bool → SleepProto × Action
arbitrate st cmd sub openboot_pending =
    if cmd == cmd_a6 && sub == sub_sleep
    then (if st.unlocked && not openboot_pending && not st.sleep_pending
        then (record st { sleep_pending = true }, arm)
        else (st, none))
    else if st.sleep_pending && is_state_changing cmd sub
    then (record st { sleep_pending = false }, cancel)
    else (st, none)

-- `SleepProtocol_OnFrame`
unfoldable pub on_frame : SleepProto → ℕ → ℕ → Bool → SleepProto × Action
unfolding arbitrate
on_frame st cmd sub openboot_pending =
    if cmd == cmd_a6 && sub == sub_unlock
    then (record st { unlocked = true; sleep_pending = false; autosleep = false }, send_ready)
    else if cmd == cmd_a6 && sub == sub_auto
    then (if st.unlocked then record st { autosleep = true } else st, none)
    else if cmd == cmd_a6 && (sub == 0x51 || sub == 0x52 || sub == 0x63)
    then arbitrate (record st { autosleep = false }) cmd sub openboot_pending
    else arbitrate st cmd sub openboot_pending

-- `SleepProtocol_ElapsedTicks`
unfoldable pub elapsed_ticks : ℕ → ℕ → ℕ → ℕ → ℕ
elapsed_ticks now start modulus backstep_tol =
    if leb start now
    then sub32 now start
    else if leb (sub32 start now) backstep_tol
    then 0
    else u32 (now + sub32 modulus start)
