-- ===== src/SleepProtocol/History.antt =====
-- What the three flags say of the frames received since boot, as a description of the history.
use open_controller.Prelude.{
  ℕ, ◌≡◌, Bool, true, false, not, ◌&&◌, ◌||◌, List, [], ◌∷◌, arith, ◌==◌, if◌then◌else◌,
}
use open_controller.SleepProtocol.{
  SleepProto, reset, is_state_changing, on_frame, cmd_a6, sub_unlock, sub_sleep, sub_auto,
}

-- An accepted frame, with whether a bootloader entry was pending, or the main loop taking the
-- pending request.
pub data Event : Type 0 where
  frame : ℕ → ℕ → Bool → Event
  taken : Event

unfoldable pub apply : SleepProto → Event → SleepProto
apply st (frame cmd sub ota) = (on_frame st cmd sub ota).0
apply st taken = record st { sleep_pending = false }

-- The state after a history, the newest event first.
unfoldable pub after : List Event → SleepProto
after [] = reset
after (e ∷ older) = apply (after older) e

abbrev is_a6 : ℕ → ℕ → ℕ → Bool
is_a6 wanted cmd sub = cmd == cmd_a6 && sub == wanted

-- The host has asked for protocol v1 since boot.
unfoldable pub asked : List Event → Bool
asked [] = false
asked (frame cmd sub ota ∷ older) = is_a6 sub_unlock cmd sub || asked older
asked (taken ∷ older) = asked older

-- An A6 57 came behind the gate, with no unlock, pairing or unpairing after it.
unfoldable pub auto_armed : List Event → Bool
auto_armed [] = false
auto_armed (frame cmd sub ota ∷ older) =
    let earlier = auto_armed older in
    if is_a6 sub_auto cmd sub
    then asked older
    else not (is_a6 sub_unlock cmd sub)
      && not (is_a6 0x51 cmd sub || is_a6 0x52 cmd sub || is_a6 0x63 cmd sub)
      && earlier
auto_armed (taken ∷ older) = auto_armed older

-- An A6 54 came behind the gate with no bootloader entry pending, and since then no unlock, no
-- state-changing command, and the main loop has not taken it.
unfoldable pub sleep_asked : List Event → Bool
sleep_asked [] = false
sleep_asked (frame cmd sub ota ∷ older) =
    let earlier = sleep_asked older in
    if is_a6 sub_sleep cmd sub
    then earlier || asked older && not ota
    else not (is_a6 sub_unlock cmd sub) && not (is_state_changing cmd sub) && earlier
sleep_asked (taken ∷ older) = false

-- Auto-sleep is never armed in front of the gate.
auto_armed-asked : (l : List Event) → auto_armed l ≡ true → asked l ≡ true
unfolding auto_armed asked
auto_armed-asked [] h = cc
auto_armed-asked (frame cmd sub ota ∷ l) h = ground (arith, auto_armed-asked l)
auto_armed-asked (taken ∷ l) h = auto_armed-asked l h

-- The reducer has v1 unlocked exactly if it was asked for, an
-- explicit sleep pending exactly if one was asked for behind the gate and neither withdrawn nor
-- taken since, and auto-sleep armed exactly if it was armed behind the gate and not cleared since.
pub record Agrees (st : SleepProto) (l : List Event) : Type 0 where
  pub unlocked_is : st.unlocked ≡ asked l
  pub pending_is : st.sleep_pending ≡ sleep_asked l
  pub auto_is : st.autosleep ≡ auto_armed l

apply-Agrees :
    (st : SleepProto) (e : Event) (l : List Event) → Agrees st l → Agrees (apply st e) (e ∷ l)
unfolding apply on_frame is_state_changing asked sleep_asked auto_armed
apply-Agrees st (frame cmd sub ota) l h = ground (arith, auto_armed-asked l)
apply-Agrees st taken l h = ground arith

-- The three flags after any history of accepted frames and taken requests since boot are those
-- that the history calls for: see `Agrees`.
pub after-Agrees : (l : List Event) → Agrees (after l) l
unfolding after asked sleep_asked auto_armed
after-Agrees [] = ground arith
after-Agrees (e ∷ l) = apply-Agrees (after l) e l (after-Agrees l)
