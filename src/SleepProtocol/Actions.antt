-- ===== src/SleepProtocol/Actions.antt =====
-- What each action that `SleepProtocol_OnFrame` returns says of the change it makes.
use open_controller.Prelude.{ℕ, ◌≡◌, Bool, true, false, arith}
use open_controller.SleepProtocol.{
  SleepProto, Action, none, send_ready, arm, cancel, is_state_changing, on_frame, cmd_a6,
  sub_unlock, sub_sleep,
}

-- The meaning of an action for the state before and after.
abbrev pub Meaning : Action → SleepProto → SleepProto → ℕ → ℕ → Bool → Type 0
Meaning send_ready st st' cmd sub ota =
    (cmd ≡ cmd_a6)
    × (sub ≡ sub_unlock)
    × (st'.unlocked ≡ true)
    × (st'.sleep_pending ≡ false)
    × (st'.autosleep ≡ false)
Meaning arm st st' cmd sub ota =
    (cmd ≡ cmd_a6)
    × (sub ≡ sub_sleep)
    × (ota ≡ false)
    × (st.unlocked ≡ true)
    × (st.sleep_pending ≡ false)
    × (st' ≡ record st { sleep_pending = true })
Meaning cancel st st' cmd sub ota =
    (is_state_changing cmd sub ≡ true)
    × (st.sleep_pending ≡ true)
    × (st'.sleep_pending ≡ false)
    × (st'.unlocked ≡ st.unlocked)
Meaning none st st' cmd sub ota =
    (st'.sleep_pending ≡ st.sleep_pending)
    × (st'.unlocked ≡ st.unlocked)
    × (st.sleep_pending ≡ true → is_state_changing cmd sub ≡ false)

-- For every frame in every state, the action that comes back is what happened: a reply exactly
-- resets to the unlocked baseline, arming sets the pending request of an unlocked module with no
-- bootloader entry pending, cancelling clears it on a state-changing command, and no action keeps
-- the request and the gate, with no state-changing command in front of a pending request.
pub on_frame-Meaning :
    (st : SleepProto) (cmd sub : ℕ) (ota : Bool)
    → Meaning (on_frame st cmd sub ota).1 st (on_frame st cmd sub ota).0 cmd sub ota
unfolding on_frame is_state_changing
on_frame-Meaning st cmd sub ota = ground arith
