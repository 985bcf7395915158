-- ===== src/RfTask/Reports/Tests.antt =====
-- Runs of the key reports at concrete inputs, and instances of their theorems.
use open_controller.Prelude.{ℕ, ◌≡◌, refl, true, some, List, [], ◌∷◌, ◌++◌}
use open_controller.RfTask.Reports.{
  task_init, no_report, same_bytes, is_down, hid_key_held, changed, low_bit_differs, next_ctrl,
  queue_hid_report, on_poll, response, do_response_tx, enter_connected,
}
use open_controller.RfTask.Reports.History.{
  contents, initial, Event, queued, polled, responded, connected, is_newest, to_list, carried,
  apply, run, EndsIn,
}
use open_controller.RfTask.Reports.Faithful.{newest_kept}

abbrev key_down : List ℕ
key_down = 0 ∷ 0 ∷ 4 ∷ 0 ∷ 0 ∷ 0 ∷ 0 ∷ 0 ∷ []

-- A key pressed and released before the dongle has confirmed either.
abbrev events : List Event
events =
    connected
    ∷ queued key_down
    ∷ queued key_down
    ∷ responded true
    ∷ queued no_report
    ∷ polled 0x01
    ∷ responded true
    ∷ []

newest_test : (run initial events).newest ≡ some no_report
unfolding run apply queue_hid_report changed same_bytes is_newest low_bit_differs do_response_tx
    enter_connected
newest_test = refl

newest_kept_example :
    EndsIn ((run initial events).gone ++ contents (run initial events).rf) no_report
newest_kept_example = newest_kept events no_report newest_test

-- The press is confirmed once, and the release is in the air.
gone_test : (run initial events).gone ≡ key_down ∷ []
unfolding run apply low_bit_differs on_poll queue_hid_report changed same_bytes do_response_tx
    response to_list carried is_newest enter_connected
gone_test = refl

on_air_test : (run initial events).on_air ≡ some no_report
unfolding run apply low_bit_differs on_poll queue_hid_report changed same_bytes do_response_tx
    response to_list carried is_newest enter_connected
on_air_test = refl

ctrl_test : next_ctrl 0x02 0x01 ≡ 0x01
unfolding next_ctrl
ctrl_test = refl

held_test : hid_key_held (queue_hid_report task_init key_down) ≡ true
unfolding hid_key_held is_down queue_hid_report changed
held_test = refl
