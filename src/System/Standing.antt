-- ===== src/System/Standing.antt =====
-- The passages of the loop of firmware/src/main.c that find nothing to do.
use open_controller.Prelude.{ℕ, ◌≡◌, ap, ◌∙◌, Bool, true, false, [], if◌then◌else◌, arith}
use open_controller.HostWake.{HostWake, Output, step, step_in, have_pending, is_idle, release}
use open_controller.KeyboardUart.Port.{Port, take_led_lost, service, drive}
use open_controller.MainLoop.{openboot_service, power_service}
use open_controller.MainLoop.Histories.{services, any_call, is_request_update}
use open_controller.RfTask.Link.Calls.{rf_led_resync, rf_flush_bond_save, rf_disconnect}
use open_controller.RfTask.Link.Resting.{rest_cancel}
use open_controller.System.{
  Board, System, Readings, make, make_all, settle, follow, perform, perform_all, serve, attend,
}

-- A port that owes the host nothing.
pub record IsFree (p : Port) : Type 0 where
  pub idles : is_idle p.wake.state ≡ true
  pub empty : have_pending p.wake ≡ false
  pub low : p.chwake_level ≡ false
  pub taken : p.wake.latest_lost ≡ false

free-step :
    (hw : HostWake) (now : ℕ)
    → is_idle hw.state ≡ true
    → have_pending hw ≡ false
    → step hw now ≡ (hw, release)
unfolding step step_in
free-step hw now s e = ground arith

free-drive :
    (p : Port)
    → p.chwake_level ≡ false
    → p.wake.latest_lost ≡ false
    → take_led_lost true (drive p (p.wake, release)) ≡ (p, false)
unfolding drive take_led_lost
free-drive p l t = ground arith

pub serve-free : (now : ℕ) (s : System) → IsFree s.port → serve now s ≡ s
unfolding serve service
serve-free now s h =
    let stepped = free-step s.port.wake now h.idles h.empty in
    ap
      (λ (x : Port × Bool).
        if x.1
        then follow (record s { port = x.0 }) (rf_led_resync s.link)
        else record s { port = x.0 })
      (ap (λ (r : HostWake × Output). take_led_lost true (drive s.port r)) stepped
        ∙ free-drive s.port h.low h.taken)

pub attend-port :
    (board : Board) (r : Readings) (s : System)
    → s.link.calls ≡ []
    → (attend board r s).port ≡ s.port
unfolding attend services openboot_service power_service perform_all perform follow settle make_all
    make rf_flush_bond_save rf_disconnect rest_cancel any_call is_request_update
attend-port board r s c = ground arith

pub attend-free :
    (board : Board) (r : Readings) (s : System)
    → s.device.openboot_state ≡ 0
    → s.device.openboot_entry_pending ≡ false
    → s.device.power_state ≡ 0
    → s.device.sleep_proto.sleep_pending ≡ false
    → attend board r s ≡ s
unfolding attend services openboot_service power_service perform_all any_call
attend-free board r s a b c d = ground arith
