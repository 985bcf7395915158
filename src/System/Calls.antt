-- ===== src/System/Calls.antt =====
-- What the calls of firmware/src/main.c come to for the link: histories of the link's inputs.
use open_controller.Prelude.{
  ℕ, ◌≡◌, refl, ap, ◌∙◌, Bool, true, false, not, ◌&&◌, ◌||◌, List, [], ◌∷◌, ◌++◌, ◌==◌,
  if◌then◌else◌, ltb, sub32, arith,
}
use open_controller.MainLoop as Main
use open_controller.MainLoop.{
  Build, Answers, Device, reply, sleep_part, command, handle_uart_frame, openboot_service,
  power_service, ota_drain, sleep_drain,
}
use open_controller.MainLoop.Histories.{services, any_call, is_request_update}
use open_controller.SleepProtocol as Protocol
use open_controller.SleepProtocol.{Action, on_frame, is_state_changing}
use open_controller.RfTask.Reports.{disconnect}
use open_controller.RfTask.Link.{Link}
use open_controller.RfTask.Link.Calls.{
  drop_queue_unless_reselected, rf_select_2g4, rf_enter_pairing, rf_disconnect, rf_flush_bond_save,
  rf_clear_bond, rf_queue_hid_report,
}
use open_controller.RfTask.Link.Resting.{rest_cancel, begin_search}
use open_controller.RfTask.Link.Histories.{
  reported, selected, pairing_asked, left, unpaired, factory_paired, shut_down, apply,
}
use open_controller.System.{System, follow, settle, perform, perform_all, answers}
use open_controller.System.Linked.{Reaches, self-Reaches, one-Reaches, compose-Reaches}

-- What a call does to the link.
unfoldable pub radio_after : Main.Call → Link → Link
radio_after (Main.set_autosleep on) l = l
radio_after Main.note_activity l = l
radio_after Main.cancel_explicit l = l
radio_after Main.request_explicit l = l
radio_after (Main.send_status n) l = l
radio_after (Main.send_battery n) l = l
radio_after (Main.queue_hid_report report) l = settle (rf_queue_hid_report l report)
radio_after Main.rf_disconnect l = settle (rf_disconnect l)
radio_after Main.drop_queue_unless_reselected l = settle (drop_queue_unless_reselected l)
radio_after Main.select_2g4 l = settle (rf_select_2g4 l).0
radio_after Main.enter_pairing l = settle (rf_enter_pairing l).0
radio_after Main.clear_bond l = settle (rf_clear_bond l)
radio_after Main.flush_bond_save l = settle (rf_flush_bond_save l)
radio_after Main.diag_dump_send l = l
radio_after Main.diag_dump_zero l = l
radio_after Main.mask_interrupts l = l
radio_after Main.request_update l = l

unfoldable pub radio_all : List Main.Call → Link → Link
radio_all [] l = l
radio_all (c ∷ cs) l = radio_all cs (radio_after c l)

perform-link :
    (now : ℕ) (c : Main.Call) (s : System) → (perform now c s).link ≡ radio_after c s.link
unfolding perform radio_after follow
perform-link now (Main.set_autosleep on) s = refl
perform-link now Main.note_activity s = refl
perform-link now Main.cancel_explicit s = refl
perform-link now Main.request_explicit s = refl
perform-link now (Main.send_status n) s = refl
perform-link now (Main.send_battery n) s = refl
perform-link now (Main.queue_hid_report report) s = refl
perform-link now Main.rf_disconnect s = refl
perform-link now Main.drop_queue_unless_reselected s = refl
perform-link now Main.select_2g4 s = refl
perform-link now Main.enter_pairing s = refl
perform-link now Main.clear_bond s = refl
perform-link now Main.flush_bond_save s = refl
perform-link now Main.diag_dump_send s = refl
perform-link now Main.diag_dump_zero s = refl
perform-link now Main.mask_interrupts s = refl
perform-link now Main.request_update s = refl

pub perform_all-link :
    (now : ℕ) (cs : List Main.Call) (s : System) → (perform_all now cs s).link ≡ radio_all cs s.link
unfolding perform_all radio_all
perform_all-link now [] s = refl
perform_all-link now (c ∷ cs) s =
    perform_all-link now cs (perform now c s) ∙ ap (radio_all cs) (perform-link now c s)

radio_all-append :
    (cs ds : List Main.Call) (l : Link) → radio_all (cs ++ ds) l ≡ radio_all ds (radio_all cs l)
unfolding radio_all
radio_all-append [] ds l = refl
radio_all-append (c ∷ cs) ds l = radio_all-append cs ds (radio_after c l)

reply-radio : (a : Action) (l : Link) → radio_all (reply a) l ≡ l
unfolding reply radio_all radio_after
reply-radio Protocol.none l = refl
reply-radio Protocol.send_ready l = refl
reply-radio Protocol.arm l = refl
reply-radio Protocol.cancel l = refl

cancel-radio : (b : Bool) (l : Link) → radio_all (if b then Main.cancel_explicit ∷ [] else []) l ≡ l
unfolding radio_all radio_after
cancel-radio true l = refl
cancel-radio false l = refl

-- The sleep protocol's part of a frame leaves the link alone.
sleep_part-radio : (d : Device) (cmd sub : ℕ) (l : Link) → radio_all (sleep_part d cmd sub).1 l ≡ l
unfolding sleep_part radio_all radio_after
sleep_part-radio d cmd sub l =
    let (proto, action) = on_frame d.sleep_proto cmd sub d.openboot_entry_pending in
    radio_all-append (reply action) _ l
    ∙ ap (radio_all (if is_state_changing cmd sub then Main.cancel_explicit ∷ [] else []))
        (reply-radio action l)
    ∙ cancel-radio (is_state_changing cmd sub) l

left-Reaches :
    (l : Link) → Reaches l (settle (drop_queue_unless_reselected (settle (rf_disconnect l))))
unfolding settle apply drop_queue_unless_reselected rf_disconnect
left-Reaches l = one-Reaches l _ left refl

unpaired-Reaches : (l : Link) → Reaches l (settle (rf_clear_bond (settle (rf_disconnect l))))
unfolding settle apply rf_clear_bond rf_disconnect rest_cancel disconnect
unpaired-Reaches l = one-Reaches l _ unpaired refl

shut_down-Reaches : (l : Link) → Reaches l (settle (rf_disconnect (settle (rf_flush_bond_save l))))
unfolding settle apply rf_flush_bond_save rf_disconnect rest_cancel
shut_down-Reaches l = one-Reaches l _ shut_down refl

factory-Reaches :
    (l : Link)
    → l.mac_valid ≡ true
    → Reaches l (settle (rf_enter_pairing (settle (rf_clear_bond (settle (rf_disconnect l))))).0)
unfolding settle apply rf_clear_bond rf_disconnect rf_enter_pairing rest_cancel begin_search
factory-Reaches l h = one-Reaches l _ factory_paired (ground arith)

selected-Reaches : (l : Link) → Reaches l (settle (rf_select_2g4 l).0)
unfolding settle apply
selected-Reaches l = one-Reaches l _ selected refl

asks-Reaches : (l : Link) → Reaches l (settle (rf_enter_pairing l).0)
unfolding settle apply
asks-Reaches l = one-Reaches l _ pairing_asked refl

report-Reaches : (l : Link) (report : List ℕ) → Reaches l (settle (rf_queue_hid_report l report))
unfolding settle apply
report-Reaches l report = one-Reaches l _ (reported report) refl

-- One of two lists of calls.
either-Reaches :
    {l : Link} (b : Bool) (cs ds : List Main.Call)
    → (b ≡ true → Reaches l (radio_all cs l))
    → (b ≡ false → Reaches l (radio_all ds l))
    → Reaches l (radio_all (if b then cs else ds) l)
either-Reaches true cs ds f g = f refl
either-Reaches false cs ds f g = g refl

-- One of two results of a handler.
branch-Reaches :
    {l : Link} (b : Bool) (x y : Device × List Main.Call)
    → Reaches l (radio_all x.1 l)
    → Reaches l (radio_all y.1 l)
    → Reaches l (radio_all (if b then x else y).1 l)
branch-Reaches true x y f g = f
branch-Reaches false x y f g = g

command-Reaches :
    (build : Build) (d : Device) (sub : ℕ) (l : Link)
    → Reaches l (radio_all (command build (answers l) d sub).1 l)
unfolding command radio_all radio_after answers
command-Reaches build d sub l =
    let self = self-Reaches l in
    branch-Reaches (sub == 0x11) _ _ (left-Reaches l) (
      branch-Reaches (sub == 0x30) _ _ (selected-Reaches l) (
        branch-Reaches (sub == 0x31 || sub == 0x32 || sub == 0x33) _ _ (left-Reaches l) (
          branch-Reaches (sub == 0x51) _ _
            (either-Reaches (not d.transport_is_2g4) _ _ (λ h. self)
              (λ h.
                either-Reaches (not l.mac_valid) _ _ (λ k. self)
                  (λ k.
                    either-Reaches (rf_enter_pairing l).1 _ _ (λ e. asks-Reaches l)
                      (λ e. asks-Reaches l))))
            (branch-Reaches (sub == 0x52) _ _ (unpaired-Reaches l) (
              branch-Reaches (sub == 0x53) _ _ self (
                branch-Reaches (sub == 0x63) _ _
                  (either-Reaches l.mac_valid _ _ (λ h. factory-Reaches l h) (λ h. self))
                  (branch-Reaches (sub == 0x58) _ _
                    (either-Reaches build.host_wake _ _ (λ h. self) (λ h. self))
                    (branch-Reaches (sub == 0x71) _ _
                      (either-Reaches build.diag_dump _ _ (λ h. self) (λ h. self))
                      (branch-Reaches (sub == 0x72) _ _
                        (either-Reaches build.diag_dump _ _ (λ h. self) (λ h. self))
                        (branch-Reaches (sub == 0x81) _ _ self self))))))))))

-- An accepted frame is, for the link, a history of its inputs.
pub frame-Reaches :
    (build : Build) (d : Device) (cmd sub : ℕ) (payload : List ℕ) (l : Link)
    → Reaches l (radio_all (handle_uart_frame build (answers l) d cmd sub payload).1 l)
unfolding handle_uart_frame radio_all radio_after
frame-Reaches build d cmd sub payload l =
    let (d1, calls) = sleep_part d cmd sub in
    let same = sleep_part-radio d cmd sub l in
    branch-Reaches (cmd == 0xA1) _ _
      (coe 1 0 (i. Reaches l (radio_all-append calls (Main.queue_hid_report payload ∷ []) l i)) (
        coe 1 0 (i. Reaches l (settle (rf_queue_hid_report (same i) payload)))
          (report-Reaches l payload)))
      (branch-Reaches (not (cmd == 0xA6)) _ _ (coe 1 0 (i. Reaches l (same i)) (self-Reaches l)) (
        coe 1 0 (i. Reaches l (radio_all-append calls (command build (answers l) d1 sub).1 l i)) (
          coe 1 0 (i. Reaches l (radio_all (command build (answers l) d1 sub).1 (same i)))
            (command-Reaches build d1 sub l))))

openboot-Reaches :
    (build : Build) (now : ℕ) (fifo_idle : Bool) (d : Device) (l : Link)
    → Reaches l (radio_all (openboot_service build now fifo_idle d).1 l)
unfolding openboot_service radio_all radio_after
openboot-Reaches build now fifo_idle d l =
    let self = self-Reaches l in
    branch-Reaches (d.openboot_state == 0) _ _
      (branch-Reaches (not d.openboot_entry_pending) _ _ self (shut_down-Reaches l))
      (branch-Reaches (not fifo_idle && ltb (sub32 now d.openboot_start) (ota_drain build)) _ _ self
        self)

power-Reaches :
    (build : Build) (now : ℕ) (tx_idle : Bool) (d : Device) (l : Link)
    → Reaches l (radio_all (power_service build now tx_idle d).1 l)
unfolding power_service radio_all radio_after
power-Reaches build now tx_idle d l =
    let self = self-Reaches l in
    branch-Reaches (d.power_state == 0) _ _
      (branch-Reaches (not d.sleep_proto.sleep_pending) _ _ self
        (branch-Reaches d.openboot_entry_pending _ _ self self))
      (branch-Reaches (not d.sleep_proto.sleep_pending || d.openboot_entry_pending) _ _ self (
        branch-Reaches (not tx_idle) _ _
          (branch-Reaches (ltb (sub32 now d.power_start) (sleep_drain build)) _ _ self self)
          (shut_down-Reaches l)))

-- So is a passage of the two services.
pub services-Reaches :
    (build : Build) (now : ℕ) (fifo_idle : Bool) (later : ℕ) (tx_idle : Bool) (d : Device)
    (l : Link)
    → Reaches l (radio_all (services build now fifo_idle later tx_idle d).1 l)
unfolding services
services-Reaches build now fifo_idle later tx_idle d l =
    let (d1, calls) = openboot_service build now fifo_idle d in
    let (d2, more) = power_service build later tx_idle d1 in
    let first = openboot-Reaches build now fifo_idle d l in
    branch-Reaches (any_call is_request_update calls) (d1, calls) (d2, calls ++ more) first
      (coe 1 0 (i. Reaches l (radio_all-append calls more l i))
        (compose-Reaches first (power-Reaches build later tx_idle d1 (radio_all calls l))))
