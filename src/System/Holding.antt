-- ===== src/System/Holding.antt =====
-- The LED value that the link of firmware/src/rf_task.c notes as sent is held by host wake, through
-- whatever main.c calls.
use open_controller.Prelude.{ℕ, ◌≡◌, ◌≢◌, refl, ◌∙◌, true, Option, List, [], ◌∷◌}
use open_controller.HostWake.Latest.{IsHeld, enqueue-IsHeld, set_latest-IsHeld}
use open_controller.KeyboardUart.Port.{Port, send_status, send_battery, send_led, send_host_frame}
use open_controller.MainLoop as Main
use open_controller.RfTask.Link as Radio
use open_controller.RfTask.Link.{Link, is_asked, evt_notify_led}
use open_controller.RfTask.Link.Calls.{rf_select_2g4, rf_enter_pairing}
use open_controller.RfTask.Link.Histories as Histories
use open_controller.RfTask.Link.Histories.{
  booted, selected, pairing_asked, due, interrupted, turned_around, ticked,
}
use open_controller.System.{System, make, make_all, settle, follow, perform, perform_all}
use open_controller.System.Offers.{
  led_after, IsOffered, apply-IsOffered, report-IsOffered, drop-IsOffered, disconnect-IsOffered,
  clear-IsOffered, flush-IsOffered,
}

-- The value that the LED slot answers for, where there is one.
abbrev pub Holds : Port → Option ℕ → ℕ → Type 0
Holds p shown v = v ≢ 0xFF → IsHeld p.wake shown v

pub status-Holds :
    (p : Port) (n : ℕ) {shown : Option ℕ} {v : ℕ}
    → Holds p shown v
    → Holds (send_status true p n) shown v
unfolding send_status send_host_frame
status-Holds p n {shown} {v} h k = enqueue-IsHeld p.wake 0x5B n shown v (h k)

battery-Holds :
    (p : Port) (n : ℕ) {shown : Option ℕ} {v : ℕ}
    → Holds p shown v
    → Holds (send_battery true p n) shown v
unfolding send_battery send_host_frame
battery-Holds p n {shown} {v} h k = enqueue-IsHeld p.wake 0x5C n shown v (h k)

make_all-Holds :
    (p : Port) (cs : List Radio.Call) {shown : Option ℕ} {v : ℕ}
    → Holds p shown v
    → Holds (make_all cs p) shown (led_after cs v)
unfolding make_all make led_after send_led
make_all-Holds p [] h = h
make_all-Holds p (Radio.send_status n ∷ cs) h =
    status-Holds (make_all cs p) n (make_all-Holds p cs h)
make_all-Holds p (Radio.send_led w ∷ cs) {shown} h =
    λ k. set_latest-IsHeld (make_all cs p).wake 0x5A w shown
make_all-Holds p (Radio.save_bond b ∷ cs) h = make_all-Holds p cs h
make_all-Holds p (Radio.clear_flash ∷ cs) h = make_all-Holds p cs h
make_all-Holds p (Radio.beacon c payload ∷ cs) h = make_all-Holds p cs h
make_all-Holds p (Radio.respond c payload ∷ cs) h = make_all-Holds p cs h

-- What holds of the whole module: no call is left unmade, and the value that the link notes as sent
-- is held.
pub record IsKept (l : Link) (p : Port) (shown : Option ℕ) : Type 0 where
  pub settled : l.calls ≡ []
  pub held : Holds p shown l.last_led_sent

pub follow-IsKept :
    (s : System) (l : Link) {shown : Option ℕ}
    → IsOffered s.link l
    → IsKept s.link s.port shown
    → IsKept (follow s l).link (follow s l).port shown
unfolding follow settle IsOffered
follow-IsKept s l {shown} o h = record {
  settled = refl;
  held = λ n.
      let e = o h.settled n in
      coe 1 0 (i. IsHeld (make_all l.calls s.port).wake shown (e i))
        (make_all-Holds s.port l.calls h.held (λ k. n (e ∙ k)));
}

select-IsOffered : (l : Link) → IsOffered l (rf_select_2g4 l).0
unfolding Histories.apply
select-IsOffered l = apply-IsOffered l selected

pairing-IsOffered : (l : Link) → IsOffered l (rf_enter_pairing l).0
unfolding Histories.apply
pairing-IsOffered l = apply-IsOffered l pairing_asked

perform-IsKept :
    (now : ℕ) (c : Main.Call) (s : System) {shown : Option ℕ}
    → IsKept s.link s.port shown
    → IsKept (perform now c s).link (perform now c s).port shown
unfolding perform
perform-IsKept now (Main.set_autosleep on) s h = h
perform-IsKept now Main.note_activity s h = h
perform-IsKept now Main.cancel_explicit s h = h
perform-IsKept now Main.request_explicit s h = h
perform-IsKept now (Main.send_status n) s h = record {
  settled = h.settled;
  held = status-Holds s.port n h.held;
}
perform-IsKept now (Main.send_battery n) s h = record {
  settled = h.settled;
  held = battery-Holds s.port n h.held;
}
perform-IsKept now (Main.queue_hid_report report) s h =
    follow-IsKept s _ (report-IsOffered s.link report) h
perform-IsKept now Main.rf_disconnect s h = follow-IsKept s _ (disconnect-IsOffered s.link) h
perform-IsKept now Main.drop_queue_unless_reselected s h =
    follow-IsKept s _ (drop-IsOffered s.link) h
perform-IsKept now Main.select_2g4 s h = follow-IsKept s _ (select-IsOffered s.link) h
perform-IsKept now Main.enter_pairing s h = follow-IsKept s _ (pairing-IsOffered s.link) h
perform-IsKept now Main.clear_bond s h = follow-IsKept s _ (clear-IsOffered s.link) h
perform-IsKept now Main.flush_bond_save s h = follow-IsKept s _ (flush-IsOffered s.link) h
perform-IsKept now Main.diag_dump_send s h = h
perform-IsKept now Main.diag_dump_zero s h = h
perform-IsKept now Main.mask_interrupts s h = h
perform-IsKept now Main.request_update s h = h

pub perform_all-IsKept :
    (now : ℕ) (cs : List Main.Call) (s : System) {shown : Option ℕ}
    → IsKept s.link s.port shown
    → IsKept (perform_all now cs s).link (perform_all now cs s).port shown
unfolding perform_all
perform_all-IsKept now [] s h = h
perform_all-IsKept now (c ∷ cs) s h =
    perform_all-IsKept now cs (perform now c s) (perform-IsKept now c s h)
