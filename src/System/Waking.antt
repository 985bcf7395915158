-- ===== src/System/Waking.antt =====
-- Deep sleep of the whole module: what holds whenever the idle callback of
-- firmware/src/power_sleep.c enters it.
use open_controller.Prelude.{
  ℕ, ◌≡◌, ◌≢◌, sym, ap, ◌∙◌, Bool, true, false, ◌||◌, some, List, ◌==◌, arith,
}
use open_controller.KeyboardUart.Port.{fifo_idle, tx_idle, host_wake_idle}
use open_controller.KeyboardUart.Port.Line.{quiet-low}
use open_controller.PowerSleep.Gate.{low_power-Passed}
use open_controller.RfTask.Bond.{Bond}
use open_controller.RfTask.Link.{Link, idle, connected, shut}
use open_controller.RfTask.Link.Calls.{can_deep_sleep}
use open_controller.RfTask.Link.Histories as Histories
use open_controller.RfTask.Link.Histories.{booted}
use open_controller.RfTask.Link.Tuning.{sleeps_shut}
use open_controller.System.{Board, System, Event, Idle, settle, gates, rest, run, boot}
use open_controller.System.Heeding.{Said, said, nothing, run-IsHeeded}
use open_controller.System.Lines.{run-IsSteady}
use open_controller.System.Linked.{Reaches}
use open_controller.System.Simulation.{run-Reaches}

-- What holds of a module that sleeps, with what the host has said.
pub record IsSafe (s : System) (i : Idle) (w : Said) : Type 0 where
  pub shut_lem : s.link.radio.mode ≡ shut
  pub apart : s.link.state ≢ connected
  pub no_update : w.update ≡ false
  pub line_low : s.port.pin ≡ false
  pub quiet : host_wake_idle true s.port ≡ true
  pub drained : fifo_idle i.tfc i.all_empty ≡ true
  pub received : i.rx_quiet ≡ true
  pub wanted :
      s.power.explicit_request ≡ true → ((w.sleep || w.reset) ≡ true) × (s.link.state ≡ idle)
  pub armed : s.power.explicit_request ≡ false → w.auto ≡ true

-- The radio, carried over from a history of the link's own.
pub sleeping-shut :
    (mac : List ℕ) (mac_valid : Bool) (bond : Bond) {l : Link}
    → Reaches (booted mac mac_valid bond) l
    → can_deep_sleep l ≡ true
    → l.radio.mode ≡ shut
unfolding settle can_deep_sleep
sleeping-shut mac mac_valid bond {l} r h =
    let same : can_deep_sleep (Histories.run (booted mac mac_valid bond) r.inputs)
        ≡ can_deep_sleep l =
      ap can_deep_sleep (sym r.reaches) in
    ap (λ (l : Link). l.radio.mode) r.reaches ∙ sleeps_shut mac mac_valid bond r.inputs (same ∙ h)

-- A module that may sleep is not connected.
can_sleep-apart :
    (l : Link)
    → (l.state == idle || can_deep_sleep l) ≡ true
    → (can_deep_sleep l ≡ true) × (l.state ≢ connected)
unfolding can_deep_sleep
can_sleep-apart l h = (ground arith, λ e. absurd (ground arith))

-- Whatever has come to the module since its boot, in whatever order: if the idle callback enters deep
-- sleep, then the radio is shut and not connected; no update has been asked for; no frame for the host
-- waits, is on the wire or lacks its ACK, CHWAKE is low, the transmit FIFO empty and nothing received
-- unhandled. By request, the link is idle, and the host has asked for the sleep with A6 54 behind an
-- A6 56 and has sent nothing since that changes state, an A6 56 apart; without one, it has armed
-- auto-sleep.
pub rest-IsSafe :
    (board : Board) (mac : List ℕ) (mac_valid : Bool) (bond : Bond) (es : List Event) (i : Idle)
    (time : ℕ)
    → (rest board i (run board (boot board mac mac_valid bond) es)).entered ≡ some time
    → IsSafe
        (run board (boot board mac mac_valid bond) es)
        i
        (said board (boot board mac mac_valid bond) nothing es)
unfolding rest gates tx_idle
rest-IsSafe board mac mac_valid bond es i time e =
    let s = run board (boot board mac mac_valid bond) es in
    let p = low_power-Passed board.sdk (gates s i) i.boundary s.power i.deadline time e in
    let steady = run-IsSteady board mac mac_valid bond es in
    let heeded = run-IsHeeded board mac mac_valid bond es in
    let (sleeps, apart) = can_sleep-apart s.link p.radio in
    let asked = p.asked in
    let sent = p.sent in
    let explicit_idle = p.explicit_idle in
    record {
      shut_lem = sleeping-shut mac mac_valid bond (run-Reaches board mac mac_valid bond es) sleeps;
      apart = apart;
      no_update = sym heeded.update_lem ∙ p.no_update;
      line_low = quiet-low steady (ground arith);
      quiet = ground arith;
      drained = ground arith;
      received = p.received;
      wanted = λ k. (heeded.explicit_lem k, ground arith);
      armed = λ k. sym heeded.armed_lem ∙ ground arith;
    }
