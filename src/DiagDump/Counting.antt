-- ===== src/DiagDump/Counting.antt =====
-- The counters of deep sleep, firmware/src/power_sleep.c, over a run: histories, and their balance.
use open_controller.Prelude.{
  ℕ, ◌+◌, ◌%◌, ◌≡◌, refl, Bool, true, false, not, ◌&&◌, ◌||◌, if◌then◌else◌, Option, none, some,
  List, [], ◌∷◌, ◌==◌, u16, u32, ◌^◌, Bool-cases, inl, inr, arith,
}
use open_controller.DiagFrame.{Snapshot}
use open_controller.KeyboardUart.Transmit.{Reading}
use open_controller.PowerSleep.{Sdk, Boundary, Gates, PowerSleep, holdoff_expired}
use open_controller.RfTask.Link.{connected}
use open_controller.DiagDump.{
  Diag, no_power, pwr_abort, count_wake, count_sleep, count_armed, count_low_power, unless_frozen,
  thaw, diag_dump_send, diag_dump_zero, hal_sleep_init, main_init,
}

-- What happens to the counters: a call of TMOS's idle callback, the core idled, a pass of the loop, what rf_task.c
-- and the start-up count in the snapshot's other fields, and the two commands of the host.
pub data Event : Type 0 where
  called : Sdk → Gates → Boundary → PowerSleep → ℕ → Event
  idled : Event
  passed : Event
  counted : Snapshot → Event
  dumped : ℕ → ℕ → List Reading → Event
  zeroed : ℕ → Event

-- The counters of power_sleep.c and main.c from one snapshot, the others from another.
unfoldable pub with_power : Snapshot → Snapshot → Snapshot
with_power s other = record other {
  pwr_wfi_count = s.pwr_wfi_count;
  pwr_sleep_attempt = s.pwr_sleep_attempt;
  pwr_sleep_entered = s.pwr_sleep_entered;
  pwr_sleep_aborted = s.pwr_sleep_aborted;
  pwr_wake_gpio = s.pwr_wake_gpio;
  pwr_wake_rtc = s.pwr_wake_rtc;
  pwr_last_abort_reason = s.pwr_last_abort_reason;
  pwr_loop_passes = s.pwr_loop_passes;
  pwr_loop_stage = s.pwr_loop_stage;
}

-- A dump that does not return leaves the counters.
unfoldable pub left_by : Diag → Option (Diag × List ℕ × List Reading) → Diag
left_by d none = d
left_by d (some (d', sent, rs)) = d'

unfoldable pub apply : Diag → Event → Diag
apply d (called sdk g b p deadline) = unless_frozen (count_low_power sdk g b p deadline) d
apply d idled = unless_frozen (λ s. record s { pwr_wfi_count = u32 (s.pwr_wfi_count + 1) }) d
apply d passed = unless_frozen (λ s. record s { pwr_loop_passes = u16 (s.pwr_loop_passes + 1) }) d
apply d (counted other) = record d { counters = with_power d.counters other }
apply d (dumped bound state rs) = left_by d (diag_dump_send bound state d rs)
apply d (zeroed state) = diag_dump_zero state d

unfoldable pub run : Diag → List Event → Diag
run d [] = d
run d (e ∷ es) = run (apply d e) es

-- A dump changes nothing but the freeze, and that only to lift it.
pub record IsDumped (d d' : Diag) : Type 0 where
  pub same : d'.counters ≡ d.counters
  pub thawed : d'.frozen ≡ true → d.frozen ≡ true

thaw-IsDumped :
    (is_connected : Bool) (n : ℕ) (d : Diag) (r : Option (List ℕ × List Reading))
    → IsDumped d (left_by d (thaw is_connected n d r))
unfolding thaw left_by
thaw-IsDumped is_connected n d none = record { same = refl; thawed = λ h. h }
thaw-IsDumped is_connected n d (some (sent, rs)) = record {
  same = ground arith;
  thawed = λ h. ground arith;
}

pub dump-IsDumped :
    (bound state : ℕ) (d : Diag) (rs : List Reading)
    → IsDumped d (left_by d (diag_dump_send bound state d rs))
unfolding diag_dump_send
dump-IsDumped bound state d rs = thaw-IsDumped (state == connected) _ d _

-- Whether an armed auto-sleep is refused without being tried: an update waits, or the hold-off is over
-- and the UART or the radio is busy.
unfoldable pub is_turned_away : Sdk → Gates → PowerSleep → Bool
is_turned_away sdk g p =
    not p.explicit_request
    && p.autosleep
    && (g.openboot_pending
        || (holdoff_expired sdk p g.rx_activity g.now).1
          && not (g.tx_idle && g.rx_quiet && (g.rf_idle || g.can_deep_sleep)))

-- The sleeps refused without being tried, while the record counts; the host's zeroing clears them.
unfoldable pub turned_away_by : Diag → ℕ → Event → ℕ
turned_away_by d n (called sdk g b p deadline) =
    if not d.frozen && is_turned_away sdk g p then n + 1 else n
turned_away_by d n (zeroed state) = if state == connected then n else 0
turned_away_by d n e = n

unfoldable pub turned_away : Diag → ℕ → List Event → ℕ
turned_away d n [] = n
turned_away d n (e ∷ es) = turned_away (apply d e) (turned_away_by d n e) es

-- Each sleep tried, and each refused without being tried, ends in a refusal or none that is known, a
-- wake by the host, or one by the timer; the counters have 16 bits.
pub record IsBalanced (n : ℕ) (s : Snapshot) : Type 0 where
  pub ends :
      (s.pwr_sleep_aborted + s.pwr_wake_gpio + s.pwr_wake_rtc) % 2 ^ 16
      ≡ (s.pwr_sleep_attempt + n) % 2 ^ 16

sleep-IsBalanced :
    {n : ℕ} {s : Snapshot} (sdk : Sdk) (b : Boundary) (deadline : ℕ)
    → IsBalanced n s
    → IsBalanced n (count_sleep sdk b deadline s)
unfolding count_sleep count_wake pwr_abort
sleep-IsBalanced sdk b deadline h = let ends = h.ends in record { ends = ground arith }

abort-IsBalanced :
    {n : ℕ} {s : Snapshot} (reason : ℕ) → IsBalanced n s → IsBalanced (n + 1) (pwr_abort reason s)
unfolding pwr_abort
abort-IsBalanced reason h = let ends = h.ends in record { ends = omega arith }

-- A call counts as turned away or not, and leaves the balance either way.
called-IsBalanced :
    {n : ℕ} {s : Snapshot} (sdk : Sdk) (g : Gates) (b : Boundary) (p : PowerSleep) (deadline : ℕ)
    → IsBalanced n s
    → IsBalanced
        (if is_turned_away sdk g p then n + 1 else n)
        (count_low_power sdk g b p deadline s)
unfolding count_low_power count_armed is_turned_away
called-IsBalanced sdk g b p deadline h =
    let slept = sleep-IsBalanced sdk b deadline h in
    let late = abort-IsBalanced 1 h in
    let unsent = abort-IsBalanced 2 h in
    let unread = abort-IsBalanced 3 h in
    let update = abort-IsBalanced 4 h in ground (arith, h, slept, late, unsent, unread, update)

if-IsBalanced :
    {n : ℕ} (d : Diag) (f : Snapshot → Snapshot)
    → IsBalanced n d.counters
    → IsBalanced n (f d.counters)
    → IsBalanced n (unless_frozen f d).counters
unfolding unless_frozen
if-IsBalanced d f h k = elim (Bool-cases d.frozen) [ inl e ↦ rw e h | inr e ↦ rw e k ]

frozen-IsBalanced :
    {n : ℕ} (d : Diag) (f : Snapshot → Snapshot) (more : Bool)
    → IsBalanced n d.counters
    → IsBalanced (if more then n + 1 else n) (f d.counters)
    → IsBalanced (if not d.frozen && more then n + 1 else n) (unless_frozen f d).counters
unfolding unless_frozen
frozen-IsBalanced d f more h k = elim (Bool-cases d.frozen) [ inl e ↦ rw e h | inr e ↦ rw e k ]

zero-IsBalanced :
    {n : ℕ} (state : ℕ) (d : Diag)
    → IsBalanced n d.counters
    → IsBalanced (if state == connected then n else 0) (diag_dump_zero state d).counters
unfolding diag_dump_zero no_power
zero-IsBalanced state d h = elim (Bool-cases (state == connected)) [
  | inl e ↦ rw e h
  | inr e ↦ rw e (record { ends = refl })
]

apply-IsBalanced :
    {n : ℕ} (d : Diag) (e : Event)
    → IsBalanced n d.counters
    → IsBalanced (turned_away_by d n e) (apply d e).counters
unfolding apply with_power turned_away_by
apply-IsBalanced d (called sdk g b p deadline) h =
    frozen-IsBalanced d _ (is_turned_away sdk g p) h (called-IsBalanced sdk g b p deadline h)
apply-IsBalanced d idled h = if-IsBalanced d _ h (record { ends = h.ends })
apply-IsBalanced d passed h = if-IsBalanced d _ h (record { ends = h.ends })
apply-IsBalanced d (counted other) h = record { ends = h.ends }
apply-IsBalanced {n} d (dumped bound state rs) h =
    coe 1 0 (i. IsBalanced n ((dump-IsDumped bound state d rs).same i)) h
apply-IsBalanced d (zeroed state) h = zero-IsBalanced state d h

onward-IsBalanced :
    (n : ℕ) (d : Diag) (es : List Event)
    → IsBalanced n d.counters
    → IsBalanced (turned_away d n es) (run d es).counters
unfolding run turned_away
onward-IsBalanced n d [] h = h
onward-IsBalanced n d (e ∷ es) h =
    onward-IsBalanced (turned_away_by d n e) (apply d e) es (apply-IsBalanced d e h)

init-IsBalanced :
    (reset_status : ℕ) (s : Snapshot)
    → (reset_status % 8 == 2) ≡ false
    → IsBalanced 0 (main_init reset_status (hal_sleep_init reset_status s)).counters
unfolding hal_sleep_init main_init no_power
init-IsBalanced reset_status s h = rw h (record { ends = refl })

-- Unless the watchdog has reset the module, and whatever calls of the idle callback, idling, passes,
-- dumps and zeroings follow, connected or not: modulo 2 ^ 16, the sleeps tried and the armed ones
-- refused without being tried since the last zeroing are together those that the module has refused
-- or ended without a known cause, that the host has ended and that the timer has ended.
pub run-IsBalanced :
    (reset_status : ℕ) (s : Snapshot) (es : List Event)
    → (reset_status % 8 == 2) ≡ false
    → IsBalanced
        (turned_away (main_init reset_status (hal_sleep_init reset_status s)) 0 es)
        (run (main_init reset_status (hal_sleep_init reset_status s)) es).counters
run-IsBalanced reset_status s es h = onward-IsBalanced 0 _ es (init-IsBalanced reset_status s h)
