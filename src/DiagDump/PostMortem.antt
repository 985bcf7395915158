-- ===== src/DiagDump/PostMortem.antt =====
-- The record of a run that the watchdog has ended: firmware/src/diag_dump.c gives it up only once the
-- host has been sent all of it.
use open_controller.Prelude.{
  ℕ, ◌+◌, ◌≡◌, ◌≢◌, refl, sym, ap, ◌∙◌, Bool, true, false, Option, none, some, List, [], ◌∷◌, ◌++◌,
  append-nil, ◌==◌, if◌then◌else◌, length, length-append, take, u8, Bool-cases, inl, inr, arith,
  ◌%◌,
}
use open_controller.DiagFrame.{Snapshot, format, format_empty, finish, put_snapshot}
use open_controller.DiagFrame.Layout.{InRange, Reads, format-Reads}
use open_controller.KeyboardUart.Transmit.{Reading, send_byte, behind, in_front, send_all}
use open_controller.RfTask.Link.{connected}
use open_controller.DiagDump.{
  Diag, hal_sleep_init, main_init, unless_frozen, thaw, diag_dump_send, diag_dump_zero,
}
use open_controller.DiagDump.Counting.{
  Event, called, idled, passed, counted, dumped, zeroed, with_power, left_by, apply, run,
  dump-IsDumped,
}

-- The counters of power_sleep.c and main.c are those of `s`.
unfoldable pub HasPower : Snapshot → Snapshot → Type 0
HasPower s s' = with_power s s' ≡ s'

-- What a frozen record keeps.
record IsFrozen (s : Snapshot) (d : Diag) : Type 0 where
  kept : d.frozen ≡ true → HasPower s d.counters

unless-IsFrozen :
    {s : Snapshot} (d : Diag) (f : Snapshot → Snapshot)
    → IsFrozen s d
    → IsFrozen s (unless_frozen f d)
unfolding unless_frozen
unless-IsFrozen d f h = record {
  kept =
      λ e. elim (Bool-cases d.frozen) [ inl k ↦ rw k (h.kept k) | inr k ↦ absurd (ground arith) ];
}

zero-IsFrozen :
    {s : Snapshot} (state : ℕ) (d : Diag) → IsFrozen s d → IsFrozen s (diag_dump_zero state d)
unfolding diag_dump_zero
zero-IsFrozen state d h = record {
  kept = λ e. elim (Bool-cases (state == connected)) [
    | inl k ↦ rw k (h.kept (ground arith))
    | inr k ↦ absurd (ground arith)
  ];
}

apply-IsFrozen : {s : Snapshot} (d : Diag) (e : Event) → IsFrozen s d → IsFrozen s (apply d e)
unfolding apply HasPower with_power
apply-IsFrozen d (called sdk g b p deadline) h = unless-IsFrozen d _ h
apply-IsFrozen d idled h = unless-IsFrozen d _ h
apply-IsFrozen d passed h = unless-IsFrozen d _ h
apply-IsFrozen {s} d (counted other) h = record {
  kept = λ e. let k = h.kept e in coe 0 1 (i. HasPower s (with_power (k i) other)) refl;
}
apply-IsFrozen {s} d (dumped bound state rs) h =
    let o = dump-IsDumped bound state d rs in
    record { kept = λ e. coe 1 0 (i. HasPower s (o.same i)) (h.kept (o.thawed e)) }
apply-IsFrozen d (zeroed state) h = zero-IsFrozen state d h

run-IsFrozen : {s : Snapshot} (d : Diag) (es : List Event) → IsFrozen s d → IsFrozen s (run d es)
unfolding run
run-IsFrozen d [] h = h
run-IsFrozen d (e ∷ es) h = run-IsFrozen (apply d e) es (apply-IsFrozen d e h)

init-IsFrozen :
    (reset_status : ℕ) (s : Snapshot)
    → (reset_status % 8 == 2) ≡ true
    → IsFrozen s (main_init reset_status (hal_sleep_init reset_status s))
unfolding main_init hal_sleep_init HasPower with_power
init-IsFrozen reset_status s h = rw h (record { kept = λ e. refl })

-- What is written is a front part of what is to be sent.
record IsFront (bytes written : List ℕ) : Type 0 where
  unsent : List ℕ
  front : written ++ unsent ≡ bytes

unfoldable pub written_by : Option (List ℕ × List Reading) → List ℕ
written_by none = []
written_by (some (written, rs)) = written

in_front-IsFront :
    (b : ℕ) (bytes : List ℕ) (r : Option (List ℕ × List Reading))
    → IsFront bytes (written_by r)
    → IsFront (b ∷ bytes) (written_by (in_front b r))
unfolding written_by
in_front-IsFront b bytes none h = record { unsent = b ∷ bytes; front = refl }
in_front-IsFront b bytes (some (written, rs)) h = record {
  unsent = h.unsent;
  front = ap (λ l. b ∷ l) h.front;
}

behind-IsFront :
    (b : ℕ) (bytes : List ℕ) (w : Option (Bool × List Reading))
    (others : List Reading → Option (List ℕ × List Reading))
    → ((rs : List Reading) → IsFront bytes (written_by (others rs)))
    → IsFront (b ∷ bytes) (written_by (behind b w others))
unfolding written_by
behind-IsFront b bytes none others h = record { unsent = b ∷ bytes; front = refl }
behind-IsFront b bytes (some (false, rs)) others h = record { unsent = b ∷ bytes; front = refl }
behind-IsFront b bytes (some (true, rs)) others h = in_front-IsFront b bytes (others rs) (h rs)

send_all-IsFront :
    (bound : ℕ) (bytes : List ℕ) (rs : List Reading)
    → IsFront bytes (written_by (send_all bound bytes rs))
unfolding send_all written_by
send_all-IsFront bound [] rs = record { unsent = []; front = refl }
send_all-IsFront bound (b ∷ bytes) rs =
    behind-IsFront b bytes (send_byte bound rs) (λ rs'. send_all bound bytes rs')
      (λ rs'. send_all-IsFront bound bytes rs')

whole_lem :
    (bytes written unsent : List ℕ)
    → written ++ unsent ≡ bytes
    → length written ≡ length bytes
    → written ≡ bytes
whole_lem bytes written [] h e = sym (append-nil written) ∙ h
whole_lem bytes written (u ∷ us) h e =
    let l = length-append written (u ∷ us) in let k = ap length h in absurd (omega arith)

-- What a dump has sent.
unfoldable pub sent_by : Option (Diag × List ℕ × List Reading) → List ℕ
sent_by none = []
sent_by (some (d, sent, rs)) = sent

sent_by-thaw :
    (c : Bool) (n : ℕ) (d : Diag) (r : Option (List ℕ × List Reading))
    → sent_by (thaw c n d r) ≡ written_by r
unfolding sent_by written_by thaw
sent_by-thaw c n d none = refl
sent_by-thaw c n d (some (written, rs)) = refl

thaw_lem :
    (c : Bool) (n : ℕ) (d : Diag) (r : Option (List ℕ × List Reading))
    → d.frozen ≡ true
    → (left_by d (thaw c n d r)).frozen ≡ false
    → (c ≡ false) × (u8 (length (written_by r)) ≡ n)
unfolding left_by written_by thaw
thaw_lem c n d none f t = absurd (ground arith)
thaw_lem c n d (some (written, rs)) f t = (ground arith, ground arith)

-- A frame that has been sent whole reads as its snapshot.
format-sent :
    (bound : ℕ) (s : Snapshot) (rs : List Reading)
    → InRange s
    → u8 (length (written_by (send_all bound (take (format s).1 (format s).0) rs))) ≡ (format s).1
    → Reads s (written_by (send_all bound (take (format s).1 (format s).0) rs))
unfolding format finish put_snapshot
format-sent bound s rs range e =
    let frame = (format s).0 in
    let written = written_by (send_all bound (take 92 frame) rs) in
    let f : IsFront frame written = send_all-IsFront bound (take 92 frame) rs in
    let total : length written + length f.unsent ≡ 92 =
      sym (length-append written f.unsent) ∙ ap length f.front in
    let size : u8 (length written) ≡ 92 = e in
    let whole = whole_lem frame written f.unsent f.front (omega arith) in
    coe 1 0 (i. Reads s (whole i)) (format-Reads s range)

-- A frozen record that a dump has thawed has been sent whole, to a host without a connection.
thawed-Reads :
    (bound state : ℕ) (d : Diag) (rs : List Reading)
    → InRange (record d.counters { rf_state = state })
    → d.frozen ≡ true
    → (left_by d (diag_dump_send bound state d rs)).frozen ≡ false
    → (state ≢ connected)
      × Reads (record d.counters { rf_state = state }) (sent_by (diag_dump_send bound state d rs))
unfolding diag_dump_send
thawed-Reads bound state d rs range f t =
    let s = record d.counters { rf_state = state } in
    let pick = λ (c : Bool). if c then format_empty else format s in
    let r = λ (c : Bool). send_all bound (take (pick c).1 (pick c).0) rs in
    let c = state == connected in
    let (apart, size) = thaw_lem c (pick c).1 d (r c) f t in
    let size' = coe 0 1 (i. u8 (length (written_by (r (apart i)))) ≡ (pick (apart i)).1) size in
    (
      λ k. absurd (ground arith),
      coe 1 0 (i. Reads s (sent_by-thaw c (pick c).1 d (r c) i))
          (coe 1 0 (i. Reads s (written_by (r (apart i)))) (format-sent bound s rs range size')),
    )

-- Behind a reset by the watchdog, and whatever calls of the idle callback, passes, dumps and zeroings
-- follow, connected or
-- not: while the record is frozen, a dump thaws it only if no connection is up and all of a frame has
-- been sent, which reads as the module's counters, those of power_sleep.c and main.c being the ones
-- that memory held at the reset. The values are those that fit their fields.
pub post_mortem :
    (reset_status : ℕ) (memory : Snapshot) (es : List Event) (bound state : ℕ) (rs : List Reading)
    → (reset_status % 8 == 2) ≡ true
    → (run (main_init reset_status (hal_sleep_init reset_status memory)) es).frozen ≡ true
    → InRange
        (record (run (main_init reset_status (hal_sleep_init reset_status memory)) es).counters {
          rf_state = state;
        })
    → (left_by (run (main_init reset_status (hal_sleep_init reset_status memory)) es) (
        diag_dump_send bound state
          (run (main_init reset_status (hal_sleep_init reset_status memory)) es)
          rs)).frozen
      ≡ false
    → (state ≢ connected)
      × Reads
          (with_power memory
            (record (run
              (main_init reset_status (hal_sleep_init reset_status memory))
              es).counters { rf_state = state }))
          (sent_by (
            diag_dump_send bound state
              (run (main_init reset_status (hal_sleep_init reset_status memory)) es)
              rs))
unfolding HasPower with_power
post_mortem reset_status memory es bound state rs w f range t =
    let d = run (main_init reset_status (hal_sleep_init reset_status memory)) es in
    let kept = (run-IsFrozen _ es (init-IsFrozen reset_status memory w)).kept f in
    let (apart, reads) = thawed-Reads bound state d rs range f t in
    (
      apart,
      coe 1 0
          (i.
            Reads (record (kept i) { rf_state = state })
              (sent_by (diag_dump_send bound state d rs)))
          reads,
    )
