-- ===== src/KeyboardUart/Transmit/Bounds.antt =====
-- Sending on the UART of firmware/src/keyboard_uart.c ends, with a front part of the bytes written.
use open_controller.Prelude.{
  ℕ, zero, suc, ◌+◌, ◌-◌, ◌^◌, ◌≤◌, ◌<◌, ◌≡◌, refl, ap, ◌∙◌, Bool, true, false, Option, some, List,
  [], ◌∷◌, ◌++◌, leb, ◌==◌, if◌then◌else◌, Bool-cases, inl, inr, length, u32, sub32, arith,
}
use open_controller.KeyboardUart.Transmit.{Reading, wait, send_byte, behind, in_front, send_all}

-- Whether the FIFO is full, so many ticks behind the reading before.
pub record Step : Type 0 where
  pub full : Bool
  pub gap : ℕ

-- The readings of the steps from a true time on; the clock has 32 bits.
unfoldable pub readings : ℕ → List Step → List Reading
readings t [] = []
readings t (s ∷ ss) = record { full = s.full; clock = u32 (t + s.gap) } ∷ readings (t + s.gap) ss

-- The clock stands for fewer than `most` rounds, `stood` of them gone by, and goes on by less than
-- 2 ^ 16 ticks from one round to the next.
unfoldable pub AreSteady : ℕ → ℕ → List Step → Type 0
AreSteady most stood [] = record {}
AreSteady most stood (s ∷ ss) =
    (s.gap < 2 ^ 16)
    × (s.gap ≡ 0 → suc stood < most)
    × AreSteady most (if s.gap == 0 then suc stood else 0) ss

-- The rounds that so many ticks may take.
unfoldable pub rounds : ℕ → ℕ → ℕ
rounds most zero = 0
rounds most (suc n) = most + rounds most n

rounds_add : (most n g : ℕ) → rounds most (g + n) ≡ rounds most g + rounds most n
unfolding rounds
rounds_add most n zero =
    let e : rounds most (0 + n) ≡ rounds most n = ap (rounds most) (omega arith) in omega (arith, e)
rounds_add most n (suc g) =
    let e = rounds_add most n g in
    let next : rounds most (suc g + n) ≡ rounds most (suc (g + n)) =
      ap (rounds most) {y = suc (g + n)} (omega arith) in
    omega (arith, e, next)

rounds_pos : (most g : ℕ) → 1 ≤ g → most ≤ rounds most g
unfolding rounds
rounds_pos most zero h = absurd (omega arith)
rounds_pos most (suc g) h = omega arith

-- Ticks that have gone by leave fewer rounds.
rounds_after : (most n g : ℕ) → 1 ≤ g → g ≤ n → most + rounds most (n - g) ≤ rounds most n
rounds_after most n g h l =
    let e : rounds most n ≡ rounds most g + rounds most (n - g) =
      ap (rounds most) (omega (arith, l)) ∙ rounds_add most (n - g) g in
    omega (arith, e, rounds_pos most g h)

record Ended (most : ℕ) (result : Option (Bool × List Reading)) (left : ℕ) : Type 0 where
  ok : Bool
  time : ℕ
  stood : ℕ
  steps : List Step
  ends : result ≡ some (ok, readings time steps)
  few : stood < most
  steady : AreSteady most stood steps
  enough : left ≤ length steps

-- The rounds in which the clock has stood, behind one with a gap.
stood_lem :
    (most stood gap : ℕ)
    → stood < most
    → (gap ≡ 0 → suc stood < most)
    → (if gap == 0 then suc stood else 0) < most
stood_lem most stood gap l h = ground (arith, h)

-- The rounds that are left, behind one with a gap and short of the bound.
left_lem :
    (most bound e gap stood left n : ℕ)
    → stood < most
    → e + gap < bound
    → rounds most (bound - e) + left ≤ suc n + stood
    → rounds most (bound - (e + gap)) + left ≤ n + (if gap == 0 then suc stood else 0)
left_lem most bound e zero stood left n l h k =
    let same : rounds most (bound - (e + 0)) ≡ rounds most (bound - e) =
      ap (λ x. rounds most (bound - x)) (omega arith) in
    omega (arith, k, same)
left_lem most bound e (suc gap) stood left n l h k =
    let r = rounds_after most (bound - e) (suc gap) (omega arith) (omega arith) in
    let same : bound - e - suc gap ≡ bound - (e + suc gap) = omega arith in
    let r' = coe 0 1 (i. most + rounds most (same i) ≤ rounds most (bound - e)) r in
    omega (arith, r', k, l)

wait-Ended :
    (most bound start e stood left : ℕ) (ss : List Step)
    → stood < most
    → AreSteady most stood ss
    → bound < 2 ^ 31
    → e < bound
    → rounds most (bound - e) + left ≤ length ss + stood
    → Ended most (wait bound (u32 start) (readings (start + e) ss)) left
unfolding wait readings AreSteady
wait-Ended most bound start e stood left [] few k lt h l =
    absurd (let r = rounds_pos most (bound - e) (omega arith) in omega (arith, r, l, few))
wait-Ended most bound start e stood left (s ∷ ss) few (g, g', k) lt h l =
    let stands : ℕ = if s.gap == 0 then suc stood else 0 in
    let few' : stands < most = stood_lem most stood s.gap few g' in
    let enough : left ≤ length ss =
      (let r = rounds_pos most (bound - e) (omega arith) in omega (arith, r, l, few)) in
    elim (Bool-cases s.full) [
      | inr free ↦ record {
        ok = true;
        time = start + e + s.gap;
        stood = stands;
        steps = ss;
        ends = rw free refl;
        few = few';
        steady = k;
        enough = enough;
      }
      | inl full ↦
          let d : sub32 (u32 (start + e + s.gap)) (u32 start) ≡ e + s.gap =
            omega (arith, g, h, lt) in
          elim (Bool-cases (leb bound (e + s.gap))) [
            | inl late ↦ record {
              ok = false;
              time = start + e + s.gap;
              stood = stands;
              steps = ss;
              ends = rw (full, d, late) refl;
              few = few';
              steady = k;
              enough = enough;
            }
            | inr soon ↦
                let early : e + s.gap < bound = ground (arith, soon) in
                let w =
                  wait-Ended most bound start (e + s.gap) stands left ss few' k lt early
                    (left_lem most bound e s.gap stood left (length ss) few early l) in
                record {
                  ok = w.ok;
                  time = w.time;
                  stood = w.stood;
                  steps = w.steps;
                  ends =
                      rw (full, d, soon)
                        (ap (λ x. wait bound (u32 start) (readings x ss)) (omega arith) ∙ w.ends);
                  few = w.few;
                  steady = w.steady;
                  enough = w.enough;
                }
          ]
    ]

send_byte-Ended :
    (most bound t stood left : ℕ) (ss : List Step)
    → stood < most
    → AreSteady most stood ss
    → 0 < bound
    → bound < 2 ^ 31
    → suc (rounds most bound) + left ≤ length ss
    → Ended most (send_byte bound (readings t ss)) left
unfolding send_byte readings AreSteady
send_byte-Ended most bound t stood left [] few k p lt l = absurd (omega arith)
send_byte-Ended most bound t stood left (s ∷ ss) few (g, g', k) p lt l =
    let stands : ℕ = if s.gap == 0 then suc stood else 0 in
    let few' : stands < most = stood_lem most stood s.gap few g' in
    elim (Bool-cases s.full) [
      | inr free ↦ record {
        ok = true;
        time = t + s.gap;
        stood = stands;
        steps = ss;
        ends = rw free refl;
        few = few';
        steady = k;
        enough = omega (arith, l);
      }
      | inl full ↦
          let whole : rounds most (bound - 0) ≡ rounds most bound =
            ap (rounds most) (omega arith) in
          let w =
            wait-Ended most bound (t + s.gap) 0 stands left ss few' k lt p
              (omega (arith, l, whole)) in
          record {
            ok = w.ok;
            time = w.time;
            stood = w.stood;
            steps = w.steps;
            ends =
                rw full
                  (ap (λ x. wait bound (u32 (t + s.gap)) (readings x ss)) (omega arith) ∙ w.ends);
            few = w.few;
            steady = w.steady;
            enough = w.enough;
          }
    ]

-- The readings that so many bytes may take.
unfoldable pub budget : ℕ → ℕ → ℕ → ℕ
budget most bound zero = 0
budget most bound (suc n) = suc (rounds most bound) + budget most bound n

-- A front part of the bytes has been written.
pub record Sent (bytes : List ℕ) (result : Option (List ℕ × List Reading)) : Type 0 where
  pub written : List ℕ
  pub unsent : List ℕ
  pub others : List Reading
  pub ends : result ≡ some (written, others)
  pub front : written ++ unsent ≡ bytes

behind-Sent :
    (b : ℕ) (bytes : List ℕ) (ok : Bool) (rs : List Reading)
    (others : List Reading → Option (List ℕ × List Reading))
    → Sent bytes (others rs)
    → Sent (b ∷ bytes) (behind b (some (ok, rs)) others)
behind-Sent b bytes false rs others s = record {
  written = [];
  unsent = b ∷ bytes;
  others = rs;
  ends = refl;
  front = refl;
}
behind-Sent b bytes true rs others s = record {
  written = b ∷ s.written;
  unsent = s.unsent;
  others = s.others;
  ends = ap (in_front b) s.ends;
  front = ap (λ x. b ∷ x) s.front;
}

-- Sending ends, whatever the host drains, if the loop goes round fewer than `most` times while the clock
-- stands, and not with 2 ^ 16 ticks or more between two rounds: at the latest when a byte has waited
-- for the bound, within `most` rounds for each tick of the bound and one more, for each byte; the
-- bound is neither 0 nor 2 ^ 31 or more; and
-- what has been written is a front part of the bytes, in order.
pub send_all-Sent :
    (most bound t stood : ℕ) (bytes : List ℕ) (ss : List Step)
    → stood < most
    → AreSteady most stood ss
    → 0 < bound
    → bound < 2 ^ 31
    → budget most bound (length bytes) ≤ length ss
    → Sent bytes (send_all bound bytes (readings t ss))
unfolding send_all budget
send_all-Sent most bound t stood [] ss few k p lt l = record {
  written = [];
  unsent = [];
  others = readings t ss;
  ends = refl;
  front = refl;
}
send_all-Sent most bound t stood (b ∷ bytes) ss few k p lt l =
    let w = send_byte-Ended most bound t stood (budget most bound (length bytes)) ss few k p lt l in
    let others = λ (rs : List Reading). send_all bound bytes rs in
    coe 1 0 (i. Sent (b ∷ bytes) (behind b (w.ends i) others)) (
      behind-Sent b bytes w.ok (readings w.time w.steps) others
        (send_all-Sent most bound w.time w.stood bytes w.steps w.few w.steady p lt w.enough))
