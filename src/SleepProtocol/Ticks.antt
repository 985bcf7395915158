-- ===== src/SleepProtocol/Ticks.antt =====
-- `SleepProtocol_ElapsedTicks` on a counter that counts modulo `modulus`.
use open_controller.Prelude.{
  ℕ, ◌+◌, ◌-◌, ◌%◌, ◌^◌, ◌≤◌, ◌<◌, ◌≡◌, sym, ap, ◌∙◌, leb, if◌then◌else◌, Bool-cases, inl, inr,
  arith, add-mod_cases,
}
use native.Mathlib.Nat.{mod-lt, mod-add-mod}
use open_controller.SleepProtocol.{elapsed_ticks}

-- A counter value that is `d` ticks on from `start`, and has wrapped at most once.
abbrev pub later : ℕ → ℕ → ℕ → ℕ
later start d modulus = (start + d) % modulus

-- Across a wrap or not, the ticks gone by are measured exactly, as long as they stay further than
-- the tolerance from a whole turn of the counter.
pub elapsed_ticks-later :
    (start d modulus tol : ℕ)
    → modulus ≤ 2 ^ 32
    → start < modulus
    → d + tol < modulus
    → elapsed_ticks (later start d modulus) start modulus tol ≡ d
unfolding elapsed_ticks
elapsed_ticks-later start d m tol hm hs hd =
    ground (arith, add-mod_cases start d m hs (omega arith))

-- A read that has stepped back by at most the tolerance, but over the wrap or not.
back :
    (start k modulus tol now : ℕ)
    → now ≡ (if leb k start then start - k else start + modulus - k)
    → modulus ≤ 2 ^ 32
    → start < modulus
    → k ≤ tol
    → 0 < k
    → k < modulus
    → elapsed_ticks now start modulus tol ≡ (if leb k start then 0 else modulus - k)
unfolding elapsed_ticks
back start k m tol now e hm hs hk hp hl = ground arith

-- The reading of a true time, and one so much earlier that its counter is no more than a turn behind.
mod_back :
    (a k m : ℕ)
    → 0 < m
    → k ≤ a
    → k < m
    → (a - k) % m ≡ (if leb k (a % m) then a % m - k else a % m + m - k)
mod_back a k m p l h =
    let b = mod-lt (a - k) p in
    let e : ((a - k) % m + k) % m ≡ a % m =
      mod-add-mod (a - k) m k ∙ ap (λ x. x % m) (omega (arith, l)) in
    ground (arith, e, add-mod_cases ((a - k) % m) k m b h)

-- The counter shows the true time `start` first and `t` then, which may be an earlier one by as much as
-- the tolerance, since a reading can step back, and otherwise is less than a turn later, short of the
-- tolerance. What is measured is the time between them, and none for a step back; but for a step
-- back over the wrap it is almost a whole turn of the counter, whatever the tolerance. The turn is
-- longer than the tolerance and at most 2 ^ 32.
pub elapsed_ticks-of_readings :
    (start t modulus tol : ℕ)
    → modulus ≤ 2 ^ 32
    → tol < modulus
    → t - start + tol < modulus
    → start ≤ t + tol
    → elapsed_ticks (t % modulus) (start % modulus) modulus tol ≡ (
        if leb start t
        then t - start
        else if leb (start - t) (start % modulus)
        then 0
        else modulus - (start - t))
unfolding elapsed_ticks
elapsed_ticks-of_readings start t m tol hm ht hd hb =
    let p : 0 < m = omega (arith, ht) in
    let s : start % m < m = mod-lt start p in
    elim (Bool-cases (leb start t)) [
      | inl e ↦
          let l : start + (t - start) ≡ t = ground (arith, e) in
          let same : t % m ≡ (start % m + (t - start)) % m =
            sym (mod-add-mod start m (t - start) ∙ ap (λ x. x % m) l) in
          rw e (
            ap (λ x. elapsed_ticks x (start % m) m tol) same
            ∙ elapsed_ticks-later (start % m) (t - start) m tol hm s hd)
      | inr e ↦
          let l : t < start = ground (arith, e) in
          let near : start - t ≤ tol = omega (arith, hb) in
          let some_ticks : 0 < start - t = omega (arith, l) in
          let short : start - t < m = omega (arith, near, ht) in
          let same : start - (start - t) ≡ t = omega (arith, l) in
          let b = mod_back start (start - t) m p (omega arith) short in
          rw e (
            ap (λ x. elapsed_ticks (x % m) (start % m) m tol) (sym same)
            ∙ back (start % m) (start - t) m tol ((start - (start - t)) % m) b hm s near some_ticks
                short)
    ]
