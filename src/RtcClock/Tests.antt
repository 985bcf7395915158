-- ===== src/RtcClock/Tests.antt =====
-- The clock over a wrap with a stale read, and its theorem there.
use open_controller.Prelude.{ℕ, ◌-◌, ◌≡◌, refl, List, [], ◌∷◌, arith, u32}
use open_controller.RtcClock.{initial, forward, advance, ticks_us}
use open_controller.RtcClock.Tracking.{newest_of, sampled, sampled_elapsed}

-- A counter of a hundred values: 96, then 98, 103 (read as 3), 101 (stale, as 1) and 110.
abbrev reads : List ℕ
reads = 98 ∷ 103 ∷ 101 ∷ 110 ∷ []

reads_elapsed : (sampled 100 5 initial (96 ∷ reads)).elapsed ≡ 14
unfolding sampled advance forward
reads_elapsed = refl

-- 150 us at 32768 Hz: five ticks, rounded up, and one more.
ticks_us_example : ticks_us 32768 150 ≡ 6
ticks_us_example = refl

sampled_elapsed_example :
    (sampled 100 5 initial (96 ∷ reads)).elapsed ≡ u32 (newest_of 100 5 96 reads - 96)
sampled_elapsed_example =
    sampled_elapsed 100 5 (omega arith) (omega arith) (omega arith) 96 reads (omega arith)
