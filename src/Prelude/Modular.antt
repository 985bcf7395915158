-- ===== src/Prelude/Modular.antt =====
-- Counters that count modulo a variable number.
use Prim.Native.Nat.{ℕ, ◌+◌, ◌-◌, ◌%◌, ◌≤◌, ◌<◌}
use mathlib.Core.Path.{◌≡◌}
use mathlib.Core.Logic.{◌⊎◌, inl, inr}
use native.Mathlib.Nat.{mod-eq_of_lt, mod-eq-sub-mod}
use native.Mathlib.Decide.{dec_lt}
use native.Mathlib.Omega.{arith}

-- A step of less than a turn wraps at most once.
pub add-mod_cases :
    (start d m : ℕ)
    → start < m
    → d < m
    → ((start + d < m) × ((start + d) % m ≡ start + d))
      ⊎ ((m ≤ start + d) × ((start + d) % m ≡ start + d - m))
add-mod_cases start d m h k = elim (dec_lt (start + d) m) [
  | yes p ↦ inl (p, mod-eq_of_lt p)
  | no p ↦ inr (
    omega arith,
    omega (
      arith,
      mod-eq-sub-mod {n = start + d} {m = m} (omega arith),
      mod-eq_of_lt {n = start + d - m} {m = m} (omega arith),
    ),
  )
]
