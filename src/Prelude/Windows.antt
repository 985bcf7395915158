-- ===== src/Prelude/Windows.antt =====
-- Rings with free-running 8-bit indexes that are masked on access, as queues.
use Prim.Native.Nat.{ℕ, zero, suc, ◌+◌, ◌-◌, ◌%◌, ◌^◌, ◌≤◌, ◌<◌}
use mathlib.Core.Path.{◌≡◌, refl, sym, ap, ap₂, ◌∙◌}
use mathlib.Core.Logic.{◌≢◌}
use mathlib.Core.List.{List, [], ◌∷◌, ◌++◌}
use native.Mathlib.Omega.{arith}
use open_controller.Prelude.Lists.{
  length, get_or, set, take, take-append_at, get_or-set_self, get_or-set_ne,
}
use open_controller.Prelude.Words.{u8, sub8}

-- A ring of a size that divides 2 ^ 8, told by what its masks do.
pub record IsRingSize (size : ℕ) : Type 0 where
  pub apart : (i n : ℕ) → 0 < n → n < size → (i + n) % size ≢ i % size
  pub wraps : (i : ℕ) → u8 i % size ≡ i % size
  pub bounded : (i : ℕ) → i % size < size
  pub below : size < 2 ^ 8

-- A list with another last element.
unfoldable pub replace_last {ℓ} : {A : Type ℓ} → List A → A → List A
replace_last xs a = take (length xs - 1) xs ++ a ∷ []

module _ {A : Type 0} (size : ℕ) (ok : IsRingSize size) (default : A) where
  -- So many elements of a ring from an index on.
  unfoldable pub ring_window : List A → ℕ → ℕ → List A
  ring_window ring i zero = []
  ring_window ring i (suc n) = get_or ring (i % size) default ∷ ring_window ring (i + 1) n

  -- Those from the index `from` up to the index `to`.
  unfoldable pub ring_contents : List A → ℕ → ℕ → List A
  ring_contents ring from to = ring_window ring from (sub8 to from)

  length-ring_window : (ring : List A) (i n : ℕ) → length (ring_window ring i n) ≡ n
  unfolding ring_window
  length-ring_window ring i zero = refl
  length-ring_window ring i (suc n) = ap suc (length-ring_window ring (i + 1) n)

  pub length-ring_contents :
      (ring : List A) (from to : ℕ) → length (ring_contents ring from to) ≡ sub8 to from
  unfolding ring_contents
  length-ring_contents ring from to = length-ring_window ring from (sub8 to from)

  pub ring_window-last :
      (ring : List A) (i n : ℕ)
      → ring_window ring i (suc n)
        ≡ ring_window ring i n ++ get_or ring ((i + n) % size) default ∷ []
  unfolding ring_window
  ring_window-last ring i zero =
      let e : i ≡ i + 0 = omega arith in ap (λ i. get_or ring (i % size) default ∷ []) e
  ring_window-last ring i (suc n) =
      let e : i + 1 + n ≡ i + suc n = omega arith in
      ap (λ xs. get_or ring (i % size) default ∷ xs)
        (ring_window-last ring (i + 1) n
          ∙ ap (λ k. ring_window ring (i + 1) n ++ get_or ring (k % size) default ∷ []) e)

  -- A write behind the window does not show in it.
  ring_window-set :
      (ring : List A) (i n m : ℕ) (a : A)
      → n ≤ m
      → m < size
      → ring_window (set ring ((i + m) % size) a) i n ≡ ring_window ring i n
  unfolding ring_window
  ring_window-set ring i zero m a h k = refl
  ring_window-set ring i (suc n) zero a h k = absurd (omega arith)
  ring_window-set ring i (suc n) (suc m) a h k =
      let e : i + suc m ≡ i + 1 + m = omega arith in
      ap₂ (λ x xs. x ∷ xs)
        (get_or-set_ne ring ((i + suc m) % size) (i % size) a default
          (ok.apart i (suc m) (omega arith) k))
        (ap (λ j. ring_window (set ring (j % size) a) (i + 1) n) e
          ∙ ring_window-set ring (i + 1) n m a (omega arith) (omega arith))

  ring_window-u8 : (ring : List A) (i n : ℕ) → ring_window ring (u8 i) n ≡ ring_window ring i n
  unfolding ring_window
  ring_window-u8 ring i zero = refl
  ring_window-u8 ring i (suc n) =
      let k : u8 (u8 i + 1) ≡ u8 (i + 1) = omega arith in
      ap₂ (λ j xs. get_or ring j default ∷ xs) (ok.wraps i)
        (sym (ring_window-u8 ring (u8 i + 1) n)
          ∙ ap (λ j. ring_window ring j n) k
          ∙ ring_window-u8 ring (i + 1) n)

  module _ (ring : List A) (from to : ℕ) (f : from < 2 ^ 8) (t : to < 2 ^ 8) where
    -- With room, an element written at `to` goes behind the others.
    pub ring_contents-push :
        (a : A)
        → length ring ≡ size
        → sub8 to from < size
        → ring_contents (set ring (to % size) a) from (u8 (to + 1))
          ≡ ring_contents ring from to ++ a ∷ []
    unfolding ring_contents
    ring_contents-push a l h =
        let n = sub8 to from in
        let e : to ≡ u8 (from + n) = omega arith in
        let k : sub8 (u8 (to + 1)) from ≡ suc n = omega (arith, ok.below) in
        ap₂ (λ i m. ring_window (set ring i a) from m) (ap (λ i. i % size) e ∙ ok.wraps (from + n))
          k
        ∙ ring_window-last (set ring ((from + n) % size) a) from n
        ∙ ap₂ (λ xs x. xs ++ x ∷ []) (ring_window-set ring from n n a (omega arith) h)
            (get_or-set_self ring ((from + n) % size) a default
              (omega (arith, l, ok.bounded (from + n))))

    -- The element at `from` is the first.
    pub ring_contents-pop :
        from ≢ to
        → ring_contents ring from to
          ≡ get_or ring (from % size) default ∷ ring_contents ring (u8 (from + 1)) to
    unfolding ring_contents ring_window
    ring_contents-pop h =
        let n = sub8 to (u8 (from + 1)) in
        let k : sub8 to from ≡ suc n = omega arith in
        ap (λ m. ring_window ring from m) k
        ∙ ap (λ xs. get_or ring (from % size) default ∷ xs) (sym (ring_window-u8 ring (from + 1) n))

    -- A write in front of `to` replaces the last.
    pub ring_contents-replace :
        (a : A)
        → length ring ≡ size
        → 0 < sub8 to from
        → sub8 to from ≤ size
        → ring_contents (set ring (sub8 to 1 % size) a) from to
          ≡ replace_last (ring_contents ring from to) a
    unfolding ring_contents replace_last
    ring_contents-replace a l h k =
        let n = sub8 to from in
        let m = n - 1 in
        let ring' = set ring ((from + m) % size) a in
        let e : n ≡ suc m = omega arith in
        let j : sub8 to 1 ≡ u8 (from + m) = omega arith in
        let old = ring_window ring from m in
        let shorter : take m (ring_window ring from n) ≡ old =
          ap (take m) (ap (ring_window ring from) e ∙ ring_window-last ring from m)
          ∙ take-append_at old _ m (sym (length-ring_window ring from m)) in
        ap₂ (λ i b. ring_window (set ring i a) from b) (ap (λ i. i % size) j ∙ ok.wraps (from + m))
          e
        ∙ ring_window-last ring' from m
        ∙ ap₂ (λ xs x. xs ++ x ∷ []) (ring_window-set ring from m m a (omega arith) (omega arith))
            (get_or-set_self ring ((from + m) % size) a default
              (omega (arith, l, ok.bounded (from + m))))
        ∙ ap (λ xs. xs ++ a ∷ [])
            (sym (
              ap (λ b. take (b - 1) (ring_window ring from n)) (length-ring_window ring from n)
              ∙ shorter))
