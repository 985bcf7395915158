-- ===== src/KeyboardUart/Ring/Contiguity/Prefixes.antt =====
-- Streams that begin alike.
use open_controller.Prelude.{
  ℕ, ◌≡◌, ◌≢◌, refl, sym, ap, ◌∙◌, List, [], ◌∷◌, ◌++◌, append-nil, append_assoc, take, drop,
  take-append-drop, length, arith,
}
use open_controller.KeyboardUart.Ring.Contiguity.{IsPrefix}

pub IsPrefix-trans : (xs ys zs : List ℕ) → IsPrefix xs ys → IsPrefix ys zs → IsPrefix xs zs
unfolding IsPrefix
IsPrefix-trans xs ys zs (r, e) (q, k) = (r ++ q, sym (append_assoc xs r q) ∙ ap (λ l. l ++ q) e ∙ k)

pub IsPrefix-append : (xs ys : List ℕ) → IsPrefix xs (xs ++ ys)
unfolding IsPrefix
IsPrefix-append xs ys = (ys, refl)

pub IsPrefix-behind : (ws xs ys : List ℕ) → IsPrefix xs ys → IsPrefix (ws ++ xs) (ws ++ ys)
unfolding IsPrefix
IsPrefix-behind ws xs ys (r, e) = (r, append_assoc ws xs r ∙ ap (λ l. ws ++ l) e)

pub IsPrefix-take : (n : ℕ) (xs : List ℕ) → IsPrefix (take n xs) xs
unfolding IsPrefix
IsPrefix-take n xs = (drop n xs, take-append-drop n xs)

pub IsPrefix-eq : (xs ys : List ℕ) → xs ≡ ys → IsPrefix xs ys
unfolding IsPrefix
IsPrefix-eq xs ys e = ([], append-nil xs ∙ e)

-- A byte at the front stays there when others come behind it.
pub nonempty-append : (xs ys : List ℕ) → xs ≢ [] → xs ++ ys ≢ []
nonempty-append [] ys h = absurd (h refl)
nonempty-append (x ∷ xs) ys h = λ e. omega (arith, ap length e)

pub take-nonempty : (xs ys : List ℕ) → xs ≢ [] → take 1 (xs ++ ys) ≡ take 1 xs
take-nonempty [] ys h = absurd (h refl)
take-nonempty (x ∷ xs) ys h = refl

pub drop-nonempty : (xs ys : List ℕ) → xs ≢ [] → drop 1 (xs ++ ys) ≡ drop 1 xs ++ ys
drop-nonempty [] ys h = absurd (h refl)
drop-nonempty (x ∷ xs) ys h = refl
