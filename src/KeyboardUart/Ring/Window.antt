-- ===== src/KeyboardUart/Ring/Window.antt =====
-- The bytes that `rx_ring` of firmware/src/keyboard_uart.c holds, as a queue.
use open_controller.Prelude.{
  ℕ, zero, suc, ◌+◌, ◌%◌, ◌≤◌, ◌<◌, ◌^◌, ◌≡◌, ◌≢◌, refl, sym, ap, ap₂, ◌∙◌, List, [], ◌∷◌, ◌++◌,
  length, get_or, set, get_or-set_self, get_or-set_ne, u8, sub8, arith,
}
use open_controller.KeyboardUart.Ring.{ring_size, Receiver, next_byte}

-- So many bytes of a ring from an index on.
unfoldable pub window : List ℕ → ℕ → ℕ → List ℕ
window ring start zero = []
window ring start (suc n) = get_or ring (start % ring_size) 0 ∷ window ring (start + 1) n

-- The bytes queued, the oldest first.
unfoldable pub contents : Receiver → List ℕ
contents r = window r.ring r.tail (sub8 r.head r.tail)

pub length-window : (ring : List ℕ) (start n : ℕ) → length (window ring start n) ≡ n
unfolding window
length-window ring start zero = refl
length-window ring start (suc n) = ap suc (length-window ring (start + 1) n)

pub window-last :
    (ring : List ℕ) (start n : ℕ)
    → window ring start (suc n)
      ≡ window ring start n ++ get_or ring ((start + n) % ring_size) 0 ∷ []
unfolding window
window-last ring start zero =
    let e : start ≡ start + 0 = omega arith in ap (λ i. get_or ring (i % ring_size) 0 ∷ []) e
window-last ring start (suc n) =
    let e : start + 1 + n ≡ start + suc n = omega arith in
    ap (λ xs. get_or ring (start % ring_size) 0 ∷ xs)
      (window-last ring (start + 1) n
        ∙ ap (λ i. window ring (start + 1) n ++ get_or ring (i % ring_size) 0 ∷ []) e)

-- A write behind the window does not show in it.
pub window-set :
    (ring : List ℕ) (start n m b : ℕ)
    → n ≤ m
    → m < ring_size
    → window (set ring ((start + m) % ring_size) b) start n ≡ window ring start n
unfolding window
window-set ring start zero m b h k = refl
window-set ring start (suc n) zero b h k = absurd (omega arith)
window-set ring start (suc n) (suc m) b h k =
    let e : start + suc m ≡ start + 1 + m = omega arith in
    ap₂ (λ x xs. x ∷ xs)
      (get_or-set_ne ring ((start + suc m) % ring_size) (start % ring_size) b 0 (λ e. omega arith))
      (ap (λ i. window (set ring (i % ring_size) b) (start + 1) n) e
        ∙ window-set ring (start + 1) n m b (omega arith) (omega arith))

-- The indexes wrap at a multiple of the ring's size.
pub window-u8 : (ring : List ℕ) (start n : ℕ) → window ring (u8 start) n ≡ window ring start n
unfolding window
window-u8 ring start zero = refl
window-u8 ring start (suc n) =
    let e : u8 start % ring_size ≡ start % ring_size = omega arith in
    let k : u8 (u8 start + 1) ≡ u8 (start + 1) = omega arith in
    ap₂ (λ i xs. get_or ring i 0 ∷ xs) e
      (sym (window-u8 ring (u8 start + 1) n)
        ∙ ap (λ i. window ring i n) k
        ∙ window-u8 ring (start + 1) n)

-- Indexes in range, at most a ring's size apart, and a ring of that size.
pub record IsValid (r : Receiver) : Type 0 where
  pub head_lt : r.head < 2 ^ 8
  pub tail_lt : r.tail < 2 ^ 8
  pub fill : sub8 r.head r.tail ≤ ring_size
  pub size : length r.ring ≡ ring_size

-- Room for a byte puts it behind those queued.
pub contents-push :
    (r : Receiver) (b : ℕ)
    → IsValid r
    → sub8 r.head r.tail < ring_size
    → contents (record r { ring = set r.ring (r.head % ring_size) b; head = u8 (r.head + 1) })
      ≡ contents r ++ b ∷ []
unfolding contents
contents-push r b v h =
    let n = sub8 r.head r.tail in
    let e : r.head % ring_size ≡ (r.tail + n) % ring_size = omega (arith, v.head_lt, v.tail_lt) in
    let k : sub8 (u8 (r.head + 1)) r.tail ≡ suc n = omega (arith, v.head_lt, v.tail_lt) in
    let ring = set r.ring ((r.tail + n) % ring_size) b in
    ap₂ (λ i m. window (set r.ring i b) r.tail m) e k
    ∙ window-last ring r.tail n
    ∙ ap₂ (λ xs x. xs ++ x ∷ []) (window-set r.ring r.tail n n b (omega arith) h)
        (get_or-set_self r.ring ((r.tail + n) % ring_size) b 0 (omega (arith, v.size)))

-- The byte at the tail is the oldest, and `rx_ring_tail++` takes it out.
pub contents-pop :
    (r : Receiver)
    → IsValid r
    → r.tail ≢ r.head
    → contents r ≡ next_byte r ∷ contents (record r { tail = u8 (r.tail + 1) })
unfolding contents window
contents-pop r v h =
    let n = sub8 r.head (u8 (r.tail + 1)) in
    let k : sub8 r.head r.tail ≡ suc n = omega (arith, v.head_lt, v.tail_lt) in
    ap (λ m. window r.ring r.tail m) k
    ∙ ap (λ xs. next_byte r ∷ xs) (sym (window-u8 r.ring (r.tail + 1) n))

-- Nothing is queued exactly when the indexes agree.
pub contents-empty : (r : Receiver) → r.tail ≡ r.head → contents r ≡ []
unfolding contents window
contents-empty r e =
    let k : sub8 r.head r.tail ≡ 0 = omega arith in ap (λ m. window r.ring r.tail m) k
