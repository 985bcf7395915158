-- ===== src/MainLoop/Histories.antt =====
-- Histories of frames and of passes of the main loop of firmware/src/main.c.
use open_controller.Prelude.{
  ℕ, ◌≡◌, Bool, true, false, ◌||◌, List, [], ◌∷◌, ◌++◌, if◌then◌else◌, inl, inr, Bool-cases, arith,
}
use open_controller.MainLoop.{
  Call, request_explicit, request_update, Build, Answers, Device, handle_uart_frame,
  openboot_service, power_service,
}

unfoldable pub is_request_explicit : Call → Bool
is_request_explicit request_explicit = true
is_request_explicit c = false

unfoldable pub is_request_update : Call → Bool
is_request_update request_update = true
is_request_update c = false

-- Whether a call is among those made.
unfoldable pub any_call : (Call → Bool) → List Call → Bool
any_call p [] = false
any_call p (c ∷ cs) = p c || any_call p cs

pub any_call-append :
    (p : Call → Bool) (xs ys : List Call)
    → any_call p xs ≡ false
    → any_call p ys ≡ false
    → any_call p (xs ++ ys) ≡ false
unfolding any_call
any_call-append p [] ys h k = k
any_call-append p (x ∷ xs) ys h k = elim (Bool-cases (p x)) [
  | inl e ↦ absurd (ground arith)
  | inr e ↦ rw e (any_call-append p xs ys (ground arith) k)
]

pub any_call-right :
    (p : Call → Bool) (xs ys : List Call) → any_call p ys ≡ true → any_call p (xs ++ ys) ≡ true
unfolding any_call
any_call-right p [] ys h = h
any_call-right p (x ∷ xs) ys h = elim (Bool-cases (p x)) [
  | inl e ↦ ground arith
  | inr e ↦ rw e (any_call-right p xs ys h)
]

-- An accepted frame, and a pass of the loop with the readings of its two services.
pub data Event : Type 0 where
  frame : Answers → ℕ → ℕ → List ℕ → Event
  pass : ℕ → Bool → ℕ → Bool → Event

-- The two services as the loop calls them; `openboot_request_update` does not return.
unfoldable pub services : Build → ℕ → Bool → ℕ → Bool → Device → Device × List Call
services build now fifo_idle later tx_idle d =
    let (d1, calls) = openboot_service build now fifo_idle d in
    let (d2, more) = power_service build later tx_idle d1 in
    if any_call is_request_update calls then (d1, calls) else (d2, calls ++ more)

unfoldable pub apply : Build → Device → Event → Device × List Call
apply build d (frame ans cmd sub payload) = handle_uart_frame build ans d cmd sub payload
apply build d (pass now fifo_idle later tx_idle) = services build now fifo_idle later tx_idle d

-- Nothing happens behind the entry of the bootloader.
unfoldable pub run : Build → Device → List Event → Device × List Call
run build d [] = (d, [])
run build d (e ∷ es) =
    let (d1, calls) = apply build d e in
    let (d2, more) = run build d1 es in
    if any_call is_request_update calls then (d1, calls) else (d2, calls ++ more)
