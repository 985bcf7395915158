-- ===== src/KeyboardUart/Ring/Contiguity/Received.antt =====
-- What `UART1_IRQHandler` of firmware/src/keyboard_uart.c does to the queue in the ring.
use open_controller.Prelude.{
  ℕ, suc, ◌+◌, ◌-◌, ◌%◌, ◌≤◌, ◌<◌, ◌≡◌, ◌≢◌, ◌⊎◌, refl, sym, ap, ◌∙◌, true, false, inl, inr, List,
  [], ◌∷◌, ◌++◌, append-nil, append_assoc, ltb, ltb→lt, Bool-cases, length, length-set,
  length-append, take-nil, set, take, u8, sub8, arith,
}
use open_controller.KeyboardUart.Ring.{ring_size, Receiver, receive, uart1_irq_handler}
use open_controller.KeyboardUart.Ring.Window.{IsValid, contents, contents-push, length-window}

-- The room left.
abbrev pub room : Receiver → ℕ
room r = ring_size - sub8 r.head r.tail

-- The bytes go behind those queued as far as there is room, and the latch is set if there is not
-- room for all.
pub record Received (r r' : Receiver) (bytes : List ℕ) : Type 0 where
  pub valid : IsValid r'
  pub same_tail : r'.tail ≡ r.tail
  pub same_parser : r'.parser ≡ r.parser
  pub queued : contents r' ≡ contents r ++ take (room r) bytes
  pub unlatched :
      r'.overrun_latch ≡ false → (r.overrun_latch ≡ false) × (take (room r) bytes ≡ bytes)
  pub latched : r'.overrun_latch ≡ true → (r.overrun_latch ≡ true) ⊎ (contents r' ≢ [])

pushed : Receiver → ℕ → Receiver
pushed r b = record r {
  activity_latch = true;
  ring = set r.ring (r.head % ring_size) b;
  head = u8 (r.head + 1);
}

contents-pushed :
    (r : Receiver) (b : ℕ)
    → IsValid r
    → sub8 r.head r.tail < ring_size
    → contents (pushed r b) ≡ contents r ++ b ∷ []
unfolding pushed contents
contents-pushed r b v h = contents-push r b v h

pushed-IsValid :
    (r : Receiver) (b : ℕ) → IsValid r → sub8 r.head r.tail < ring_size → IsValid (pushed r b)
unfolding pushed
pushed-IsValid r b v h = record {
  head_lt = omega arith;
  tail_lt = v.tail_lt;
  fill = omega (arith, v.head_lt, v.tail_lt);
  size = length-set r.ring (r.head % ring_size) b ∙ v.size;
}

-- One byte that finds room, and the rest.
Received-push :
    (r r' : Receiver) (b : ℕ) (bytes : List ℕ)
    → IsValid r
    → sub8 r.head r.tail < ring_size
    → Received (pushed r b) r' bytes
    → Received r r' (b ∷ bytes)
unfolding pushed
Received-push r r' b bytes v h g =
    let k = room (pushed r b) in
    let e : room r ≡ suc k = omega (arith, v.head_lt, v.tail_lt) in
    let q : contents (pushed r b) ++ take k bytes ≡ contents r ++ b ∷ take k bytes =
      ap (λ xs. xs ++ take k bytes) (contents-pushed r b v h)
      ∙ append_assoc (contents r) (b ∷ []) (take k bytes) in
    record {
      valid = g.valid;
      same_tail = g.same_tail;
      same_parser = g.same_parser;
      queued = g.queued ∙ q ∙ ap (λ n. contents r ++ take n (b ∷ bytes)) (sym e);
      unlatched = λ l.
          let (l', t) = g.unlatched l in (l', ap (λ n. take n (b ∷ bytes)) e ∙ ap (λ xs. b ∷ xs) t);
      latched = g.latched;
    }

full : Receiver → Receiver
full r = record r { activity_latch = true; overrun_latch = true }

-- One byte that finds none, and the rest.
Received-full :
    (r r' : Receiver) (b : ℕ) (bytes : List ℕ)
    → IsValid r
    → ring_size ≤ sub8 r.head r.tail
    → Received (full r) r' bytes
    → Received r r' (b ∷ bytes)
unfolding full contents
Received-full r r' b bytes v h g =
    let e : room r ≡ 0 = omega arith in
    record {
      valid = g.valid;
      same_tail = g.same_tail;
      same_parser = g.same_parser;
      queued =
          g.queued
          ∙ ap (λ n. contents r ++ take n bytes) e
          ∙ ap (λ n. contents r ++ take n (b ∷ bytes)) (sym e);
      unlatched = λ l. absurd (let (l', t) = g.unlatched l in ground arith);
      latched = λ l. inr (λ z. omega (
        arith,
        length-window r.ring r.tail (sub8 r.head r.tail),
        length-append (contents r) (take (room (full r)) bytes),
        ap length (sym g.queued ∙ z),
      ));
    }

-- `record r { ... }` keeps the fields that `IsValid` reads.
IsValid-full : (r : Receiver) → IsValid r → IsValid (full r)
unfolding full
IsValid-full r v = record { head_lt = v.head_lt; tail_lt = v.tail_lt; fill = v.fill; size = v.size }

pub receive-Received :
    (r : Receiver) (bytes : List ℕ) → IsValid r → Received r (receive r bytes) bytes
unfolding receive pushed full
receive-Received r [] v = record {
  valid = v;
  same_tail = refl;
  same_parser = refl;
  queued = sym (append-nil (contents r)) ∙ ap (λ xs. contents r ++ xs) (sym (take-nil (room r)));
  unlatched = λ l. (l, take-nil (room r));
  latched = λ l. inl l;
}
receive-Received r (b ∷ bytes) v = elim (Bool-cases (ltb (sub8 r.head r.tail) ring_size)) [
  | inl e ↦
      let h = ltb→lt _ _ e in
      rw e (
        Received-push r (receive (pushed r b) bytes) b bytes v h
          (receive-Received (pushed r b) bytes (pushed-IsValid r b v h)))
  | inr e ↦ rw e (
      Received-full r (receive (full r) bytes) b bytes v (ground arith)
        (receive-Received (full r) bytes (IsValid-full r v)))
]

pub receives :
    (r : Receiver) (bytes : List ℕ) → IsValid r → Received r (uart1_irq_handler false r bytes) bytes
unfolding uart1_irq_handler
receives r bytes v = receive-Received r bytes v

first-of :
    (xs bytes : List ℕ) (b n : ℕ)
    → n ≡ ring_size - length xs
    → take 1 (xs ++ take n (b ∷ bytes)) ≡ take 1 (xs ++ b ∷ [])
first-of [] bytes b n e = ap (λ k. take 1 (take k (b ∷ bytes))) e
first-of (x ∷ xs) bytes b n e = refl

first-nonempty : (xs : List ℕ) (b : ℕ) → take 1 (xs ++ b ∷ []) ≢ []
first-nonempty [] b = λ e. omega (arith, ap length e)
first-nonempty (x ∷ xs) b = λ e. omega (arith, ap length e)

-- A handler that finds a byte leaves the queue beginning as with that byte alone.
pub queued-first :
    (r : Receiver) (b : ℕ) (bytes : List ℕ)
    → IsValid r
    → take 1 (contents r ++ take (room r) (b ∷ bytes)) ≡ take 1 (contents r ++ b ∷ [])
unfolding contents
queued-first r b bytes v =
    first-of (contents r) bytes b (room r)
      (ap (λ n. ring_size - n) (sym (length-window r.ring r.tail (sub8 r.head r.tail))))

-- With an overrun the queue grows alike, and the latch is set.
pub overruns :
    (r : Receiver) (b : ℕ) (rest : List ℕ)
    → IsValid r
    → Received r (uart1_irq_handler true r (b ∷ rest)) (b ∷ rest)
      × ((uart1_irq_handler true r (b ∷ rest)).overrun_latch ≡ true)
unfolding uart1_irq_handler contents
overruns r b rest v =
    let bytes = b ∷ rest in
    let o = record r { overrun_latch = true } in
    let g =
      receive-Received o bytes
        (record { head_lt = v.head_lt; tail_lt = v.tail_lt; fill = v.fill; size = v.size }) in
    let set : (receive o bytes).overrun_latch ≡ true =
      elim (Bool-cases (receive o bytes).overrun_latch) [
        | inl e ↦ e
        | inr e ↦ absurd (let (l, t) = g.unlatched e in ground arith)
      ] in
    (
      record {
        valid = g.valid;
        same_tail = g.same_tail;
        same_parser = g.same_parser;
        queued = g.queued;
        unlatched = λ l. absurd (let (l', t) = g.unlatched l in ground arith);
        latched = λ l. inr (λ z.
            first-nonempty (contents r) b
              (sym (queued-first r b rest v) ∙ ap (take 1) (sym g.queued ∙ z)));
      },
      set,
    )
