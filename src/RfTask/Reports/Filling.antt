-- ===== src/RfTask/Reports/Filling.antt =====
-- `RF_QueueHIDReport` of firmware/src/rf_task.c keeps the key reports in order, and the newest last.
use open_controller.Prelude.{
  ℕ, suc, ◌-◌, ◌%◌, ◌≤◌, ◌<◌, ◌≡◌, refl, sym, ap, ◌∙◌, inl, inr, Bool, true, false, not, ◌||◌,
  Option, none, some, List, [], ◌∷◌, ◌++◌, append_assoc, ltb, ltb→lt, leb, if◌then◌else◌,
  Bool-cases, length, length-append, length-set, take, replace_last, length-ring_contents,
  ring_contents-push, ring_contents-replace, sub8, arith,
}
use open_controller.RfTask.Reports.{slots, no_report, same_bytes, changed, queue_hid_report}
use open_controller.RfTask.Reports.History.{
  slots-IsRingSize, contents, Session, queued, is_newest, taken, apply, first, IsFaithful,
}

replace_last-cons :
    (x y : List ℕ) (ys : List (List ℕ)) (r : List ℕ)
    → replace_last (x ∷ y ∷ ys) r ≡ x ∷ replace_last (y ∷ ys) r
unfolding replace_last
replace_last-cons x y ys r =
    let e : suc (suc (length ys)) - 1 ≡ suc (suc (length ys) - 1) = omega arith in
    ap (λ n. take n (x ∷ y ∷ ys) ++ r ∷ []) e

replace_last-append :
    (xs ys : List (List ℕ)) (y r : List ℕ)
    → replace_last (xs ++ y ∷ ys) r ≡ xs ++ replace_last (y ∷ ys) r
replace_last-append [] ys y r = refl
replace_last-append (x ∷ []) ys y r = replace_last-cons x y ys r
replace_last-append (x ∷ x' ∷ xs) ys y r =
    replace_last-cons x x' (xs ++ y ∷ ys) r
    ∙ ap (λ rs. x ∷ rs) (replace_last-append (x' ∷ xs) ys y r)

not-not : (b : Bool) → b ≡ not (not b)
not-not true = refl
not-not false = refl

is_newest-changed :
    (valid : Bool) (last r : List ℕ)
    → is_newest (if valid then some last else none) r ≡ not (not valid || not (same_bytes last r))
unfolding is_newest
is_newest-changed true last r = not-not (same_bytes last r)
is_newest-changed false last r = refl

newest-changed :
    (s : Session) (r : List ℕ) → IsFaithful s → is_newest s.newest r ≡ not (changed s.rf r)
unfolding changed
newest-changed s r c =
    ap (λ o. is_newest o r) c.newest_lem
    ∙ is_newest-changed s.rf.last_queued_valid s.rf.last_queued r

-- A change behind the first report leaves the first.
first-append : (xs ys : List (List ℕ)) (h : 0 < length xs) → first (xs ++ ys) ≡ first xs
unfolding first
first-append [] ys h = absurd (omega arith)
first-append (x ∷ xs) ys h = refl

first-replace_last :
    (xs : List (List ℕ)) (r : List ℕ) → 1 < length xs → first (replace_last xs r) ≡ first xs
unfolding first replace_last
first-replace_last [] r h = absurd (omega arith)
first-replace_last (x ∷ []) r h = absurd (omega arith)
first-replace_last (x ∷ y ∷ xs) r h =
    let e : suc (suc (length xs)) - 1 ≡ suc (length xs) = omega arith in
    ap (λ n. first (take n (x ∷ y ∷ xs) ++ r ∷ [])) e

append-replace_last :
    (xs ys : List (List ℕ)) (r : List ℕ)
    → 0 < length ys
    → xs ++ replace_last ys r ≡ replace_last (xs ++ ys) r
append-replace_last xs [] r h = absurd (omega arith)
append-replace_last xs (y ∷ ys) r h = sym (replace_last-append xs ys y r)

if-agree :
    {A : Type 0} (b : Bool) (x y : Option A)
    → (b ≡ true → x ≡ y)
    → (if b then x else none) ≡ (if b then y else none)
if-agree true x y h = h refl
if-agree false x y h = refl

value : List ℕ → Option (List ℕ) → List ℕ
value d none = d
value d (some x) = x

some-injective : (x y : List ℕ) → some x ≡ some y → x ≡ y
unfolding value
some-injective x y e = ap (value x) e

-- A report that differs from the newest goes behind the others, or replaces it when there is no
-- room.
changed-IsFaithful :
    (s : Session) (r : List ℕ)
    → IsFaithful s
    → changed s.rf r ≡ true
    → is_newest s.newest r ≡ false
    → IsFaithful (apply s (queued r))
unfolding apply queue_hid_report taken contents replace_last
changed-IsFaithful s r c e n =
    let len = length-ring_contents slots slots-IsRingSize no_report s.rf.fifo s.rf.head s.rf.tail in
    let f = c.head_lt in
    let t = c.tail_lt in
    let k : length s.log - length s.gone ≡ sub8 s.rf.tail s.rf.head =
      omega (arith, ap length c.order, length-append s.gone (contents s.rf), len) in
    elim (Bool-cases (ltb (sub8 s.rf.tail s.rf.head) slots)) [
      | inl l ↦
          let push =
            ring_contents-push slots slots-IsRingSize no_report s.rf.fifo s.rf.head s.rf.tail f t r
              c.size (ltb→lt _ _ l) in
          let m : leb slots (length s.log - length s.gone) ≡ false = ground arith in
          rw (e, n, l, m)
            (record {
              head_lt = c.head_lt;
              tail_lt = omega arith;
              fill = omega (arith, f, t, ltb→lt _ _ l);
              size = length-set s.rf.fifo (s.rf.tail % slots) r ∙ c.size;
              order =
                  ap (λ rs. s.gone ++ rs) push
                  ∙ sym (append_assoc s.gone (contents s.rf) (r ∷ []))
                  ∙ ap (λ rs. rs ++ r ∷ []) c.order;
              newest_lem = refl;
              last_lem = λ x z. (s.log, ap (λ x. s.log ++ x ∷ []) (some-injective r x z));
              air_lem =
                  c.air_lem
                  ∙ if-agree s.rf.head_sent _ _ (λ b. sym (
                      ap first push
                      ∙ first-append (contents s.rf) (r ∷ [])
                          (omega (arith, len, c.sent_lem b, f, t))));
              sent_lem = λ b. omega (arith, ltb→lt _ _ l, f, t);
            })
      | inr l ↦
          let full : slots ≤ sub8 s.rf.tail s.rf.head = ground arith in
          let replace =
            ring_contents-replace slots slots-IsRingSize no_report s.rf.fifo s.rf.head s.rf.tail f t
              r c.size (omega (arith, full)) c.fill in
          let m : leb slots (length s.log - length s.gone) ≡ true = ground arith in
          rw (e, n, l, m)
            (record {
              head_lt = c.head_lt;
              tail_lt = c.tail_lt;
              fill = c.fill;
              size = length-set s.rf.fifo (sub8 s.rf.tail 1 % slots) r ∙ c.size;
              order =
                  ap (λ rs. s.gone ++ rs) replace
                  ∙ append-replace_last s.gone (contents s.rf) r (omega (arith, len, full))
                  ∙ ap (λ rs. replace_last rs r) c.order;
              newest_lem = refl;
              last_lem = λ x z. (
                take (length s.log - 1) s.log,
                ap (λ x. replace_last s.log x) (some-injective r x z),
              );
              air_lem =
                  c.air_lem
                  ∙ if-agree s.rf.head_sent _ _ (λ b. sym (
                      ap first replace
                      ∙ first-replace_last (contents s.rf) r (omega (arith, len, full))));
              sent_lem = c.sent_lem;
            })
    ]

unchanged-IsFaithful :
    (s : Session) (r : List ℕ)
    → IsFaithful s
    → changed s.rf r ≡ false
    → is_newest s.newest r ≡ true
    → IsFaithful (apply s (queued r))
unfolding apply queue_hid_report
unchanged-IsFaithful s r c e n = rw (e, n) c

pub queued-IsFaithful : (s : Session) (r : List ℕ) → IsFaithful s → IsFaithful (apply s (queued r))
queued-IsFaithful s r c =
    let agree = newest-changed s r c in
    elim (Bool-cases (changed s.rf r)) [
      | inl e ↦ changed-IsFaithful s r c e (agree ∙ ap not e)
      | inr e ↦ unchanged-IsFaithful s r c e (agree ∙ ap not e)
    ]
