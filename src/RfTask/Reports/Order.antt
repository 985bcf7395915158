-- ===== src/RfTask/Reports/Order.antt =====
-- The key reports of firmware/src/rf_task.c stay in order, and the newest is never lost.
use open_controller.Prelude.{
  ℕ, ◌+◌, ◌%◌, ◌^◌, ◌<◌, ◌≡◌, ◌≢◌, refl, sym, ap, ◌∙◌, inl, inr, Bool, true, false, [], ◌∷◌, ◌++◌,
  append-nil, append_assoc, ◌==◌, Bool-cases, length, ring_window, ring_contents,
  length-ring_contents, ring_contents-pop, get_or, u8, sub8, arith,
}
use open_controller.RfTask.Reports.{
  Reports, slots, no_report, low_bit_differs, on_poll, response, do_response_tx, discard_hid_queue,
  on_disconnect, disconnect, enter_connected,
}
use open_controller.RfTask.Reports.History.{
  slots-IsRingSize, contents, Session, polled, responded, discarded, timed_out, disconnected,
  connected, to_list, carried, apply, first, IsFaithful,
}

pub contents-empty : (r : Reports) → r.head ≡ r.tail → contents r ≡ []
unfolding contents ring_contents ring_window
contents-empty r e =
    let k : sub8 r.tail r.head ≡ 0 = omega arith in
    ap (ring_window slots slots-IsRingSize no_report r.fifo r.head) k

pub contents-first :
    (r : Reports)
    → r.head < 2 ^ 8
    → r.tail < 2 ^ 8
    → r.head ≢ r.tail
    → contents r
      ≡ get_or r.fifo (r.head % slots) no_report ∷ contents (record r { head = u8 (r.head + 1) })
unfolding contents
contents-first r f t h =
    ring_contents-pop slots slots-IsRingSize no_report r.fifo r.head r.tail f t h

pub contents-nonempty :
    (r : Reports) → r.head < 2 ^ 8 → r.tail < 2 ^ 8 → r.head ≢ r.tail → contents r ≢ []
unfolding contents
contents-nonempty r f t h = λ z. omega (
  arith,
  h,
  ap length z,
  length-ring_contents slots slots-IsRingSize no_report r.fifo r.head r.tail,
)

module _ (s : Session) (c : IsFaithful s) where
  pub discarded-IsFaithful : IsFaithful (apply s discarded)
  unfolding apply discard_hid_queue contents ring_contents ring_window
  discarded-IsFaithful = record {
    head_lt = c.tail_lt;
    tail_lt = c.tail_lt;
    fill = omega arith;
    size = c.size;
    order =
        ap (λ rs. s.log ++ rs) (contents-empty (discard_hid_queue s.rf) refl) ∙ append-nil s.log;
    newest_lem = c.newest_lem;
    last_lem = c.last_lem;
    air_lem = refl;
    sent_lem = λ e. absurd (ground arith);
  }

  pub timed_out-IsFaithful : IsFaithful (apply s timed_out)
  unfolding apply on_disconnect contents
  timed_out-IsFaithful = record {
    head_lt = c.head_lt;
    tail_lt = c.tail_lt;
    fill = c.fill;
    size = c.size;
    order = c.order;
    newest_lem = refl;
    last_lem = λ r e. absurd (ground arith);
    air_lem = refl;
    sent_lem = λ e. absurd (ground arith);
  }

  pub disconnected-IsFaithful : IsFaithful (apply s disconnected)
  unfolding apply disconnect contents
  disconnected-IsFaithful = record {
    head_lt = c.head_lt;
    tail_lt = c.tail_lt;
    fill = c.fill;
    size = c.size;
    order = c.order;
    newest_lem = refl;
    last_lem = λ r e. absurd (ground arith);
    air_lem = c.air_lem;
    sent_lem = c.sent_lem;
  }

  pub connected-IsFaithful : IsFaithful (apply s connected)
  unfolding apply enter_connected contents
  connected-IsFaithful = record {
    head_lt = c.head_lt;
    tail_lt = c.tail_lt;
    fill = c.fill;
    size = c.size;
    order = c.order;
    newest_lem = c.newest_lem;
    last_lem = c.last_lem;
    air_lem = refl;
    sent_lem = λ e. absurd (ground arith);
  }

  pub responded-IsFaithful : (started : Bool) → IsFaithful (apply s (responded started))
  unfolding apply do_response_tx response carried contents first
  responded-IsFaithful false = c
  responded-IsFaithful true = elim (Bool-cases (sub8 s.rf.tail s.rf.head == 0)) [
    | inl e ↦ rw e c
    | inr e ↦
        let h : s.rf.head ≢ s.rf.tail = λ k. ground arith in
        rw e (record {
          head_lt = c.head_lt;
          tail_lt = c.tail_lt;
          fill = c.fill;
          size = c.size;
          order = c.order;
          newest_lem = c.newest_lem;
          last_lem = c.last_lem;
          air_lem = sym (ap first (contents-first s.rf c.head_lt c.tail_lt h));
          sent_lem = λ k. h;
        })
  ]

-- The dongle's control bit has advanced, with or without a report in the air.
advanced-IsFaithful :
    (s : Session) (sent : Bool) (rx_ctrl : ℕ)
    → IsFaithful (record s { rf = record s.rf { head_sent = sent } })
    → low_bit_differs rx_ctrl s.rf.tx_ctrl ≡ true
    → IsFaithful (apply (record s { rf = record s.rf { head_sent = sent } }) (polled rx_ctrl))
unfolding apply on_poll contents to_list first
advanced-IsFaithful s false rx_ctrl c e = rw e (record {
  head_lt = c.head_lt;
  tail_lt = c.tail_lt;
  fill = c.fill;
  size = c.size;
  order =
      ap (λ o. (s.gone ++ to_list o) ++ contents s.rf) c.air_lem
      ∙ ap (λ rs. rs ++ contents s.rf) (append-nil s.gone)
      ∙ c.order;
  newest_lem = c.newest_lem;
  last_lem = c.last_lem;
  air_lem = refl;
  sent_lem = λ k. absurd (ground arith);
})
advanced-IsFaithful s true rx_ctrl c e =
    let h : s.rf.head ≢ s.rf.tail = c.sent_lem refl in
    let k : (s.rf.tail == s.rf.head) ≡ false = ground arith in
    let pop = contents-first s.rf c.head_lt c.tail_lt h in
    let x = get_or s.rf.fifo (s.rf.head % slots) no_report in
    let rest = contents (record s.rf { head = u8 (s.rf.head + 1) }) in
    rw (e, k)
      (record {
        head_lt = omega arith;
        tail_lt = c.tail_lt;
        fill = omega (arith, h, c.head_lt, c.tail_lt, c.fill);
        size = c.size;
        order =
            ap (λ o. (s.gone ++ to_list o) ++ rest) (c.air_lem ∙ ap first pop)
            ∙ append_assoc s.gone (x ∷ []) rest
            ∙ ap (λ rs. s.gone ++ rs) (sym pop)
            ∙ c.order;
        newest_lem = c.newest_lem;
        last_lem = c.last_lem;
        air_lem = refl;
        sent_lem = λ k. absurd (ground arith);
      })

pub polled-IsFaithful :
    (s : Session) (rx_ctrl : ℕ) → IsFaithful s → IsFaithful (apply s (polled rx_ctrl))
unfolding apply on_poll
polled-IsFaithful s rx_ctrl c = elim (Bool-cases (low_bit_differs rx_ctrl s.rf.tx_ctrl)) [
  | inl e ↦ advanced-IsFaithful s s.rf.head_sent rx_ctrl c e
  | inr e ↦ rw e c
]
