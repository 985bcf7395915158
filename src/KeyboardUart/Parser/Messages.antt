-- ===== src/KeyboardUart/Parser/Messages.antt =====
-- What the keyboard's host sends, as it builds it, and what the parser makes of it. Each frame is
-- written here from the protocol, not from the parser.
use open_controller.Prelude.{
  ℕ, zero, suc, ◌+◌, ◌%◌, ◌<◌, ◌≡◌, refl, sym, ap, ap₂, ◌∙◌, Bool, true, List, [], ◌∷◌, ◌++◌,
  append_assoc, arith, length, length-append, get_or-append_at, take-append_at, u8,
}
use open_controller.KeyboardUart.Parser.{
  Parser, Effect, send_ack, callback, host_ack, frame_is_valid, dispatch_frame, expected_for_header,
  feed_byte, feed, checksum_from,
}
use open_controller.KeyboardUart.Parser.Invariant.{Waits, feed-Waits}
use open_controller.KeyboardUart.Parser.Segments.{IsFrame}
use open_controller.KeyboardUart.Parser.RoundTrip.{frame_arrives}

-- A two-byte command, a keyboard report, a device name with the bytes that pad its frame to 21,
-- and the answer to a frame of the module.
pub data Message : Type 0 where
  command : ℕ → Message
  report : List ℕ → Message
  name : List ℕ → List ℕ → Message
  answer : Message

abbrev pub IsSendable : Message → Type 0
IsSendable (command sub) = Unit {0}
IsSendable (report keys) = length keys ≡ 8
IsSendable (name text padding) = length text + length padding ≡ 18
IsSendable answer = Unit {0}

abbrev pub total : List ℕ → ℕ
total [] = 0
total (x ∷ l) = x + total l

abbrev pub encode : Message → List ℕ
encode (command sub) = 0xA6 ∷ sub ∷ (0xA6 + sub) % 256 ∷ []
encode (report keys) = 0xA1 ∷ (keys ++ ((0xA1 + total keys) % 256 ∷ []))
encode (name text padding) =
    0xA9 ∷ length text ∷ (text ++ ((0xA9 + length text + total text) % 256 ∷ padding))
encode answer = 0x61 ∷ 0x0D ∷ 0x0A ∷ []

-- The effects that a message calls for.
abbrev pub meant : Message → List Effect
meant (command sub) = send_ack ∷ callback 0xA6 sub [] 0 ∷ []
meant (report keys) = send_ack ∷ callback 0xA1 0 keys 8 ∷ []
meant (name text padding) = send_ack ∷ callback 0xA9 (length text) text (length text) ∷ []
meant answer = host_ack ∷ []

checksum_from-total :
    (sum : ℕ) (l rest : List ℕ) (n : ℕ)
    → n ≡ length l
    → sum < 256
    → checksum_from sum (l ++ rest) n ≡ (sum + total l) % 256
unfolding checksum_from
checksum_from-total sum [] rest zero e h = omega arith
checksum_from-total sum [] rest (suc n) e h = absurd (omega arith)
checksum_from-total sum (x ∷ l) rest zero e h = absurd (omega arith)
checksum_from-total sum (x ∷ l) rest (suc n) e h =
    checksum_from-total (u8 (sum + x)) l rest n (omega arith) (omega arith) ∙ omega arith

encode-IsFrame : (m : Message) → IsSendable m → IsFrame (encode m)
unfolding expected_for_header frame_is_valid
encode-IsFrame (command sub) h = record {
  size = refl;
  some_bytes = omega arith;
  checked = ground arith;
}
encode-IsFrame (report keys) h =
    let c = (0xA1 + total keys) % 256 in
    record {
      size = omega (arith, length-append keys (c ∷ []));
      some_bytes = omega arith;
      checked =
          ground (arith, checksum_from-total 161 keys (c ∷ []) 8, get_or-append_at keys c [] 8 0);
    }
encode-IsFrame (name text padding) h =
    let c = (0xA9 + length text + total text) % 256 in
    let e : u8 (2 + length text) ≡ suc (suc (length text)) = omega arith in
    record {
      size = omega (arith, length-append text (c ∷ padding));
      some_bytes = omega arith;
      checked = rw e (
          ground (
            arith,
            checksum_from-total (u8 (u8 (0 + 169) + length text)) text (c ∷ padding) (length text)
                refl,
            get_or-append_at text c padding (length text) 0,
          ));
    }
encode-IsFrame answer h = record { size = refl; some_bytes = omega arith; checked = refl }

dispatch-encode : (m : Message) → IsSendable m → dispatch_frame true (encode m) ≡ meant m
unfolding dispatch_frame
dispatch-encode (command sub) h = refl
dispatch-encode (report keys) h =
    ap (λ (l : List ℕ). send_ack ∷ callback 0xA1 0 l 8 ∷ []) (take-append_at keys _ 8 (omega arith))
dispatch-encode (name text padding) h =
    ap (λ (l : List ℕ). send_ack ∷ callback 0xA9 (length text) l (length text) ∷ [])
      (take-append_at text _ (length text) refl)
dispatch-encode answer h = refl

-- The parser after a run of messages.
abbrev pub encode_all : List Message → List ℕ
encode_all [] = []
encode_all (m ∷ ms) = encode m ++ encode_all ms

abbrev pub meant_all : List Message → List Effect
meant_all [] = []
meant_all (m ∷ ms) = meant m ++ meant_all ms

abbrev pub AllSendable : List Message → Type 0
AllSendable [] = Unit {0}
AllSendable (m ∷ ms) = IsSendable m × AllSendable ms

-- What a stream does is what its parts do, one after the other.
pub feed-append :
    (cb : Bool) (xs ys : List ℕ) (p : Parser)
    → feed cb p (xs ++ ys)
      ≡ ((feed cb (feed cb p xs).0 ys).0, (feed cb p xs).1 ++ (feed cb (feed cb p xs).0 ys).1)
unfolding feed
feed-append cb [] ys p = refl
feed-append cb (x ∷ xs) ys p =
    let (q, es) = feed_byte cb p x in
    let r = feed cb (feed cb q xs).0 ys in
    ap (λ (o : Parser × List Effect). (o.0, es ++ o.1)) (feed-append cb xs ys q)
    ∙ ap (λ (l : List Effect). (r.0, l)) (sym (append_assoc es (feed cb q xs).1 r.1))

-- Whatever messages the host sends, each of its right size, an empty waiting parser with the frame
-- callback set acknowledges and hands over each of them, once, in order and with its bytes, and is
-- empty again.
pub messages_arrive :
    (ms : List Message) (p : Parser)
    → AllSendable ms
    → Waits p
    → p.len ≡ 0
    → ((feed true p (encode_all ms)).1 ≡ meant_all ms) × ((feed true p (encode_all ms)).0.len ≡ 0)
messages_arrive [] p s w z = unfold feed in (refl, z)
messages_arrive (m ∷ ms) p s w z =
    let one = frame_arrives true (encode m) p w z (encode-IsFrame m s.0) in
    let q = (feed true p (encode m)).0 in
    let rest = messages_arrive ms q s.1 (feed-Waits true (encode m) p w) one.1 in
    rw (feed-append true (encode m) (encode_all ms) p)
      (ap₂ ◌++◌ (one.0 ∙ dispatch-encode m s.0) rest.0, rest.1)
