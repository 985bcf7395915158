-- ===== src/KeyboardUart/Parser/Tests.antt =====
-- The parser on concrete bytes, and its theorems there.
use open_controller.Prelude.{ℕ, ◌≡◌, refl, true, List, [], ◌∷◌, ◌++◌, arith}
use open_controller.KeyboardUart.Parser.{
  Parser, Effect, initial, send_ack, callback, host_ack, expected_for_header, frame_is_valid,
  dispatch_frame, shift_from, shift_rx_buf, find_header, resync_parser, is_complete, process,
  feed_byte, feed,
}
use open_controller.KeyboardUart.Parser.Content.{content}
use open_controller.KeyboardUart.Parser.Invariant.{Waits, initial-Waits, process-Waits, feed-Waits}
use open_controller.KeyboardUart.Parser.Segments.{Splits, feed-Splits}
use open_controller.KeyboardUart.Parser.Messages.{
  Message, command, report, name, answer, encode_all, meant_all, messages_arrive,
}

-- Named on an `unfolding` line, it opens every function of the parser.
fed : List ℕ → Parser × List Effect
unfolding feed feed_byte process is_complete resync_parser find_header shift_rx_buf shift_from
    dispatch_frame frame_is_valid expected_for_header
fed = feed true initial

-- A stray NULL, an A6 whose checksum is wrong with a good frame inside, and a host ACK.
abbrev noisy : List ℕ
noisy = 0 ∷ 0xA6 ∷ 0x30 ∷ 0x61 ∷ 0x0D ∷ 0x0A ∷ []

fed-noisy : (fed noisy).1 ≡ host_ack ∷ []
unfolding fed
fed-noisy = refl

fed_select : (fed (0xA6 ∷ 0x30 ∷ 0xD6 ∷ [])).1 ≡ send_ack ∷ callback 0xA6 0x30 [] 0 ∷ []
unfolding fed
fed_select = refl

feed-Splits_example : Splits true (content initial ++ noisy) (feed true initial noisy)
feed-Splits_example = feed-Splits true noisy initial initial-Waits

feed-Waits_example : Waits (feed true initial noisy).0
feed-Waits_example = feed-Waits true noisy initial initial-Waits

-- A full frame with a wrong checksum in the buffer.
abbrev spoiled : Parser
spoiled = record initial {
  buf =
      0xA6 ∷ 0x30 ∷ 0x61 ∷ 0 ∷ 0 ∷ 0 ∷ 0 ∷ 0 ∷ 0 ∷ 0 ∷ 0 ∷ 0 ∷ 0 ∷ 0 ∷ 0 ∷ 0 ∷ 0 ∷ 0 ∷ 0 ∷ 0 ∷ 0 ∷ 0
      ∷ 0 ∷ 0 ∷ [];
  len = 3;
  expected = 3;
}

process-Waits_example : Waits (process 3 true spoiled).0
unfolding expected_for_header
process-Waits_example = process-Waits 3 true spoiled (omega arith) (omega arith)

abbrev script : List Message
script =
    command 0x56
    ∷ report (0 ∷ 0 ∷ 4 ∷ 0 ∷ 0 ∷ 0 ∷ 0 ∷ 0 ∷ [])
    ∷ name (0x4B ∷ 0x42 ∷ []) (0 ∷ 0 ∷ 0 ∷ 0 ∷ 0 ∷ 0 ∷ 0 ∷ 0 ∷ 0 ∷ 0 ∷ 0 ∷ 0 ∷ 0 ∷ 0 ∷ 0 ∷ 0 ∷ [])
    ∷ answer
    ∷ []

messages_arrive_example :
    ((feed true initial (encode_all script)).1 ≡ meant_all script)
    × ((feed true initial (encode_all script)).0.len ≡ 0)
messages_arrive_example =
    messages_arrive script initial (tt, (refl, (refl, (tt, tt)))) initial-Waits refl
