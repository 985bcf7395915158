-- ===== src/KeyboardUart/Parser.antt =====
-- The frame parser of firmware/src/keyboard_uart.c: `rx_buf`, `rx_len` and `rx_expected`, and the
-- functions from `checksum` to `feed_byte`.
pub mod Content
pub mod Invariant
pub mod Segments
pub mod RoundTrip
pub mod Messages
mod Tests
use open_controller.Prelude.{
  ℕ, zero, suc, ◌+◌, ◌-◌, Bool, true, false, not, ◌&&◌, ◌||◌, Option, none, some, List, [], ◌∷◌,
  ◌++◌, ltb, leb, ◌==◌, if◌then◌else◌, get_or, set, take, drop, replicate, u8, sub8,
}

-- `KBD_UART_MAX_FRAME`
abbrev pub max_frame : ℕ
max_frame = 24

-- `rx_buf`, `rx_len` and `rx_expected`
pub record Parser : Type 0 where
  pub buf : List ℕ
  pub len : ℕ
  pub expected : ℕ

abbrev pub initial : Parser
initial = record { buf = replicate max_frame 0; len = 0; expected = 0 }

-- What a frame makes happen: the module's own 61 0D 0A, a call of `frame_cb` with the command, the
-- sub-command, the payload's bytes and its length, and a host ACK handed to host wake.
pub data Effect : Type 0 where
  send_ack : Effect
  callback : ℕ → ℕ → List ℕ → ℕ → Effect
  host_ack : Effect

-- The loop of `checksum`: the sum so far, and the bytes and rounds that are left.
pub checksum_from : ℕ → List ℕ → ℕ → ℕ
checksum_from sum buf zero = sum
checksum_from sum [] (suc n) = sum
checksum_from sum (x ∷ buf) (suc n) = checksum_from (u8 (sum + x)) buf n

-- `checksum`
abbrev pub checksum : List ℕ → ℕ → ℕ
checksum = checksum_from 0

-- `expected_for_header`
unfoldable pub expected_for_header : ℕ → ℕ
expected_for_header b =
    if b == 0xA6 || b == 0x61 then 3 else if b == 0xA1 then 10 else if b == 0xA9 then 21 else 0

-- `rx_buf[i]`
abbrev pub byte : List ℕ → ℕ → ℕ
byte buf i = get_or buf i 0

-- `frame_is_valid`
unfoldable pub frame_is_valid : List ℕ → Bool
unfolding checksum_from
frame_is_valid buf =
    let cmd = byte buf 0 in
    if cmd == 0xA6
    then checksum buf 2 == byte buf 2
    else if cmd == 0xA1
    then checksum buf 9 == byte buf 9
    else if cmd == 0xA9
    then (let name_len = byte buf 1 in
        let chk_idx = u8 (2 + name_len) in
        leb name_len 18 && ltb chk_idx 21 && checksum buf chk_idx == byte buf chk_idx)
    else if cmd == 0x61
    then byte buf 1 == 0x0D && byte buf 2 == 0x0A
    else false

-- `dispatch_frame`; `has_cb` says whether `frame_cb` is set.
unfoldable pub dispatch_frame : Bool → List ℕ → List Effect
dispatch_frame has_cb buf =
    let cmd = byte buf 0 in
    let call = λ (e : Effect). if has_cb then send_ack ∷ e ∷ [] else send_ack ∷ [] in
    if cmd == 0xA6
    then call (callback 0xA6 (byte buf 1) [] 0)
    else if cmd == 0xA1
    then call (callback 0xA1 0 (take 8 (drop 1 buf)) 8)
    else if cmd == 0xA9
    then call (callback 0xA9 (byte buf 1) (take (byte buf 1) (drop 2 buf)) (byte buf 1))
    else host_ack ∷ []

-- `reset_parser`
abbrev pub reset_parser : Parser → Parser
reset_parser p = record p { len = 0; expected = 0 }

-- The loop of `shift_rx_buf`: the index, and the rounds that are left.
pub shift_from : List ℕ → ℕ → ℕ → ℕ → List ℕ
shift_from buf n i zero = buf
shift_from buf n i (suc k) = shift_from (set buf i (byte buf (i + n))) n (i + 1) k

-- `shift_rx_buf`
pub shift_rx_buf : Parser → ℕ → Parser
shift_rx_buf p n =
    if leb p.len n
    then reset_parser p
    else let len = sub8 p.len n in
      let buf = shift_from p.buf n 0 len in
      let expected = expected_for_header (byte buf 0) in
      if expected == 0
      then record p { buf = buf; len = 0; expected = 0 }
      else record p { buf = buf; len = len; expected = expected }

-- The search of `resync_parser`: the index, and the rounds that are left.
pub find_header : List ℕ → ℕ → ℕ → Option ℕ
find_header buf i zero = none
find_header buf i (suc k) =
    let later = find_header buf (i + 1) k in
    if not (expected_for_header (byte buf i) == 0) then some i else later

-- `resync_parser`
pub resync_parser : Parser → Parser
resync_parser p = elim (find_header p.buf 1 (p.len - 1)) [
  | none ↦ reset_parser p
  | some i ↦ shift_rx_buf p i
]

-- The test of the loop in `process_rx_buf`.
pub is_complete : Parser → Bool
is_complete p = not (p.len == 0) && not (p.expected == 0) && leb p.expected p.len

-- The loop of `process_rx_buf`, with fuel: each round takes bytes away, so `rx_len` rounds do.
pub process : ℕ → Bool → Parser → Parser × List Effect
process zero has_cb p = (p, [])
process (suc fuel) has_cb p = elim (is_complete p) [
  | true ↦ elim (frame_is_valid p.buf) [
    | true ↦
        let (q, es) = process fuel has_cb (shift_rx_buf p p.expected) in
        (q, dispatch_frame has_cb p.buf ++ es)
    | false ↦ process fuel has_cb (resync_parser p)
  ]
  | false ↦ (p, [])
]

-- `process_rx_buf`
abbrev pub process_rx_buf : Bool → Parser → Parser × List Effect
process_rx_buf has_cb p = process p.len has_cb p

-- `feed_byte`
pub feed_byte : Bool → Parser → ℕ → Parser × List Effect
feed_byte has_cb p b =
    let first = expected_for_header b in
    if p.len == 0 && first == 0
    then (record p { expected = 0 }, [])
    else let q = if p.len == 0 then record p { expected = first } else p in
      if leb max_frame q.len
      then (reset_parser q, [])
      else process_rx_buf has_cb (record q { buf = set q.buf q.len b; len = u8 (q.len + 1) })

-- `feed_byte` over a stream of bytes.
unfoldable pub feed : Bool → Parser → List ℕ → Parser × List Effect
feed has_cb p [] = (p, [])
feed has_cb p (b ∷ bytes) =
    let (q, es) = feed_byte has_cb p b in let (r, es') = feed has_cb q bytes in (r, es ++ es')
