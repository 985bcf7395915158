-- ===== src/KeyboardUart/Parser/Content.antt =====
-- The bytes that the parser holds, `rx_buf[0 .. rx_len)`, and what its loops do to them.
use open_controller.Prelude.{
  ℕ, zero, suc, ◌+◌, ◌-◌, ◌≤◌, ◌<◌, ◌≡◌, refl, sym, ap, ◌∙◌, ◌⊎◌, Bool, true, List, [], ◌∷◌, arith,
  ltb, leb, ◌==◌, length, set, take, drop, u8, sub8, Bool-cases, inl, inr, length-set,
  get_or-set_self, get_or-set_ne, length-take, length-drop, get_or-take, get_or-drop, list_ext,
  take-drop-take, drop-take,
}
use open_controller.KeyboardUart.Parser.{
  Parser, byte, checksum_from, frame_is_valid, dispatch_frame, expected_for_header, shift_from,
  shift_rx_buf,
}

abbrev pub content : Parser → List ℕ
content p = take p.len p.buf

-- Only the first `n` bytes count for a sum over `n` of them.
pub checksum_from-take :
    (sum n m : ℕ) (l : List ℕ) → n ≤ m → checksum_from sum (take m l) n ≡ checksum_from sum l n
unfolding checksum_from
checksum_from-take sum zero m l h = refl
checksum_from-take sum (suc n) zero l h = absurd (omega arith)
checksum_from-take sum (suc n) (suc m) [] h = refl
checksum_from-take sum (suc n) (suc m) (x ∷ l) h =
    checksum_from-take (u8 (sum + x)) n m l (omega arith)

-- A frame's test and its effects depend on no byte behind the frame.
pub frame_is_valid-take :
    (m : ℕ) (l : List ℕ)
    → 0 < m
    → expected_for_header (byte l 0) ≤ m
    → frame_is_valid (take m l) ≡ frame_is_valid l
unfolding frame_is_valid expected_for_header
frame_is_valid-take m l z h =
    let c = u8 (2 + byte l 1) in
    ground (
      arith,
      get_or-take m l 0 0,
      get_or-take m l 1 0,
      get_or-take m l 2 0,
      get_or-take m l 9 0,
      get_or-take m l c 0,
      checksum_from-take 0 2 m l,
      checksum_from-take 0 9 m l,
      checksum_from-take 0 c m l,
    )

pub length-shift_from : (buf : List ℕ) (n i k : ℕ) → length (shift_from buf n i k) ≡ length buf
unfolding shift_from
length-shift_from buf n i zero = refl
length-shift_from buf n i (suc k) =
    length-shift_from (set buf i (byte buf (i + n))) n (i + 1) k ∙ length-set buf i _

-- What the shifting loop leaves below, within and above the bytes that it moves.
byte-shift_from_below :
    (buf : List ℕ) (n i k j : ℕ) → j < i → byte (shift_from buf n i k) j ≡ byte buf j
unfolding shift_from
byte-shift_from_below buf n i zero j h = refl
byte-shift_from_below buf n i (suc k) j h =
    byte-shift_from_below (set buf i (byte buf (i + n))) n (i + 1) k j (omega arith)
    ∙ get_or-set_ne buf i j _ 0 (omega arith)

byte-shift_from :
    (buf : List ℕ) (n i k j : ℕ)
    → 0 < n
    → i + k ≤ length buf
    → i ≤ j
    → j < i + k
    → byte (shift_from buf n i k) j ≡ byte buf (j + n)
unfolding shift_from
byte-shift_from buf n i zero j z l h hk = absurd (omega arith)
byte-shift_from buf n i (suc k) j z l h hk = elim (Bool-cases (ltb i j)) [
  | inl above ↦
      byte-shift_from buf' n (i + 1) k j z (omega (arith, length-set buf i v)) (ground arith)
        (omega arith)
      ∙ get_or-set_ne buf i (j + n) v 0 (ground arith)
  | inr here ↦
      let e : j ≡ i = ground arith in
      rw e (
        byte-shift_from_below buf' n (i + 1) k i (omega arith)
        ∙ get_or-set_self buf i v 0 (omega arith))
]
  where
    v : ℕ
    v = byte buf (i + n)

    buf' : List ℕ
    buf' = set buf i v

-- Shifting down by `n` leaves the bytes from `n` on.
take-shift_from :
    (buf : List ℕ) (n k : ℕ)
    → 0 < n
    → n + k ≤ length buf
    → take k (shift_from buf n 0 k) ≡ take k (drop n buf)
take-shift_from buf n k z h =
    list_ext _ _ 0
      (omega (
        arith,
        length-take k (shift_from buf n 0 k),
        length-take k (drop n buf),
        length-shift_from buf n 0 k,
        length-drop n buf,
      ))
      (λ i hi.
        let hk : i < k = omega (arith, length-take k (shift_from buf n 0 k)) in
        get_or-take k (shift_from buf n 0 k) i 0 hk
        ∙ byte-shift_from buf n 0 k i z (omega arith) (omega arith) (omega arith)
        ∙ ap (byte buf) (omega arith)
        ∙ sym (get_or-take k (drop n buf) i 0 hk ∙ get_or-drop n buf i 0))

pub expected_for_header-le : (b : ℕ) → expected_for_header b ≤ 21
unfolding expected_for_header
expected_for_header-le b = ground arith

pub header_lengths :
    (b : ℕ)
    → 0 < expected_for_header b
    → (3 ≤ expected_for_header b)
      × (b ≡ 0xA1 → expected_for_header b ≡ 10)
      × (b ≡ 0xA9 → expected_for_header b ≡ 21)
unfolding expected_for_header
header_lengths b h = ground arith

pub name_fits : (l : List ℕ) → frame_is_valid l ≡ true → byte l 0 ≡ 0xA9 → byte l 1 ≤ 18
unfolding frame_is_valid
name_fits l h e = ground arith

pub dispatch_frame_same :
    (cb : Bool) (l l' : List ℕ)
    → byte l' 0 ≡ byte l 0
    → byte l' 1 ≡ byte l 1
    → (byte l 0 ≡ 0xA1 → take 8 (drop 1 l') ≡ take 8 (drop 1 l))
    → (byte l 0 ≡ 0xA9 → take (byte l 1) (drop 2 l') ≡ take (byte l 1) (drop 2 l))
    → dispatch_frame cb l' ≡ dispatch_frame cb l
unfolding dispatch_frame
dispatch_frame_same cb l l' e0 e1 e8 en = ground arith

pub dispatch_frame-take :
    (cb : Bool) (m : ℕ) (l : List ℕ)
    → expected_for_header (byte l 0) ≡ m
    → 0 < m
    → frame_is_valid l ≡ true
    → dispatch_frame cb (take m l) ≡ dispatch_frame cb l
dispatch_frame-take cb m l e z h =
    let hl = header_lengths (byte l 0) (omega arith) in
    dispatch_frame_same cb l (take m l) (get_or-take m l 0 0 z)
      (get_or-take m l 1 0 (omega (arith, hl.0)))
      (λ c. take-drop-take 8 1 m l (omega (arith, hl.1 c)))
      (λ c. take-drop-take (byte l 1) 2 m l (omega (arith, hl.2 c, name_fits l h c)))

-- Shifting by less than is held keeps the rest, unless no frame can start there.
pub content-shift_rx_buf :
    (p : Parser) (n : ℕ)
    → 0 < n
    → p.len ≤ length p.buf
    → p.len ≤ 24
    → (content (shift_rx_buf p n) ≡ []) ⊎ (content (shift_rx_buf p n) ≡ drop n (content p))
content-shift_rx_buf p n z h k = elim (Bool-cases (leb p.len n)) [
  | inl all ↦ inl (unfold shift_rx_buf in rw all)
  | inr part ↦
      let len : ℕ = p.len - n in
      let moved = take-shift_from p.buf n len z (ground arith) in
      elim (Bool-cases (expected_for_header (byte (shift_from p.buf n 0 (sub8 p.len n)) 0) == 0)) [
        | inl odd ↦ inl (unfold shift_rx_buf in rw (part, odd))
        | inr known ↦ inr (
            unfold shift_rx_buf in
            let e : sub8 p.len n ≡ len = ground arith in
            rw (part, known, e) (moved ∙ sym (drop-take n p.len p.buf)))
      ]
]
