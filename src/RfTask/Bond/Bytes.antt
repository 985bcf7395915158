-- ===== src/RfTask/Bond/Bytes.antt =====
-- The bond record of firmware/src/rf_task.c as it lies in memory.
use open_controller.Prelude.{
  ℕ, zero, suc, ◌+◌, ◌*◌, ◌/◌, ◌^◌, ◌<◌, ◌≡◌, refl, ap₂, Bool, true, not, ◌&&◌, ◌==◌, List, [], ◌∷◌,
  get_or, take, drop, length, u8, u32, arith,
}
use open_controller.RfTask.Bond.{
  Bond, word, sum_bytes, bond_checksum, bond_magic, bond_version, default_access_addr,
  bond_record_valid, bond_fields, build_bond_record, record_matches,
}

-- A bond in the sizes of C's types.
pub record IsBond (b : Bond) : Type 0 where
  pub has : b.has_bond ≡ true
  pub mac_length : length b.dongle_mac ≡ 6
  pub tag_lt : b.type_tag < 2 ^ 8
  pub aa_lt : b.session_aa < 2 ^ 32

-- A session address that is neither zero nor that of pairing.
unfoldable pub is_session : ℕ → Bool
is_session aa = not (aa == 0) && not (aa == default_access_addr)

pub word-word_bytes :
    (w : ℕ)
    → w < 2 ^ 32
    → u8 w + 2 ^ 8 * u8 (w / 2 ^ 8) + 2 ^ 16 * u8 (w / 2 ^ 16) + 2 ^ 24 * u8 (w / 2 ^ 24) ≡ w
word-word_bytes w h = omega arith

pub sum_bytes-lt :
    (sum : ℕ) (bytes : List ℕ) (n : ℕ) → sum < 2 ^ 32 → sum_bytes sum bytes n < 2 ^ 32
unfolding sum_bytes
sum_bytes-lt sum bytes zero h = h
sum_bytes-lt sum [] (suc n) h = h
sum_bytes-lt sum (b ∷ bytes) (suc n) h = sum_bytes-lt (u32 (sum + b)) bytes n (omega arith)

-- Six bytes, one by one.
data Six : List ℕ → Type 0 where
  six : (a b c d e f : ℕ) → Six (a ∷ b ∷ c ∷ d ∷ e ∷ f ∷ [])

Six-of_length : (bytes : List ℕ) → length bytes ≡ 6 → Six bytes
Six-of_length [] h = absurd (omega arith)
Six-of_length (a ∷ []) h = absurd (omega arith)
Six-of_length (a ∷ b ∷ []) h = absurd (omega arith)
Six-of_length (a ∷ b ∷ c ∷ []) h = absurd (omega arith)
Six-of_length (a ∷ b ∷ c ∷ d ∷ []) h = absurd (omega arith)
Six-of_length (a ∷ b ∷ c ∷ d ∷ e ∷ []) h = absurd (omega arith)
Six-of_length (a ∷ b ∷ c ∷ d ∷ e ∷ f ∷ []) h = six a b c d e f
Six-of_length (a ∷ b ∷ c ∷ d ∷ e ∷ f ∷ g ∷ rest) h = absurd (omega arith)

-- What is read back from the record of a bond.
pub record Holds (bytes : List ℕ) (b : Bond) : Type 0 where
  pub magic : word bytes 0 ≡ bond_magic
  pub version : get_or bytes 4 0 ≡ bond_version
  pub tag : get_or bytes 5 0 ≡ b.type_tag
  pub aa : word bytes 8 ≡ b.session_aa
  pub mac : take 6 (drop 12 bytes) ≡ b.dongle_mac
  pub sum : word bytes 20 ≡ bond_checksum bytes
  pub size : length bytes ≡ 24

build-Six-Holds :
    (b : Bond) (bytes : List ℕ)
    → Six bytes
    → b.session_aa < 2 ^ 32
    → Holds (build_bond_record (record b { dongle_mac = bytes })) (record b { dongle_mac = bytes })
unfolding build_bond_record bond_fields sum_bytes
build-Six-Holds b bytes (six c d e f g h) k = record {
  magic = omega arith;
  version = refl;
  tag = refl;
  aa = word-word_bytes b.session_aa k;
  mac = refl;
  sum = word-word_bytes _ (
      sum_bytes-lt 0 (bond_fields (record b { dongle_mac = c ∷ d ∷ e ∷ f ∷ g ∷ h ∷ [] })) 20
        (omega arith));
  size = refl;
}

pub build-Holds : (b : Bond) → IsBond b → Holds (build_bond_record b) b
build-Holds b v = build-Six-Holds b b.dongle_mac (Six-of_length b.dongle_mac v.mac_length) v.aa_lt

-- A record is accepted if the session address in it is one.
pub Holds-valid :
    (bytes : List ℕ) (b : Bond) → Holds bytes b → bond_record_valid bytes ≡ is_session b.session_aa
unfolding bond_record_valid is_session
Holds-valid bytes b h =
    let m = h.magic in let n = h.version in let s = h.sum in let a = h.aa in ground arith

-- Records that match are the same bytes.
pub record_matches-eq :
    (xs ys : List ℕ) → length xs ≡ length ys → record_matches xs ys ≡ true → xs ≡ ys
unfolding record_matches
record_matches-eq [] [] l h = refl
record_matches-eq [] (y ∷ ys) l h = absurd (omega arith)
record_matches-eq (x ∷ xs) [] l h = absurd (omega arith)
record_matches-eq (x ∷ xs) (y ∷ ys) l h =
    let e : x ≡ y = ground arith in
    let k : record_matches xs ys ≡ true = ground arith in
    ap₂ ◌∷◌ e (record_matches-eq xs ys (omega arith) k)
