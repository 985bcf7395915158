-- ===== src/RfTask/Bond/Corruption.antt =====
-- The checksum of the bond record of firmware/src/rf_task.c.
use open_controller.Prelude.{
  ℕ, zero, suc, ◌+◌, ◌*◌, ◌^◌, ◌≤◌, ◌<◌, ◌≡◌, ◌≢◌, refl, sym, ap, ◌∙◌, true, false, List, [], ◌∷◌,
  ◌==◌, ltb, if◌then◌else◌, get_or, set, length, get_or-set_self, get_or-set_ne, u32, inl, inr,
  Bool-cases, arith,
}
use open_controller.RfTask.Bond.{word, sum_bytes, bond_checksum, bond_record_valid}

abbrev pub AreBytes : List ℕ → Type 0
AreBytes [] = Unit {0}
AreBytes (b ∷ bytes) = (b < 2 ^ 8) × AreBytes bytes

-- The sum of so many bytes without wrap-around.
plain_sum : List ℕ → ℕ → ℕ
plain_sum bytes zero = 0
plain_sum [] (suc n) = 0
plain_sum (b ∷ bytes) (suc n) = b + plain_sum bytes n

sum_bytes-plain :
    (sum : ℕ) (bytes : List ℕ) (n : ℕ)
    → AreBytes bytes
    → sum + 2 ^ 8 * n < 2 ^ 32
    → sum_bytes sum bytes n ≡ sum + plain_sum bytes n
unfolding sum_bytes plain_sum
sum_bytes-plain sum bytes zero v h = omega arith
sum_bytes-plain sum [] (suc n) v h = omega arith
sum_bytes-plain sum (b ∷ bytes) (suc n) (k, v) h =
    let e : u32 (sum + b) ≡ sum + b = omega arith in
    rw e (omega (arith, sum_bytes-plain (sum + b) bytes n v (omega arith)))

plain_sum-set :
    (bytes : List ℕ) (i b n : ℕ)
    → i < n
    → i < length bytes
    → plain_sum (set bytes i b) n + get_or bytes i 0 ≡ plain_sum bytes n + b
unfolding plain_sum
plain_sum-set bytes i b zero h k = absurd (omega arith)
plain_sum-set [] i b (suc n) h k = absurd (omega arith)
plain_sum-set (x ∷ bytes) zero b (suc n) h k = omega arith
plain_sum-set (x ∷ bytes) (suc i) b (suc n) h k =
    omega (arith, plain_sum-set bytes i b n (omega arith) (omega arith))

plain_sum-set_out :
    (bytes : List ℕ) (i b n : ℕ) → n ≤ i → plain_sum (set bytes i b) n ≡ plain_sum bytes n
unfolding plain_sum
plain_sum-set_out bytes i b zero h = refl
plain_sum-set_out [] i b (suc n) h = refl
plain_sum-set_out (x ∷ bytes) zero b (suc n) h = absurd (omega arith)
plain_sum-set_out (x ∷ bytes) (suc i) b (suc n) h =
    ap (λ s. x + s) (plain_sum-set_out bytes i b n (omega arith))

AreBytes-set : (bytes : List ℕ) (i b : ℕ) → AreBytes bytes → b < 2 ^ 8 → AreBytes (set bytes i b)
AreBytes-set [] i b v h = tt
AreBytes-set (x ∷ bytes) zero b (k, v) h = (h, v)
AreBytes-set (x ∷ bytes) (suc i) b (k, v) h = (k, AreBytes-set bytes i b v h)

checksum_of_valid :
    (bytes : List ℕ) → bond_record_valid bytes ≡ true → word bytes 20 ≡ bond_checksum bytes
unfolding bond_record_valid
checksum_of_valid bytes h = ground arith

get_or-set :
    (bytes : List ℕ) (i j b : ℕ)
    → i < length bytes
    → get_or (set bytes i b) j 0 ≡ (if i == j then b else get_or bytes j 0)
get_or-set bytes i j b l = elim (Bool-cases (i == j)) [
  | inl e ↦
      let k : i ≡ j = ground arith in
      rw e (ap (λ n. get_or (set bytes i b) n 0) (sym k) ∙ get_or-set_self bytes i b 0 l)
  | inr e ↦ rw e (get_or-set_ne bytes i j b 0 (λ k. ground arith))
]

-- A byte that is changed in the checksum's own word changes that word.
word-set :
    (bytes : List ℕ) (i b : ℕ)
    → 20 ≤ i
    → i < 24
    → i < length bytes
    → word (set bytes i b) 20 ≡ word bytes 20
    → b ≡ get_or bytes i 0
word-set bytes i b h k l e = ground (
  arith,
  get_or-set bytes i 20 b l,
  get_or-set bytes i 21 b l,
  get_or-set bytes i 22 b l,
  get_or-set bytes i 23 b l,
  e,
)

-- A record that is accepted is not accepted with any one of its bytes changed.
pub one_byte_detected :
    (bytes : List ℕ) (i b : ℕ)
    → AreBytes bytes
    → length bytes ≡ 24
    → i < 24
    → b < 2 ^ 8
    → bond_record_valid bytes ≡ true
    → b ≢ get_or bytes i 0
    → bond_record_valid (set bytes i b) ≡ false
one_byte_detected bytes i b v l h k ok ne = elim (Bool-cases (bond_record_valid (set bytes i b))) [
  | inr e ↦ e
  | inl e ↦
      let old = checksum_of_valid bytes ok in
      let new = checksum_of_valid (set bytes i b) e in
      let p = sum_bytes-plain 0 bytes 20 v (omega arith) in
      let q = sum_bytes-plain 0 (set bytes i b) 20 (AreBytes-set bytes i b v k) (omega arith) in
      elim (Bool-cases (ltb i 20)) [
        | inl lt ↦
            let far = λ (j : ℕ) (f : i ≢ j). get_or-set_ne bytes i j b 0 f in
            let g : i < 20 = ground arith in
            absurd (
              ne (
                omega (
                  arith,
                  old,
                  new,
                  p,
                  q,
                  plain_sum-set bytes i b 20 g (omega arith),
                  far 20 (omega arith),
                  far 21 (omega arith),
                  far 22 (omega arith),
                  far 23 (omega arith),
                )))
        | inr ge ↦
            let g : 20 ≤ i = ground arith in
            absurd (
              ne (
                word-set bytes i b g h (omega arith)
                  (omega (arith, old, new, p, q, plain_sum-set_out bytes i b 20 g))))
      ]
]
