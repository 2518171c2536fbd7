-- ===== src/Claims/Pow/Value.antt =====
-- The difficulty test against the digest as a number.
use native.Mathlib.Nat.{mul-le-mul_right}
use native.Mathlib.Numerals.{towards_suc}
use freens.Prelude.{
  ℕ, ◌+◌, ◌-◌, ◌*◌, ◌^◌, ◌≤◌, ◌<◌, ◌≡◌, ◌↔◌, refl, ap, sym, ◌∙◌, ==→eq, Bool, true, false, leb, ltb,
  ◌==◌, [], ◌∷◌, zero, suc, ltb→lt, leb→le, Bytes, IsByte, All, length, ℤ, arith, Bool-cases, inl,
  inr, if◌then◌else◌,
}
use freens.Ids.{bit_len_u8}
use freens.Ids.Bits.{every, every_elim}
use freens.Ids.Distance.{be_value}
use freens.Claims.Pow.{leading_zero_bits, meets_difficulty}

abbrev zeros_test : ℕ → ℕ → Bool
zeros_test b n =
    if b == 0
    then true
    else (if leb n (8 - bit_len_u8 b) then leb ((b + 1) * 2 ^ n) 256 else leb 256 (b * 2 ^ n))

zeros_table : every (λ b. every (zeros_test b) 9) 256 ≡ true
unfolding every bit_len_u8
zeros_table = refl

zeros_tested : (b n : ℕ) → b < 256 → n < 9 → zeros_test b n ≡ true
zeros_tested b n hb hn =
    every_elim (zeros_test b) 9 n hn (every_elim (λ x. every (zeros_test x) 9) 256 b hb zeros_table)

be_value-bound : (x : Bytes) → All IsByte x → be_value x < 256 ^ length x
be_value-bound [] h = omega arith
be_value-bound (b ∷ bs) (hb, hbs) = grind (arith, be_value-bound bs hbs)

pow_pos : (n : ℕ) → 0 < 2 ^ n
pow_pos zero = omega arith
pow_pos (suc n) = omega (arith, pow_pos n)

pow_byte : (m : ℕ) → 2 ^ (m + 8) ≡ 256 * 2 ^ m
pow_byte m = simp towards_suc (omega arith)

fits : (b q p v : ℕ) → (b + 1) * q ≤ 256 → v < p → 0 < q → (b * p + v) * q < 256 * p
fits b q p v h hv hq =
    let below : suc v ≤ p = hv in omega (arith, mul-le-mul_right p h, mul-le-mul_right q below)

exceeds : (b q p v : ℕ) → 256 ≤ b * q → ¬ ((b * p + v) * q < 256 * p)
exceeds b q p v h k = omega (arith, mul-le-mul_right p h, k)

large_byte : (b n : ℕ) → (b == 0) ≡ false → 8 ≤ n → 256 ≤ b * 2 ^ n
large_byte b n nz h =
    let m : ℕ = n - 8 in
    let split : m + 8 ≡ n = omega arith in
    let some_b : 1 ≤ b = ground arith in
    rw (← split) (rw (pow_byte m) (omega (arith, pow_pos m, mul-le-mul_right (256 * 2 ^ m) some_b)))

pow_table : every (λ m. leb (2 ^ m) 256) 9 ≡ true
unfolding every
pow_table = refl

-- The case of the induction for a byte that is not 0.
nonzero_byte :
    (b n p v : ℕ)
    → b < 256
    → (b == 0) ≡ false
    → v < p
    → (n ≤ 8 - bit_len_u8 b) ↔ ((b * p + v) * 2 ^ n < 256 * p)
nonzero_byte b n p v hb nz hv = elim (Bool-cases (ltb n 9)) [
  | inl small ↦
      let tested = zeros_tested b n hb (ltb→lt n 9 small) in
      (
        λ k. fits b (2 ^ n) p v (ground arith) hv (pow_pos n),
        λ k. elim (Bool-cases (leb n (8 - bit_len_u8 b))) [
          | inl le ↦ leb→le _ _ le
          | inr gt ↦ absurd (exceeds b (2 ^ n) p v (ground arith) k)
        ],
      )
  | inr large ↦ (
    λ k. absurd (ground arith),
    λ k. absurd (exceeds b (2 ^ n) p v (large_byte b n nz (ground arith)) k),
  )
]

pow_le_byte : (n : ℕ) → n < 9 → 2 ^ n ≤ 256
pow_le_byte n h = leb→le _ _ (every_elim (λ m. leb (2 ^ m) 256) 9 n h pow_table)

-- The case for a byte that is 0, from that for the bits that are left after its eight.
zero_byte :
    (b n z p v : ℕ)
    → b ≡ 0
    → v < p
    → ((m : ℕ) → m + 8 ≡ n → (m ≤ z) ↔ (v * 2 ^ m < p))
    → (n ≤ 8 + z) ↔ ((b * p + v) * 2 ^ n < 256 * p)
zero_byte b n z p v hb hv rest = elim (Bool-cases (ltb n 9)) [
  | inl small ↦
      let le = pow_le_byte n (ltb→lt n 9 small) in
      (λ k. rw hb (fits 0 (2 ^ n) p v (omega (arith, le)) hv (pow_pos n)), λ k. ground arith)
  | inr large ↦
      let m : ℕ = n - 8 in
      let split : m + 8 ≡ n = ground arith in
      let scaled = ap (λ t. v * t) (ap (λ (t : ℕ). 2 ^ t) (sym split) ∙ pow_byte m) in
      let product : (b * p + v) * 2 ^ n ≡ 256 * (v * 2 ^ m) = rw hb (omega (arith, scaled)) in
      let fact = rest m split in
      (
        λ k. let below = fact.0 (omega (arith, k, split)) in omega (arith, product, below),
        λ k. let some_bits = fact.1 (omega (arith, product, k)) in omega (arith, split, some_bits),
      )
]

pow_step : (k : ℕ) → 256 ^ suc k ≡ 256 * 256 ^ k
pow_step k = omega arith

pub leading_zero_bits_iff :
    (x : Bytes) (n : ℕ)
    → All IsByte x
    → n ≤ 8 * length x
    → (n ≤ leading_zero_bits x) ↔ (be_value x * 2 ^ n < 256 ^ length x)
unfolding leading_zero_bits
leading_zero_bits_iff [] n h le = ((λ k. omega arith), (λ k. omega arith))
leading_zero_bits_iff (b ∷ bs) n (hb, hbs) le = elim (Bool-cases (b == 0)) [
  | inr nz ↦
      rw (nz, leading_zero_bits)
        (rw (pow_step (length bs))
          (nonzero_byte b n (256 ^ length bs) (be_value bs) hb nz (be_value-bound bs hbs)))
  | inl z ↦
      rw (z, leading_zero_bits)
        (rw (pow_step (length bs)) (
          zero_byte b n (leading_zero_bits bs) (256 ^ length bs) (be_value bs) (==→eq b 0 z)
            (be_value-bound bs hbs) (λ m e. leading_zero_bits_iff bs m hbs (omega arith))))
]

-- A digest of 32 bytes meets a difficulty of at most 256 bits exactly when it is, as a number, below
-- 2 to the power of 256 less the difficulty.
pub meets_difficulty_iff :
    (x : Bytes) (n : ℕ)
    → All IsByte x
    → length x ≡ 32
    → n ≤ 256
    → (meets_difficulty x (ℤ.pos n) ≡ true) ↔ (be_value x * 2 ^ n < 2 ^ 256)
unfolding meets_difficulty
meets_difficulty_iff x n h size le =
    let iff = leading_zero_bits_iff x n h (omega arith) in
    let full : 256 ^ length x ≡ 2 ^ 256 = ap (λ (k : ℕ). 256 ^ k) size in
    (
      λ k. let lt = iff.0 (leb→le _ _ k) in omega (arith, lt, full),
      λ k. let enough = iff.1 (omega (arith, k, full)) in ground arith,
    )
