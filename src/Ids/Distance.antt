-- ===== src/Ids/Distance.antt =====
-- CompareDistance against the distance as a number.
use freens.Prelude.{
  ℕ, ◌+◌, ◌*◌, ◌^◌, ◌<◌, ◌≡◌, refl, bit_xor, compare, Ordering, [], ◌∷◌, Bytes, IsByte, All, length,
  arith, ◌↔◌, true,
}
use native.Mathlib.Nat.{pow-suc}
use freens.Ids.{id_len, check_id, compare_from, compare_distance}
use freens.Ids.Bits.{bit_xor-lt, bit_xor_cancel}

pub record IsId (x : Bytes) : Type 0 where
  pub len : length x ≡ id_len
  pub bytes : All IsByte x

-- A slice as a big-endian number.
abbrev pub be_value : Bytes → ℕ
be_value [] = 0
be_value (x ∷ xs) = x * 256 ^ length xs + be_value xs

abbrev pub xor_bytes : Bytes → Bytes → Bytes
xor_bytes (x ∷ xs) (y ∷ ys) = bit_xor x y ∷ xor_bytes xs ys
xor_bytes _ _ = []

-- The distance between two IDs: their exclusive or as a 256-bit number.
abbrev pub distance : Bytes → Bytes → ℕ
distance x y = be_value (xor_bytes x y)

length-xor_bytes : (x y : Bytes) → length x ≡ length y → length (xor_bytes x y) ≡ length x
length-xor_bytes [] y h = refl
length-xor_bytes (x ∷ xs) [] h = absurd (omega arith)
length-xor_bytes (x ∷ xs) (y ∷ ys) h = omega (arith, length-xor_bytes xs ys)

lex_lt : (x y p r s : ℕ) → x < y → r < p → x * p + r < y * p + s
lex_lt x y p r s h k = grind arith

be_value_step : (x p r : ℕ) → x < 256 → r < p → x * p + r < 256 * p
be_value_step x p r h k = grind arith

xor_bytes-bound :
    (x y : Bytes)
    → All IsByte x
    → All IsByte y
    → be_value (xor_bytes x y) < 256 ^ length (xor_bytes x y)
xor_bytes-bound [] y hx hy = omega arith
xor_bytes-bound (x ∷ xs) [] hx hy = omega arith
xor_bytes-bound (x ∷ xs) (y ∷ ys) (hx, hxs) (hy, hys) = omega (
  arith,
  be_value_step (bit_xor x y) (256 ^ length (xor_bytes xs ys)) (be_value (xor_bytes xs ys))
      (bit_xor-lt x y hx hy) (xor_bytes-bound xs ys hxs hys),
  pow-suc 256 (length (xor_bytes xs ys)),
)

pub compare_from-distance :
    (t a b : Bytes)
    → All IsByte t
    → All IsByte a
    → All IsByte b
    → length a ≡ length t
    → length b ≡ length t
    → compare_from t a b ≡ compare (distance t a) (distance t b)
unfolding compare_from
compare_from-distance [] a b ht ha hb la lb = refl
compare_from-distance (t ∷ ts) [] b ht ha hb la lb = absurd (omega arith)
compare_from-distance (t ∷ ts) (a ∷ as') [] ht ha hb la lb = absurd (omega arith)
compare_from-distance (t ∷ ts) (a ∷ as') (b ∷ bs) (ht, hts) (ha, has) (hb, hbs) la lb = ground (
  arith,
  compare_from-distance ts as' bs hts has hbs (omega arith) (omega arith),
  length-xor_bytes ts as' (omega arith),
  length-xor_bytes ts bs (omega arith),
  xor_bytes-bound ts as' hts has,
  xor_bytes-bound ts bs hts hbs,
  lex_lt (bit_xor t a) (bit_xor t b) (256 ^ length ts) (distance ts as') (distance ts bs),
  lex_lt (bit_xor t b) (bit_xor t a) (256 ^ length ts) (distance ts bs) (distance ts as'),
)

pub check_id-IsId : (x : Bytes) → IsId x → check_id x ≡ true
unfolding check_id
check_id-IsId x h = ground arith

-- For three well-formed IDs, CompareDistance compares the two distances as numbers.
pub compare_distance-distance :
    (t a b : Bytes)
    → IsId t
    → IsId a
    → IsId b
    → compare_distance t a b ≡ compare (distance t a) (distance t b)
unfolding compare_distance
compare_distance-distance t a b ht ha hb =
    rw (check_id-IsId t ht, check_id-IsId a ha, check_id-IsId b hb)
      (compare_from-distance t a b ht.bytes ha.bytes hb.bytes (omega arith) (omega arith))

compare_from-eq :
    (t a b : Bytes)
    → All IsByte t
    → All IsByte a
    → All IsByte b
    → length a ≡ length t
    → length b ≡ length t
    → compare_from t a b ≡ Ordering.eq
    → a ≡ b
unfolding compare_from
compare_from-eq [] [] [] ht ha hb la lb e = refl
compare_from-eq [] [] (b ∷ bs) ht ha hb la lb e = absurd (omega arith)
compare_from-eq [] (a ∷ as') b ht ha hb la lb e = absurd (omega arith)
compare_from-eq (t ∷ ts) [] b ht ha hb la lb e = absurd (omega arith)
compare_from-eq (t ∷ ts) (a ∷ as') [] ht ha hb la lb e = absurd (omega arith)
compare_from-eq (t ∷ ts) (a ∷ as') (b ∷ bs) (ht, hts) (ha, has) (hb, hbs) la lb e = ground (
  arith,
  bit_xor_cancel t a,
  bit_xor_cancel t b,
  compare_from-eq ts as' bs hts has hbs (omega arith) (omega arith),
)

compare_from_self : (t a : Bytes) → compare_from t a a ≡ Ordering.eq
unfolding compare_from
compare_from_self [] a = refl
compare_from_self (t ∷ ts) [] = refl
compare_from_self (t ∷ ts) (a ∷ as') = ground (arith, compare_from_self ts as')

-- Two well-formed IDs are equally far from a third exactly when they are the same ID.
pub compare_distance-eq_iff :
    (t a b : Bytes) → IsId t → IsId a → IsId b → (compare_distance t a b ≡ Ordering.eq) ↔ (a ≡ b)
unfolding compare_distance
compare_distance-eq_iff t a b ht ha hb =
    rw (check_id-IsId t ht, check_id-IsId a ha, check_id-IsId b hb)
      (
        compare_from-eq t a b ht.bytes ha.bytes hb.bytes (omega arith) (omega arith),
        λ e. rw e (compare_from_self t b),
      )
