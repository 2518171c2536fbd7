-- ===== src/Ids/Prefix.antt =====
-- CommonPrefixLength against the bits of the IDs, and against CompareDistance.
use freens.Prelude.{
  ℕ, ◌+◌, ◌-◌, ◌≤◌, ◌<◌, ◌≡◌, ◌≢◌, refl, bit_xor, Ordering, List, [], ◌∷◌, ◌++◌, Bytes, IsByte, All,
  length, arith, some, ap, ◌∙◌, Bool-cases, ◌==◌, inl, inr, ==→eq,
}
use freens.Ids.{compare_from, compare_distance, bit_len_u8, prefix_from, common_prefix_length}
use freens.Ids.Bits.{
  byte_bits, shared_prefix, shared_prefix-byte_bits, bit_len_u8_mono, bit_len_u8-pos, bit_xor-lt,
  eq_of_bit_xor-zero, bit_xor_self,
}
use freens.Ids.Distance.{IsId, check_id-IsId}

-- The 256 bits of an ID, most significant first.
pub id_bits : Bytes → List ℕ
id_bits [] = []
id_bits (x ∷ xs) = byte_bits x ++ id_bits xs

shared_prefix_split :
    (p q r s : List ℕ)
    → length p ≡ length q
    → shared_prefix p q < length p
    → shared_prefix (p ++ r) (q ++ s) ≡ shared_prefix p q
unfolding shared_prefix
shared_prefix_split [] q r s l h = absurd (omega arith)
shared_prefix_split (x ∷ p) [] r s l h = absurd (omega arith)
shared_prefix_split (x ∷ p) (y ∷ q) r s l h = ground (arith, shared_prefix_split p q r s)

shared_prefix_same :
    (p r s : List ℕ) → shared_prefix (p ++ r) (p ++ s) ≡ length p + shared_prefix r s
unfolding shared_prefix
shared_prefix_same [] r s = omega arith
shared_prefix_same (x ∷ p) r s = ground (arith, shared_prefix_same p r s)

differing_byte :
    (x y : ℕ) (r s : List ℕ)
    → x < 256
    → y < 256
    → bit_xor x y ≢ 0
    → shared_prefix (byte_bits x ++ r) (byte_bits y ++ s) ≡ 8 - bit_len_u8 (bit_xor x y)
differing_byte x y r s hx hy ne =
    let table = shared_prefix-byte_bits x y hx hy (λ e. ne (rw e (bit_xor_self y hy))) in
    shared_prefix_split (byte_bits x) (byte_bits y) r s refl
      (omega (arith, table, bit_len_u8-pos (bit_xor x y) ne (bit_xor-lt x y hx hy)))
    ∙ table

prefix_from-shared_prefix :
    (a b : Bytes) (shared : ℕ)
    → All IsByte a
    → All IsByte b
    → length a ≡ length b
    → prefix_from a b shared ≡ shared + shared_prefix (id_bits a) (id_bits b)
unfolding prefix_from id_bits
prefix_from-shared_prefix [] [] shared ha hb l = unfold shared_prefix in omega arith
prefix_from-shared_prefix [] (b ∷ bs) shared ha hb l = absurd (omega arith)
prefix_from-shared_prefix (a ∷ as') [] shared ha hb l = absurd (omega arith)
prefix_from-shared_prefix (a ∷ as') (b ∷ bs) shared (ha, has) (hb, hbs) l =
    elim (Bool-cases (bit_xor a b == 0)) [
      | inl same ↦ rw same (
          omega (
            arith,
            prefix_from-shared_prefix as' bs (shared + 8) has hbs (omega arith),
            ap (λ (t : ℕ). shared_prefix (byte_bits t ++ id_bits as') (byte_bits b ++ id_bits bs))
                (eq_of_bit_xor-zero a b ha hb (==→eq _ _ same)),
            shared_prefix_same (byte_bits b) (id_bits as') (id_bits bs),
          ))
      | inr differ ↦
          rw differ
            (omega (arith, differing_byte a b (id_bits as') (id_bits bs) ha hb (ground arith)))
    ]

-- For well-formed IDs, CommonPrefixLength is the number of leading bits that the two share.
pub common_prefix_length-shared_prefix :
    (a b : Bytes)
    → IsId a
    → IsId b
    → common_prefix_length a b ≡ some (shared_prefix (id_bits a) (id_bits b))
unfolding common_prefix_length
common_prefix_length-shared_prefix a b ha hb =
    rw (check_id-IsId a ha, check_id-IsId b hb)
      (ap some (prefix_from-shared_prefix a b 0 ha.bytes hb.bytes (omega arith) ∙ omega arith))

prefix_from-ge : (a b : Bytes) (shared : ℕ) → shared ≤ prefix_from a b shared
unfolding prefix_from
prefix_from-ge [] b shared = omega arith
prefix_from-ge (a ∷ as') [] shared = omega arith
prefix_from-ge (a ∷ as') (b ∷ bs) shared = ground (arith, prefix_from-ge as' bs (shared + 8))

longer_prefix :
    (t a b : Bytes) (shared : ℕ)
    → All IsByte t
    → All IsByte a
    → All IsByte b
    → length a ≡ length t
    → length b ≡ length t
    → prefix_from t b shared < prefix_from t a shared
    → compare_from t a b ≡ Ordering.lt
unfolding prefix_from compare_from
longer_prefix [] a b shared ht ha hb la lb h = absurd (omega arith)
longer_prefix (t ∷ ts) [] b shared ht ha hb la lb h = absurd (omega arith)
longer_prefix (t ∷ ts) (a ∷ as') [] shared ht ha hb la lb h = absurd (omega arith)
longer_prefix (t ∷ ts) (a ∷ as') (b ∷ bs) shared (ht, hts) (ha, has) (hb, hbs) la lb h = ground (
  arith,
  longer_prefix ts as' bs (shared + 8) hts has hbs (omega arith) (omega arith),
  prefix_from-ge ts bs (shared + 8),
  bit_xor-lt t a ht ha,
  bit_xor-lt t b ht hb,
  bit_len_u8-pos (bit_xor t a),
  bit_len_u8-pos (bit_xor t b),
  bit_len_u8_mono (bit_xor t b) (bit_xor t a),
)

-- Of two well-formed IDs, the one that shares more leading bits with the target (by
-- CommonPrefixLength) is the closer one (by CompareDistance).
pub common_prefix_length-compare_distance :
    (t a b : Bytes) (m n : ℕ)
    → IsId t
    → IsId a
    → IsId b
    → common_prefix_length t a ≡ some m
    → common_prefix_length t b ≡ some n
    → n < m
    → compare_distance t a b ≡ Ordering.lt
unfolding common_prefix_length compare_distance
common_prefix_length-compare_distance t a b m n ht ha hb ea eb h = ground (
  arith,
  check_id-IsId t ht,
  check_id-IsId a ha,
  check_id-IsId b hb,
  longer_prefix t a b 0 ht.bytes ha.bytes hb.bytes (omega arith) (omega arith),
)
