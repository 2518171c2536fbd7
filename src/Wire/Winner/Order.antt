-- ===== src/Wire/Winner/Order.antt =====
-- EnvelopeWins is a strict order on envelopes with hashes, total up to sequence and hash.
use freens.Prelude.{
  ◌≡◌, ◌⊎◌, refl, true, false, [], ◌∷◌, Bytes, bytes_compare, some, Ordering, arith,
}
use freens.Wire.Record.{Envelope, Platform, record_hash}
use freens.Wire.Winner.{envelope_wins}

abbrev flip : Ordering → Ordering
flip Ordering.lt = Ordering.gt
flip Ordering.eq = Ordering.eq
flip Ordering.gt = Ordering.lt

pub bytes_compare-flip : (xs ys : Bytes) → bytes_compare ys xs ≡ flip (bytes_compare xs ys)
unfolding bytes_compare
bytes_compare-flip [] [] = refl
bytes_compare-flip [] (y ∷ ys) = refl
bytes_compare-flip (x ∷ xs) [] = refl
bytes_compare-flip (x ∷ xs) (y ∷ ys) = ground (arith, bytes_compare-flip xs ys)

pub bytes_compare-eq : (xs ys : Bytes) → bytes_compare xs ys ≡ Ordering.eq → xs ≡ ys
unfolding bytes_compare
bytes_compare-eq [] [] h = refl
bytes_compare-eq [] (y ∷ ys) h = cc
bytes_compare-eq (x ∷ xs) [] h = cc
bytes_compare-eq (x ∷ xs) (y ∷ ys) h = ground (arith, bytes_compare-eq xs ys)

pub bytes_compare_trans :
    (xs ys zs : Bytes)
    → bytes_compare xs ys ≡ Ordering.gt
    → bytes_compare ys zs ≡ Ordering.gt
    → bytes_compare xs zs ≡ Ordering.gt
unfolding bytes_compare
bytes_compare_trans [] [] zs h k = cc
bytes_compare_trans [] (y ∷ ys) zs h k = cc
bytes_compare_trans (x ∷ xs) [] [] h k = refl
bytes_compare_trans (x ∷ xs) [] (z ∷ zs) h k = cc
bytes_compare_trans (x ∷ xs) (y ∷ ys) [] h k = refl
bytes_compare_trans (x ∷ xs) (y ∷ ys) (z ∷ zs) h k = ground (arith, bytes_compare_trans xs ys zs)

module _ (p : Platform) (a b : Envelope) (ha hb : Bytes) (hash_a : record_hash p a ≡ some ha)
    (hash_b : record_hash p b ≡ some hb) where
  -- Of two envelopes whose hashes are known, exactly one wins over the other, or neither does and
  -- they have the same sequence and the same hash.
  pub envelope_wins_trichotomy :
      ((envelope_wins p (some a) (some b) ≡ true) × (envelope_wins p (some b) (some a) ≡ false))
      ⊎ (((envelope_wins p (some a) (some b) ≡ false) × (envelope_wins p (some b) (some a) ≡ true))
          ⊎ ((envelope_wins p (some a) (some b) ≡ false)
              × (envelope_wins p (some b) (some a) ≡ false)
              × (a.body.sequence ≡ b.body.sequence)
              × (ha ≡ hb)))
  unfolding envelope_wins
  envelope_wins_trichotomy =
      ground (arith, hash_a, hash_b, bytes_compare-flip ha hb, bytes_compare-eq ha hb)

  -- Winning is transitive on envelopes whose hashes are known.
  pub envelope_wins_trans :
      (c : Envelope) (hc : Bytes)
      → record_hash p c ≡ some hc
      → envelope_wins p (some a) (some b) ≡ true
      → envelope_wins p (some b) (some c) ≡ true
      → envelope_wins p (some a) (some c) ≡ true
  unfolding envelope_wins
  envelope_wins_trans c hc hash_c ab bc =
      ground (arith, hash_a, hash_b, hash_c, bytes_compare_trans ha hb hc)
