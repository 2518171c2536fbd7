-- ===== src/Naming/Labels/Normal.antt =====
-- Labels and aliases that pass checkLDH are fixed by the normalization that precedes it.
use mathlib.Core.List.{reverse-reverse}
use freens.Prelude.{
  ℕ, ◌<◌, ◌≡◌, All, All-reverse, refl, Bool, true, false, [], ◌∷◌, reverse, map, Bytes, ok, arith,
  inl, inr, Option-cases,
}
use freens.Naming.Text.{Unicode, is_ascii, is_space, trim_left, trim_space, to_lower, lower}
use freens.Naming.Labels.{Normalizer, all_ldh, check_ldh, normalize, validate_alias, validate_label}

-- Neither white space nor outside ASCII.
abbrev pub IsTight : ℕ → Type 0
IsTight c = (c < 0x80) × (is_space c ≡ false)

pub IsTight-all_ldh : (s : Bytes) → all_ldh s ≡ true → All IsTight s
unfolding all_ldh
IsTight-all_ldh [] h = tt
IsTight-all_ldh (c ∷ s) h = (ground arith, IsTight-all_ldh s (ground arith))

is_ascii-tight : (s : Bytes) → All IsTight s → is_ascii s ≡ true
unfolding is_ascii
is_ascii-tight [] h = refl
is_ascii-tight (c ∷ s) h = ground (arith, is_ascii-tight s)

trim_left-tight : (s : Bytes) → All IsTight s → trim_left s ≡ s
unfolding trim_left
trim_left-tight [] h = refl
trim_left-tight (c ∷ s) h = ground arith

lower-all_ldh : (s : Bytes) → all_ldh s ≡ true → map lower s ≡ s
unfolding all_ldh
lower-all_ldh [] h = refl
lower-all_ldh (c ∷ s) h = ground (arith, lower-all_ldh s)

module _ (u : Unicode) where
  pub trim_space-tight : (s : Bytes) → All IsTight s → trim_space u s ≡ s
  unfolding trim_space
  trim_space-tight s h =
      rw
        (
          is_ascii-tight s h,
          trim_left-tight s h,
          trim_left-tight (reverse s) (All-reverse IsTight s h),
        )
        (reverse-reverse s)

  pub to_lower-all_ldh : (s : Bytes) → all_ldh s ≡ true → to_lower u s ≡ s
  unfolding to_lower
  to_lower-all_ldh s h = rw (is_ascii-tight s (IsTight-all_ldh s h)) (lower-all_ldh s h)

-- What a passed check says.
pub check_ldh-all_ldh : (s : Bytes) (n : Bool) → check_ldh s n ≡ ok tt → all_ldh s ≡ true
unfolding check_ldh
check_ldh-all_ldh s n h = ground arith

pub check_ldh_weaken : (s : Bytes) → check_ldh s false ≡ ok tt → check_ldh s true ≡ ok tt
unfolding check_ldh
check_ldh_weaken s h = ground arith

module _ (u : Unicode) where
  pub validate_label_fixed : (t : Bytes) → check_ldh t true ≡ ok tt → validate_label u t ≡ ok t
  unfolding validate_label
  validate_label_fixed t h =
      let l = check_ldh-all_ldh t true h in
      rw (trim_space-tight u t (IsTight-all_ldh t l), to_lower-all_ldh u t l, h)

  pub validate_label-check : (s t : Bytes) → validate_label u s ≡ ok t → check_ldh t true ≡ ok tt
  unfolding validate_label
  validate_label-check s t h = ground arith

  module _ (idna : Normalizer) where
    pub normalize_ascii : (s : Bytes) → is_ascii s ≡ true → normalize idna s ≡ ok s
    unfolding normalize
    normalize_ascii s h = elim (Option-cases idna) [
      | inl e ↦ rw (e, normalize)
      | inr (f, e) ↦ rw (e, normalize, h)
    ]

    pub validate_alias_fixed :
        (t : Bytes) → check_ldh t false ≡ ok tt → validate_alias u idna t ≡ ok t
    unfolding validate_alias
    validate_alias_fixed t h =
        let l = check_ldh-all_ldh t false h in
        rw (
          trim_space-tight u t (IsTight-all_ldh t l),
          normalize_ascii t (is_ascii-tight t (IsTight-all_ldh t l)),
          to_lower-all_ldh u t l,
          h,
        )

    pub validate_alias-check :
        (s t : Bytes) → validate_alias u idna s ≡ ok t → check_ldh t false ≡ ok tt
    unfolding validate_alias
    validate_alias-check s t h = ground arith
