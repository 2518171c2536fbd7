-- ===== src/Naming/Labels/Grammar.antt =====
-- checkLDH against a grammar of labels.
use freens.Prelude.{
  ℕ, ◌≤◌, ◌≡◌, ◌≢◌, ◌↔◌, ◌⊎◌, inl, inr, refl, true, false, ◌==◌, [], ◌∷◌, ◌++◌, All, length, Bytes,
  ok, arith, Bool-cases, ap, ==_refl,
}
use freens.Naming.Text.{Unicode, has_prefix, has_suffix, all_digits, is_all_digits}
use freens.Naming.Labels.{Normalizer, all_ldh, check_ldh, validate_alias, validate_label}
use freens.Naming.Labels.Normal.{
  validate_label_fixed, validate_label-check, validate_alias_fixed, validate_alias-check,
}

-- A lower-case letter, a digit or a hyphen.
abbrev pub IsLdhChar : ℕ → Type 0
IsLdhChar c = ((b'a' ≤ c) × (c ≤ b'z')) ⊎ (((b'0' ≤ c) × (c ≤ b'9')) ⊎ (c ≡ b'-'))

-- 1 to 63 such characters, with no hyphen at either end.
pub record IsLabel (s : Bytes) : Type 0 where
  pub nonempty : 1 ≤ length s
  pub short : length s ≤ 63
  pub chars : All IsLdhChar s
  pub first : (t : Bytes) → s ≢ b'-' ∷ t
  pub last : (t : Bytes) → s ≢ t ++ (b'-' ∷ [])

-- A label that is not a number.
abbrev pub IsAlias : Bytes → Type 0
IsAlias s = IsLabel s × (¬ All (λ c. (b'0' ≤ c) × (c ≤ b'9')) s)

chars-all_ldh : (s : Bytes) → all_ldh s ≡ true → All IsLdhChar s
unfolding all_ldh
chars-all_ldh [] h = tt
chars-all_ldh (c ∷ s) h = (ground arith, chars-all_ldh s (ground arith))

all_ldh-chars : (s : Bytes) → All IsLdhChar s → all_ldh s ≡ true
unfolding all_ldh
all_ldh-chars [] h = refl
all_ldh-chars (c ∷ s) (h, hs) = ground (arith, all_ldh-chars s hs)

has_prefix_iff : (c : ℕ) (s : Bytes) → has_prefix c s ≡ false → (t : Bytes) → s ≢ c ∷ t
unfolding has_prefix
has_prefix_iff c [] h t e = cc
has_prefix_iff c (x ∷ s) h t e = ground arith

has_suffix_end : (c : ℕ) (t : Bytes) → has_suffix c (t ++ (c ∷ [])) ≡ true
unfolding has_suffix
has_suffix_end c [] = ==_refl c
has_suffix_end c (x ∷ []) = ==_refl c
has_suffix_end c (x ∷ y ∷ t) = has_suffix_end c (y ∷ t)

has_suffix_split : (c : ℕ) (s : Bytes) → has_suffix c s ≡ true → (t : Bytes) × (s ≡ t ++ (c ∷ []))
unfolding has_suffix
has_suffix_split c [] h = cc
has_suffix_split c (x ∷ []) h = ([], ground arith)
has_suffix_split c (x ∷ y ∷ s) h =
    let (t, e) = has_suffix_split c (y ∷ s) h in (x ∷ t, ap (◌∷◌ x) e)

pub check_ldh-IsLabel : (s : Bytes) → check_ldh s true ≡ ok tt → IsLabel s
unfolding check_ldh
check_ldh-IsLabel s h = record {
  nonempty = ground arith;
  short = ground arith;
  chars = chars-all_ldh s (ground arith);
  first = has_prefix_iff b'-' s (ground arith);
  last = λ t e. ground (arith, ap (has_suffix b'-') e, has_suffix_end b'-' t);
}

no_prefix : (c : ℕ) (s : Bytes) → ((t : Bytes) → s ≢ c ∷ t) → has_prefix c s ≡ false
unfolding has_prefix
no_prefix c [] h = refl
no_prefix c (x ∷ s) h = elim (Bool-cases (x == c)) [
  | inl e ↦ absurd (h s (ground arith))
  | inr e ↦ e
]

no_suffix : (c : ℕ) (s : Bytes) → ((t : Bytes) → s ≢ t ++ (c ∷ [])) → has_suffix c s ≡ false
no_suffix c s h = elim (Bool-cases (has_suffix c s)) [
  | inl e ↦ let (t, q) = has_suffix_split c s e in absurd (h t q)
  | inr e ↦ e
]

pub IsLabel-check_ldh : (s : Bytes) → IsLabel s → check_ldh s true ≡ ok tt
unfolding check_ldh
IsLabel-check_ldh s h = ground (
  arith,
  h.nonempty,
  h.short,
  all_ldh-chars s h.chars,
  no_prefix b'-' s h.first,
  no_suffix b'-' s h.last,
)

digits-all_digits : (s : Bytes) → All (λ c. (b'0' ≤ c) × (c ≤ b'9')) s → all_digits s ≡ true
unfolding all_digits
digits-all_digits [] h = refl
digits-all_digits (c ∷ s) (h, hs) = ground (arith, digits-all_digits s hs)

all_digits-digits : (s : Bytes) → all_digits s ≡ true → All (λ c. (b'0' ≤ c) × (c ≤ b'9')) s
unfolding all_digits
all_digits-digits [] h = tt
all_digits-digits (c ∷ s) h = (ground arith, all_digits-digits s (ground arith))

is_all_digits-all_digits : (s : Bytes) → 1 ≤ length s → is_all_digits s ≡ all_digits s
unfolding is_all_digits
is_all_digits-all_digits [] h = absurd (omega arith)
is_all_digits-all_digits (c ∷ s) h = refl

pub check_ldh-IsAlias : (s : Bytes) → check_ldh s false ≡ ok tt → IsAlias s
unfolding check_ldh
check_ldh-IsAlias s h =
    let label = check_ldh-IsLabel s (ground arith) in
    (label, λ d. ground (arith, digits-all_digits s d, is_all_digits-all_digits s label.nonempty))

pub IsAlias-check_ldh : (s : Bytes) → IsAlias s → check_ldh s false ≡ ok tt
IsAlias-check_ldh s (label, h) = elim (Bool-cases (all_digits s)) [
  | inl e ↦ absurd (h (all_digits-digits s e))
  | inr e ↦
      let passed = IsLabel-check_ldh s label in
      let digits = is_all_digits-all_digits s label.nonempty in unfold check_ldh in ground arith
]

module _ (u : Unicode) where
  -- A text is a label of the grammar exactly when ValidateLabel returns it unchanged.
  pub IsLabel-iff-validate_label : (t : Bytes) → IsLabel t ↔ (validate_label u t ≡ ok t)
  IsLabel-iff-validate_label t = (
    λ l. validate_label_fixed u t (IsLabel-check_ldh t l),
    λ h. check_ldh-IsLabel t (validate_label-check u t t h),
  )

  -- What ValidateLabel returns is a label of the grammar, and validating it again changes nothing.
  pub validate_label-IsLabel :
      (s t : Bytes) → validate_label u s ≡ ok t → IsLabel t × (validate_label u t ≡ ok t)
  validate_label-IsLabel s t h =
      let passed = validate_label-check u s t h in
      (check_ldh-IsLabel t passed, validate_label_fixed u t passed)

  -- Whatever the normalizer of non-ASCII text does, what ValidateAlias returns is a label of the
  -- grammar that is not a number, and validating it again changes nothing.
  pub validate_alias-IsAlias :
      (idna : Normalizer) (s t : Bytes)
      → validate_alias u idna s ≡ ok t
      → IsAlias t × (validate_alias u idna t ≡ ok t)
  validate_alias-IsAlias idna s t h =
      let passed = validate_alias-check u idna s t h in
      (check_ldh-IsAlias t passed, validate_alias_fixed u idna t passed)
