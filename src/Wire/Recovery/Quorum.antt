-- ===== src/Wire/Recovery/Quorum.antt =====
-- The keys that VerifyRecovery counts.
use freens.Prelude.{
  ℕ, ◌≤◌, ◌≡◌, ◌↔◌, ◌⊎◌, inl, inr, refl, sym, ap, ◌∙◌, Bool, true, ◌||◌, not, ◌==◌, List, [], ◌∷◌,
  length, Bytes, bytes_eq, bytes_eq→eq, bytes_eq_refl, if◌then◌else◌, Bool-cases, arith, Member,
  Distinct, pigeonhole,
}
use mathlib.Core.Path.{subst}
use native.Mathlib.Nat.{le_trans}
use freens.Wire.Record.{key_len}
use freens.Wire.Recovery.{seen_key, count_keys}

pub seen_key-Member : (k : Bytes) (xs : List Bytes) → seen_key k xs ≡ true → Member k xs
unfolding seen_key
seen_key-Member k [] h = cc
seen_key-Member k (x ∷ xs) h = elim (Bool-cases (bytes_eq x k)) [
  | inl e ↦ inl (bytes_eq→eq x k e)
  | inr e ↦ inr (seen_key-Member k xs (ground arith))
]

pub Member-seen_key : (k : Bytes) (xs : List Bytes) → Member k xs → seen_key k xs ≡ true
unfolding seen_key
Member-seen_key k [] m = elim m [ ]
Member-seen_key k (x ∷ xs) (inl e) = ground (arith, ap (λ t. bytes_eq t k) e, bytes_eq_refl k)
Member-seen_key k (x ∷ xs) (inr m) = ground (arith, Member-seen_key k xs m)

-- The test of one round: a key of the right length that has not been counted.
abbrev skipped : Bytes → List Bytes → Bool
skipped k seen = not (length k == key_len) || seen_key k seen

module _ (good : Bytes → Bool) where
  abbrev pub Counted : List Bytes → Bytes → Type 0
  Counted keys k = Member k keys × (length k ≡ 32) × (good k ≡ true)

  count_keys-Distinct : (ks seen : List Bytes) → Distinct seen → Distinct (count_keys good ks seen)
  unfolding count_keys
  count_keys-Distinct [] seen d = d
  count_keys-Distinct (k ∷ ks) seen d = elim (Bool-cases (skipped k seen)) [
    | inl e ↦ rw e (count_keys-Distinct ks seen d)
    | inr e ↦ elim (Bool-cases (good k)) [
      | inl g ↦
          rw (e, g)
            (count_keys-Distinct ks (k ∷ seen) ((λ m. ground (arith, Member-seen_key k seen m)), d))
      | inr g ↦ rw (e, g) (count_keys-Distinct ks seen d)
    ]
  ]

  -- The keys counted after one round.
  abbrev next : Bytes → List Bytes → List Bytes
  next k seen = if skipped k seen then seen else (if good k then k ∷ seen else seen)

  next_sound :
      (j : Bytes) (seen : List Bytes) (k : Bytes)
      → Member k (next j seen)
      → Member k seen ⊎ ((j ≡ k) × (length k ≡ 32) × (good k ≡ true))
  next_sound j seen k m = elim (Bool-cases (skipped j seen)) [
    | inl e ↦ inl (rw e at m)
    | inr e ↦ elim (Bool-cases (good j)) [
      | inr g ↦ inl (rw (e, g) at m)
      | inl g ↦
          let m' : Member k (j ∷ seen) = rw (e, g) at m in
          let size : length j ≡ 32 = ground arith in
          elim m' [
            | inl q ↦ inr (q, ap (λ (t : Bytes). length t) (sym q) ∙ size, ap good (sym q) ∙ g)
            | inr q ↦ inl q
          ]
    ]
  ]

  next_complete :
      (k : Bytes) (seen : List Bytes) → length k ≡ 32 → good k ≡ true → Member k (next k seen)
  next_complete k seen size g = elim (Bool-cases (seen_key k seen)) [
    | inl old ↦ rw (size, old) (seen_key-Member k seen old)
    | inr new ↦ rw (size, new, g) (inl refl)
  ]

  count_keys_sound :
      (ks seen : List Bytes) (k : Bytes)
      → Member k (count_keys good ks seen)
      → Member k seen ⊎ Counted ks k
  unfolding count_keys
  count_keys_sound [] seen k m = inl m
  count_keys_sound (j ∷ ks) seen k m = elim (count_keys_sound ks (next j seen) k m) [
    | inl before ↦ elim (next_sound j seen k before) [
      | inl old ↦ inl old
      | inr (e, size, g) ↦ inr (inl e, size, g)
    ]
    | inr (later, size, g) ↦ inr (inr later, size, g)
  ]

  count_keys-keeps :
      (ks seen : List Bytes) (k : Bytes) → Member k seen → Member k (count_keys good ks seen)
  unfolding count_keys
  count_keys-keeps [] seen k m = m
  count_keys-keeps (j ∷ ks) seen k m = elim (Bool-cases (skipped j seen)) [
    | inl e ↦ rw e (count_keys-keeps ks seen k m)
    | inr e ↦ elim (Bool-cases (good j)) [
      | inl g ↦ rw (e, g) (count_keys-keeps ks (j ∷ seen) k (inr m))
      | inr g ↦ rw (e, g) (count_keys-keeps ks seen k m)
    ]
  ]

  count_keys_complete :
      (ks seen : List Bytes) (k : Bytes) → Counted ks k → Member k (count_keys good ks seen)
  unfolding count_keys
  count_keys_complete [] seen k c = elim c.0 [ ]
  count_keys_complete (j ∷ ks) seen k (inr m, size, g) = count_keys_complete ks _ k (m, size, g)
  count_keys_complete (j ∷ ks) seen k (inl e, size, g) =
      count_keys-keeps ks (next j seen) k
        (subst (λ t. Member k (next t seen)) (sym e) (next_complete k seen size g))

  -- Enough keys are counted exactly when that many distinct keys of the list pass the test.
  pub count_keys_iff :
      (n : ℕ) (keys : List Bytes)
      → (n ≤ length (count_keys good keys [])) ↔ (
          (ks : List Bytes) × Distinct ks
          × ((k : Bytes) → Member k ks → Counted keys k)
          × (n ≤ length ks))
  count_keys_iff n keys = (
    λ h. (
      count_keys good keys [],
      count_keys-Distinct keys [] tt,
      λ k m. elim (count_keys_sound keys [] k m) [ inl old ↦ absurd old | inr c ↦ c ],
      h,
    ),
    λ found. le_trans found.3 (
        pigeonhole found.0 (count_keys good keys []) found.1
          (λ k m. count_keys_complete keys [] k (found.2 k m))),
  )
