-- ===== src/Store/Maps.antt =====
-- What deletions and insertions do to the maps of the store (internal/dht/store.go).
use freens.Prelude.{
  none, ◌≡◌, refl, sym, ◌∙◌, ◌⊎◌, false, List, [], ◌∷◌, All, Bytes, bytes_eq, bytes_eq→eq,
  bytes_eq_refl, some, Bool-cases, inl, inr, Member, Distinct,
}
use mathlib.Core.Path.{subst}
use freens.Store.Entries.{lookup, delete}

differ : (j k : Bytes) → ¬ (j ≡ k) → bytes_eq k j ≡ false
differ j k ne = elim (Bool-cases (bytes_eq k j)) [
  | inl e ↦ absurd (ne (sym (bytes_eq→eq k j e)))
  | inr e ↦ e
]

module _ {V : Type 0} where
  abbrev pub keys : List (Bytes × V) → List Bytes
  keys [] = []
  keys ((k, v) ∷ m) = k ∷ keys m

  -- The map has the entries listed.
  abbrev pub Holds : List (Bytes × V) → List (Bytes × V) → Type 0
  Holds m [] = Unit
  Holds m ((k, v) ∷ xs) = (lookup k m ≡ some v) × Holds m xs

  pub Member-delete :
      (j k : Bytes) (m : List (Bytes × V)) → Member j (keys (delete k m)) → Member j (keys m)
  unfolding delete
  Member-delete j k [] h = h
  Member-delete j k ((i, v) ∷ m) h = elim (Bool-cases (bytes_eq i k)) [
    | inl e ↦ inr (rw e at h)
    | inr e ↦
        let m' : (i ≡ j) ⊎ Member j (keys (delete k m)) = rw e at h in
        elim m' [ inl same ↦ inl same | inr later ↦ inr (Member-delete j k m later) ]
  ]

  pub Distinct-delete :
      (k : Bytes) (m : List (Bytes × V)) → Distinct (keys m) → Distinct (keys (delete k m))
  unfolding delete
  Distinct-delete k [] d = d
  Distinct-delete k ((i, v) ∷ m) (new, d) = elim (Bool-cases (bytes_eq i k)) [
    | inl e ↦ rw e d
    | inr e ↦ rw e ((λ h. new (Member-delete i k m h)), Distinct-delete k m d)
  ]

  pub delete-gone :
      (k : Bytes) (m : List (Bytes × V)) → Distinct (keys m) → ¬ Member k (keys (delete k m))
  unfolding delete
  delete-gone k [] d h = h
  delete-gone k ((i, v) ∷ m) (new, d) h = elim (Bool-cases (bytes_eq i k)) [
    | inl e ↦ new (subst (λ x. Member x (keys m)) (sym (bytes_eq→eq i k e)) (rw e at h))
    | inr e ↦
        let m' : (i ≡ k) ⊎ Member k (keys (delete k m)) = rw e at h in
        elim m' [
          | inl same ↦
              let loop : bytes_eq i i ≡ false = subst (λ x. bytes_eq i x ≡ false) (sym same) e in
              cc (loop, bytes_eq_refl i)
          | inr later ↦ delete-gone k m d later
        ]
  ]

  pub lookup-gone : (k : Bytes) (m : List (Bytes × V)) → ¬ Member k (keys m) → lookup k m ≡ none
  unfolding lookup
  lookup-gone k [] new = refl
  lookup-gone k ((j, v) ∷ m) new = elim (Bool-cases (bytes_eq j k)) [
    | inl e ↦ absurd (new (inl (bytes_eq→eq j k e)))
    | inr e ↦ rw e (lookup-gone k m (λ h. new (inr h)))
  ]

  pub lookup-delete :
      (j k : Bytes) (m : List (Bytes × V))
      → bytes_eq k j ≡ false
      → lookup j (delete k m) ≡ lookup j m
  unfolding lookup delete
  lookup-delete j k [] h = refl
  lookup-delete j k ((i, v) ∷ m) h = elim (Bool-cases (bytes_eq i k)) [
    | inl e ↦
        let other : bytes_eq i j ≡ false =
          subst (λ x. bytes_eq x j ≡ false) (sym (bytes_eq→eq i k e)) h in
        rw (e, other) refl
    | inr e ↦ elim (Bool-cases (bytes_eq i j)) [
      | inl f ↦ rw (e, f) refl
      | inr f ↦ rw (e, f) (lookup-delete j k m h)
    ]
  ]

  pub Holds-delete :
      (k : Bytes) (m xs : List (Bytes × V))
      → ¬ Member k (keys xs)
      → Holds m xs
      → Holds (delete k m) xs
  Holds-delete k m [] new h = h
  Holds-delete k m ((j, v) ∷ xs) new (h, hs) = (
    lookup-delete j k m (differ j k (λ e. new (inl e))) ∙ h,
    Holds-delete k m xs (λ n. new (inr n)) hs,
  )

  pub Holds-cons :
      (k : Bytes) (v : V) (m xs : List (Bytes × V))
      → ¬ Member k (keys xs)
      → Holds m xs
      → Holds ((k, v) ∷ m) xs
  Holds-cons k v m [] new h = h
  Holds-cons k v m ((j, w) ∷ xs) new (h, hs) = (
    unfold lookup in (rw (differ j k (λ e. new (inl e))) h),
    Holds-cons k v m xs (λ n. new (inr n)) hs,
  )

  pub Holds-self : (m : List (Bytes × V)) → Distinct (keys m) → Holds m m
  unfolding lookup
  Holds-self [] d = tt
  Holds-self ((k, v) ∷ m) (new, d) =
      (rw (bytes_eq_refl k) refl, Holds-cons k v m m new (Holds-self m d))

  pub lookup-All :
      (P : V → Type 0) (k : Bytes) (v : V) (m : List (Bytes × V))
      → All (λ x. P x.1) m
      → lookup k m ≡ some v
      → P v
  unfolding lookup
  lookup-All P k v [] a h = cc
  lookup-All P k v ((j, w) ∷ m) (a, as') h = elim (Bool-cases (bytes_eq j k)) [
    | inl e ↦ let same : w ≡ v = cc (e, h) in subst P same a
    | inr e ↦ lookup-All P k v m as' (rw e at h)
  ]

  pub delete-All :
      (P : V → Type 0) (k : Bytes) (m : List (Bytes × V))
      → All (λ x. P x.1) m
      → All (λ x. P x.1) (delete k m)
  unfolding delete
  delete-All P k [] a = a
  delete-All P k ((j, w) ∷ m) (a, as') = elim (Bool-cases (bytes_eq j k)) [
    | inl e ↦ rw e as'
    | inr e ↦ rw e (a, delete-All P k m as')
  ]
