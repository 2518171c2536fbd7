-- ===== src/Prelude/Members.antt =====
-- Membership and distinctness by recursion, which the tactics take apart, and the pigeonhole
-- principle.
use Prim.Native.Nat.{ℕ, zero, suc, ◌≤◌}
use mathlib.Core.Path.{◌≡◌, refl, sym, subst}
use mathlib.Core.Logic.{◌⊎◌, inl, inr}
use mathlib.Core.List.{List, [], ◌∷◌, ◌++◌}
use mathlib.Core.Option.{some}
use native.Mathlib.Omega.{arith}
use freens.Prelude.Lists.{length, get_elem?, set, remove_at}

module _ {A : Type 0} where
  abbrev pub Member : A → List A → Type 0
  Member a [] = ⊥
  Member a (x ∷ xs) = (x ≡ a) ⊎ Member a xs

  abbrev pub Distinct : List A → Type 0
  Distinct [] = Unit
  Distinct (x ∷ xs) = (¬ Member x xs) × Distinct xs

  -- The list without one occurrence of a member.
  without : (a : A) (xs : List A) → Member a xs → List A
  without a (x ∷ xs) (inl e) = xs
  without a (x ∷ xs) (inr m) = x ∷ without a xs m
  without a [] m = elim m [ ]

  length-without :
      (a : A) (xs : List A) (m : Member a xs) → suc (length (without a xs m)) ≡ length xs
  unfolding without
  length-without a (x ∷ xs) (inl e) = refl
  length-without a (x ∷ xs) (inr m) = omega (arith, length-without a xs m)
  length-without a [] m = elim m [ ]

  Member-without :
      (a b : A) (xs : List A) (m : Member a xs)
      → ¬ (b ≡ a)
      → Member b xs
      → Member b (without a xs m)
  unfolding without
  Member-without a b (x ∷ xs) (inl e) ne (inl f) = absurd (ne (cc))
  Member-without a b (x ∷ xs) (inl e) ne (inr n) = n
  Member-without a b (x ∷ xs) (inr m) ne (inl f) = inl f
  Member-without a b (x ∷ xs) (inr m) ne (inr n) = inr (Member-without a b xs m ne n)
  Member-without a b [] m ne n = elim m [ ]

  -- Distinct members of a list are no more than the list is long.
  pub pigeonhole :
      (ks xs : List A) → Distinct ks → ((k : A) → Member k ks → Member k xs) → length ks ≤ length xs
  pigeonhole [] xs d h = omega arith
  pigeonhole (k ∷ ks) xs (new, d) h =
      let m = h k (inl refl) in
      let later = pigeonhole ks (without k xs m) d (λ j mj.
        Member-without k j xs m (λ e. new (subst (λ t. Member t ks) e mj)) (h j (inr mj))) in
      omega (arith, later, length-without k xs m)

  pub Member-get_elem? : (xs : List A) (i : ℕ) (a : A) → get_elem? xs i ≡ some a → Member a xs
  Member-get_elem? [] i a h = cc
  Member-get_elem? (x ∷ xs) zero a h = inl (cc)
  Member-get_elem? (x ∷ xs) (suc i) a h = inr (Member-get_elem? xs i a h)

  pub Member-set : (xs : List A) (i : ℕ) (v a : A) → Member a (set xs i v) → (v ≡ a) ⊎ Member a xs
  Member-set [] i v a m = elim m [ ]
  Member-set (x ∷ xs) zero v a (inl e) = inl e
  Member-set (x ∷ xs) zero v a (inr m) = inr (inr m)
  Member-set (x ∷ xs) (suc i) v a (inl e) = inr (inl e)
  Member-set (x ∷ xs) (suc i) v a (inr m) = elim (Member-set xs i v a m) [
    | inl e ↦ inl e
    | inr n ↦ inr (inr n)
  ]

  -- A member at the head may change places with one further on.
  pub Distinct-swap :
      (x a : A) (xs : List A) (i : ℕ)
      → get_elem? xs i ≡ some a
      → Distinct (x ∷ xs)
      → Distinct (a ∷ set xs i x)
  Distinct-swap x a [] i h d = cc
  Distinct-swap x a (b ∷ bs) zero h (new, (fresh, d)) =
      let same : b ≡ a = cc in
      subst (λ t. Distinct (t ∷ x ∷ bs)) same
        ((λ m. elim m [ inl e ↦ new (inl (sym e)) | inr n ↦ fresh n ]), ((λ m. new (inr m)), d))
  Distinct-swap x a (b ∷ bs) (suc i) h (new, (fresh, d)) =
      let (gone, rest) = Distinct-swap x a bs i h ((λ m. new (inr m)), d) in
      (
        (λ m. elim m [
          | inl e ↦ fresh (subst (λ t. Member t bs) (sym e) (Member-get_elem? bs i a h))
          | inr n ↦ gone n
        ]),
        ((λ m. elim (Member-set bs i x b m) [ inl e ↦ new (inl (sym e)) | inr n ↦ fresh n ]), rest),
      )

  pub Member-remove_at : (i : ℕ) (xs : List A) (a : A) → Member a (remove_at i xs) → Member a xs
  Member-remove_at i [] a m = m
  Member-remove_at zero (x ∷ xs) a m = inr m
  Member-remove_at (suc i) (x ∷ xs) a (inl e) = inl e
  Member-remove_at (suc i) (x ∷ xs) a (inr m) = inr (Member-remove_at i xs a m)

  pub Distinct-remove_at : (i : ℕ) (xs : List A) → Distinct xs → Distinct (remove_at i xs)
  Distinct-remove_at i [] d = d
  Distinct-remove_at zero (x ∷ xs) (new, d) = d
  Distinct-remove_at (suc i) (x ∷ xs) (new, d) =
      ((λ m. new (Member-remove_at i xs x m)), Distinct-remove_at i xs d)

  pub Member-append : (xs ys : List A) (a : A) → Member a (xs ++ ys) → Member a xs ⊎ Member a ys
  Member-append [] ys a m = inr m
  Member-append (x ∷ xs) ys a (inl e) = inl (inl e)
  Member-append (x ∷ xs) ys a (inr m) = elim (Member-append xs ys a m) [
    | inl n ↦ inl (inr n)
    | inr n ↦ inr n
  ]

  pub Distinct-snoc :
      (xs : List A) (a : A) → Distinct xs → ¬ Member a xs → Distinct (xs ++ (a ∷ []))
  Distinct-snoc [] a d new = ((λ m. m), tt)
  Distinct-snoc (x ∷ xs) a (fresh, d) new = (
    (λ m. elim (Member-append xs (a ∷ []) x m) [
      | inl n ↦ fresh n
      | inr (inl e) ↦ new (inl (sym e))
      | inr (inr n) ↦ n
    ]),
    Distinct-snoc xs a d (λ m. new (inr m)),
  )
