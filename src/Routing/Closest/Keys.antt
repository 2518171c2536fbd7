-- ===== src/Routing/Closest/Keys.antt =====
-- The steps of the two sifts on the distances at the places of the heap, as functions of the index.
use freens.Prelude.{
  ℕ, zero, suc, ◌-◌, ◌/◌, ◌≤◌, ◌<◌, ◌≡◌, ◌≢◌, false, ap, ◌∙◌, arith, ◌==◌, Bool-cases, inl, inr,
  ==→eq,
}

abbrev pub parent : ℕ → ℕ
parent i = (i - 1) / 2

-- No place is farther than its parent.
abbrev pub IsHeap : (ℕ → ℕ) → Type 0
IsHeap key = (k : ℕ) → 0 < k → key k ≤ key (parent k)

-- But for the place `i` and its parent; the children of `i` are no farther than its parent.
abbrev pub IsHeapAbove : (ℕ → ℕ) → ℕ → Type 0
IsHeapAbove key i =
    ((k : ℕ) → 0 < k → k ≢ i → key k ≤ key (parent k))
    × ((k : ℕ) → 0 < k → parent k ≡ i → 0 < i → key k ≤ key (parent i))

-- But for the place `i` and its children; these are no farther than the parent of `i`.
abbrev pub IsHeapBelow : (ℕ → ℕ) → ℕ → Type 0
IsHeapBelow key i =
    ((k : ℕ) → 0 < k → parent k ≢ i → key k ≤ key (parent k))
    × ((k : ℕ) → 0 < k → parent k ≡ i → 0 < i → key k ≤ key (parent i))

-- The distances after two places have changed theirs.
abbrev pub IsSwapped : (ℕ → ℕ) → (ℕ → ℕ) → ℕ → ℕ → Type 0
IsSwapped key key' i j =
    (key' i ≡ key j) × (key' j ≡ key i) × ((k : ℕ) → k ≢ i → k ≢ j → key' k ≡ key k)

differ : (a b : ℕ) → (a == b) ≡ false → a ≢ b
differ a b h e = ground arith

module _ (key key' : ℕ → ℕ) (i : ℕ) where
  pub up_step :
      0 < i
      → key (parent i) < key i
      → IsSwapped key key' (parent i) i
      → IsHeapAbove key i
      → IsHeapAbove key' (parent i)
  up_step pos farther (at_parent, at_i, same) (heap, children) = (
    λ k hk ne. elim (Bool-cases (k == i)) [
      | inl e ↦
          let at_k = ap key' (==→eq k i e) in
          let at_parent_k = ap (λ t. key' (parent t)) (==→eq k i e) in
          omega (arith, at_k, at_parent_k, at_parent, at_i, farther)
      | inr nk ↦
          let kept = same k ne (differ k i nk) in
          let above = heap k hk (differ k i nk) in
          elim (Bool-cases (parent k == i)) [
            | inl e ↦
                let child = children k hk (==→eq _ _ e) pos in
                omega (arith, kept, child, ap key' (==→eq _ _ e), at_i)
            | inr np ↦ elim (Bool-cases (parent k == parent i)) [
              | inl e ↦
                  let key_eq = ap key (==→eq _ _ e) in
                  let key_eq' = ap key' (==→eq _ _ e) in
                  omega (arith, kept, above, key_eq, key_eq', at_parent, farther)
              | inr nq ↦
                  let kept_parent = same (parent k) (differ _ _ nq) (differ _ _ np) in
                  omega (arith, kept, above, kept_parent)
            ]
          ]
    ],
    λ k hk e hp.
        let top = same (parent (parent i)) (λ q. omega arith) (λ q. omega arith) in
        let above = heap (parent i) hp (λ q. omega arith) in
        elim (Bool-cases (k == i)) [
          | inl f ↦ omega (arith, ap key' (==→eq k i f), at_i, above, top)
          | inr nk ↦
              let kept = same k (λ q. omega arith) (differ k i nk) in
              let below = heap k hk (differ k i nk) in
              omega (arith, kept, below, ap key e, above, top)
        ],
  )

  pub down_step :
      (b : ℕ)
      → parent b ≡ i
      → 0 < b
      → key i < key b
      → ((k : ℕ) → 0 < k → parent k ≡ i → key k ≤ key b)
      → IsSwapped key key' b i
      → IsHeapBelow key i
      → IsHeapBelow key' b
  down_step b child pos farther largest (at_b, at_i, same) (heap, children) = (
    λ k hk ne. elim (Bool-cases (k == i)) [
      | inl e ↦
          let at_k = ap key' (==→eq k i e) in
          let at_parent_k = ap (λ t. key' (parent t)) (==→eq k i e) in
          let i_pos : 0 < i = omega (arith, hk, ==→eq k i e) in
          let not_b : parent i ≢ b = λ q. ne (ap (λ t. parent t) (==→eq k i e) ∙ q) in
          let kept = same (parent i) not_b (λ q. omega arith) in
          let above = children b pos child i_pos in
          omega (arith, at_k, at_parent_k, kept, above, at_i)
      | inr ni ↦ elim (Bool-cases (k == b)) [
        | inl e ↦
            let at_k = ap key' (==→eq k b e) in
            let at_parent_k = ap (λ t. key' (parent t)) (==→eq k b e) in
            omega (arith, at_k, at_parent_k, ap key' child, at_b, at_i, farther)
        | inr nb ↦
            let kept = same k (differ k b nb) (differ k i ni) in
            elim (Bool-cases (parent k == i)) [
              | inl e ↦
                  let bound = largest k hk (==→eq _ _ e) in
                  omega (arith, kept, bound, ap key' (==→eq _ _ e), at_i)
              | inr np ↦
                  let kept_parent = same (parent k) ne (differ _ _ np) in
                  let above = heap k hk (differ _ _ np) in omega (arith, kept, above, kept_parent)
            ]
      ]
    ],
    λ k hk e hp.
        let kept = same k (λ q. omega arith) (λ q. omega arith) in
        let above = heap k hk (λ q. omega arith) in
        omega (arith, kept, above, ap key e, ap key' child, at_i),
  )

-- The root is the farthest.
pub root_farthest : (key : ℕ → ℕ) → IsHeap key → (n k : ℕ) → k < n → key k ≤ key 0
root_farthest key heap zero k h = absurd (omega arith)
root_farthest key heap (suc n) zero h = omega arith
root_farthest key heap (suc n) (suc k) h =
    omega
      (arith, heap (suc k) (omega arith), root_farthest key heap n (parent (suc k)) (omega arith))
