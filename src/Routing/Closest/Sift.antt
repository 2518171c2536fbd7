-- ===== src/Routing/Closest/Sift.antt =====
-- The two sifts of the heap.
use freens.Prelude.{
  ℕ, zero, suc, ◌+◌, ◌*◌, ◌≤◌, ◌<◌, ◌≡◌, ◌≢◌, ◌⊎◌, refl, ap, ◌∙◌, ltb, ◌==◌, ==→eq, ltb→lt, List,
  length, Bytes, get_elem?, Bool-cases, Option-cases, inl, inr, arith,
}
use freens.Ids.Distance.{IsId, compare_distance-distance}
use freens.Routing.Contact.{NodeContact}
use freens.Routing.Closest.{is_farther, is_nearer, farther, swap, up, biggest, down}
use freens.Routing.Closest.Keys.{
  parent, IsHeap, IsHeapAbove, IsHeapBelow, IsSwapped, up_step, down_step,
}
use freens.Routing.Closest.Swap.{
  dist, key, key-get_elem?, key_beyond, some_at, AllIds, AllIds-get_elem?, Sifted, Sifted-refl,
  exchange-IsSwapped, exchange-Sifted, Sifted-trans,
}

module _ (target : Bytes) (ht : IsId target) where
  is_farther-dist :
      (a b : NodeContact)
      → IsId a.node_id
      → IsId b.node_id
      → is_farther target a b ≡ ltb (dist target b) (dist target a)
  unfolding is_farther
  is_farther-dist a b ha hb =
      ground (arith, compare_distance-distance target a.node_id b.node_id ht ha hb)

  pub is_nearer-dist :
      (a b : NodeContact)
      → IsId a.node_id
      → IsId b.node_id
      → is_nearer target a b ≡ ltb (dist target a) (dist target b)
  unfolding is_nearer
  is_nearer-dist a b ha hb =
      ground (arith, compare_distance-distance target a.node_id b.node_id ht ha hb)

  farther-key :
      (xs : List NodeContact) (i j : ℕ)
      → AllIds xs
      → j < length xs
      → farther target xs i j ≡ ltb (key target xs j) (key target xs i)
  unfolding farther
  farther-key xs i j g hj =
      let (b, at_j) = some_at xs j hj in
      elim (Option-cases (get_elem? xs i)) [
        | inl e ↦ elim (Bool-cases (ltb i (length xs))) [
          | inl lt ↦ let (a, at_i) = some_at xs i (ltb→lt _ _ lt) in cc
          | inr ge ↦
              let out = key_beyond target xs i (ground arith) in
              rw (e, farther) (ground (arith, out))
        ]
        | inr (a, at_i) ↦
            rw (at_i, farther)
              (rw at_j (
                is_farther-dist a b (AllIds-get_elem? xs i a g at_i)
                  (AllIds-get_elem? xs j b g at_j)
                ∙ ground
                    (arith, key-get_elem? target xs i a at_i, key-get_elem? target xs j b at_j)))
      ]

  -- A swap of two places is an exchange.
  swap_at :
      (xs : List NodeContact) (i j : ℕ)
      → AllIds xs
      → i < length xs
      → j < length xs
      → i ≢ j
      → Sifted target xs (swap target xs i j)
        × IsSwapped (key target xs) (key target (swap target xs i j)) i j
  unfolding swap
  swap_at xs i j g hi hj ne =
      let (a, at_i) = some_at xs i hi in
      let (b, at_j) = some_at xs j hj in
      rw (at_i, swap)
        (rw at_j (
          exchange-Sifted target xs i j a b at_i at_j ne hi hj g,
          exchange-IsSwapped target xs i j a b at_i at_j ne hi hj,
        ))

  pub up-IsHeap :
      (rounds i : ℕ) (xs : List NodeContact)
      → i ≤ rounds
      → i < length xs
      → AllIds xs
      → IsHeapAbove (key target xs) i
      → Sifted target xs (up target rounds i xs) × IsHeap (key target (up target rounds i xs))
  unfolding up
  up-IsHeap zero i xs le hi g h = (Sifted-refl target xs g, λ k hk. h.0 k hk (λ e. omega arith))
  up-IsHeap (suc rounds) i xs le hi g h = elim (Bool-cases (i == 0)) [
    | inl z ↦ rw (z, up) (Sifted-refl target xs g, λ k hk. h.0 k hk (λ e. ground arith))
    | inr nz ↦
        let pos : 0 < i = ground arith in
        let in_parent : parent i < length xs = omega (arith, hi) in
        let test = farther-key xs i (parent i) g in_parent in
        elim (Bool-cases (farther target xs i (parent i))) [
          | inr f ↦
              let le_parent : key target xs i ≤ key target xs (parent i) = ground arith in
              rw (nz, f, up)
                (
                  Sifted-refl target xs g,
                  λ k hk. elim (Bool-cases (k == i)) [
                    | inl e ↦
                        let e' = ==→eq k i e in
                        omega (
                          arith,
                          le_parent,
                          ap (key target xs) e',
                          ap (λ t. key target xs (parent t)) e',
                        )
                    | inr ne ↦ h.0 k hk (λ e. ground arith)
                  ],
                )
          | inl f ↦
              let gt_parent : key target xs (parent i) < key target xs i = ground arith in
              let (s, swapped) = swap_at xs (parent i) i g in_parent hi (λ e. omega arith) in
              let next = swap target xs (parent i) i in
              let above = up_step (key target xs) (key target next) i pos gt_parent swapped h in
              let (s', heap) =
                up-IsHeap rounds (parent i) next (omega arith) (omega (arith, s.len, in_parent))
                  s.ids above in
              rw (nz, f, up) (Sifted-trans target xs next _ s s', heap)
        ]
  ]

  -- The place that `down` goes on with: a child farther than its parent and no nearer than its
  -- sibling, or the place itself.
  abbrev Picks : List NodeContact → ℕ → ℕ → Type 0
  Picks xs i b =
      ((k : ℕ) → 0 < k → parent k ≡ i → key target xs k ≤ key target xs b)
      × (b < length xs)
      × ((b ≡ i) ⊎ ((parent b ≡ i) × (0 < b) × (key target xs i < key target xs b)))

  of_children :
      (xs : List NodeContact) (i b : ℕ)
      → key target xs (2 * i + 1) ≤ key target xs b
      → key target xs (2 * i + 2) ≤ key target xs b
      → (k : ℕ) → 0 < k
      → parent k ≡ i
      → key target xs k ≤ key target xs b
  of_children xs i b left right k hk e = elim (Bool-cases (k == 2 * i + 1)) [
    | inl f ↦ omega (arith, left, ap (key target xs) (==→eq k _ f))
    | inr f ↦
        let other : k ≡ 2 * i + 2 = ground arith in omega (arith, right, ap (key target xs) other)
  ]

  in_range : (xs : List NodeContact) (k m : ℕ) → m < key target xs k → k < length xs
  in_range xs k m h = elim (Bool-cases (ltb k (length xs))) [
    | inl lt ↦ ltb→lt _ _ lt
    | inr ge ↦ let out = key_beyond target xs k (ground arith) in absurd (omega (arith, out, h))
  ]

  biggest-Picks :
      (xs : List NodeContact) (i : ℕ) → AllIds xs → i < length xs → Picks xs i (biggest target xs i)
  unfolding biggest
  biggest-Picks xs i g hi =
      let test_left = farther-key xs (2 * i + 1) i g hi in
      elim (Bool-cases (farther target xs (2 * i + 1) i)) [
        | inl l ↦
            let gt : key target xs i < key target xs (2 * i + 1) = ground arith in
            let in_left = in_range xs (2 * i + 1) (key target xs i) gt in
            let test_right = farther-key xs (2 * i + 2) (2 * i + 1) g in_left in
            elim (Bool-cases (farther target xs (2 * i + 2) (2 * i + 1))) [
              | inl r ↦
                  let gt' : key target xs (2 * i + 1) < key target xs (2 * i + 2) = ground arith in
                  rw (l, biggest)
                    (rw r (
                      of_children xs i (2 * i + 2) (omega arith) (omega arith),
                      in_range xs (2 * i + 2) _ gt',
                      inr (omega arith, omega arith, omega arith),
                    ))
              | inr r ↦
                  let le' : key target xs (2 * i + 2) ≤ key target xs (2 * i + 1) = ground arith in
                  rw (l, biggest)
                    (rw r (
                      of_children xs i (2 * i + 1) (omega arith) le',
                      in_left,
                      inr (omega arith, omega arith, gt),
                    ))
            ]
        | inr l ↦
            let le : key target xs (2 * i + 1) ≤ key target xs i = ground arith in
            let test_right = farther-key xs (2 * i + 2) i g hi in
            elim (Bool-cases (farther target xs (2 * i + 2) i)) [
              | inl r ↦
                  let gt' : key target xs i < key target xs (2 * i + 2) = ground arith in
                  rw (l, biggest)
                    (rw r (
                      of_children xs i (2 * i + 2) (omega arith) (omega arith),
                      in_range xs (2 * i + 2) _ gt',
                      inr (omega arith, omega arith, gt'),
                    ))
              | inr r ↦
                  let le' : key target xs (2 * i + 2) ≤ key target xs i = ground arith in
                  rw (l, biggest) (rw r (of_children xs i i le le', hi, inl refl))
            ]
      ]

  pub down-IsHeap :
      (rounds i : ℕ) (xs : List NodeContact)
      → length xs ≤ i + rounds
      → i < length xs
      → AllIds xs
      → IsHeapBelow (key target xs) i
      → Sifted target xs (down target rounds i xs) × IsHeap (key target (down target rounds i xs))
  unfolding down
  down-IsHeap zero i xs le hi g h = absurd (omega arith)
  down-IsHeap (suc rounds) i xs le hi g h =
      let (largest, in_big, which) = biggest-Picks xs i g hi in
      let big = biggest target xs i in
      elim (Bool-cases (big == i)) [
        | inl e ↦
            let at_i = ap (key target xs) (==→eq big i e) in
            rw (e, down)
              (
                Sifted-refl target xs g,
                λ k hk. elim (Bool-cases (parent k == i)) [
                  | inl c ↦
                      let c' = ==→eq _ _ c in
                      omega (arith, largest k hk c', at_i, ap (key target xs) c')
                  | inr nc ↦ h.0 k hk (λ q. ground arith)
                ],
              )
        | inr ne ↦ elim which [
          | inl same ↦ absurd (ground arith)
          | inr (child, pos, gt) ↦
              let (s, swapped) = swap_at xs big i g in_big hi (λ q. omega arith) in
              let next = swap target xs big i in
              let below =
                down_step (key target xs) (key target next) i big child pos gt largest swapped h in
              let (s', heap) =
                down-IsHeap rounds big next (omega (arith, s.len, child, pos, le))
                  (omega (arith, s.len, in_big)) s.ids below in
              rw (ne, down) (Sifted-trans target xs next _ s s', heap)
        ]
      ]
