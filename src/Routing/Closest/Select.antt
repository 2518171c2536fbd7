-- ===== src/Routing/Closest/Select.antt =====
-- The sweep keeps the nearest contacts.
use mathlib.Core.List.{Perm, append_assoc, perm_middle}
use mathlib.Core.List.Perm
use freens.Prelude.{
  ℕ, suc, ◌+◌, ◌≤◌, ◌<◌, ◌≡◌, ap, ltb, ◌==◌, ==→eq, min, List, [], ◌∷◌, ◌++◌, length, length-append,
  length-set, Bytes, All, All-append, set, Bool-cases, inl, inr, arith,
}
use freens.Ids.Distance.{IsId}
use freens.Routing.Contact.{NodeContact}
use freens.Routing.Closest.{is_nearer, up, down, offer, select}
use freens.Routing.Closest.Keys.{parent, IsHeap, IsHeapAbove, IsHeapBelow, root_farthest}
use freens.Routing.Closest.Swap.{
  dist, key, key-get_elem?, key_beyond, key-set_at, key-set_other, key-append, some_at, AllIds,
  AllIds-get_elem?, AllIds-set, set-perm, Sifted,
}
use freens.Routing.Closest.Sift.{is_nearer-dist, up-IsHeap, down-IsHeap}

module _ (target : Bytes) (cap : ℕ) where
  -- What is left of the heap and of the contacts still to come: those dropped are no nearer than any
  -- that is kept, and once the heap is full no farther contact than its root comes in.
  pub record Selected (items cs out : List NodeContact) : Type 0 where
    pub dropped : List NodeContact
    pub perm : Perm (out ++ dropped) (items ++ cs)
    pub ids : AllIds out
    pub far : All (λ y. (k : ℕ) → key target out k ≤ dist target y) dropped
    pub full : length items ≡ cap → (k : ℕ) → key target out k ≤ key target items 0
    pub len : length out ≡ min cap (length items + length cs)

  -- A heap with room, or with one contact at least.
  pub record IsReady (items : List NodeContact) : Type 0 where
    pub ids : AllIds items
    pub heap : IsHeap (key target items)
    pub within : length items ≤ cap

  pub no_items-IsReady : IsReady []
  unfolding key
  no_items-IsReady = record { ids = tt; heap = λ k hk. omega arith; within = omega arith }

  root_bound :
      (items : List NodeContact) → IsReady items → (k : ℕ) → key target items k ≤ key target items 0
  root_bound items r k = root_farthest (key target items) r.heap (suc k) k (omega arith)

  module _ (ht : IsId target) (items : List NodeContact) (r : IsReady items) (c : NodeContact)
      (hc : IsId c.node_id) where
    append_above : IsHeapAbove (key target (items ++ (c ∷ []))) (length items)
    append_above = (
      λ k hk ne. ground (
        arith,
        key-append target items c k,
        key-append target items c (parent k),
        key_beyond target items k,
        r.heap k hk,
      ),
      λ k hk e hp. ground (arith, key-append target items c k, key_beyond target items k),
    )

    -- A contact that finds room.
    up-IsReady :
        length items < cap
        → Sifted target
            (items ++ (c ∷ []))
            (up target (length items) (length items) (items ++ (c ∷ [])))
          × IsReady (up target (length items) (length items) (items ++ (c ∷ [])))
    up-IsReady room =
        let added = length-append {0} items (c ∷ []) in
        let (s, heap) =
          up-IsHeap target ht (length items) (length items) (items ++ (c ∷ [])) (omega arith)
            (omega (arith, added))
            (All-append (λ (d : NodeContact). IsId d.node_id) items (c ∷ []) r.ids (hc, tt))
            append_above in
        (s, record { ids = s.ids; heap = heap; within = omega (arith, s.len, added, room) })

    replace_below : IsHeapBelow (key target (set items 0 c)) 0
    replace_below = (
      λ k hk ne.
          let at_k = key-set_other target items 0 k c (λ e. omega arith) in
          let at_parent = key-set_other target items 0 (parent k) c ne in
          omega (arith, at_k, at_parent, r.heap k hk),
      λ k hk e hp. absurd (omega arith),
    )

    -- A contact that takes the root's place.
    down-IsReady :
        length items ≡ cap
        → 0 < length items
        → Sifted target (set items 0 c) (down target (length items) 0 (set items 0 c))
          × IsReady (down target (length items) 0 (set items 0 c))
    down-IsReady at_cap some_item =
        let same = length-set items 0 c in
        let (s, heap) =
          down-IsHeap target ht (length items) 0 (set items 0 c) (omega (arith, same))
            (omega (arith, same)) (AllIds-set items 0 c r.ids hc) replace_below in
        (s, record { ids = s.ids; heap = heap; within = omega (arith, s.len, same, at_cap) })

  -- A contact dropped beside those that the rest of the sweep drops.
  drop_perm :
      (c root : NodeContact) (items items' cs out dropped : List NodeContact)
      → Perm (root ∷ items') (c ∷ items)
      → Perm (out ++ dropped) (items' ++ cs)
      → Perm (out ++ (root ∷ dropped)) (items ++ (c ∷ cs))
  drop_perm c root items items' cs out dropped swapped rest = Perm.trans (perm_middle out dropped) (
      Perm.trans (Perm.cons root rest)
        (Perm.trans (Perm.append swapped (Perm.refl cs)) (Perm.symm (perm_middle items cs))))

  pub select-Selected :
      IsId target
      → 0 < cap
      → (cs items : List NodeContact) → AllIds cs
      → IsReady items
      → Selected items cs (select target cap items cs)
  unfolding select offer
  select-Selected ht pos [] items gc r = record {
    dropped = [];
    perm = Perm.refl (items ++ []);
    ids = r.ids;
    far = tt;
    full = λ e. root_bound items r;
    len = omega (arith, r.within);
  }
  select-Selected ht pos (c ∷ cs) items gc r = elim (Bool-cases (ltb (length items) cap)) [
    | inl room ↦
        let lt : length items < cap = ground arith in
        let (s, ready) = up-IsReady ht items r c gc.0 lt in
        let items' = up target (length items) (length items) (items ++ (c ∷ [])) in
        let ih = select-Selected ht pos cs items' gc.1 ready in
        let grown : length items' ≡ length items + 1 =
          omega (arith, s.len, length-append {0} items (c ∷ [])) in
        rw (room, offer)
          (record {
            dropped = ih.dropped;
            perm = Perm.trans ih.perm (
                Perm.trans (Perm.append s.perm (Perm.refl cs))
                  (rw (append_assoc items (c ∷ []) cs) (Perm.refl (items ++ (c ∷ cs)))));
            ids = ih.ids;
            far = ih.far;
            full = λ e. absurd (omega (arith, e, lt));
            len = omega (arith, ih.len, grown);
          })
    | inr no_room ↦
        let at_cap : length items ≡ cap = ground (arith, r.within) in
        let some_item : 0 < length items = omega (arith, at_cap, pos) in
        let (root, at_root) = some_at items 0 some_item in
        let root_key = key-get_elem? target items 0 root at_root in
        let test =
          is_nearer-dist target ht c root gc.0 (AllIds-get_elem? items 0 root r.ids at_root) in
        elim (Bool-cases (is_nearer target c root)) [
          | inr no_nearer ↦
              let ih = select-Selected ht pos cs items gc.1 r in
              let le : dist target root ≤ dist target c = ground arith in
              rw (no_room, offer)
                (rw at_root (
                  rw no_nearer (record {
                    dropped = c ∷ ih.dropped;
                    perm =
                        drop_perm c c items items cs _ ih.dropped (Perm.refl (c ∷ items)) ih.perm;
                    ids = ih.ids;
                    far = ((λ k. omega (arith, ih.full at_cap k, root_key, le)), ih.far);
                    full = ih.full;
                    len = omega (arith, ih.len, at_cap);
                  })))
          | inl nearer ↦
              let (s, ready) = down-IsReady ht items r c gc.0 at_cap some_item in
              let items' = down target (length items) 0 (set items 0 c) in
              let ih = select-Selected ht pos cs items' gc.1 ready in
              let lt : dist target c < dist target root = ground arith in
              let replaced = key-set_at target items 0 c some_item in
              let lower = s.bound (dist target root) (λ k. elim (Bool-cases (k == 0)) [
                | inl e ↦ omega (arith, ap (key target (set items 0 c)) (==→eq k 0 e), replaced, lt)
                | inr ne ↦
                    let kept = key-set_other target items 0 k c (λ e. ground arith) in
                    omega (arith, kept, root_bound items r k, root_key)
              ]) in
              let kept_len : length items' ≡ cap =
                omega (arith, s.len, length-set items 0 c, at_cap) in
              let bound = λ (k : ℕ). ih.full kept_len k in
              rw (no_room, offer)
                (rw at_root (
                  rw nearer (record {
                    dropped = root ∷ ih.dropped;
                    perm =
                        drop_perm c root items items' cs _ ih.dropped
                          (Perm.trans (Perm.cons root s.perm) (set-perm items 0 root c at_root))
                          ih.perm;
                    ids = ih.ids;
                    far = ((λ k. omega (arith, bound k, lower 0)), ih.far);
                    full = λ e k. omega (arith, bound k, lower 0, root_key);
                    len = omega (arith, ih.len, kept_len, at_cap);
                  })))
        ]
  ]
