-- ===== src/Routing/Bucket/Update.antt =====
-- What the operations of a bucket keep, and what a lookup finds after them.
use freens.Prelude.{
  ℕ, ◌≡◌, ap, ◌∙◌, false, ltb, List, [], ◌∷◌, ◌++◌, map, length, length-append, All, All-append,
  Bytes, bytes_eq, bytes_eq→eq, bytes_eq_refl, none, some, arith, Member, Distinct, Distinct-snoc,
  Option-cases, Bool-cases, inl, inr, Member-append, ◌⊎◌,
}
use mathlib.Core.Path.{subst}
use mathlib.Core.List.{map-append}
use freens.Routing.Contact.{
  NodeContact, merge_addr, repoint_preferred_if_needed, trim_alts, preferred, best_from, update_alt,
}
use freens.Routing.Contact.Repoint.{IsTidy}
use freens.Routing.Contact.Addresses.{merge_addr-IsTidy}
use freens.Routing.Bucket.{refreshed, refresh_node}

abbrev pub ids : List NodeContact → List Bytes
ids = map (λ c. c.node_id)

repoint_preferred-node_id : (c : NodeContact) → (repoint_preferred_if_needed c).node_id ≡ c.node_id
unfolding repoint_preferred_if_needed
repoint_preferred-node_id c = elim (Option-cases (best_from (preferred c) 0 none c.alts)) [
  | inl e ↦ rw (e, repoint_preferred_if_needed)
  | inr (x, e) ↦ rw (e, repoint_preferred_if_needed)
]

merge_addr-node_id :
    (c : NodeContact) (addr : Bytes) (ls ca : ℕ) → (merge_addr c addr ls ca).node_id ≡ c.node_id
unfolding merge_addr trim_alts
merge_addr-node_id c addr ls ca = elim (Bool-cases (bytes_eq addr c.addr)) [
  | inl e ↦ rw (e, merge_addr)
  | inr e ↦ elim (Option-cases (update_alt addr ls ca c.alts)) [
    | inl f ↦ rw (e, f, merge_addr) (repoint_preferred-node_id _)
    | inr (x, f) ↦ rw (e, f, merge_addr) (repoint_preferred-node_id (record c { alts = x }))
  ]
]

-- A refresh keeps the identity of the stored contact and the order of its addresses.
refreshed-node_id : (cur c : NodeContact) → (refreshed cur c).node_id ≡ cur.node_id
unfolding refreshed
refreshed-node_id cur c =
    let kept =
      merge_addr-node_id (record cur { public_key = c.public_key }) c.addr c.last_seen
        c.confirmed_at in
    ground (arith, kept)

refreshed-IsTidy : (cur c : NodeContact) → IsTidy cur → IsTidy (refreshed cur c)
unfolding refreshed
refreshed-IsTidy cur c t =
    let merged =
      merge_addr-IsTidy (record cur { public_key = c.public_key }) c.addr c.last_seen c.confirmed_at
        (record { distinct = t.distinct; bounded = t.bounded }) in
    elim (Bool-cases (ltb 0 c.confirmed_at)) [
      | inl e ↦ rw e (record { distinct = merged.distinct; bounded = merged.bounded })
      | inr e ↦ rw e (record { distinct = merged.distinct; bounded = merged.bounded })
    ]

-- The three outcomes of `refresh_node` on a list with a head.
refresh_node-cons :
    (c cur : NodeContact) (rest nodes : List NodeContact)
    → refresh_node c (cur ∷ rest) ≡ some nodes
    → ((cur.node_id ≡ c.node_id)
        × ((nodes ≡ rest ++ (refreshed cur c ∷ [])) ⊎ (nodes ≡ refreshed cur c ∷ rest)))
      ⊎ ((bytes_eq cur.node_id c.node_id ≡ false)
          × ((later : List NodeContact) × (refresh_node c rest ≡ some later)
              × (nodes ≡ cur ∷ later)))
unfolding refresh_node
refresh_node-cons c cur rest nodes h = elim (Bool-cases (bytes_eq cur.node_id c.node_id)) [
  | inl e ↦ elim (Bool-cases (ltb 0 c.confirmed_at)) [
    | inl direct ↦ inl (bytes_eq→eq _ _ e, inl (ground arith))
    | inr heard ↦ inl (bytes_eq→eq _ _ e, inr (ground arith))
  ]
  | inr e ↦ elim (Option-cases (refresh_node c rest)) [
    | inl f ↦ ground arith
    | inr (later, f) ↦ inr (e, (later, f, ground arith))
  ]
]

pub ids-snoc :
    (nodes : List NodeContact) (c : NodeContact)
    → ids (nodes ++ (c ∷ [])) ≡ ids nodes ++ (c.node_id ∷ [])
ids-snoc nodes c = map-append (λ x. x.node_id) nodes (c ∷ [])

module _ (c : NodeContact) where
  pub refresh_node-length :
      (nodes nodes' : List NodeContact)
      → refresh_node c nodes ≡ some nodes'
      → length nodes' ≡ length nodes
  refresh_node-length [] nodes' h = unfold refresh_node in cc
  refresh_node-length (cur ∷ rest) nodes' h = elim (refresh_node-cons c cur rest nodes' h) [
    | inl (e, inl q) ↦ omega (
      arith,
      ap (λ (l : List NodeContact). length l) q,
      length-append rest (refreshed cur c ∷ []),
    )
    | inl (e, inr q) ↦ omega (arith, ap (λ (l : List NodeContact). length l) q)
    | inr (e, (later, f, q)) ↦
        omega (arith, ap (λ (l : List NodeContact). length l) q, refresh_node-length rest later f)
  ]

  pub refresh_node-ids :
      (P : Bytes → Type 0) (nodes nodes' : List NodeContact)
      → refresh_node c nodes ≡ some nodes'
      → All P (ids nodes)
      → All P (ids nodes')
  refresh_node-ids P [] nodes' h a = unfold refresh_node in cc
  refresh_node-ids P (cur ∷ rest) nodes' h (a, as') = elim (refresh_node-cons c cur rest nodes' h) [
    | inl (e, inl q) ↦
        rw (q, ids-snoc rest (refreshed cur c), refreshed-node_id cur c)
          (All-append P (ids rest) (cur.node_id ∷ []) as' (a, tt))
    | inl (e, inr q) ↦ rw (q, refreshed-node_id cur c) (a, as')
    | inr (e, (later, f, q)) ↦ rw q (a, refresh_node-ids P rest later f as')
  ]

  pub refresh_node-IsTidy :
      (nodes nodes' : List NodeContact)
      → refresh_node c nodes ≡ some nodes'
      → All IsTidy nodes
      → All IsTidy nodes'
  refresh_node-IsTidy [] nodes' h a = unfold refresh_node in cc
  refresh_node-IsTidy (cur ∷ rest) nodes' h (a, as') =
      elim (refresh_node-cons c cur rest nodes' h) [
        | inl (e, inl q) ↦
            rw q (All-append IsTidy rest (refreshed cur c ∷ []) as' (refreshed-IsTidy cur c a, tt))
        | inl (e, inr q) ↦ rw q (refreshed-IsTidy cur c a, as')
        | inr (e, (later, f, q)) ↦ rw q (a, refresh_node-IsTidy rest later f as')
      ]

  refresh_node-Member :
      (x : Bytes) (nodes nodes' : List NodeContact)
      → refresh_node c nodes ≡ some nodes'
      → Member x (ids nodes')
      → Member x (ids nodes)
  refresh_node-Member x [] nodes' h m = unfold refresh_node in cc
  refresh_node-Member x (cur ∷ rest) nodes' h m = elim (refresh_node-cons c cur rest nodes' h) [
    | inl (e, inl q) ↦
        let m' : Member x (ids rest ++ (cur.node_id ∷ [])) =
          subst (λ l. Member x l)
            (ap ids q
              ∙ ids-snoc rest (refreshed cur c)
              ∙ ap (λ k. ids rest ++ (k ∷ [])) (refreshed-node_id cur c))
            m in
        elim (Member-append (ids rest) (cur.node_id ∷ []) x m') [
          | inl n ↦ inr n
          | inr (inl n) ↦ inl n
          | inr (inr n) ↦ absurd n
        ]
    | inl (e, inr q) ↦
        subst (λ l. Member x l) (ap ids q ∙ ap (λ k. k ∷ ids rest) (refreshed-node_id cur c)) m
    | inr (e, (later, f, q)) ↦
        let m' : Member x (cur.node_id ∷ ids later) = subst (λ l. Member x l) (ap ids q) m in
        elim m' [ inl n ↦ inl n | inr n ↦ inr (refresh_node-Member x rest later f n) ]
  ]

  pub refresh_node-Distinct :
      (nodes nodes' : List NodeContact)
      → refresh_node c nodes ≡ some nodes'
      → Distinct (ids nodes)
      → Distinct (ids nodes')
  refresh_node-Distinct [] nodes' h d = unfold refresh_node in cc
  refresh_node-Distinct (cur ∷ rest) nodes' h (new, d) =
      elim (refresh_node-cons c cur rest nodes' h) [
        | inl (e, inl q) ↦
            rw (q, ids-snoc rest (refreshed cur c), refreshed-node_id cur c)
              (Distinct-snoc (ids rest) cur.node_id d new)
        | inl (e, inr q) ↦ rw (q, refreshed-node_id cur c) (new, d)
        | inr (e, (later, f, q)) ↦ rw q (
          (λ m. new (refresh_node-Member cur.node_id rest later f m)),
          refresh_node-Distinct rest later f d,
        )
      ]

  pub refresh_node-absent :
      (nodes : List NodeContact) → refresh_node c nodes ≡ none → ¬ Member c.node_id (ids nodes)
  unfolding refresh_node
  refresh_node-absent [] h m = m
  refresh_node-absent (cur ∷ rest) h m = elim (Bool-cases (bytes_eq cur.node_id c.node_id)) [
    | inl e ↦ ground arith
    | inr e ↦ elim (Option-cases (refresh_node c rest)) [
      | inr (later, f) ↦ ground arith
      | inl f ↦ elim m [
        | inl same ↦
            let loop : bytes_eq c.node_id c.node_id ≡ false =
              subst (λ x. bytes_eq x c.node_id ≡ false) same e in
            cc (loop, bytes_eq_refl c.node_id)
        | inr later ↦ refresh_node-absent rest f later
      ]
    ]
  ]
