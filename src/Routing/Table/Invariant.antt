-- ===== src/Routing/Table/Invariant.antt =====
-- What every operation of a routing table keeps (internal/dht/routing.go).
use freens.Prelude.{
  ℕ, ◌≤◌, ◌<◌, ◌≡◌, refl, leb, ◌==◌, ==→eq, [], ◌∷◌, length, length-append, All, All-append, Bytes,
  Option, arith, Distinct, Distinct-snoc, Option-cases, Bool-cases, inl, inr, Result, ok, err,
  Result-cases,
}
use mathlib.Core.Path.{subst}
use freens.Routing.Contact.{NodeContact, RoutingError}
use freens.Routing.Contact.Repoint.{IsTidy}
use freens.Routing.Bucket.{KBucket, is_full, refresh_node, add_or_refresh}
use freens.Routing.Bucket.Update.{
  ids, ids-snoc, refresh_node-length, refresh_node-ids, refresh_node-IsTidy, refresh_node-Distinct,
  refresh_node-absent,
}
use freens.Routing.Table.{RoutingTable, new_routing_table, bucket_index, with_bucket, add}

-- Bucket `i` of the table of `self`: at most `capacity` contacts, no ID twice, each in the bucket of
-- its ID and with its addresses in order.
pub record IsBucket (self_id : Bytes) (i capacity : ℕ) (b : KBucket) : Type 0 where
  pub same_capacity : b.capacity ≡ capacity
  pub bounded : length b.nodes ≤ capacity
  pub distinct : Distinct (ids b.nodes)
  pub placed : All (λ x. bucket_index self_id x ≡ ok i) (ids b.nodes)
  pub tidy : All IsTidy b.nodes

pub record IsTable (rt : RoutingTable) : Type 0 where
  pub each : (i : ℕ) → IsBucket rt.self_id i rt.capacity (rt.buckets i)

module _ (self_id : Bytes) (i capacity : ℕ) where
  add_or_refresh-IsBucket :
      (b : KBucket) (c : NodeContact)
      → IsBucket self_id i capacity b
      → IsTidy c
      → bucket_index self_id c.node_id ≡ ok i
      → IsBucket self_id i capacity (add_or_refresh b c).0
  unfolding add_or_refresh is_full
  add_or_refresh-IsBucket b c k t here = elim (Option-cases (refresh_node c b.nodes)) [
    | inr (nodes, e) ↦
        rw (e, add_or_refresh)
          (record {
            same_capacity = k.same_capacity;
            bounded = omega (arith, k.bounded, refresh_node-length c b.nodes nodes e);
            distinct = refresh_node-Distinct c b.nodes nodes e k.distinct;
            placed =
                refresh_node-ids c (λ x. bucket_index self_id x ≡ ok i) b.nodes nodes e k.placed;
            tidy = refresh_node-IsTidy c b.nodes nodes e k.tidy;
          })
    | inl e ↦ elim (Bool-cases (leb b.capacity (length b.nodes))) [
      | inl full ↦ rw (e, full, add_or_refresh) k
      | inr room ↦
          let fits : length b.nodes < b.capacity = ground arith in
          rw (e, room, add_or_refresh)
            (record {
              same_capacity = k.same_capacity;
              bounded = omega (arith, fits, k.same_capacity, length-append b.nodes (c ∷ []));
              distinct = rw (ids-snoc b.nodes c) (
                  Distinct-snoc (ids b.nodes) c.node_id k.distinct
                    (refresh_node-absent c b.nodes e));
              placed = rw (ids-snoc b.nodes c) (
                  All-append (λ x. bucket_index self_id x ≡ ok i) (ids b.nodes) (c.node_id ∷ [])
                    k.placed (here, tt));
              tidy = All-append IsTidy b.nodes (c ∷ []) k.tidy (t, tt);
            })
    ]
  ]

with_bucket-IsTable :
    (rt : RoutingTable) (i : ℕ) (b : KBucket)
    → IsTable rt
    → IsBucket rt.self_id i rt.capacity b
    → IsTable (with_bucket rt i b)
with_bucket-IsTable rt i b t k = record {
  each = λ j. elim (Bool-cases (i == j)) [
    | inr e ↦ rw e (t.each j)
    | inl e ↦ rw e (subst (λ x. IsBucket rt.self_id x rt.capacity b) (==→eq i j e) k)
  ];
}

-- The table of a result, if there is one, is well-formed.
abbrev Added : Result RoutingError (RoutingTable × Option NodeContact) → Type 0
Added (ok (rt, candidate)) = IsTable rt
Added (err e) = Unit

add-Added : (rt : RoutingTable) (c : NodeContact) → IsTable rt → IsTidy c → Added (add rt c)
unfolding add
add-Added rt c t tidy = elim (Result-cases (bucket_index rt.self_id c.node_id)) [
  | inr (e, q) ↦ rw (q, add) tt
  | inl (i, q) ↦
      rw (q, add)
        (with_bucket-IsTable rt i (add_or_refresh (rt.buckets i) c).0 t
          (add_or_refresh-IsBucket rt.self_id i rt.capacity (rt.buckets i) c (t.each i) tidy q))
]

-- Adding a contact with distinct addresses to a well-formed table gives one: no bucket goes over the
-- capacity, no ID is in the table twice, each is in the bucket of its distance from the table's own
-- ID, and each contact has distinct addresses and three alternatives at most.
pub add-IsTable :
    (rt rt' : RoutingTable) (c : NodeContact) (candidate : Option NodeContact)
    → IsTable rt
    → IsTidy c
    → add rt c ≡ ok (rt', candidate)
    → IsTable rt'
add-IsTable rt rt' c candidate t tidy h = subst Added h (add-Added rt c t tidy)

abbrev Formed : Result RoutingError RoutingTable → Type 0
Formed (ok rt) = IsTable rt
Formed (err e) = Unit

new-Formed : (self_id : Bytes) (capacity : ℕ) → Formed (new_routing_table self_id capacity)
unfolding new_routing_table
new-Formed self_id capacity = elim (Bool-cases (length self_id == 32)) [
  | inr e ↦ rw e tt
  | inl e ↦ elim (Bool-cases (capacity == 0)) [
    | inl z ↦ rw (e, z) tt
    | inr z ↦
        rw (e, z)
          (record {
            each = λ i. record {
              same_capacity = refl;
              bounded = omega arith;
              distinct = tt;
              placed = tt;
              tidy = tt;
            };
          })
  ]
]

-- The table that NewRoutingTable returns is well-formed.
pub new_routing_table-IsTable :
    (self_id : Bytes) (capacity : ℕ) (rt : RoutingTable)
    → new_routing_table self_id capacity ≡ ok rt
    → IsTable rt
new_routing_table-IsTable self_id capacity rt h = subst Formed h (new-Formed self_id capacity)
