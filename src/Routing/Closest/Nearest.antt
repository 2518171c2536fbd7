-- ===== src/Routing/Closest/Nearest.antt =====
-- RoutingTable.Closest returns the nearest contacts of the table, in order.
use mathlib.Core.List.{Perm}
use mathlib.Core.List.Perm
use freens.Prelude.{
  ℕ, suc, ◌+◌, ◌≤◌, ◌≡◌, refl, ◌==◌, min, List, [], ◌∷◌, ◌++◌, length, Bytes, All, Bool-cases, inl,
  inr, arith,
}
use freens.Ids.Distance.{IsId}
use freens.Routing.Contact.{NodeContact}
use freens.Routing.Table.{RoutingTable, all_contacts}
use freens.Routing.Closest.{is_nearer, select, insert_contact, sort_contacts, closest}
use freens.Routing.Closest.Swap.{dist, key, AllIds}
use freens.Routing.Closest.Sift.{is_nearer-dist}
use freens.Routing.Closest.Select.{no_items-IsReady, select-Selected}

module _ (target : Bytes) where
  abbrev pub IsAscending : List NodeContact → Type 0
  IsAscending [] = Unit
  IsAscending (c ∷ cs) = All (λ d. dist target c ≤ dist target d) cs × IsAscending cs

  insert_contact-All :
      (P : NodeContact → Type 0) (c : NodeContact) (cs : List NodeContact)
      → P c
      → All P cs
      → All P (insert_contact target c cs)
  unfolding insert_contact
  insert_contact-All P c [] h g = (h, tt)
  insert_contact-All P c (d ∷ ds) h g = elim (Bool-cases (is_nearer target d c)) [
    | inl e ↦ rw (e, insert_contact) (g.0, insert_contact-All P c ds h g.1)
    | inr e ↦ rw (e, insert_contact) (h, g)
  ]

  sort_contacts-All :
      (P : NodeContact → Type 0) (cs : List NodeContact)
      → All P cs
      → All P (sort_contacts target cs)
  unfolding sort_contacts
  sort_contacts-All P [] g = tt
  sort_contacts-All P (c ∷ cs) g = insert_contact-All P c _ g.0 (sort_contacts-All P cs g.1)

  insert_contact-perm :
      (c : NodeContact) (cs : List NodeContact) → Perm (insert_contact target c cs) (c ∷ cs)
  unfolding insert_contact
  insert_contact-perm c [] = Perm.refl (c ∷ [])
  insert_contact-perm c (d ∷ ds) = elim (Bool-cases (is_nearer target d c)) [
    | inl e ↦
        rw (e, insert_contact)
          (Perm.trans (Perm.cons d (insert_contact-perm c ds)) (Perm.swap c d ds))
    | inr e ↦ rw (e, insert_contact) (Perm.refl (c ∷ d ∷ ds))
  ]

  sort_contacts-perm : (cs : List NodeContact) → Perm (sort_contacts target cs) cs
  unfolding sort_contacts
  sort_contacts-perm [] = Perm.refl []
  sort_contacts-perm (c ∷ cs) =
      Perm.trans (insert_contact-perm c _) (Perm.cons c (sort_contacts-perm cs))

  insert_contact-length :
      (c : NodeContact) (cs : List NodeContact)
      → length (insert_contact target c cs) ≡ length cs + 1
  unfolding insert_contact
  insert_contact-length c [] = omega arith
  insert_contact-length c (d ∷ ds) = ground (arith, insert_contact-length c ds)

  sort_contacts-length : (cs : List NodeContact) → length (sort_contacts target cs) ≡ length cs
  unfolding sort_contacts
  sort_contacts-length [] = refl
  sort_contacts-length (c ∷ cs) =
      omega (arith, insert_contact-length c (sort_contacts target cs), sort_contacts-length cs)

  weaken :
      (c d : NodeContact) (ds : List NodeContact)
      → dist target c ≤ dist target d
      → All (λ x. dist target d ≤ dist target x) ds
      → All (λ x. dist target c ≤ dist target x) ds
  weaken c d [] le g = tt
  weaken c d (x ∷ ds) le g = (omega (arith, le, g.0), weaken c d ds le g.1)

  module _ (ht : IsId target) where
    insert_contact-IsAscending :
        (c : NodeContact) (cs : List NodeContact)
        → IsId c.node_id
        → AllIds cs
        → IsAscending cs
        → IsAscending (insert_contact target c cs)
    unfolding insert_contact
    insert_contact-IsAscending c [] hc g a = (tt, tt)
    insert_contact-IsAscending c (d ∷ ds) hc g a =
        let test = is_nearer-dist target ht d c g.0 hc in
        elim (Bool-cases (is_nearer target d c)) [
          | inl e ↦
              let le : dist target d ≤ dist target c = ground arith in
              rw (e, insert_contact)
                (
                  insert_contact-All (λ x. dist target d ≤ dist target x) c ds le a.0,
                  insert_contact-IsAscending c ds hc g.1 a.1,
                )
          | inr e ↦
              let le : dist target c ≤ dist target d = ground arith in
              rw (e, insert_contact) ((le, weaken c d ds le a.0), a)
        ]

    sort_contacts-IsAscending :
        (cs : List NodeContact) → AllIds cs → IsAscending (sort_contacts target cs)
    unfolding sort_contacts
    sort_contacts-IsAscending [] g = tt
    sort_contacts-IsAscending (c ∷ cs) g =
        insert_contact-IsAscending c _ g.0
          (sort_contacts-All (λ (d : NodeContact). IsId d.node_id) cs g.1)
          (sort_contacts-IsAscending cs g.1)

  keys_below :
      (b : ℕ) (xs : List NodeContact)
      → ((k : ℕ) → key target xs k ≤ b)
      → All (λ x. dist target x ≤ b) xs
  unfolding key
  keys_below b [] h = tt
  keys_below b (x ∷ xs) h = (h 0, keys_below b xs (λ k. h (suc k)))

  far_sorted :
      (out dropped : List NodeContact)
      → All (λ y. (k : ℕ) → key target out k ≤ dist target y) dropped
      → All (λ y. All (λ x. dist target x ≤ dist target y) (sort_contacts target out)) dropped
  far_sorted out [] h = tt
  far_sorted out (y ∷ ys) h = (
    sort_contacts-All (λ x. dist target x ≤ dist target y) out (keys_below (dist target y) out h.0),
    far_sorted out ys h.1,
  )

  no_bound : (ys : List NodeContact) → All (λ y. All (λ x. dist target x ≤ dist target y) []) ys
  no_bound [] = tt
  no_bound (y ∷ ys) = (tt, no_bound ys)

  -- What the lookup of the n nearest contacts promises: those returned and the rest are the contacts
  -- of the table, those returned are in the order of their distance, none of the rest is nearer than
  -- any of them, and they are n, or all where the table has fewer.
  pub record IsNearest (contacts out : List NodeContact) (n : ℕ) : Type 0 where
    pub rest : List NodeContact
    pub perm : Perm (out ++ rest) contacts
    pub ascending : IsAscending out
    pub farther : All (λ y. All (λ x. dist target x ≤ dist target y) out) rest
    pub count : length out ≡ min n (length contacts)

-- Closest returns the n nearest contacts of the table, or all where it has fewer, in the order of
-- their distance to the target, for a target and contacts with well-formed IDs.
pub closest-IsNearest :
    (rt : RoutingTable) (target : Bytes) (n : ℕ)
    → IsId target
    → AllIds (all_contacts rt)
    → IsNearest target (all_contacts rt) (closest rt target n) n
unfolding closest
closest-IsNearest rt target n ht g = elim (Bool-cases (n == 0)) [
  | inl z ↦
      rw (z, closest)
        (record {
          rest = all_contacts rt;
          perm = Perm.refl (all_contacts rt);
          ascending = tt;
          farther = no_bound target (all_contacts rt);
          count = ground arith;
        })
  | inr nz ↦
      let out = select target n [] (all_contacts rt) in
      let s =
        select-Selected target n ht (ground arith) (all_contacts rt) [] g
          (no_items-IsReady target n) in
      rw (nz, closest)
        (record {
          rest = s.dropped;
          perm =
              Perm.trans (Perm.append (sort_contacts-perm target out) (Perm.refl s.dropped)) s.perm;
          ascending = sort_contacts-IsAscending target ht out s.ids;
          farther = far_sorted target out s.dropped s.far;
          count = omega (arith, sort_contacts-length target out, s.len);
        })
]
