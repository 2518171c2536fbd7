-- ===== src/Routing/Closest.antt =====
-- internal/dht/routing.go: RoutingTable.Closest and closestHeap. The heap's array is a list; a read
-- out of its range, which the code does not make, ends a loop. `sort.Slice` is a sort by insertion: it
-- promises no more than an order by the test, and no two contacts of a table are equally far.
pub mod Keys
pub mod Swap
pub mod Sift
pub mod Select
pub mod Nearest
use freens.Prelude.{
  ℕ, zero, suc, ◌+◌, ◌-◌, ◌*◌, ◌/◌, Bool, true, false, ◌&&◌, ltb, ◌==◌, List, [], ◌∷◌, ◌++◌, length,
  Bytes, Option, none, some, Ordering, if◌then◌else◌, get_elem?, set,
}
use freens.Ids.{compare_distance}
use freens.Routing.Contact.{NodeContact}
use freens.Routing.Table.{RoutingTable, all_contacts}

-- `CompareDistance(target, a, b) > 0` and `< 0`.
unfoldable pub is_farther : Bytes → NodeContact → NodeContact → Bool
is_farther target a b = elim (compare_distance target a.node_id b.node_id) [
  | Ordering.gt ↦ true
  | _ ↦ false
]

unfoldable pub is_nearer : Bytes → NodeContact → NodeContact → Bool
is_nearer target a b = elim (compare_distance target a.node_id b.node_id) [
  | Ordering.lt ↦ true
  | _ ↦ false
]

-- `l[i], l[j] = l[j], l[i]`
unfoldable pub exchange : List NodeContact → ℕ → NodeContact → ℕ → NodeContact → List NodeContact
exchange items i a j b = set (set items i b) j a

module _ (target : Bytes) where
  -- `i < len(h.items) && h.farther(i, j)`
  unfoldable pub farther : List NodeContact → ℕ → ℕ → Bool
  farther items i j = elim (get_elem? items i) [
    | none ↦ false
    | some a ↦ elim (get_elem? items j) [ none ↦ false | some b ↦ is_farther target a b ]
  ]

  unfoldable pub swap : List NodeContact → ℕ → ℕ → List NodeContact
  unfolding exchange
  swap items i j = elim (get_elem? items i) [
    | none ↦ items
    | some a ↦ elim (get_elem? items j) [ none ↦ items | some b ↦ exchange items i a j b ]
  ]

  -- The loop of `up`; the index falls in each round.
  unfoldable pub up : ℕ → ℕ → List NodeContact → List NodeContact
  unfolding farther swap
  up zero i items = items
  up (suc rounds) i items =
      let parent = (i - 1) / 2 in
      let next = up rounds parent (swap items parent i) in
      if i == 0 then items else (if farther items i parent then next else items)

  -- The larger of a place and its two children.
  unfoldable pub biggest : List NodeContact → ℕ → ℕ
  unfolding farther
  biggest items i =
      let big = if farther items (2 * i + 1) i then 2 * i + 1 else i in
      if farther items (2 * i + 2) big then 2 * i + 2 else big

  -- The loop of `down`; the index grows in each round, and stays below the length.
  unfoldable pub down : ℕ → ℕ → List NodeContact → List NodeContact
  unfolding biggest swap
  down zero i items = items
  down (suc rounds) i items =
      let big = biggest items i in
      let next = down rounds big (swap items big i) in if big == i then items else next

  -- One contact of the sweep.
  unfoldable pub offer : ℕ → List NodeContact → NodeContact → List NodeContact
  unfolding up down
  offer cap items c =
      if ltb (length items) cap
      then up (length items) (length items) (items ++ (c ∷ []))
      else (elim (get_elem? items 0) [
        | none ↦ items
        | some root ↦
            if is_nearer target c root then down (length items) 0 (set items 0 c) else items
      ])

  unfoldable pub select : ℕ → List NodeContact → List NodeContact → List NodeContact
  unfolding offer
  select cap items [] = items
  select cap items (c ∷ cs) = select cap (offer cap items c) cs

  unfoldable pub insert_contact : NodeContact → List NodeContact → List NodeContact
  insert_contact c [] = c ∷ []
  insert_contact c (d ∷ ds) =
      let later = d ∷ insert_contact c ds in if is_nearer target d c then later else c ∷ d ∷ ds

  unfoldable pub sort_contacts : List NodeContact → List NodeContact
  unfolding insert_contact
  sort_contacts [] = []
  sort_contacts (c ∷ cs) = insert_contact c (sort_contacts cs)

-- A number of contacts that is not positive is 0.
unfoldable pub closest : RoutingTable → Bytes → ℕ → List NodeContact
unfolding select sort_contacts
closest rt target n =
    if n == 0 then [] else sort_contacts target (select target n [] (all_contacts rt))
