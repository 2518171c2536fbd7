-- ===== src/Routing/Bucket.antt =====
-- internal/dht/routing.go: KBucket and its operations; `nodes` is ordered oldest first.
pub mod Update
pub mod Advertised
use freens.Prelude.{
  ℕ, zero, suc, ◌+◌, Bool, true, false, ◌&&◌, ltb, leb, List, [], ◌∷◌, ◌++◌, length, Bytes,
  bytes_eq, Option, none, some, if◌then◌else◌,
}
use freens.Routing.Contact.{NodeContact, AddrState, merge_addr}

pub record KBucket : Type 0 where
  pub index : ℕ
  pub capacity : ℕ
  pub nodes : List NodeContact

unfoldable pub is_full : KBucket → Bool
is_full b = leb b.capacity (length b.nodes)

unfoldable pub find_node : Bytes → List NodeContact → Option NodeContact
find_node node_id [] = none
find_node node_id (c ∷ rest) = if bytes_eq c.node_id node_id then some c else find_node node_id rest

-- The list without the first contact of that ID; `none` if there is none.
unfoldable pub remove_node : Bytes → List NodeContact → Option (List NodeContact)
remove_node node_id [] = none
remove_node node_id (c ∷ rest) =
    let later = remove_node node_id rest in
    if bytes_eq c.node_id node_id
    then some rest
    else (elim later [ none ↦ none | some rest' ↦ some (c ∷ rest') ])

-- The list with the first contact of that ID changed in place.
unfoldable pub change_node :
    (NodeContact → NodeContact) → Bytes → List NodeContact → Option (List NodeContact)
change_node f node_id [] = none
change_node f node_id (c ∷ rest) =
    let later = change_node f node_id rest in
    if bytes_eq c.node_id node_id
    then some (f c ∷ rest)
    else (elim later [ none ↦ none | some rest' ↦ some (c ∷ rest') ])

-- What a loop over the nodes of a bucket returns: the bucket, and whether the contact was present.
abbrev pub with_nodes : KBucket → Option (List NodeContact) → KBucket × Bool
with_nodes b none = (b, false)
with_nodes b (some nodes) = (record b { nodes = nodes }, true)

-- KBucket.Remove and KBucket.Demote.
unfoldable pub remove : KBucket → Bytes → KBucket × Bool
remove b node_id = with_nodes b (remove_node node_id b.nodes)

unfoldable pub demote : KBucket → Bytes → KBucket × Bool
demote b node_id = with_nodes b (change_node (λ c. record c { confirmed_at = 0 }) node_id b.nodes)

-- The fields of the stored contact `cur` after the observation `c` of the same node.
unfoldable pub refreshed : NodeContact → NodeContact → NodeContact
refreshed cur c =
    let merged =
      merge_addr (record cur { public_key = c.public_key }) c.addr c.last_seen c.confirmed_at in
    let risen = record merged {
      confirmed_at =
          if ltb merged.confirmed_at c.confirmed_at then c.confirmed_at else merged.confirmed_at;
    } in
    if ltb 0 c.confirmed_at then record risen { last_seen = c.last_seen } else risen

-- The nodes after a refresh of a known contact, moved to the tail by a direct exchange; `none` if
-- the contact is unknown.
unfoldable pub refresh_node : NodeContact → List NodeContact → Option (List NodeContact)
refresh_node c [] = none
refresh_node c (cur ∷ rest) =
    let later = refresh_node c rest in
    if bytes_eq cur.node_id c.node_id
    then some
        (if ltb 0 c.confirmed_at then rest ++ (refreshed cur c ∷ []) else refreshed cur c ∷ rest)
    else (elim later [ none ↦ none | some rest' ↦ some (cur ∷ rest') ])

abbrev pub head_node : List NodeContact → Option NodeContact
head_node [] = none
head_node (c ∷ rest) = some c

-- KBucket.AddOrRefresh: the bucket, and the eviction candidate if it is full.
unfoldable pub add_or_refresh : KBucket → NodeContact → KBucket × Option NodeContact
unfolding is_full
add_or_refresh b c = elim (refresh_node c b.nodes) [
  | some nodes ↦ (record b { nodes = nodes }, none)
  | none ↦
      if is_full b then (b, head_node b.nodes) else (record b { nodes = b.nodes ++ (c ∷ []) }, none)
]
