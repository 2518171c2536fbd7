-- ===== src/Tests/Routing.antt =====
-- A routing table of internal/dht/routing.go to which a contact is added.
use freens.Prelude.{◌≡◌, refl, [], ◌∷◌, none, ok, bytes_eq, arith}
use freens.Ids.Distance.{IsId}
use freens.Ids.{check_id, bit_len_u8, common_prefix_length}
use freens.Routing.Contact.{NodeContact}
use freens.Routing.Contact.Repoint.{IsTidy}
use freens.Routing.Bucket.Advertised.{refreshed_advertised}
use freens.Routing.Bucket.{refreshed, add_or_refresh, refresh_node, is_full}
use freens.Routing.Table.{
  RoutingTable, new_routing_table, bucket_index, with_bucket, add, gather, all_contacts,
}
use freens.Routing.Closest.{closest}
use freens.Routing.Closest.Nearest.{IsNearest, closest-IsNearest}
use freens.Routing.Table.Invariant.{IsTable, add-IsTable, new_routing_table-IsTable}
use freens.Tests.Wire.Records.{text}

abbrev contact : NodeContact
contact = record {
  node_id = text 64 32;
  public_key = text 5 32;
  addr = 1 ∷ [];
  last_seen = 100;
  confirmed_at = 100;
  first_seen = 0;
  alts = record { addr = 2 ∷ []; last_seen = 90; confirmed_at = 0 } ∷ [];
}

contact-IsTidy : IsTidy contact
contact-IsTidy = record { distinct = ground arith; bounded = omega arith }

abbrev empty : RoutingTable
empty = record {
  self_id = text 0 32;
  capacity = 20;
  buckets = λ i. record { index = i; capacity = 20; nodes = [] };
}

abbrev one : RoutingTable
one = with_bucket empty 1 (record { index = 1; capacity = 20; nodes = contact ∷ [] })

run_new : new_routing_table (text 0 32) 20 ≡ ok empty
unfolding new_routing_table
run_new = refl

run_add : add empty contact ≡ ok (one, none)
unfolding add add_or_refresh refresh_node is_full bucket_index common_prefix_length check_id
    bit_len_u8 bytes_eq
run_add = refl

empty-IsTable : IsTable empty
empty-IsTable = new_routing_table-IsTable (text 0 32) 20 empty run_new

add-IsTable_example : IsTable one
add-IsTable_example = add-IsTable empty one contact none empty-IsTable contact-IsTidy run_add

-- What another node says of the contact, later and at another address.
abbrev heard : NodeContact
heard = record contact { addr = 7 ∷ []; last_seen = 500; confirmed_at = 0 }

refreshed_advertised_example :
    ((refreshed (record contact { confirmed_at = 0; alts = [] }) heard).addr ≡ 7 ∷ [])
    × ((refreshed (record contact { confirmed_at = 0; alts = [] }) heard).last_seen ≡ 500)
refreshed_advertised_example = refreshed_advertised contact heard (λ e. ground arith) (omega arith)

-- A table with two contacts in one bucket, the farther one from `text 65 32` first.
abbrev other : NodeContact
other = record contact { node_id = text 65 32 }

abbrev two : RoutingTable
two = with_bucket empty 1 (record { index = 1; capacity = 20; nodes = contact ∷ other ∷ [] })

two_contacts : all_contacts two ≡ contact ∷ other ∷ []
unfolding all_contacts gather
two_contacts = refl

text-IsId : IsId (text 65 32)
text-IsId = record { len = refl; bytes = omega arith }

contact-IsId : IsId contact.node_id
contact-IsId = record { len = refl; bytes = omega arith }

closest-IsNearest_example : IsNearest (text 65 32) (all_contacts two) (closest two (text 65 32) 1) 1
closest-IsNearest_example =
    closest-IsNearest two (text 65 32) 1 text-IsId (rw two_contacts (contact-IsId, (text-IsId, tt)))
