-- ===== src/Routing/Table.antt =====
-- internal/dht/routing.go: RoutingTable and its operations; citizenNow of
-- internal/dht/transport.go. The array of buckets is a function of the index.
pub mod Invariant
use freens.Prelude.{
  ℕ, zero, suc, ◌+◌, ◌-◌, Bool, true, false, ◌&&◌, ◌||◌, not, ltb, leb, ◌==◌, List, [], ◌∷◌, ◌++◌,
  length, set, Bytes, bytes_eq, Option, none, some, Result, ok, err, ◌>>=◌, ◌>>◌, require,
  if◌then◌else◌,
}
use freens.Ids.{common_prefix_length}
use freens.Routing.Contact.{NodeContact, AddrState, RoutingError}
use freens.Routing.Bucket
use freens.Routing.Bucket.{KBucket, find_node, change_node}

abbrev pub num_buckets : ℕ
num_buckets = 256

pub record RoutingTable : Type 0 where
  pub self_id : Bytes
  pub capacity : ℕ
  pub buckets : ℕ → KBucket

unfoldable pub new_routing_table : Bytes → ℕ → Result RoutingError RoutingTable
new_routing_table self_id capacity = do
  require (length self_id == 32) RoutingError.bad_self_id
  require (not (capacity == 0)) RoutingError.bad_capacity
  ok (record {
    self_id = self_id;
    capacity = capacity;
    buckets = λ i. record { index = i; capacity = capacity; nodes = [] };
  })

-- The index of the bucket of an ID, clamped to 255.
unfoldable pub bucket_index : Bytes → Bytes → Result RoutingError ℕ
bucket_index self_id node_id = do
  require (length node_id == 32) RoutingError.bad_node_id
  require (not (bytes_eq node_id self_id)) RoutingError.self_contact
  elim (common_prefix_length self_id node_id) [
    | none ↦ err RoutingError.bad_self_id
    | some idx ↦ ok (if ltb (num_buckets - 1) idx then num_buckets - 1 else idx)
  ]

abbrev pub with_bucket : RoutingTable → ℕ → KBucket → RoutingTable
with_bucket rt i b = record rt { buckets = λ j. if i == j then b else rt.buckets j }

unfoldable pub add :
    RoutingTable → NodeContact → Result RoutingError (RoutingTable × Option NodeContact)
add rt c = do
  i ← bucket_index rt.self_id c.node_id
  let (b, candidate) = Bucket.add_or_refresh (rt.buckets i) c
  ok (with_bucket rt i b, candidate)

-- An operation that changes the bucket of an ID, and does nothing where BucketFor fails.
abbrev pub on_bucket :
    (KBucket → Bytes → KBucket × Bool) → RoutingTable → Bytes → RoutingTable × Bool
on_bucket f rt node_id = elim (bucket_index rt.self_id node_id) [
  | err e ↦ (rt, false)
  | ok i ↦ let (b, done) = f (rt.buckets i) node_id in (with_bucket rt i b, done)
]

unfoldable pub remove : RoutingTable → Bytes → RoutingTable × Bool
remove = on_bucket Bucket.remove

unfoldable pub demote : RoutingTable → Bytes → RoutingTable × Bool
demote = on_bucket Bucket.demote

unfoldable pub get : RoutingTable → Bytes → Option NodeContact
get rt node_id = elim (bucket_index rt.self_id node_id) [
  | err e ↦ none
  | ok i ↦ find_node node_id (rt.buckets i).nodes
]

-- The inner loop of PromoteAlt on the contact of the ID: the index of the alternative at `addr`.
unfoldable pub find_alt : Bytes → ℕ → List AddrState → Option (ℕ × AddrState)
find_alt addr i [] = none
find_alt addr i (a ∷ rest) =
    if bytes_eq a.addr addr then some (i, a) else find_alt addr (suc i) rest

unfoldable pub promote_contact : Bytes → NodeContact → Option NodeContact
promote_contact addr c = elim (find_alt addr 0 c.alts) [
  | none ↦ none
  | some (i, a) ↦ some (record c {
    addr = a.addr;
    last_seen = a.last_seen;
    confirmed_at = a.confirmed_at;
    alts = set c.alts i (record { addr = c.addr; last_seen = c.last_seen; confirmed_at = 0 });
  })
]

-- The outer loop: it goes on to the next contact where the inner one finds nothing.
unfoldable pub promote_node : Bytes → Bytes → List NodeContact → Option (List NodeContact)
promote_node node_id addr [] = none
promote_node node_id addr (c ∷ rest) =
    let later = elim (promote_node node_id addr rest) as (λ o. Option (List NodeContact)) [
      | none ↦ none
      | some rest' ↦ some (c ∷ rest')
    ] in
    if bytes_eq c.node_id node_id
    then (elim (promote_contact addr c) [ none ↦ later | some c' ↦ some (c' ∷ rest) ])
    else later

unfoldable pub promote_alt : RoutingTable → Bytes → Bytes → RoutingTable × Bool
promote_alt rt node_id addr =
    on_bucket (λ b node_id. Bucket.with_nodes b (promote_node node_id addr b.nodes)) rt node_id

-- PruneStaleAlts on one contact's alternatives: those kept, and how many are dropped.
abbrev pub is_stale : ℕ → ℕ → AddrState → Bool
is_stale now older_than a = a.confirmed_at == 0 && ltb (older_than + a.last_seen) now

unfoldable pub keep_alts : ℕ → ℕ → List AddrState → List AddrState × ℕ
keep_alts now older_than [] = ([], 0)
keep_alts now older_than (a ∷ rest) =
    let (kept, dropped) = keep_alts now older_than rest in
    if is_stale now older_than a then (kept, dropped + 1) else (a ∷ kept, dropped)

unfoldable pub prune_nodes : ℕ → ℕ → List NodeContact → List NodeContact × ℕ
prune_nodes now older_than [] = ([], 0)
prune_nodes now older_than (c ∷ rest) =
    let (kept, dropped) = keep_alts now older_than c.alts in
    let (rest', dropped') = prune_nodes now older_than rest in
    (record c { alts = kept } ∷ rest', dropped + dropped')

-- The sum over the buckets 0 to n - 1.
unfoldable pub sum_buckets : (ℕ → ℕ) → ℕ → ℕ
sum_buckets f zero = 0
sum_buckets f (suc n) = sum_buckets f n + f n

unfoldable pub prune_stale_alts : RoutingTable → ℕ → ℕ → RoutingTable × ℕ
prune_stale_alts rt now older_than = (
  record rt {
    buckets =
        λ i. record (rt.buckets i) { nodes = (prune_nodes now older_than (rt.buckets i).nodes).0 };
  },
  sum_buckets (λ i. (prune_nodes now older_than (rt.buckets i).nodes).1) num_buckets,
)

unfoldable pub size : RoutingTable → ℕ
size rt = sum_buckets (λ i. length (rt.buckets i).nodes) num_buckets

unfoldable pub confirmed_in : List NodeContact → ℕ
confirmed_in [] = 0
confirmed_in (c ∷ rest) = (if ltb 0 c.confirmed_at then 1 else 0) + confirmed_in rest

unfoldable pub count_confirmed : RoutingTable → ℕ
count_confirmed rt = sum_buckets (λ i. confirmed_in (rt.buckets i).nodes) num_buckets

abbrev pub put_confirm_max_age : ℕ
put_confirm_max_age = 1800

abbrev pub put_citizen_min_age : ℕ
put_citizen_min_age = 600

unfoldable pub citizen_now : NodeContact → ℕ → Bool
citizen_now c now =
    not (c.confirmed_at == 0)
    && not (
        ltb (put_confirm_max_age + c.confirmed_at) now
        || ltb (put_confirm_max_age + c.last_seen) now)
    && (c.first_seen == 0 || leb (put_citizen_min_age + c.first_seen) now)

unfoldable pub citizens_in : List NodeContact → ℕ → List NodeContact
citizens_in [] now = []
citizens_in (c ∷ rest) now =
    if citizen_now c now then c ∷ citizens_in rest now else citizens_in rest now

-- What the buckets 0 to n - 1 give, in order.
unfoldable pub gather : (ℕ → List NodeContact) → ℕ → List NodeContact
gather f zero = []
gather f (suc n) = gather f n ++ f n

unfoldable pub citizens : RoutingTable → ℕ → List NodeContact
citizens rt now = gather (λ i. citizens_in (rt.buckets i).nodes now) num_buckets

unfoldable pub all_contacts : RoutingTable → List NodeContact
all_contacts rt = gather (λ i. (rt.buckets i).nodes) num_buckets
