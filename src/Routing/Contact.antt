-- ===== src/Routing/Contact.antt =====
-- internal/dht/routing.go: NodeContact, AddrState, NewNodeContact, mergeAddr,
-- repointPreferredIfNeeded, addrOutranks and trimAlts.
pub mod Repoint
pub mod Addresses
use freens.Prelude.{
  ℕ, zero, suc, ◌+◌, ◌-◌, Bool, true, false, ◌&&◌, ◌||◌, ltb, ◌==◌, List, [], ◌∷◌, ◌++◌, length,
  Bytes, bytes_eq, Option, none, some, Result, ok, err, ◌>>◌, ◌>>=◌, require, not, if◌then◌else◌,
  set, remove_at,
}

pub record AddrState : Type 0 where
  pub addr : Bytes
  pub last_seen : ℕ
  pub confirmed_at : ℕ

pub record NodeContact : Type 0 where
  pub node_id : Bytes
  pub public_key : Bytes
  pub addr : Bytes
  pub last_seen : ℕ
  pub confirmed_at : ℕ
  pub first_seen : ℕ
  pub alts : List AddrState

abbrev pub max_addrs_per_contact : ℕ
max_addrs_per_contact = 4

pub data RoutingError : Type 0 where
  bad_node_id bad_public_key empty_addr bad_self_id bad_capacity self_contact : RoutingError

unfoldable pub new_node_contact : Bytes → Bytes → Bytes → ℕ → Result RoutingError NodeContact
new_node_contact node_id public_key addr last_seen = do
  require (length node_id == 32) RoutingError.bad_node_id
  require (length public_key == 32) RoutingError.bad_public_key
  require (not (length addr == 0)) RoutingError.empty_addr
  ok (record {
    node_id = node_id;
    public_key = public_key;
    addr = addr;
    last_seen = last_seen;
    confirmed_at = 0;
    first_seen = 0;
    alts = [];
  })

-- addrOutranks: a fresher confirmation wins; with none on either side, the fresher learn wins.
unfoldable pub addr_outranks : ℕ → ℕ → ℕ → ℕ → Bool
addr_outranks in_confirmed in_last_seen cur_confirmed cur_last_seen =
    if ltb 0 in_confirmed || ltb 0 cur_confirmed
    then ltb cur_confirmed in_confirmed
    else ltb cur_last_seen in_last_seen

abbrev pub outranks : AddrState → AddrState → Bool
outranks a b = addr_outranks a.confirmed_at a.last_seen b.confirmed_at b.last_seen

-- The preferred address, as one of the others.
abbrev pub preferred : NodeContact → AddrState
preferred c = record { addr = c.addr; last_seen = c.last_seen; confirmed_at = c.confirmed_at }

-- The loop of repointPreferredIfNeeded: the best of the alternatives that outrank the preferred
-- address, with its index.
unfoldable pub best_from :
    AddrState → ℕ → Option (ℕ × AddrState) → List AddrState → Option (ℕ × AddrState)
best_from cur i best [] = best
best_from cur i best (a ∷ rest) =
    best_from cur (suc i)
      (if outranks a cur
        then (elim best [
          | none ↦ some (i, a)
          | some (j, b) ↦ if outranks a b then some (i, a) else some (j, b)
        ])
        else best)
      rest

-- The preferred address changes places with the alternative at an index.
abbrev pub repoint : NodeContact → ℕ → AddrState → AddrState → NodeContact
repoint c i a old = record c {
  addr = a.addr;
  last_seen = a.last_seen;
  confirmed_at = a.confirmed_at;
  alts = set c.alts i old;
}

unfoldable pub repoint_preferred_if_needed : NodeContact → NodeContact
repoint_preferred_if_needed c = elim (best_from (preferred c) 0 none c.alts) [
  | none ↦ c
  | some (i, a) ↦ repoint c i a (preferred c)
]

-- The index of the first of the least recently seen; `best` and `low` are those so far.
unfoldable pub oldest_from : ℕ → ℕ → ℕ → List AddrState → ℕ
oldest_from i best low [] = best
oldest_from i best low (a ∷ rest) =
    oldest_from (suc i) (if ltb a.last_seen low then i else best)
      (if ltb a.last_seen low then a.last_seen else low) rest

unfoldable pub oldest : List AddrState → ℕ
oldest [] = 0
oldest (a ∷ rest) = oldest_from 1 0 a.last_seen rest

-- The loop of trimAlts. Each round drops one, so a round for each alternative is enough.
unfoldable pub trim_loop : ℕ → List AddrState → List AddrState
trim_loop zero alts = alts
trim_loop (suc fuel) alts =
    let dropped = trim_loop fuel (remove_at (oldest alts) alts) in
    if ltb (max_addrs_per_contact - 1) (length alts) then dropped else alts

unfoldable pub trim_alts : NodeContact → NodeContact
trim_alts c = record c { alts = trim_loop (length c.alts) c.alts }

-- The alternatives with the one at `addr` updated, if there is one.
unfoldable pub update_alt : Bytes → ℕ → ℕ → List AddrState → Option (List AddrState)
update_alt addr last_seen confirmed_at [] = none
update_alt addr last_seen confirmed_at (a ∷ rest) =
    let later = update_alt addr last_seen confirmed_at rest in
    if bytes_eq a.addr addr
    then some (
        record {
          addr = a.addr;
          last_seen = last_seen;
          confirmed_at = if ltb a.confirmed_at confirmed_at then confirmed_at else a.confirmed_at;
        }
        ∷ rest)
    else (elim later [ none ↦ none | some rest' ↦ some (a ∷ rest') ])

unfoldable pub merge_addr : NodeContact → Bytes → ℕ → ℕ → NodeContact
merge_addr c addr last_seen confirmed_at =
    if bytes_eq addr c.addr then c else (elim (update_alt addr last_seen confirmed_at c.alts) [
      | some alts ↦ repoint_preferred_if_needed (record c { alts = alts })
      | none ↦ repoint_preferred_if_needed (
          trim_alts (record c {
            alts =
                c.alts
                ++ (record { addr = addr; last_seen = last_seen; confirmed_at = confirmed_at }
                    ∷ []);
          }))
    ])
