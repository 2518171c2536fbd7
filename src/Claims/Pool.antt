-- ===== src/Claims/Pool.antt =====
-- internal/dht/claims_pool.go: ClaimPool, in memory. A key is 32 bytes; the hexadecimal text of a
-- prefix hash is kept as the hash. Times are seconds and not negative. The sizes that are taken off
-- `bytes` have been added to it before. The lock makes each operation one step.
pub mod Top
pub mod Stamp
pub mod Sweep
pub mod Budget
pub mod Swept
pub mod Runs
pub mod Landing
use freens.Prelude.{
  ℕ, zero, suc, ◌+◌, ◌-◌, Bool, true, false, ◌&&◌, ◌||◌, not, ltb, leb, ◌==◌, List, [], ◌∷◌, ◌++◌,
  length, drop, Bytes, bytes_eq, Option, none, some, Result, ok, err, if◌then◌else◌, ℤ, map,
}
use freens.Wire.Record.{Envelope, Platform, hash_len, bytes_of, record_hash}
use freens.Wire.Recovery.{seen_key}
use freens.Store.Entries.{lookup, delete, insert}
use freens.Claims.Attestation.{WitnessAttestation}
use freens.Claims.Claim.{
  ClaimOf, AliasClaim, Setting, decode_alias_claim, verify_claimant_consistency, verify_pow,
  prefix_hash,
}
use freens.Claims.Order.{less_order_key}

abbrev pub claim_pool_max_keys : ℕ
claim_pool_max_keys = 4096

abbrev pub claim_pool_max_bytes : ℕ
claim_pool_max_bytes = 16777216

abbrev pub re_attest_max_sets : ℕ
re_attest_max_sets = 16

abbrev pub re_attest_hold : ℕ
re_attest_hold = 86400

abbrev pub alias_reuse_delay : ℕ
alias_reuse_delay = 2592000

pub record PooledClaim : Type 0 where
  pub env : Envelope
  pub claim : AliasClaim
  pub h : Bytes
  pub size : ℕ

pub record ClaimPool : Type 0 where
  pub by_key : List (Bytes × List PooledClaim)
  pub order : List Bytes
  pub bytes : ℕ
  pub max_keys : ℕ
  pub max_bytes : ℕ
  pub first_seen : List (Bytes × List (Bytes × ℕ))
  pub reattests : List (Bytes × List (Bytes × List WitnessAttestation))

unfoldable pub new_claim_pool : ClaimPool
new_claim_pool = record {
  by_key = [];
  order = [];
  bytes = 0;
  max_keys = claim_pool_max_keys;
  max_bytes = claim_pool_max_bytes;
  first_seen = [];
  reattests = [];
}

-- `m[k]` of a map of slices or maps: a missing one is empty.
abbrev pub at : {A : Type 0} → Bytes → List (Bytes × List A) → List A
at k m = elim (lookup k m) [ none ↦ [] | some xs ↦ xs ]

-- `cur[0], cur[1] = cur[1], cur[0]` where the second is the better one.
unfoldable pub best_first : PooledClaim → PooledClaim → List PooledClaim
best_first a b = if less_order_key b.claim a.claim then b ∷ a ∷ [] else a ∷ b ∷ []

-- The members of a key with a newcomer, and the size of the one that leaves; `none` if the newcomer
-- does not beat the worst of two.
unfoldable pub place : PooledClaim → List PooledClaim → Option (List PooledClaim × ℕ)
unfolding best_first
place pc [] = some (pc ∷ [], 0)
place pc (a ∷ []) = some (best_first a pc, 0)
place pc (a ∷ b ∷ rest) =
    if less_order_key pc.claim b.claim then some (best_first a pc, b.size) else none

unfoldable pub has_hash : Bytes → List PooledClaim → Bool
has_hash h [] = false
has_hash h (m ∷ ms) = bytes_eq m.h h || has_hash h ms

unfoldable pub sizes : List PooledClaim → ℕ
sizes [] = 0
sizes (m ∷ ms) = m.size + sizes ms

unfoldable pub over_budget : ClaimPool → Bool
over_budget p = ltb p.max_keys (length p.by_key) || ltb p.max_bytes p.bytes

unfoldable pub evict_key : ClaimPool → Bytes → ClaimPool
unfolding sizes
evict_key p oldest = record p {
  by_key = delete oldest p.by_key;
  bytes = p.bytes - sizes (at oldest p.by_key);
  first_seen = delete oldest p.first_seen;
  reattests = delete oldest p.reattests;
}

-- The loop of evictOverBudgetLocked, on the keys left in the order of insertion.
unfoldable pub evict_from : Bytes → List Bytes → ClaimPool → ClaimPool
unfolding over_budget evict_key
evict_from protected [] p = record p { order = [] }
evict_from protected (oldest ∷ rest) p =
    let next = evict_from protected rest (evict_key p oldest) in
    if over_budget p
    then (if bytes_eq oldest protected && length rest == 0
        then record p { order = oldest ∷ rest }
        else next)
    else record p { order = oldest ∷ rest }

unfoldable pub evict_over_budget : ClaimPool → Bytes → ClaimPool
unfolding evict_from
evict_over_budget p protected = evict_from protected p.order p

-- The first-seen time of an identity is set once.
unfoldable pub stamp : ClaimPool → Bytes → Bytes → ℕ → ℕ → ClaimPool
stamp p k ph now first_seen =
    let ids = at k p.first_seen in
    let fs = if ltb 0 first_seen && ltb first_seen now then first_seen else now in
    record p {
      first_seen =
          insert k (elim (lookup ph ids) [ some t ↦ ids | none ↦ insert ph fs ids ]) p.first_seen;
    }

-- The part of OfferSeen after the stamp.
unfoldable pub join : ClaimPool → Bytes → PooledClaim → ClaimPool × Bool
unfolding has_hash place
join p k pc =
    if has_hash pc.h (at k p.by_key) then (p, false) else (elim (place pc (at k p.by_key)) [
      | none ↦ (p, false)
      | some (members, dropped) ↦
          let p' = record p {
            by_key = insert k members p.by_key;
            bytes = p.bytes - dropped + pc.size;
          } in
          (
            elim (lookup k p.by_key) [
              | some old ↦ p'
              | none ↦ evict_over_budget (record p' { order = p.order ++ (k ∷ []) }) k
            ],
            true,
          )
    ])

module _ (s : Setting) (unmarshal : Bytes → Option (ClaimOf (Option WitnessAttestation))) where
  -- What OfferSeen makes of an envelope before it takes the lock: the pool's member, and the claim's
  -- identity. `none` is a return of false, or the panic of the decoder, before any change.
  unfoldable pub screen : Envelope → Option (PooledClaim × Bytes)
  screen env = elim (decode_alias_claim s unmarshal (bytes_of env.body.claim)) [
    | err e ↦ none
    | ok claim ↦
        if verify_claimant_consistency s claim && verify_pow s claim (ℤ.negsuc 0)
        then (elim (prefix_hash s claim) [
          | none ↦ none
          | some ph ↦ elim (record_hash s.platform env) [
            | none ↦ none
            | some h ↦ elim (s.platform.marshal_envelope env) [
              | none ↦ none
              | some raw ↦ some (record { env = env; claim = claim; h = h; size = length raw }, ph)
            ]
          ]
        ])
        else none
  ]

  unfoldable pub offer_seen : ClaimPool → Bytes → Option Envelope → ℕ → ℕ → ClaimPool × Bool
  offer_seen p key none now first_seen = (p, false)
  offer_seen p key (some env) now first_seen =
      if length key == hash_len
      then (elim (screen env) [
        | none ↦ (p, false)
        | some (pc, ph) ↦ join (stamp p key ph now first_seen) key pc
      ])
      else (p, false)

unfoldable pub contains : ClaimPool → Bytes → Bytes → Bool
contains p key h = length key == hash_len && length h == hash_len && has_hash h (at key p.by_key)

unfoldable pub top2 : ClaimPool → Bytes → List Envelope
top2 p key = if length key == hash_len then map (λ m. m.env) (at key p.by_key) else []

unfoldable pub identity_first_seen : ClaimPool → Bytes → Bytes → Option ℕ
identity_first_seen p key ph = elim (length key == hash_len) [
  | true ↦ lookup ph (at key p.first_seen)
  | false ↦ none
]

unfoldable pub same_attestation : WitnessAttestation → WitnessAttestation → Bool
same_attestation a b = bytes_eq a.node_id b.node_id && a.ts == b.ts && bytes_eq a.sig b.sig

unfoldable pub has_attestation : WitnessAttestation → List WitnessAttestation → Bool
has_attestation a [] = false
has_attestation a (b ∷ bs) = same_attestation b a || has_attestation a bs

-- The loop of StoreReAttests, on the attestations stored.
unfoldable pub add_attestations :
    List WitnessAttestation → List WitnessAttestation → List WitnessAttestation
add_attestations have [] = have
add_attestations have (a ∷ atts) =
    add_attestations (if has_attestation a have then have else have ++ (a ∷ [])) atts

-- `cur[len(cur)-reAttestMaxSets:]` where there are more.
unfoldable pub newest : List WitnessAttestation → List WitnessAttestation
newest cur = drop (length cur - re_attest_max_sets) cur

unfoldable pub store_re_attests : ClaimPool → Bytes → Bytes → List WitnessAttestation → ClaimPool
store_re_attests p key ph [] = p
store_re_attests p key ph (a ∷ atts) =
    let ids = at key p.reattests in
    if length key == hash_len
    then record p {
      reattests =
          insert key (insert ph (newest (add_attestations (at ph ids) (a ∷ atts))) ids) p.reattests;
    }
    else p

unfoldable pub re_attests_of : ClaimPool → Bytes → Bytes → List WitnessAttestation
re_attests_of p key ph = if length key == hash_len then at ph (at key p.reattests) else []

unfoldable pub re_attest_eligible : ClaimPool → Bytes → Bytes → ℕ → Bool
re_attest_eligible p key ph now = elim (identity_first_seen p key ph) [
  | none ↦ false
  | some fs ↦ leb (re_attest_hold + fs) now
]
