-- ===== src/Claims/Pool/Sweep.antt =====
-- internal/dht/claims_pool.go: Sweep. Go's map range is the list of keys, from the first to the last.
use freens.Prelude.{
  ℕ, ◌+◌, ◌-◌, ◌%◌, ◌^◌, Bool, ◌||◌, not, ltb, leb, ◌==◌, List, [], ◌∷◌, length, Bytes, none, some,
  if◌then◌else◌,
}
use freens.Wire.Recovery.{seen_key}
use freens.Store.Entries.{delete, insert}
use freens.Claims.Claim.{Setting, prefix_hash}
use freens.Claims.Pool.{PooledClaim, ClaimPool, at, sizes, alias_reuse_delay}

-- The loops that keep what passes a test.
unfoldable pub retain : {A : Type 0} → (A → Bool) → List A → List A
retain test [] = []
retain test (x ∷ xs) = if test x then x ∷ retain test xs else retain test xs

-- The carrier has been expired for the reuse delay. The sum is an int64: from 2^63 on it is negative,
-- and `now` is not before it.
unfoldable pub spent : ℕ → PooledClaim → Bool
spent now m =
    let until = (m.env.body.expires + alias_reuse_delay) % 2 ^ 64 in
    not (ltb until (2 ^ 63)) || leb until now

unfoldable pub live_members : ℕ → List PooledClaim → List PooledClaim
unfolding spent retain
live_members now members = retain (λ m. not (spent now m)) members

unfoldable pub spent_members : ℕ → List PooledClaim → List PooledClaim
unfolding spent retain
spent_members now members = retain (λ m. spent now m) members

-- What is left of the identities of a key; the key goes with the last of them.
unfoldable pub prune :
    {V : Type 0}
    → Bytes
    → List Bytes
    → List (Bytes × List (Bytes × V))
    → List (Bytes × List (Bytes × V))
unfolding retain
prune k idents m =
    let left = retain (λ x. seen_key x.0 idents) (at k m) in
    if length left == 0 then delete k m else insert k left m

module _ (s : Setting) where
  -- The identities of the members kept.
  unfoldable pub live_idents : List PooledClaim → List Bytes
  live_idents [] = []
  live_idents (m ∷ ms) = elim (prefix_hash s m.claim) [
    | none ↦ live_idents ms
    | some ph ↦ ph ∷ live_idents ms
  ]

  -- One round of the loop over the keys.
  unfoldable pub sweep_key : ℕ → Bytes → List PooledClaim → ClaimPool → ClaimPool
  unfolding live_members spent_members live_idents prune
  sweep_key now k members p =
      let kept = live_members now members in
      let left = p.bytes - sizes (spent_members now members) in
      if length kept == 0
      then record p {
        by_key = delete k p.by_key;
        bytes = left;
        first_seen = delete k p.first_seen;
        reattests = delete k p.reattests;
      }
      else record p {
        by_key = insert k kept p.by_key;
        bytes = left;
        first_seen = prune k (live_idents kept) p.first_seen;
        reattests = prune k (live_idents kept) p.reattests;
      }

  -- The loop: the pool, the keys without a member left, and the number of members dropped.
  unfoldable pub sweep_from :
      ℕ → List (Bytes × List PooledClaim) → ClaimPool → ClaimPool × List Bytes × ℕ
  unfolding sweep_key
  sweep_from now [] p = (p, [], 0)
  sweep_from now ((k, members) ∷ rest) p =
      let (q, dead, dropped) = sweep_from now rest (sweep_key now k members p) in
      (
        q,
        if length (live_members now members) == 0 then k ∷ dead else dead,
        length (spent_members now members) + dropped,
      )

  unfoldable pub sweep : ℕ → ClaimPool → ClaimPool × ℕ
  unfolding sweep_from
  sweep now p =
      let (q, dead, dropped) = sweep_from now p.by_key p in
      (record q { order = retain (λ k. not (seen_key k dead)) q.order }, dropped)
