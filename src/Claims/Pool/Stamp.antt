-- ===== src/Claims/Pool/Stamp.antt =====
-- OfferSeen sets the first-seen time also of a claim that it does not pool.
use freens.Prelude.{
  ℕ, ◌+◌, ◌≡◌, refl, true, false, List, [], ◌∷◌, length, Bytes, bytes_eq_refl, Option, none, some,
  arith,
}
use freens.Wire.Record.{Envelope}
use freens.Store.Entries.{lookup, insert}
use freens.Claims.Attestation.{WitnessAttestation}
use freens.Claims.Claim.{ClaimOf, Setting}
use freens.Claims.Order.{less_order_key}
use freens.Claims.Pool.{
  PooledClaim, ClaimPool, at, place, has_hash, stamp, join, screen, offer_seen, identity_first_seen,
  re_attest_eligible,
}
use freens.Claims.Pool.Top.{at-insert}

lookup-insert :
    {A : Type 0} (k : Bytes) (v : A) (m : List (Bytes × A)) → lookup k (insert k v m) ≡ some v
unfolding lookup
lookup-insert k v m = ground (arith, bytes_eq_refl k)

join_worse :
    (q : ClaimPool) (key : Bytes) (a b pc : PooledClaim)
    → lookup key q.by_key ≡ some (a ∷ b ∷ [])
    → less_order_key pc.claim b.claim ≡ false
    → has_hash pc.h (a ∷ b ∷ []) ≡ false
    → join q key pc ≡ (q, false)
unfolding join place
join_worse q key a b pc held worse fresh = ground (arith, held, worse, fresh)

-- The first stamp of an identity is the time of the offer.
stamp_new :
    (p : ClaimPool) (key ph : Bytes) (now : ℕ)
    → length key ≡ 32
    → identity_first_seen p key ph ≡ none
    → identity_first_seen (stamp p key ph now 0) key ph ≡ some now
unfolding stamp identity_first_seen
stamp_new p key ph now size new =
    let empty : lookup ph (at key p.first_seen) ≡ none = ground arith in
    let added = at-insert key (insert ph now (at key p.first_seen)) p.first_seen in
    let found = lookup-insert ph now (at key p.first_seen) in ground (arith, empty, added, found)

module _ (s : Setting) (unmarshal : Bytes → Option (ClaimOf (Option WitnessAttestation)))
    (p : ClaimPool) (key : Bytes) (env : Envelope) (now : ℕ) (a b pc : PooledClaim)
    (ph : Bytes) where
  -- A claim that is offered for the first time under a key with two members, and does not beat the
  -- second, is not pooled. Its identity is eligible for a re-attestation all the same, once the holding
  -- period has passed since the offer.
  pub offer_seen-re_attest_eligible :
      length key ≡ 32
      → screen s unmarshal env ≡ some (pc, ph)
      → lookup key p.by_key ≡ some (a ∷ b ∷ [])
      → less_order_key pc.claim b.claim ≡ false
      → has_hash pc.h (a ∷ b ∷ []) ≡ false
      → identity_first_seen p key ph ≡ none
      → ((offer_seen s unmarshal p key (some env) now 0).1 ≡ false)
        × ((offer_seen s unmarshal p key (some env) now 0).0.by_key ≡ p.by_key)
        × (re_attest_eligible (offer_seen s unmarshal p key (some env) now 0).0 key ph (now + 86400)
            ≡ true)
  unfolding offer_seen re_attest_eligible
  offer_seen-re_attest_eligible size passed held worse fresh new =
      let q = stamp p key ph now 0 in
      let held' : lookup key q.by_key ≡ some (a ∷ b ∷ []) = unfold stamp in held in
      let rejected = join_worse q key a b pc held' worse fresh in
      let whole : offer_seen s unmarshal p key (some env) now 0 ≡ (q, false) =
        ground (arith, passed, rejected) in
      let same : q.by_key ≡ p.by_key = unfold stamp in refl in
      rw whole (refl, same, ground (arith, stamp_new p key ph now size new))
