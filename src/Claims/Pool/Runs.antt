-- ===== src/Claims/Pool/Runs.antt =====
-- Runs of a pool's operations (internal/dht/claims_pool.go).
use freens.Prelude.{
  ℕ, refl, List, [], ◌∷◌, length, ◌==◌, Bytes, Option, none, some, Option-cases, Bool-cases, inl,
  inr,
}
use freens.Wire.Record.{Envelope}
use freens.Claims.Attestation.{WitnessAttestation}
use freens.Claims.Claim.{ClaimOf, Setting}
use freens.Claims.Pool.{ClaimPool, new_claim_pool, stamp, screen, offer_seen, store_re_attests}
use freens.Claims.Pool.Sweep.{sweep}
use freens.Claims.Pool.Budget.{IsPool, IsPool-same, join-IsPool}
use freens.Claims.Pool.Swept.{sweep-IsPool}

pub store_re_attests-IsPool :
    (p : ClaimPool) (key ph : Bytes) (atts : List WitnessAttestation)
    → IsPool p
    → IsPool (store_re_attests p key ph atts)
unfolding store_re_attests
store_re_attests-IsPool p key ph [] i = i
store_re_attests-IsPool p key ph (a ∷ atts) i = elim (Bool-cases (length key == 32)) [
  | inl e ↦ rw e (IsPool-same p _ refl refl i)
  | inr e ↦ rw e i
]

module _ (s : Setting) (unmarshal : Bytes → Option (ClaimOf (Option WitnessAttestation))) where
  -- The pools that a sequence of operations leads to, from an empty one.
  pub data PoolRun : ClaimPool → Type 0 where
    created : PoolRun new_claim_pool
    offered :
        (p : ClaimPool) (key : Bytes) (env : Option Envelope) (now first_seen : ℕ)
        → PoolRun p
        → PoolRun (offer_seen s unmarshal p key env now first_seen).0
    re_attested :
        (p : ClaimPool) (key ph : Bytes) (atts : List WitnessAttestation)
        → PoolRun p
        → PoolRun (store_re_attests p key ph atts)
    swept : (p : ClaimPool) (now : ℕ) → PoolRun p → PoolRun (sweep s now p).0

  pub offer_seen-IsPool :
      (p : ClaimPool) (key : Bytes) (env : Option Envelope) (now first_seen : ℕ)
      → IsPool p
      → IsPool (offer_seen s unmarshal p key env now first_seen).0
  unfolding offer_seen stamp
  offer_seen-IsPool p key none now first_seen i = i
  offer_seen-IsPool p key (some env) now first_seen i = elim (Bool-cases (length key == 32)) [
    | inr e ↦ rw e i
    | inl e ↦ elim (Option-cases (screen s unmarshal env)) [
      | inl f ↦ rw (e, f) i
      | inr ((pc, ph), f) ↦
          rw (e, f)
            (join-IsPool (stamp p key ph now first_seen) key pc (IsPool-same p _ refl refl i))
    ]
  ]

  -- After any sequence of offers, stored re-attestations and sweeps on a new pool, no key occurs
  -- twice, each has one member or two, the second no better than the first, and the byte counter is
  -- the sum of the members' sizes.
  pub PoolRun-IsPool : (p : ClaimPool) → PoolRun p → IsPool p
  unfolding new_claim_pool
  PoolRun-IsPool _ (PoolRun.created) = record { distinct = tt; members = tt; budget = refl }
  PoolRun-IsPool _ (PoolRun.offered p key env now first_seen r) =
      offer_seen-IsPool p key env now first_seen (PoolRun-IsPool p r)
  PoolRun-IsPool _ (PoolRun.re_attested p key ph atts r) =
      store_re_attests-IsPool p key ph atts (PoolRun-IsPool p r)
  PoolRun-IsPool _ (PoolRun.swept p now r) = sweep-IsPool s now p (PoolRun-IsPool p r)
