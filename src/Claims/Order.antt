-- ===== src/Claims/Order.antt =====
-- internal/claims/claims.go: LessOrderKey, SelectWinner and OrderClaims (§7.4). `sort.SliceStable` is
-- a stable sort by insertion: the result of a stable sort does not depend on how it is made.
pub mod Key
pub mod Winner
pub mod Least
use freens.Prelude.{
  Bool, true, false, ◌&&◌, not, ltb, ◌==◌, List, [], ◌∷◌, Bytes, bytes_compare, Ordering, Option,
  none, some, if◌then◌else◌, ℤ,
}
use freens.Claims.Claim.{AliasClaim, Setting, verify_claimant_consistency, verify_pow}

unfoldable pub less_order_key : AliasClaim → AliasClaim → Bool
less_order_key a b =
    if not (a.timestamp == b.timestamp)
    then ltb a.timestamp b.timestamp
    else (elim (bytes_compare a.pow b.pow) [
      | Ordering.lt ↦ true
      | Ordering.gt ↦ false
      | Ordering.eq ↦ (elim (bytes_compare a.tld b.tld) [ Ordering.lt ↦ true | _ ↦ false ])
    ])

-- One step of the stable sort: the claim goes before the first that is not less than it.
unfoldable pub insert_claim : AliasClaim → List AliasClaim → List AliasClaim
insert_claim c [] = c ∷ []
insert_claim c (d ∷ ds) =
    let later = d ∷ insert_claim c ds in if less_order_key d c then later else c ∷ d ∷ ds

unfoldable pub sort_stable : List AliasClaim → List AliasClaim
sort_stable [] = []
sort_stable (c ∷ cs) = insert_claim c (sort_stable cs)

module _ (s : Setting) where
  unfoldable pub structurally_and_pow_valid : AliasClaim → Bool
  structurally_and_pow_valid c = verify_claimant_consistency s c && verify_pow s c (ℤ.negsuc 0)

  -- The loop of SelectWinner; `best` is its variable.
  unfoldable pub select_from : List AliasClaim → Option AliasClaim → Option AliasClaim
  select_from [] best = best
  select_from (c ∷ cs) best = select_from cs (
      if not (structurally_and_pow_valid c)
      then best
      else (elim best [ none ↦ some c | some b ↦ if less_order_key c b then some c else some b ]))

  unfoldable pub select_winner : List AliasClaim → Option AliasClaim
  unfolding select_from
  select_winner claims = select_from claims none

  unfoldable pub survivors : List AliasClaim → List AliasClaim
  survivors [] = []
  survivors (c ∷ cs) = if structurally_and_pow_valid c then c ∷ survivors cs else survivors cs

  unfoldable pub order_claims : List AliasClaim → List AliasClaim
  unfolding survivors sort_stable insert_claim
  order_claims claims = sort_stable (survivors claims)
