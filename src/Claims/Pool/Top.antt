-- ===== src/Claims/Pool/Top.antt =====
-- OfferSeen keeps the best two claims of a key.
use freens.Prelude.{
  ℕ, ◌≡◌, refl, true, false, List, [], ◌∷◌, ◌++◌, map, take, length, Bytes, bytes_eq_refl, Option,
  none, some, Bool-cases, Option-cases, inl, inr, arith,
}
use freens.Wire.Record.{Envelope}
use freens.Store.Entries.{lookup, insert}
use freens.Claims.Attestation.{WitnessAttestation}
use freens.Claims.Claim.{ClaimOf, AliasClaim, Setting}
use freens.Claims.Order.{less_order_key, insert_claim, sort_stable}
use freens.Claims.Order.Key.{less_order_key_asym}
use freens.Claims.Pool.{
  PooledClaim, ClaimPool, at, best_first, place, has_hash, stamp, join, screen, offer_seen,
}

-- The members of a key: two at most, and the second no better than the first.
abbrev pub IsRanked : List PooledClaim → Type 0
IsRanked [] = Unit
IsRanked (a ∷ []) = Unit
IsRanked (a ∷ b ∷ []) = less_order_key b.claim a.claim ≡ false
IsRanked (a ∷ b ∷ c ∷ rest) = ⊥

abbrev pub claims_of : List PooledClaim → List AliasClaim
claims_of ms = map (λ (m : PooledClaim). m.claim) ms

-- The members after an offer that is not a duplicate.
abbrev pub placed : PooledClaim → List PooledClaim → List PooledClaim
placed pc cur = elim (place pc cur) [ none ↦ cur | some (members, dropped) ↦ members ]

place-sort_stable :
    (pc : PooledClaim) (cur : List PooledClaim)
    → IsRanked cur
    → claims_of (placed pc cur) ≡ take 2 (sort_stable (claims_of cur ++ (pc.claim ∷ [])))
unfolding place best_first sort_stable insert_claim
place-sort_stable pc [] r = refl
place-sort_stable pc (a ∷ []) r = ground arith
place-sort_stable pc (a ∷ b ∷ []) r = ground (arith, r)
place-sort_stable pc (a ∷ b ∷ c ∷ rest) r = absurd r

place_worse :
    (pc a b : PooledClaim)
    → less_order_key pc.claim b.claim ≡ false
    → placed pc (a ∷ b ∷ []) ≡ a ∷ b ∷ []
unfolding place
place_worse pc a b e = ground (arith, e)

place_better :
    (pc a b : PooledClaim)
    → less_order_key pc.claim b.claim ≡ true
    → placed pc (a ∷ b ∷ []) ≡ best_first a pc
unfolding place
place_better pc a b e = ground (arith, e)

pub place-IsRanked :
    (pc : PooledClaim) (cur : List PooledClaim) → IsRanked cur → IsRanked (placed pc cur)
unfolding place best_first
place-IsRanked pc [] r = tt
place-IsRanked pc (a ∷ []) r = elim (Bool-cases (less_order_key pc.claim a.claim)) [
  | inl e ↦ rw e (less_order_key_asym pc.claim a.claim e)
  | inr e ↦ rw e e
]
place-IsRanked pc (a ∷ b ∷ []) r = elim (Bool-cases (less_order_key pc.claim b.claim)) [
  | inr e ↦ rw (place_worse pc a b e) r
  | inl e ↦ elim (Bool-cases (less_order_key pc.claim a.claim)) [
    | inl f ↦ rw (place_better pc a b e, f) (less_order_key_asym pc.claim a.claim f)
    | inr f ↦ rw (place_better pc a b e, f) f
  ]
]
place-IsRanked pc (a ∷ b ∷ c ∷ rest) r = absurd r

pub at-insert :
    {A : Type 0} (k : Bytes) (xs : List A) (m : List (Bytes × List A)) → at k (insert k xs m) ≡ xs
unfolding lookup
at-insert k xs m = ground (arith, bytes_eq_refl k)

join-placed :
    (q : ClaimPool) (key : Bytes) (cur : List PooledClaim) (pc : PooledClaim)
    → lookup key q.by_key ≡ some cur
    → has_hash pc.h cur ≡ false
    → at key (join q key pc).0.by_key ≡ placed pc cur
unfolding join
join-placed q key cur pc held fresh = elim (Option-cases (place pc cur)) [
  | inl e ↦ ground (arith, held, fresh, e)
  | inr ((members, dropped), e) ↦ ground (arith, held, fresh, e, at-insert key members q.by_key)
]

module _ (s : Setting) (unmarshal : Bytes → Option (ClaimOf (Option WitnessAttestation)))
    (p : ClaimPool) (key : Bytes) (env : Envelope) (now first_seen : ℕ) (cur : List PooledClaim)
    (pc : PooledClaim) (ph : Bytes) where
  -- An envelope that passes the screen and is not a duplicate is offered under a key that has members,
  -- two at most and in order. Then the key's claims are the first two of its claims before and the
  -- offered one, sorted by the order of claims, and its members are in order again.
  pub offer_seen-sort_stable :
      length key ≡ 32
      → screen s unmarshal env ≡ some (pc, ph)
      → lookup key p.by_key ≡ some cur
      → has_hash pc.h cur ≡ false
      → IsRanked cur
      → (claims_of (at key (offer_seen s unmarshal p key (some env) now first_seen).0.by_key)
          ≡ take 2 (sort_stable (claims_of cur ++ (pc.claim ∷ []))))
        × IsRanked (at key (offer_seen s unmarshal p key (some env) now first_seen).0.by_key)
  unfolding offer_seen stamp
  offer_seen-sort_stable size passed held fresh r =
      let whole : at key (offer_seen s unmarshal p key (some env) now first_seen).0.by_key
          ≡ placed pc cur =
        ground (arith, passed, join-placed (stamp p key ph now first_seen) key cur pc) in
      rw whole (place-sort_stable pc cur r, place-IsRanked pc cur r)
