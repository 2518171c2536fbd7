-- ===== src/Claims/Pool/Landing.antt =====
-- Where an offer changes the pool (internal/dht/claims_pool.go).
use freens.Prelude.{
  ℕ, ◌&&◌, ◌==◌, List, [], ◌∷◌, ◌++◌, length, Bytes, bytes_eq, Option, some, Option-cases,
  Bool-cases, inl, inr, ◌+◌, ◌-◌,
}
use freens.Wire.Record.{Envelope, hash_len}
use freens.Store.Entries.{lookup, insert}
use freens.Store.Landing.{
  ChangesAt, ChangesAt-refl, ChangesAt-trans, ChangesAt-delete, ChangesAt-insert,
}
use freens.Claims.Attestation.{WitnessAttestation}
use freens.Claims.Claim.{ClaimOf, Setting}
use freens.Claims.Pool.{
  PooledClaim, ClaimPool, at, place, has_hash, over_budget, evict_key, evict_from,
  evict_over_budget, stamp, join, screen, offer_seen,
}

module _ (k : Bytes) where
  abbrev pub OffersAt : ClaimPool → ClaimPool → Type 0
  OffersAt p p' = ChangesAt k p.by_key p'.by_key

  evict_from-OffersAt :
      (protected : Bytes) (order : List Bytes) (p : ClaimPool)
      → OffersAt p (evict_from protected order p)
  unfolding evict_from evict_key
  evict_from-OffersAt protected [] p = ChangesAt-refl k p.by_key
  evict_from-OffersAt protected (oldest ∷ rest) p = elim (Bool-cases (over_budget p)) [
    | inr q ↦ rw (q, evict_from) (ChangesAt-refl k p.by_key)
    | inl q ↦ elim (Bool-cases (bytes_eq oldest protected && length rest == 0)) [
      | inl f ↦ rw (q, f, evict_from) (ChangesAt-refl k p.by_key)
      | inr f ↦
          rw (q, f, evict_from)
            (ChangesAt-trans k p.by_key (evict_key p oldest).by_key _
              (ChangesAt-delete k oldest p.by_key)
              (evict_from-OffersAt protected rest (evict_key p oldest)))
    ]
  ]

  join-OffersAt : (p : ClaimPool) (pc : PooledClaim) → OffersAt p (join p k pc).0
  unfolding join evict_over_budget
  join-OffersAt p pc = elim (Bool-cases (has_hash pc.h (at k p.by_key))) [
    | inl e ↦ rw (e, join) (ChangesAt-refl k p.by_key)
    | inr e ↦ elim (Option-cases (place pc (at k p.by_key))) [
      | inl f ↦ rw (e, f, join) (ChangesAt-refl k p.by_key)
      | inr ((members, dropped), f) ↦
          let put = ChangesAt-insert k members p.by_key in
          let grown = record p {
            by_key = insert k members p.by_key;
            order = p.order ++ (k ∷ []);
            bytes = p.bytes - dropped + pc.size;
          } in
          elim (Option-cases (lookup k p.by_key)) [
            | inr (old, g) ↦ rw (e, f, g, join) put
            | inl g ↦
                rw (e, f, g, join)
                  (ChangesAt-trans k p.by_key grown.by_key (evict_from k grown.order grown).by_key
                    put (evict_from-OffersAt k grown.order grown))
          ]
    ]
  ]

  pub offer_seen-OffersAt :
      (s : Setting) (unmarshal : Bytes → Option (ClaimOf (Option WitnessAttestation)))
      (p : ClaimPool) (env : Envelope) (now first_seen : ℕ)
      → OffersAt p (offer_seen s unmarshal p k (some env) now first_seen).0
  unfolding offer_seen stamp
  offer_seen-OffersAt s unmarshal p env now first_seen = elim (Bool-cases (length k == hash_len)) [
    | inr q ↦ rw (q, offer_seen) (ChangesAt-refl k p.by_key)
    | inl q ↦ elim (Option-cases (screen s unmarshal env)) [
      | inl f ↦ rw (q, f, offer_seen) (ChangesAt-refl k p.by_key)
      | inr ((pc, ph), f) ↦ rw (q, f, offer_seen) (join-OffersAt (stamp p k ph now first_seen) pc)
    ]
  ]
