-- ===== src/Node/Cooldown/Table.antt =====
-- The table of the claims signed last (internal/dht/transport.go, hWitness).
use freens.Prelude.{
  ℕ, ◌+◌, ◌<◌, ◌≡◌, refl, ◌∙◌, false, leb, List, [], ◌∷◌, length, All, Bytes, bytes_eq,
  bytes_eq_refl, some, Bool-cases, inl, inr, arith, if_elim,
}
use freens.Store.Entries.{lookup, insert}
use freens.Store.Maps.{lookup-delete, delete-All}
use freens.Node.{WitnessSigned}
use freens.Node.Witness.{WitnessArgs, still_cooling, signed_now}

-- The sweep keeps what may still matter.
lookup-still_cooling :
    (k : Bytes) (w : WitnessSigned) (now : ℕ) (m : List (Bytes × WitnessSigned))
    → now < w.at + 3600
    → lookup k m ≡ some w
    → lookup k (still_cooling now m) ≡ some w
unfolding lookup still_cooling
lookup-still_cooling k w now [] young h = cc
lookup-still_cooling k w now ((j, v) ∷ m) young h = elim (Bool-cases (bytes_eq j k)) [
  | inl e ↦
      let same : v ≡ w = cc (e, h) in
      let stays : leb (v.at + 3600) now ≡ false = rw same (ground arith) in
      ground (arith, e, stays, same)
  | inr e ↦
      let rest = lookup-still_cooling k w now m young (rw e at h) in
      elim (Bool-cases (leb (v.at + 3600) now)) [ inl f ↦ rw f rest | inr f ↦ rw (f, e) rest ]
]

still_cooling-All :
    (P : WitnessSigned → Type 0) (now : ℕ) (m : List (Bytes × WitnessSigned))
    → All (λ x. P x.1) m
    → All (λ x. P x.1) (still_cooling now m)
unfolding still_cooling
still_cooling-All P now [] a = a
still_cooling-All P now ((j, v) ∷ m) (p, a) = elim (Bool-cases (leb (v.at + 3600) now)) [
  | inl e ↦ rw e (still_cooling-All P now m a)
  | inr e ↦ rw e (p, still_cooling-All P now m a)
]

module _ (last : List (Bytes × WitnessSigned)) (alias : Bytes) (m : WitnessArgs) (now : ℕ) where
  abbrev pub new : WitnessSigned
  new = record { prefix_hash = m.prefix_hash; claimant = m.claimant; at = now }

  abbrev set : List (Bytes × WitnessSigned)
  set = insert alias new last

  signed_now-lookup :
      (k : Bytes) (w : WitnessSigned)
      → now < w.at + 3600
      → lookup k set ≡ some w
      → lookup k (signed_now last alias m now) ≡ some w
  unfolding signed_now
  signed_now-lookup k w young h =
      if_elim (λ x. lookup k x ≡ some w) (leb 1024 (length set)) (still_cooling now set) set
        (lookup-still_cooling k w now set young h) h

  pub signed_now_self : lookup alias (signed_now last alias m now) ≡ some new
  signed_now_self =
      signed_now-lookup alias new (omega arith) (unfold lookup in (rw (bytes_eq_refl alias) refl))

  pub signed_now_other :
      (k : Bytes) (w : WitnessSigned)
      → bytes_eq alias k ≡ false
      → now < w.at + 3600
      → lookup k last ≡ some w
      → lookup k (signed_now last alias m now) ≡ some w
  signed_now_other k w ne young h =
      signed_now-lookup k w young (unfold lookup in (rw ne (lookup-delete k alias last ne ∙ h)))

  pub signed_now-All :
      (P : WitnessSigned → Type 0)
      → P new
      → All (λ x. P x.1) last
      → All (λ x. P x.1) (signed_now last alias m now)
  unfolding signed_now
  signed_now-All P p a =
      let whole : All (λ x. P x.1) set = (p, delete-All P alias last a) in
      if_elim (λ x. All (λ y. P y.1) x) (leb 1024 (length set)) (still_cooling now set) set
        (still_cooling-All P now set whole) whole
