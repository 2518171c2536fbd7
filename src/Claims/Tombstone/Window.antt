-- ===== src/Claims/Tombstone/Window.antt =====
-- What the pooled claims of an alias forbid.
use freens.Prelude.{
  ℕ, ◌+◌, ◌^◌, ◌≤◌, ◌<◌, ◌≡◌, ◌↔◌, ◌⊎◌, refl, true, false, List, [], ◌∷◌, Bytes, bytes_eq,
  bytes_eq→eq, bytes_eq_refl, Option, some, arith, Bool-cases, Option-cases, inl, inr, Member,
}
use mathlib.Core.Path.{subst}
use freens.Wire.Record.{Envelope}
use freens.Claims.Attestation.{WitnessAttestation}
use freens.Claims.Claim.{ClaimOf, AliasClaim, Setting}
use freens.Claims.Pool.{ClaimPool}
use freens.Claims.Tombstone.{
  before64, claim_evidence, reuse_window_end, refusal_from, candidates, claim_reuse_refusal,
  conflict_from, live_claim_conflict,
}

before64_iff : (now x : ℕ) → x < 2 ^ 63 → (before64 now x ≡ true) ↔ (now < x)
unfolding before64
before64_iff now x small = ((λ h. ground arith), (λ h. ground arith))

after64 : (now x : ℕ) → x < 2 ^ 63 → (before64 now x ≡ false) ↔ (x ≤ now)
unfolding before64
after64 now x small = ((λ h. ground arith), (λ h. ground arith))

module _ (s : Setting) (unmarshal : Bytes → Option (ClaimOf (Option WitnessAttestation)))
    (alias incoming : Bytes) (now : ℕ) where
  -- The envelope is no evidence of another claim of the alias, or its claim expired 30 days ago.
  abbrev pub Passed : Envelope → Type 0
  Passed env =
      (claim : AliasClaim) (ph : Bytes)
      → claim_evidence s unmarshal env alias now ≡ some (claim, ph)
      → (ph ≡ incoming) ⊎ (env.body.expires + 2592000 ≤ now)

  -- The end of the reuse window is a time that an int64 holds.
  abbrev pub HasRoom : Envelope → Type 0
  HasRoom env = env.body.expires + 2592000 < 2 ^ 63

  -- One round of both loops.
  round-Passed :
      (cand : Envelope) (cands : List Envelope)
      → HasRoom cand
      → refusal_from s unmarshal (cand ∷ cands) alias incoming now ≡ 0
      → conflict_from s unmarshal (cand ∷ cands) alias incoming now ≡ false
      → Passed cand
        × (refusal_from s unmarshal cands alias incoming now ≡ 0)
        × (conflict_from s unmarshal cands alias incoming now ≡ false)
  unfolding refusal_from conflict_from reuse_window_end
  round-Passed cand cands room r c =
      elim (Option-cases (claim_evidence s unmarshal cand alias now)) [
        | inl e ↦
            ((λ claim ph h. absurd (ground (arith, e, h))), ground (arith, e), ground (arith, e))
        | inr ((claim, ph), e) ↦ elim (Bool-cases (bytes_eq ph incoming)) [
          | inl f ↦ (
            (λ claim' ph' h. inl (ground (arith, e, h, bytes_eq→eq ph incoming f))),
            ground (arith, e, f),
            ground (arith, e, f),
          )
          | inr f ↦ elim (Bool-cases (before64 now cand.body.expires)) [
            | inl live ↦ absurd (ground (arith, e, f, live))
            | inr dead ↦ elim (Bool-cases (before64 now (cand.body.expires + 2592000))) [
              | inl opened ↦
                  let later = (before64_iff now (cand.body.expires + 2592000) room).0 opened in
                  absurd (ground (arith, e, f, dead, opened, later))
              | inr closed ↦
                  let gone = (after64 now (cand.body.expires + 2592000) room).0 closed in
                  (
                    (λ claim' ph' h. inr gone),
                    ground (arith, e, f, dead, closed),
                    ground (arith, e, f, dead, closed),
                  )
            ]
          ]
        ]
      ]

  round_free :
      (cand : Envelope) (cands : List Envelope)
      → HasRoom cand
      → Passed cand
      → refusal_from s unmarshal cands alias incoming now ≡ 0
      → conflict_from s unmarshal cands alias incoming now ≡ false
      → (refusal_from s unmarshal (cand ∷ cands) alias incoming now ≡ 0)
        × (conflict_from s unmarshal (cand ∷ cands) alias incoming now ≡ false)
  unfolding refusal_from conflict_from reuse_window_end
  round_free cand cands room pass r c =
      elim (Option-cases (claim_evidence s unmarshal cand alias now)) [
        | inl e ↦ (ground (arith, e), ground (arith, e))
        | inr ((claim, ph), e) ↦ elim (pass claim ph e) [
          | inl same ↦
              let f : bytes_eq ph incoming ≡ true =
                subst (λ x. bytes_eq ph x ≡ true) same (bytes_eq_refl ph) in
              (ground (arith, e, f), ground (arith, e, f))
          | inr gone ↦
              let closed = (after64 now (cand.body.expires + 2592000) room).1 gone in
              let dead = (after64 now cand.body.expires (omega arith)).1 (omega arith) in
              (ground (arith, e, closed, dead), ground (arith, e, closed, dead))
        ]
      ]

  loops_iff :
      (cands : List Envelope)
      → ((env : Envelope) → Member env cands → HasRoom env)
      → ((refusal_from s unmarshal cands alias incoming now ≡ 0)
          × (conflict_from s unmarshal cands alias incoming now ≡ false))
        ↔ ((env : Envelope) → Member env cands → Passed env)
  unfolding refusal_from conflict_from
  loops_iff [] room = ((λ h env m. absurd m), (λ h. (refl, refl)))
  loops_iff (cand ∷ cands) room =
      let later = loops_iff cands (λ env m. room env (inr m)) in
      let here = room cand (inl refl) in
      (
        (λ h env m.
            let (pass, r, c) = round-Passed cand cands here h.0 h.1 in
            elim m [ inl e ↦ subst (λ x. Passed x) e pass | inr n ↦ later.0 (r, c) env n ]),
        (λ h.
            let rest = later.1 (λ env m. h env (inr m)) in
            round_free cand cands here (h cand (inl refl)) rest.0 rest.1),
      )

module _ (s : Setting) (unmarshal : Bytes → Option (ClaimOf (Option WitnessAttestation)))
    (p : ClaimPool) (alias incoming : Bytes) (now : ℕ) (alias_n : Bytes)
    (cands : List Envelope) where
  -- For an alias with a key, and where the reuse windows of what the pool offers for it end at times
  -- that an int64 holds: neither the reuse window nor a live claim stands against an identity exactly
  -- when all the evidence in the pool is of that identity or expired at least 30 days ago.
  pub unopposed_iff :
      candidates s p alias ≡ some (alias_n, cands)
      → ((env : Envelope) → Member env cands → HasRoom s unmarshal alias_n incoming now env)
      → ((claim_reuse_refusal s unmarshal p alias incoming now ≡ 0)
          × (live_claim_conflict s unmarshal p alias incoming now ≡ false))
        ↔ ((env : Envelope) → Member env cands → Passed s unmarshal alias_n incoming now env)
  unfolding claim_reuse_refusal live_claim_conflict
  unopposed_iff e room =
      let r : claim_reuse_refusal s unmarshal p alias incoming now
          ≡ refusal_from s unmarshal cands alias_n incoming now =
        ground (arith, e) in
      let c : live_claim_conflict s unmarshal p alias incoming now
          ≡ conflict_from s unmarshal cands alias_n incoming now =
        ground (arith, e) in
      rw (r, c) (loops_iff s unmarshal alias_n incoming now cands room)
