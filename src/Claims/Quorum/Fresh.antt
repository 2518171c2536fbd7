-- ===== src/Claims/Quorum/Fresh.antt =====
-- What FreshAttestations keeps and HasFreshQuorum accepts.
use freens.Prelude.{
  ℕ, ◌+◌, ◌^◌, ◌≤◌, ◌<◌, ◌≡◌, sym, ap, ◌∙◌, Bool, true, ◌&&◌, leb, List, [], ◌∷◌, Bytes, length,
  Option, arith, Bool-cases, inl, inr, Member, Distinct, and-eq-true,
}
use freens.Wire.Recovery.{seen_key}
use freens.Claims.Attestation.{WitnessAttestation, verify_attestation}
use freens.Claims.Claim.{Setting}
use freens.Claims.Quorum.{
  max_witness_evaluations, in_set, in_band, le64, add64, sub64, fresh_from, fresh_attestations,
  has_fresh_quorum,
}
use freens.Claims.Quorum.Count.{count_nodes_iff}

-- A time is in the window that ends 60 seconds after now exactly as the numbers say, for times that
-- an int64 holds.
pub in_window_iff :
    (now window ts : ℕ)
    → window ≤ now
    → now + 60 < 2 ^ 63
    → ts < 2 ^ 63
    → in_band (sub64 now window) (add64 now 60) ts ≡ true
    → (now ≤ ts + window) × (ts ≤ now + 60)
unfolding in_band le64 add64 sub64
in_window_iff now window ts lo hi small h = ground arith

module _ (s : Setting) (ph : Bytes) (lo hi : ℕ) where
  -- The attestation verifies and is dated between the bounds.
  abbrev pub Fresh : WitnessAttestation → Type 0
  Fresh w = (verify_attestation s.platform w ph ≡ true) × (in_band lo hi w.ts ≡ true)

  pub fresh_from-Fresh :
      (ws : List WitnessAttestation) (seen : List Bytes) (n : ℕ) (w : WitnessAttestation)
      → Member w (fresh_from s ph lo hi ws seen n)
      → Member w ws × Fresh w
  unfolding fresh_from
  fresh_from-Fresh [] seen n w m = elim m [ ]
  fresh_from-Fresh (v ∷ ws) seen n w m = elim (Bool-cases (seen_key v.node_id seen)) [
    | inl e ↦ let (k, f) = fresh_from-Fresh ws seen n w (rw (e, fresh_from) at m) in (inr k, f)
    | inr e ↦ elim (Bool-cases (leb max_witness_evaluations n)) [
      | inl full ↦ absurd (rw (e, full, fresh_from) at m)
      | inr room ↦ elim (Bool-cases (verify_attestation s.platform v ph && in_band lo hi v.ts)) [
        | inr bad ↦
            let (k, f) = fresh_from-Fresh ws seen (n + 1) w (rw (e, room, bad, fresh_from) at m) in
            (inr k, f)
        | inl good ↦
            let m' : Member w (v ∷ fresh_from s ph lo hi ws (v.node_id ∷ seen) (n + 1)) =
              rw (e, room, good, fresh_from) at m in
            elim m' [
              | inl same ↦
                  let (a, b) = and-eq-true _ _ good in
                  (
                    inl same,
                    (
                      ap (λ t. verify_attestation s.platform t ph) (sym same) ∙ a,
                      ap (λ (t : WitnessAttestation). in_band lo hi t.ts) (sym same) ∙ b,
                    ),
                  )
              | inr k ↦
                  let (l, f) = fresh_from-Fresh ws (v.node_id ∷ seen) (n + 1) w k in (inr l, f)
            ]
      ]
    ]
  ]

-- HasFreshQuorum accepts only where as many distinct nodes as the quorum says, all of the set if there
-- is one, have each an attestation that verifies for the prefix hash and is dated from the window
-- before now to 60 seconds after it. This is for a window no longer than now, and for times that an
-- int64 holds.
pub has_fresh_quorum-attested :
    (s : Setting) (atts : List WitnessAttestation) (ph : Bytes) (now window : ℕ)
    (ids : Option (Bytes → Bool)) (quorum : ℕ)
    → window ≤ now
    → now + 60 < 2 ^ 63
    → ((w : WitnessAttestation) → Member w atts → w.ts < 2 ^ 63)
    → has_fresh_quorum s atts ph now window ids quorum ≡ true
    → (ks : List Bytes) × Distinct ks
      × ((k : Bytes)
          → Member k ks
          → (w : WitnessAttestation) × Member w atts
            × (w.node_id ≡ k)
            × (verify_attestation s.platform w ph ≡ true)
            × (now ≤ w.ts + window)
            × (w.ts ≤ now + 60)
            × (in_set ids k ≡ true))
      × (quorum ≤ length ks)
unfolding has_fresh_quorum fresh_attestations
has_fresh_quorum-attested s atts ph now window ids quorum old soon signed h =
    let (ks, dist, all, enough) =
      (count_nodes_iff ids quorum (fresh_attestations s atts ph now window)).0 h in
    (
      ks,
      dist,
      λ k m.
          let (w, kept, same, set) = all k m in
          let (member, (verified, dated)) =
            fresh_from-Fresh s ph (sub64 now window) (add64 now 60) atts [] 0 w kept in
          let times = in_window_iff now window w.ts old soon (signed w member) dated in
          (w, member, same, verified, times.0, times.1, set),
      enough,
    )
