-- ===== src/Claims/Quorum/Full.antt =====
-- What VerifyFull accepts.
use freens.Prelude.{
  ℕ, ◌+◌, ◌^◌, ◌≤◌, ◌<◌, ◌≡◌, ◌↔◌, sym, ◌∙◌, Bool, true, ◌&&◌, List, [], Bytes, bytes_eq,
  bytes_eq→eq, bytes_eq_refl, length, Option, none, some, ℤ, arith, Bool-cases, Option-cases, inl,
  inr, Member, Distinct, and-eq-true,
}
use freens.Wire.Record.{tld_id}
use freens.Claims.Pow.{pow_hash, meets_difficulty}
use freens.Claims.Attestation.{WitnessAttestation, verify_attestation}
use freens.Claims.Claim.{
  AliasClaim, Setting, prefix, effective_difficulty, verify_pow_from_prefix,
  verify_claimant_consistency,
}
use freens.Claims.Quorum.{
  in_set, dedupe, valid_witnesses_from_prefix_hash, corroborating_witnesses_from_prefix_hash,
  has_quorum_from_prefix_hash, verify_full,
}
use freens.Claims.Quorum.Count.{
  keep-Member, Member-keep, dedupe-Member, node_ids, dedupe-Distinct, Counted, count_nodes_iff,
}
use freens.Claims.Quorum.Band.{in_band_iff}

module _ (s : Setting) where
  -- The node has an attestation among the claim's that verifies for the prefix hash and is dated from
  -- 60 seconds before the claim's time to 360 after it, and the node is in the set, if there is one.
  abbrev pub Attests : AliasClaim → Bytes → Option (Bytes → Bool) → Bytes → Type 0
  Attests c ph ids k =
      (w : WitnessAttestation) × Member w c.witnesses
      × (w.node_id ≡ k)
      × (verify_attestation s.platform w ph ≡ true)
      × (c.timestamp ≤ w.ts + 60)
      × (w.ts ≤ c.timestamp + 360)
      × (in_set ids k ≡ true)

  pub record IsValid (c : AliasClaim) (d : ℤ) (ids : Option (Bytes → Bool)) (quorum : ℕ)
      : Type 0 where
    pub pre : Bytes
    pub certified : tld_id s.platform c.claimant_pk ≡ some c.tld
    pub identity : prefix s c ≡ some pre
    pub hashed : pow_hash s.platform.sha256 pre c.nonce ≡ c.pow
    pub met : meets_difficulty c.pow (effective_difficulty s c d) ≡ true
    pub nodes : List Bytes
    pub distinct : Distinct nodes
    pub attested : (k : Bytes) → Member k nodes → Attests c (s.platform.sha256 pre) ids k
    pub enough : quorum ≤ length nodes

  -- Times that an int64 holds, with room for the band.
  pub record HasTimes (c : AliasClaim) : Type 0 where
    pub low : 60 ≤ c.timestamp
    pub high : c.timestamp + 360 < 2 ^ 63
    pub signed : (w : WitnessAttestation) → Member w c.witnesses → w.ts < 2 ^ 63

  consistent_iff :
      (c : AliasClaim)
      → verify_claimant_consistency s c ≡ true
      → tld_id s.platform c.claimant_pk ≡ some c.tld
  unfolding verify_claimant_consistency
  consistent_iff c h = elim (Option-cases (tld_id s.platform c.claimant_pk)) [
    | inl e ↦ let h' = rw (e, verify_claimant_consistency) at h in cc
    | inr (got, e) ↦
        let h' : bytes_eq got c.tld ≡ true = rw (e, verify_claimant_consistency) at h in
        let same = bytes_eq→eq got c.tld h' in cc
  ]

  pow_from_prefix :
      (c : AliasClaim) (pre : Bytes) (d : ℤ)
      → verify_pow_from_prefix s c pre d ≡ true
      → (pow_hash s.platform.sha256 pre c.nonce ≡ c.pow) × (meets_difficulty c.pow d ≡ true)
  unfolding verify_pow_from_prefix
  pow_from_prefix c pre d h =
      elim (Bool-cases (bytes_eq (pow_hash s.platform.sha256 pre c.nonce) c.pow)) [
        | inr e ↦ let h' = rw e at h in cc
        | inl e ↦
            let same = bytes_eq→eq _ _ e in
            let h' : meets_difficulty (pow_hash s.platform.sha256 pre c.nonce) d ≡ true =
              rw e at h in
            (same, rw (← same) h')
      ]

  Counted-Attests :
      (c : AliasClaim) (ph : Bytes) (ids : Option (Bytes → Bool)) (k : Bytes)
      → HasTimes c
      → Counted ids (corroborating_witnesses_from_prefix_hash s c ph) k
      → Attests c ph ids k
  unfolding corroborating_witnesses_from_prefix_hash valid_witnesses_from_prefix_hash
  Counted-Attests c ph ids k t (w, m, same, set) =
      let (valid, band) = keep-Member _ _ w m in
      let (first, verified) = keep-Member _ _ w valid in
      let member = dedupe-Member c.witnesses [] w first in
      let times = (in_band_iff c.timestamp w.ts t.low t.high (t.signed w member)).0 band in
      (w, member, same, verified, times.0, times.1, set)

  quorum_iff :
      (c : AliasClaim) (ph : Bytes) (ids : Option (Bytes → Bool)) (quorum : ℕ)
      → (has_quorum_from_prefix_hash s c ph ids quorum ≡ true) ↔ (
          (ks : List Bytes) × Distinct ks
          × ((k : Bytes)
              → Member k ks
              → Counted ids (corroborating_witnesses_from_prefix_hash s c ph) k)
          × (quorum ≤ length ks))
  unfolding has_quorum_from_prefix_hash
  quorum_iff c ph ids quorum =
      count_nodes_iff ids quorum (corroborating_witnesses_from_prefix_hash s c ph)

  no_prefix :
      (c : AliasClaim) (d : ℤ) (ids : Option (Bytes → Bool)) (quorum : ℕ)
      → prefix s c ≡ none
      → ¬ (verify_full s c d ids quorum ≡ true)
  unfolding verify_full
  no_prefix c d ids quorum e h = ground (arith, e)

  with_prefix :
      (c : AliasClaim) (d : ℤ) (ids : Option (Bytes → Bool)) (quorum : ℕ) (pre : Bytes)
      → prefix s c ≡ some pre
      → verify_full s c d ids quorum ≡ (
          verify_claimant_consistency s c
          && (verify_pow_from_prefix s c pre (effective_difficulty s c d)
              && has_quorum_from_prefix_hash s c (s.platform.sha256 pre) ids quorum))
  unfolding verify_full
  with_prefix c d ids quorum pre e = ground (arith, e)

  -- What VerifyFull accepts is valid: the TLD is the hash of the key, the alias is one that validates,
  -- the proof-of-work hash is that of prefix and nonce and meets the difficulty, and as many distinct
  -- nodes as the quorum says, all of the set if there is one, have each an attestation in the claim
  -- that verifies for its prefix hash and is dated within the band. This is for times that an int64
  -- holds.
  pub verify_full-IsValid :
      (c : AliasClaim) (d : ℤ) (ids : Option (Bytes → Bool)) (quorum : ℕ)
      → HasTimes c
      → verify_full s c d ids quorum ≡ true
      → IsValid c d ids quorum
  verify_full-IsValid c d ids quorum t h = elim (Option-cases (prefix s c)) [
    | inl e ↦ absurd (no_prefix c d ids quorum e h)
    | inr (pre, e) ↦
        let whole = with_prefix c d ids quorum pre e in
        let (consistent, rest) = and-eq-true _ _ (sym whole ∙ h) in
        let (worked, counted) = and-eq-true _ _ rest in
        let (hash, meets) = pow_from_prefix c pre (effective_difficulty s c d) worked in
        let (ks, dist, all, enough) = (quorum_iff c (s.platform.sha256 pre) ids quorum).0 counted in
        record {
          pre = pre;
          certified = consistent_iff c consistent;
          identity = e;
          hashed = hash;
          met = meets;
          nodes = ks;
          distinct = dist;
          attested = λ k m. Counted-Attests c (s.platform.sha256 pre) ids k t (all k m);
          enough = enough;
        }
  ]

  Attests-Counted :
      (c : AliasClaim) (ph : Bytes) (ids : Option (Bytes → Bool)) (k : Bytes)
      → HasTimes c
      → Distinct (node_ids c.witnesses)
      → length c.witnesses ≤ 16
      → Attests c ph ids k
      → Counted ids (corroborating_witnesses_from_prefix_hash s c ph) k
  unfolding corroborating_witnesses_from_prefix_hash valid_witnesses_from_prefix_hash
  Attests-Counted c ph ids k t dist few (w, m, same, verified, lo, hi, set) =
      let whole = dedupe-Distinct c.witnesses [] dist (λ n p q. q) (omega (arith, few)) in
      let kept : Member w (dedupe c.witnesses []) = rw whole m in
      let band = (in_band_iff c.timestamp w.ts t.low t.high (t.signed w m)).1 (lo, hi) in
      (w, Member-keep _ _ w (Member-keep _ _ w kept verified) band, same, set)

  -- VerifyFull accepts every valid claim whose attestations are of distinct nodes and 16 at most, for
  -- times that an int64 holds.
  pub IsValid-verify_full :
      (c : AliasClaim) (d : ℤ) (ids : Option (Bytes → Bool)) (quorum : ℕ)
      → HasTimes c
      → Distinct (node_ids c.witnesses)
      → length c.witnesses ≤ 16
      → IsValid c d ids quorum
      → verify_full s c d ids quorum ≡ true
  unfolding verify_pow_from_prefix verify_claimant_consistency
  IsValid-verify_full c d ids quorum t dist few v =
      let counted : has_quorum_from_prefix_hash s c (s.platform.sha256 v.pre) ids quorum ≡ true =
        (quorum_iff c (s.platform.sha256 v.pre) ids quorum).1 (
          v.nodes,
          v.distinct,
          (λ k m. Attests-Counted c (s.platform.sha256 v.pre) ids k t dist few (v.attested k m)),
          v.enough,
        ) in
      let consistent : verify_claimant_consistency s c ≡ true =
        rw (v.certified, verify_claimant_consistency) (bytes_eq_refl c.tld) in
      let worked : verify_pow_from_prefix s c v.pre (effective_difficulty s c d) ≡ true =
        rw (v.hashed, verify_pow_from_prefix) (rw (bytes_eq_refl c.pow) v.met) in
      with_prefix c d ids quorum v.pre v.identity ∙ ground (arith, consistent, worked, counted)
