-- ===== src/Claims/Tombstone/Evidence.antt =====
-- What ClaimEvidence accepts.
use freens.Prelude.{
  ℕ, ◌+◌, ◌^◌, ◌≤◌, ◌<◌, ◌≡◌, sym, true, false, ◌&&◌, [], ◌∷◌, Bytes, bytes_eq, bytes_eq→eq, Option,
  none, some, ok, ℤ, arith, Option-cases, Result-cases, inl, inr, and-eq-true,
}
use mathlib.Core.Path.{subst}
use freens.Naming.Labels.{validate_alias}
use freens.Naming.Wire.{decode_wire_name}
use freens.Wire.Record.{Envelope, bytes_of, is_ok, validate, verify_signature}
use freens.Claims.Attestation.{WitnessAttestation}
use freens.Claims.Claim.{ClaimOf, AliasClaim, Setting, decode_alias_claim, prefix_hash}
use freens.Claims.Quorum.{verify_full}
use freens.Claims.Quorum.Full.{IsValid, HasTimes, verify_full-IsValid}
use freens.Claims.Tombstone.{before64, is_revoked, carries, claim_evidence}

not_before : (now ts : ℕ) → ts < 2 ^ 63 → before64 now ts ≡ false → ts ≤ now
unfolding before64
not_before now ts small h = ground arith

carries-bound :
    (env : Envelope) (claim : AliasClaim)
    → carries env claim ≡ true
    → (env.signer ≡ claim.claimant_pk) × (decode_wire_name env.body.name ≡ ok ([], claim.tld))
unfolding carries
carries-bound env claim h = elim (Result-cases (decode_wire_name env.body.name)) [
  | inr (e, f) ↦ absurd (ground (arith, f))
  | inl (([], tld), e) ↦
      let both : (bytes_eq env.signer claim.claimant_pk && bytes_eq tld claim.tld) ≡ true =
        ground (arith, e) in
      let (signed, same) = and-eq-true _ _ both in
      let tlds = bytes_eq→eq tld claim.tld same in
      (bytes_eq→eq env.signer claim.claimant_pk signed, rw (← tlds) e)
  | inl ((l ∷ labels, tld), e) ↦ absurd (ground (arith, e))
]

module _ (s : Setting) (unmarshal : Bytes → Option (ClaimOf (Option WitnessAttestation))) where
  -- The envelope carries a claim of the alias that its claimant signed as the record of the claim's
  -- TLD, and that a quorum of five has witnessed.
  pub record IsEvidence (env : Envelope) (alias : Bytes) (now : ℕ) (claim : AliasClaim) (ph : Bytes)
      : Type 0 where
    pub unrevoked : is_revoked env ≡ false
    pub well_formed : is_ok (validate env.body) ≡ true
    pub authentic : verify_signature s.platform env ≡ true
    pub decoded : decode_alias_claim s unmarshal (bytes_of env.body.claim) ≡ ok claim
    pub named : validate_alias s.unicode s.idna alias ≡ ok claim.alias
    pub past : claim.timestamp ≤ now + 60
    pub bound : env.signer ≡ claim.claimant_pk
    pub root : decode_wire_name env.body.name ≡ ok ([], claim.tld)
    pub valid : IsValid s claim (ℤ.negsuc 0) none 5
    pub identity : prefix_hash s claim ≡ some ph

  -- An envelope that ClaimEvidence accepts is not revoked, is a well-formed record with a valid
  -- signature, and carries a claim of the alias that is not dated more than 60 seconds ahead, in the
  -- TLD record of the claim's own TLD signed by the claimant; the claim is valid, with a quorum of five,
  -- and the identity returned is its prefix hash. This is for claims with times that an int64 holds.
  pub claim_evidence-IsEvidence :
      (env : Envelope) (alias : Bytes) (now : ℕ) (claim : AliasClaim) (ph : Bytes)
      → HasTimes s claim
      → claim_evidence s unmarshal env alias now ≡ some (claim, ph)
      → IsEvidence env alias now claim ph
  unfolding claim_evidence
  claim_evidence-IsEvidence env alias now claim ph t h =
      elim (Result-cases (decode_alias_claim s unmarshal (bytes_of env.body.claim))) [
        | inr (e, f) ↦ absurd (ground (arith, f))
        | inl (c, d) ↦ elim (Result-cases (validate_alias s.unicode s.idna alias)) [
          | inr (e, f) ↦ absurd (ground (arith, d, f))
          | inl (alias_n, a) ↦ elim (Option-cases (prefix_hash s c)) [
            | inl f ↦ absurd (ground (arith, d, a, f))
            | inr (ph', f) ↦
                let same : c ≡ claim = ground (arith, d, a, f) in
                let hash : ph' ≡ ph = ground (arith, d, a, f) in
                let times : HasTimes s c = subst (λ x. HasTimes s x) (sym same) t in
                let unrevoked : is_revoked env ≡ false = ground arith in
                let well_formed : is_ok (validate env.body) ≡ true = ground arith in
                let authentic : verify_signature s.platform env ≡ true = ground arith in
                let aliases : bytes_eq c.alias alias_n ≡ true = ground (arith, d, a) in
                let past : before64 (now + 60) c.timestamp ≡ false = ground (arith, d, a) in
                let carried : carries env c ≡ true = ground (arith, d, a) in
                let full : verify_full s c (ℤ.negsuc 0) none 5 ≡ true = ground (arith, d, a) in
                let (bound, root) = carries-bound env c carried in
                let alias_same = bytes_eq→eq c.alias alias_n aliases in
                subst (λ x. IsEvidence env alias now x ph) same
                  (record {
                    unrevoked = unrevoked;
                    well_formed = well_formed;
                    authentic = authentic;
                    decoded = d;
                    named = rw alias_same a;
                    past = not_before (now + 60) c.timestamp (omega (arith, times.high)) past;
                    bound = bound;
                    root = root;
                    valid = verify_full-IsValid s c (ℤ.negsuc 0) none 5 times full;
                    identity = rw (← hash) f;
                  })
          ]
        ]
      ]
