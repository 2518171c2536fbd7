-- ===== src/Claims/Claim/Decoded.antt =====
-- What DecodeAliasClaim returns, and where the runtime panics.
use freens.Prelude.{
  ◌≤◌, ◌≡◌, refl, List, [], ◌∷◌, ◌++◌, map, length, Bytes, All, Option, none, some, ok, err, arith,
}
use freens.Naming.Labels.{validate_alias}
use freens.Naming.Labels.Normal.{validate_alias_fixed, validate_alias-check}
use freens.Claims.Attestation.{ClaimError, WitnessAttestation, validate_attestation}
use freens.Claims.Claim.{ClaimOf, Setting, validate_witnesses, validate_claim, decode_alias_claim}

abbrev pub IsSized : WitnessAttestation → Type 0
IsSized w = (length w.node_id ≡ 32) × (length w.node_pk ≡ 32) × (length w.sig ≡ 64)

validate_attestation-IsSized : (w : WitnessAttestation) → IsSized w → validate_attestation w ≡ ok tt
unfolding validate_attestation
validate_attestation-IsSized w h = ground arith

-- The lengths that a decoded claim has.
pub record HasLengths {W : Type 0} (c : ClaimOf W) : Type 0 where
  pub tld_len : length c.tld ≡ 32
  pub pk_len : length c.claimant_pk ≡ 32
  pub pow_len : length c.pow ≡ 32
  pub nonce_len : length c.nonce ≤ 128

validate_witnesses-nil :
    (ws : List WitnessAttestation) (rest : List (Option WitnessAttestation))
    → All IsSized ws
    → validate_witnesses (map some ws ++ (none ∷ rest)) ≡ err ClaimError.nil_dereference
unfolding validate_witnesses
validate_witnesses-nil [] rest h = refl
validate_witnesses-nil (w ∷ ws) rest h =
    rw (validate_attestation-IsSized w h.0, validate_witnesses-nil ws rest h.1) refl

module _ (s : Setting) where
  -- The runtime panics on a claim that is well formed but for a null among its witnesses, after none
  -- or more well-formed ones: nil is dereferenced.
  pub decode_alias_claim-nil :
      (unmarshal : Bytes → Option (ClaimOf (Option WitnessAttestation))) (raw : Bytes)
      (c : ClaimOf (Option WitnessAttestation)) (alias : Bytes) (ws : List WitnessAttestation)
      (rest : List (Option WitnessAttestation))
      → unmarshal raw ≡ some c
      → validate_alias s.unicode s.idna c.alias ≡ ok alias
      → HasLengths c
      → c.witnesses ≡ map some ws ++ (none ∷ rest)
      → All IsSized ws
      → decode_alias_claim s unmarshal raw ≡ err ClaimError.nil_dereference
  unfolding decode_alias_claim validate_claim
  decode_alias_claim-nil unmarshal raw c alias ws rest read named sized parts good =
      let fixed =
        validate_alias_fixed s.unicode s.idna alias
          (validate_alias-check s.unicode s.idna c.alias alias named) in
      let fault = validate_witnesses-nil ws rest good in
      let at_end : validate_witnesses c.witnesses ≡ err ClaimError.nil_dereference =
        rw parts fault in
      ground (arith, read, named, fixed, at_end)
