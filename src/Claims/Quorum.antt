-- ===== src/Claims/Quorum.antt =====
-- internal/claims/claims.go: ValidWitnesses, HasQuorum, FreshAttestations, HasFreshQuorum and
-- VerifyFull. A key of the maps is the hexadecimal text of a node ID; the text and the ID determine
-- each other, and the models keep the ID. A `map[string]bool` that may be nil is an
-- `Option (Bytes → Bool)`. Quorums are not negative.
pub mod Count
pub mod Band
pub mod Full
pub mod Fresh
use freens.Prelude.{
  ℕ, ◌+◌, ◌-◌, ◌%◌, ◌^◌, Bool, true, false, ◌&&◌, ◌||◌, leb, List, [], ◌∷◌, length, Bytes, Option,
  none, some, if◌then◌else◌, ℤ,
}
use freens.Wire.Recovery.{seen_key}
use freens.Claims.Attestation.{WitnessAttestation, verify_attestation}
use freens.Claims.Claim.{
  AliasClaim, Setting, prefix, prefix_hash, effective_difficulty, verify_pow_from_prefix,
  verify_claimant_consistency,
}

abbrev pub max_witness_evaluations : ℕ
max_witness_evaluations = 16

abbrev pub skew_tolerance : ℕ
skew_tolerance = 60

abbrev pub witness_present_window : ℕ
witness_present_window = 300

-- An int64 is its bit pattern. Two of them compare as their patterns do, moved by half the range.
unfoldable pub le64 : ℕ → ℕ → Bool
le64 a b = leb ((a + 2 ^ 63) % 2 ^ 64) ((b + 2 ^ 63) % 2 ^ 64)

unfoldable pub add64 : ℕ → ℕ → ℕ
add64 a b = (a + b) % 2 ^ 64

unfoldable pub sub64 : ℕ → ℕ → ℕ
sub64 a b = (a + 2 ^ 64 - b) % 2 ^ 64

-- The first loop of validWitnessesFromPrefixHash: the first attestation of each node, up to the cap.
-- `seen` has one ID for each attestation kept.
unfoldable pub dedupe : List WitnessAttestation → List Bytes → List WitnessAttestation
dedupe [] seen = []
dedupe (w ∷ ws) seen =
    let skip = dedupe ws seen in
    let more = dedupe ws (w.node_id ∷ seen) in
    if seen_key w.node_id seen
    then skip
    else w ∷ (if leb max_witness_evaluations (length (w.node_id ∷ seen)) then [] else more)

-- The loops that keep what passes a test.
unfoldable pub keep :
    (WitnessAttestation → Bool) → List WitnessAttestation → List WitnessAttestation
keep test [] = []
keep test (w ∷ ws) = if test w then w ∷ keep test ws else keep test ws

-- `witnessSetIDs == nil || witnessSetIDs[k]`
unfoldable pub in_set : Option (Bytes → Bool) → Bytes → Bool
in_set none k = true
in_set (some ids) k = ids k

-- The IDs in the map `counted` at the end of the loop, `counted` at its start.
unfoldable pub count_nodes :
    Option (Bytes → Bool) → List WitnessAttestation → List Bytes → List Bytes
count_nodes ids [] counted = counted
count_nodes ids (w ∷ ws) counted = count_nodes ids ws (
    if in_set ids w.node_id
    then (if seen_key w.node_id counted then counted else w.node_id ∷ counted)
    else counted)

unfoldable pub in_band : ℕ → ℕ → ℕ → Bool
in_band lo hi ts = le64 lo ts && le64 ts hi

module _ (s : Setting) where
  unfoldable pub valid_witnesses_from_prefix_hash : AliasClaim → Bytes → List WitnessAttestation
  valid_witnesses_from_prefix_hash c ph =
      keep (λ w. verify_attestation s.platform w ph) (dedupe c.witnesses [])

  unfoldable pub valid_witnesses : AliasClaim → List WitnessAttestation
  valid_witnesses c = elim (prefix_hash s c) [
    | none ↦ []
    | some ph ↦ valid_witnesses_from_prefix_hash c ph
  ]

  unfoldable pub corroborating_witnesses_from_prefix_hash :
      AliasClaim → Bytes → List WitnessAttestation
  corroborating_witnesses_from_prefix_hash c ph =
      keep
        (λ w.
          in_band (sub64 c.timestamp skew_tolerance)
            (add64 (add64 c.timestamp witness_present_window) skew_tolerance) w.ts)
        (valid_witnesses_from_prefix_hash c ph)

  unfoldable pub has_quorum_from_prefix_hash : AliasClaim → Bytes → Option (Bytes → Bool) → ℕ → Bool
  has_quorum_from_prefix_hash c ph ids quorum =
      leb quorum (length (count_nodes ids (corroborating_witnesses_from_prefix_hash c ph) []))

  unfoldable pub has_quorum : AliasClaim → Option (Bytes → Bool) → ℕ → Bool
  has_quorum c ids quorum = elim (prefix_hash s c) [
    | none ↦ false
    | some ph ↦ has_quorum_from_prefix_hash c ph ids quorum
  ]

  -- The loop of FreshAttestations: the attestations dated between `lo` and `hi`. A node is seen only
  -- once an attestation of its own has been kept.
  unfoldable pub fresh_from :
      Bytes → ℕ → ℕ → List WitnessAttestation → List Bytes → ℕ → List WitnessAttestation
  fresh_from ph lo hi [] seen evaluated = []
  fresh_from ph lo hi (w ∷ ws) seen evaluated =
      let skip = fresh_from ph lo hi ws seen evaluated in
      let reject = fresh_from ph lo hi ws seen (evaluated + 1) in
      let accept = fresh_from ph lo hi ws (w.node_id ∷ seen) (evaluated + 1) in
      if seen_key w.node_id seen
      then skip
      else (if leb max_witness_evaluations evaluated
          then []
          else (if verify_attestation s.platform w ph && in_band lo hi w.ts
              then w ∷ accept
              else reject))

  unfoldable pub fresh_attestations :
      List WitnessAttestation → Bytes → ℕ → ℕ → List WitnessAttestation
  unfolding fresh_from
  fresh_attestations atts ph now fresh_window =
      fresh_from ph (sub64 now fresh_window) (add64 now skew_tolerance) atts [] 0

  unfoldable pub has_fresh_quorum :
      List WitnessAttestation → Bytes → ℕ → ℕ → Option (Bytes → Bool) → ℕ → Bool
  has_fresh_quorum atts ph now fresh_window ids quorum =
      leb quorum (length (count_nodes ids (fresh_attestations atts ph now fresh_window) []))

  unfoldable pub verify_full : AliasClaim → ℤ → Option (Bytes → Bool) → ℕ → Bool
  verify_full c difficulty_bits ids quorum = verify_claimant_consistency s c && (elim (prefix s c) [
    | none ↦ false
    | some pre ↦
        verify_pow_from_prefix s c pre (effective_difficulty s c difficulty_bits)
        && has_quorum_from_prefix_hash c (s.platform.sha256 pre) ids quorum
  ])
