-- ===== src/Tests/Node.antt =====
-- A node that is given a claim, and asked for signatures.
mod Values
mod Replies
use mathlib.Core.Path.{subst}
use freens.Prelude.{
  length-append, ℕ, ◌+◌, ◌≤◌, ◌≡◌, ◌↔◌, refl, sym, ◌∙◌, Bool, true, false, [], ◌∷◌, length, Bytes,
  Option, some, none, ok, err, ℤ, arith, inl, inr, Member, bytes_eq, Result-cases,
}
use freens.Naming.Labels.{validate_alias}
use freens.Wire.Record.{Envelope}
use freens.Claims.Claim.{AliasClaim, prefix, prefix_hash}
use freens.Claims.Pool.{new_claim_pool}
use freens.Claims.Quorum.Full.{HasTimes}
use freens.Claims.Tombstone.{
  candidates, claim_evidence, claim_prefix_hash, claim_reuse_refusal, live_claim_conflict,
}
use freens.Claims.Tombstone.Evidence.{IsEvidence, claim_evidence-IsEvidence}
use freens.Claims.Tombstone.Window.{HasRoom, Passed, unopposed_iff}
use freens.Blacklist.{Ledger, Class, missing, record_violation, flagged}
use freens.Blacklist.Flags.{record_violation-flagged_iff}
use freens.Node.{attested, decode_envelope, Node, Outside, done}
use freens.Node.Put.{carried, claimed, h_put}
use freens.Node.Witness.{h_witness}
use freens.Node.Keyed.{CarriesClaim}
use freens.Node.Guards.{IsAdmitted, h_put-IsAdmitted}
use freens.Node.Guards.Refused.{Settled, h_put-Settled}
use freens.Node.Kept.{IsNode}
use freens.Node.Kept.Runs.{NodeRun, NodeRun-IsNode}
use freens.Node.Cooldown.Spaced.{IsBinding, Spaced, WitnessRun, WitnessRun-Spaced, logged}
use freens.Routing.Nodes.{parse_nodes, encode_nodes}
use freens.Routing.Nodes.RoundTrip.{IsNet, heard, parse_nodes-encode_nodes}
use freens.Claims.Attestation.{WitnessAttestation}
use freens.Claims.Pool.{re_attests_of}
use freens.Store.Entries.{lookup}
use freens.Tokens.{epoch, issue}
use freens.Node.Put.{put_decoded}
use freens.Naming.Reserved.{check_registerable}
use freens.Node.Registerable.{h_witness-check_registerable}
use freens.Node.Get.{Got, h_get, served, answer, issue_token}
use freens.Node.Get.Served.{IsServed, h_get-IsServed}
use freens.Node.Get.Token.{h_get-h_put}
use freens.Tests.Wire.Records.{text}
use freens.Tests.Claims.Values.{prefix_bytes}
use Values.{
  ledger, setting, bob, attestation, wired, held, carrier, claim_key, pool, outside, node, at_time,
  put_args, asks, by_claimant, net, contact,
}

held-HasTimes : HasTimes setting held
held-HasTimes = record {
  low = omega arith;
  high = omega arith;
  signed = λ w m. elim m [
    | inl e ↦ rw (← e) (omega arith)
    | inr (inl e) ↦ rw (← e) (omega arith)
    | inr (inr (inl e)) ↦ rw (← e) (omega arith)
    | inr (inr (inr (inl e))) ↦ rw (← e) (omega arith)
    | inr (inr (inr (inr (inl e)))) ↦ rw (← e) (omega arith)
    | inr (inr (inr (inr (inr n)))) ↦ absurd n
  ];
}

run_evidence :
    claim_evidence setting (λ raw. some wired) carrier bob 200 ≡ some (held, prefix_bytes)
unfolding claim_evidence freens.Claims.Tombstone.is_revoked freens.Wire.Record.validate
    freens.Wire.Record.no_nil freens.Wire.Record.verify_signature freens.Wire.Record.verify bytes_eq
    freens.Claims.Claim.decode_alias_claim validate_alias freens.Naming.Labels.normalize
    freens.Naming.Labels.check_ldh freens.Naming.Text.to_lower freens.Naming.Text.trim_space
    freens.Naming.Labels.all_ldh freens.Naming.Text.has_prefix freens.Naming.Text.has_suffix
    freens.Naming.Text.is_all_digits freens.Claims.Claim.validate_claim
    freens.Claims.Attestation.validate_attestation freens.Claims.Attestation.verify_attestation
    freens.Claims.Attestation.witness_signing_message freens.Claims.Claim.effective_difficulty
    freens.Claims.Claim.infer_difficulty freens.Claims.Claim.infer_difficulty_of prefix prefix_hash
    freens.Claims.Claim.validate_witnesses freens.Claims.Claim.verify_claimant_consistency
    freens.Claims.Claim.verify_pow_from_prefix freens.Claims.Pow.leading_zero_bits
    freens.Claims.Pow.meets_difficulty freens.Claims.Pow.pow_hash freens.Claims.Quorum.add64
    freens.Claims.Quorum.corroborating_witnesses_from_prefix_hash freens.Claims.Quorum.count_nodes
    freens.Claims.Quorum.dedupe freens.Claims.Quorum.has_quorum_from_prefix_hash
    freens.Claims.Quorum.in_band freens.Claims.Quorum.in_set freens.Claims.Quorum.keep
    freens.Claims.Quorum.le64 freens.Claims.Quorum.sub64
    freens.Claims.Quorum.valid_witnesses_from_prefix_hash freens.Claims.Quorum.verify_full
    freens.Claims.Tombstone.before64 freens.Claims.Tombstone.carries freens.Ids.bit_len_u8
    freens.Naming.Text.all_digits freens.Naming.Text.is_ascii freens.Naming.Text.trim_left
    freens.Naming.Wire.decode_labels freens.Naming.Wire.decode_wire_name freens.Wire.Record.tld_id
    freens.Wire.Recovery.be_bytes freens.Wire.Recovery.seen_key
run_evidence = refl

claim_evidence-IsEvidence_example :
    IsEvidence setting (λ raw. some wired) carrier bob 200 held prefix_bytes
claim_evidence-IsEvidence_example =
    claim_evidence-IsEvidence setting (λ raw. some wired) carrier bob 200 held prefix_bytes
      held-HasTimes run_evidence

run_candidates : candidates setting pool bob ≡ some (bob, carrier ∷ [])
unfolding candidates validate_alias freens.Naming.Labels.normalize freens.Naming.Labels.check_ldh
    freens.Naming.Text.to_lower freens.Naming.Text.trim_space freens.Naming.Labels.all_ldh
    freens.Naming.Text.has_prefix freens.Naming.Text.has_suffix freens.Naming.Text.is_all_digits
    freens.Claims.Tombstone.key_for_claim freens.Naming.Keys.dht_key_claim freens.Claims.Pool.top2
    freens.Store.Entries.lookup bytes_eq
run_candidates = refl

carrier-HasRoom :
    (env : Envelope)
    → Member env (carrier ∷ [])
    → HasRoom setting (λ raw. some wired) bob (text 9 32) 3000000 env
carrier-HasRoom env m = elim m [ inl e ↦ rw (← e) (omega arith) | inr n ↦ absurd n ]

unopposed_iff_example :
    ((claim_reuse_refusal setting (λ raw. some wired) pool bob (text 9 32) 3000000 ≡ 0)
      × (live_claim_conflict setting (λ raw. some wired) pool bob (text 9 32) 3000000 ≡ false))
    ↔ ((env : Envelope)
        → Member env (carrier ∷ [])
        → Passed setting (λ raw. some wired) bob (text 9 32) 3000000 env)
unopposed_iff_example =
    unopposed_iff setting (λ raw. some wired) pool bob (text 9 32) 3000000 bob (carrier ∷ [])
      run_candidates carrier-HasRoom

run_put : (h_put outside node (at_time 200) put_args).1 ≡ done
unfolding h_put flagged freens.Node.Put.put_admitted freens.Tokens.verify_token
    freens.Tokens.verify_from freens.Node.Put.put_decoded freens.Node.decode_envelope
    freens.Node.Put.put_verified freens.Node.Put.put_key_for
    freens.Store.Envelopes.key_for_wire_name freens.Naming.Keys.dht_key_claim
    freens.Node.Put.carried freens.Node.Put.put_claim freens.Node.Put.put_store
    freens.Node.Put.is_incumbent freens.Node.Put.in_reuse_window freens.Claims.Tombstone.is_revoked
    freens.Wire.Record.validate freens.Wire.Record.no_nil freens.Wire.Record.verify_signature
    freens.Wire.Record.verify bytes_eq freens.Claims.Claim.decode_alias_claim validate_alias
    freens.Naming.Labels.normalize freens.Naming.Labels.check_ldh freens.Naming.Text.to_lower
    freens.Naming.Text.trim_space freens.Naming.Labels.all_ldh freens.Naming.Text.has_prefix
    freens.Naming.Text.has_suffix freens.Naming.Text.is_all_digits
    freens.Claims.Claim.validate_claim freens.Claims.Attestation.validate_attestation
    freens.Claims.Attestation.verify_attestation freens.Claims.Attestation.witness_signing_message
    freens.Claims.Claim.effective_difficulty freens.Claims.Claim.infer_difficulty
    freens.Claims.Claim.infer_difficulty_of prefix prefix_hash
    freens.Claims.Claim.validate_witnesses freens.Claims.Claim.verify_claimant_consistency
    freens.Claims.Claim.verify_pow_from_prefix freens.Claims.Pow.leading_zero_bits
    freens.Claims.Pow.meets_difficulty freens.Claims.Pow.pow_hash freens.Claims.Quorum.add64
    freens.Claims.Quorum.corroborating_witnesses_from_prefix_hash freens.Claims.Quorum.count_nodes
    freens.Claims.Quorum.dedupe freens.Claims.Quorum.has_quorum_from_prefix_hash
    freens.Claims.Quorum.in_band freens.Claims.Quorum.in_set freens.Claims.Quorum.keep
    freens.Claims.Quorum.le64 freens.Claims.Quorum.sub64
    freens.Claims.Quorum.valid_witnesses_from_prefix_hash freens.Claims.Quorum.verify_full
    freens.Claims.Tombstone.before64 freens.Claims.Tombstone.carries freens.Ids.bit_len_u8
    freens.Naming.Text.all_digits freens.Naming.Text.is_ascii freens.Naming.Text.trim_left
    freens.Naming.Wire.decode_labels freens.Naming.Wire.decode_wire_name freens.Wire.Record.tld_id
    freens.Wire.Recovery.be_bytes freens.Wire.Recovery.seen_key
    freens.Claims.Tombstone.key_for_claim claim_reuse_refusal candidates
    freens.Claims.Tombstone.refusal_from freens.Claims.Pool.top2 freens.Store.Entries.lookup
    new_claim_pool freens.Store.Envelopes.put_with_evidence freens.Store.Entries.new_envelope_store
    freens.Store.Envelopes.install
run_put = refl

run_carried : CarriesClaim outside carrier held
unfolding freens.Claims.Claim.decode_alias_claim freens.Claims.Claim.validate_claim
    freens.Claims.Claim.validate_witnesses freens.Claims.Attestation.validate_attestation
    validate_alias freens.Naming.Labels.normalize freens.Naming.Labels.check_ldh
    freens.Naming.Text.to_lower freens.Naming.Text.trim_space freens.Naming.Labels.all_ldh
    freens.Naming.Text.has_prefix freens.Naming.Text.has_suffix freens.Naming.Text.is_all_digits
run_carried = refl

sent-HasTimes :
    (env : Envelope) (claim : AliasClaim)
    → outside.unmarshal_envelope put_args.envelope ≡ some env
    → CarriesClaim outside env claim
    → HasTimes setting claim
sent-HasTimes env claim d c =
    let same : env ≡ carrier = cc d in
    let c' : CarriesClaim outside carrier claim =
      subst (λ e. CarriesClaim outside e claim) same c in
    let claims : held ≡ claim = cc (c', run_carried) in
    subst (λ x. HasTimes setting x) claims held-HasTimes

h_put-IsAdmitted_example : IsAdmitted outside node (at_time 200) put_args
h_put-IsAdmitted_example =
    h_put-IsAdmitted outside node (at_time 200) put_args sent-HasTimes run_put

h_put-Settled_example : Settled node (h_put outside node (at_time 200) put_args)
h_put-Settled_example = h_put-Settled outside node (at_time 200) put_args

NodeRun-IsNode_example : IsNode outside (h_put outside node (at_time 200) put_args).0
NodeRun-IsNode_example =
    NodeRun-IsNode outside (h_put outside node (at_time 200) put_args).0
      (NodeRun.put node (at_time 200) put_args (NodeRun.created node 0 refl refl))

by_claimant-claimant :
    (alias tld claimant ph : Bytes) (ts : ℕ)
    → claim_prefix_hash by_claimant.setting alias tld claimant ts ≡ some ph
    → claimant ≡ ph
unfolding claim_prefix_hash prefix_hash prefix
by_claimant-claimant alias tld claimant ph ts h =
    elim (Result-cases (validate_alias by_claimant.setting.unicode none alias)) [
      | inl (a, e) ↦ ground (arith, e)
      | inr (why, e) ↦ absurd (ground (arith, e))
    ]

by_claimant-IsBinding : IsBinding by_claimant
by_claimant-IsBinding alias alias' tld tld' claimant claimant' ph ts ts' h h' =
    by_claimant-claimant alias tld claimant ph ts h
    ∙ sym (by_claimant-claimant alias' tld' claimant' ph ts' h')

abbrev asked_once : Node
asked_once = (h_witness by_claimant node (at_time 100) (asks 1)).0

WitnessRun-Spaced_example : Spaced (
    logged by_claimant
      (at_time 200)
      (asks 2)
      (h_witness by_claimant asked_once (at_time 200) (asks 2)).1
      (logged by_claimant
        (at_time 100)
        (asks 1)
        (h_witness by_claimant node (at_time 100) (asks 1)).1
        []))
WitnessRun-Spaced_example =
    WitnessRun-Spaced by_claimant (h_witness by_claimant asked_once (at_time 200) (asks 2)).0 _ 200
      by_claimant-IsBinding
      (WitnessRun.asked asked_once _ 100 (at_time 200) (asks 2)
        (WitnessRun.asked node [] 0 (at_time 100) (asks 1) (WitnessRun.started node 0 refl)
          (omega arith))
        (omega arith))

record_violation-flagged_iff_example :
    ((record_violation (λ b. b) (some ledger) missing (text 7 32) Class.bad_pow [] 50).1 ≡ true)
    × (((flagged
            (record_violation (λ b. b) (some ledger) missing (text 7 32) Class.bad_pow [] 50).0
            (text 7 32)
            120).1
          ≡ true)
        ↔ (120 ≤ 150))
record_violation-flagged_iff_example =
    record_violation-flagged_iff (λ b. b) ledger missing (text 7 32) Class.bad_pow [] 50 120 refl
