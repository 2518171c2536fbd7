-- ===== src/Tests/Node/Replies.antt =====
-- A node that is asked for what it holds, and for signatures.
use freens.Prelude.{
  length-append, ℕ, ◌≡◌, refl, sym, false, [], ◌∷◌, Bytes, some, none, ok, arith, bytes_eq,
}
use freens.Naming.Labels.{validate_alias}
use freens.Wire.Record.{Envelope}
use freens.Claims.Claim.{AliasClaim, prefix, prefix_hash}
use freens.Claims.Pool.{new_claim_pool}
use freens.Claims.Tombstone.{
  candidates, claim_evidence, claim_prefix_hash, claim_reuse_refusal, live_claim_conflict,
}
use freens.Blacklist.{flagged}
use freens.Node.{attested, decode_envelope, Node, Outside, done}
use freens.Node.Put.{h_put}
use freens.Node.Witness.{h_witness}
use freens.Routing.Nodes.{parse_nodes, encode_nodes}
use freens.Routing.Nodes.RoundTrip.{IsNet, heard, parse_nodes-encode_nodes}
use freens.Claims.Attestation.{WitnessAttestation}
use freens.Claims.Pool.{re_attests_of}
use freens.Store.Entries.{lookup}
use freens.Tokens.{epoch, issue}
use freens.Node.Put.{put_decoded}
use freens.Naming.Reserved.{check_registerable}
use freens.Node.Registerable.{h_witness-check_registerable}
use freens.Node.Get.{Got, h_get, served, answer, issue_token}
use freens.Node.Get.Served.{IsServed, h_get-IsServed}
use freens.Node.Get.Token.{h_get-h_put}
use freens.Tests.Wire.Records.{text}
use freens.Tests.Node.Values.{
  ledger, bob, claim_key, pool, outside, node, at_time, put_args, asks, by_claimant, net, contact,
}

net-IsNet : IsNet net
net-IsNet = record {
  short = λ h ip v4 e f. ground arith;
  long = λ h ip e f. absurd (ground arith);
  alike = λ h ip v4 e f. refl;
  nonempty = λ h p. ground (arith, length-append h (b':' ∷ p));
}

parse_nodes-encode_nodes_example :
    parse_nodes net (some (encode_nodes net (contact ∷ []))) ≡ heard net (contact ∷ [])
parse_nodes-encode_nodes_example =
    parse_nodes-encode_nodes net net-IsNet (contact ∷ []) ((refl, refl), tt)

-- A node that pools the claim, and flags its only contact.
abbrev strict : Node
strict = record node {
  claims = pool;
  black = some (record ledger {
    entries =
        (contact.node_id, record { violations = []; flagged_at = 0; expires_at = 900000 }) ∷ [];
  });
}

abbrev asked_of : Node → ℕ → Got
asked_of n now =
    answer outside n (at_time now) claim_key (served outside n.store claim_key now).0
      (served outside n.store claim_key now).1

run_get : (n : Node) (now : ℕ) → (h_get outside n (at_time now) claim_key).1 ≡ ok (asked_of n now)
unfolding h_get
run_get n now = refl

no_re_attests : (ph : Bytes) → re_attests_of pool claim_key ph ≡ []
unfolding re_attests_of lookup new_claim_pool
no_re_attests ph = refl

h_get-IsServed_example :
    IsServed outside strict
      (h_get outside strict (at_time 200000) claim_key).0
      (at_time 200000)
      claim_key
      (asked_of strict 200000)
h_get-IsServed_example =
    h_get-IsServed outside strict (at_time 200000) claim_key (asked_of strict 200000) ((λ n. n), tt)
      (omega arith) (omega arith) (λ ph w m. absurd (rw (no_re_attests ph) at m))
      (run_get strict 200000)

got_token : (asked_of node 200).token ≡ text 0 32
unfolding answer issue_token issue
got_token = refl

epochs : (epoch node.tokens 200 ≡ 0) × (epoch node.tokens 400 ≡ 1)
unfolding epoch
epochs = (refl, refl)

not_flagged : (flagged node.black put_args.sender 400).1 ≡ false
unfolding flagged
not_flagged = refl

h_get-h_put_example :
    h_put outside node (at_time 400) put_args
    ≡ put_decoded outside
        (record node { black = (flagged node.black put_args.sender 400).0 })
        (at_time 400)
        put_args
h_get-h_put_example =
    h_get-h_put outside node node (at_time 200) (at_time 400) claim_key (asked_of node 200) put_args
      (run_get node 200) (sym got_token) (rw got_token refl) refl refl (omega (arith, epochs))
      (omega (arith, epochs)) not_flagged refl refl

run_witness : (h_witness by_claimant node (at_time 100) (asks 1)).1 ≡ attested (text 2 64) 24
unfolding h_witness flagged freens.Node.Witness.witness_admitted freens.Node.Witness.witness_timed
    freens.Naming.Reserved.is_reserved_tld freens.Naming.Reserved.project_reserved
    freens.Node.Witness.witness_named claim_prefix_hash freens.Node.Witness.witness_proved
    freens.Node.Witness.co_sign freens.Node.Witness.is_old freens.Node.Witness.cooling
    claim_reuse_refusal live_claim_conflict candidates freens.Claims.Tombstone.key_for_claim
    freens.Claims.Pool.top2 new_claim_pool freens.Store.Entries.lookup
    freens.Claims.Tombstone.refusal_from freens.Claims.Tombstone.conflict_from
    freens.Claims.Claim.verify_pow freens.Claims.Attestation.new_witness_attestation
    freens.Difficulty.record_accepted freens.Difficulty.new_difficulty_state
    freens.Claims.Tombstone.is_revoked freens.Wire.Record.validate freens.Wire.Record.no_nil
    freens.Wire.Record.verify_signature freens.Wire.Record.verify bytes_eq
    freens.Claims.Claim.decode_alias_claim validate_alias freens.Naming.Labels.normalize
    freens.Naming.Labels.check_ldh freens.Naming.Text.to_lower freens.Naming.Text.trim_space
    freens.Naming.Labels.all_ldh freens.Naming.Text.has_prefix freens.Naming.Text.has_suffix
    freens.Naming.Text.is_all_digits freens.Claims.Claim.validate_claim
    freens.Claims.Attestation.validate_attestation freens.Claims.Attestation.verify_attestation
    freens.Claims.Attestation.witness_signing_message freens.Claims.Claim.effective_difficulty
    freens.Claims.Claim.infer_difficulty freens.Claims.Claim.infer_difficulty_of prefix prefix_hash
    freens.Claims.Claim.validate_witnesses freens.Claims.Claim.verify_claimant_consistency
    freens.Claims.Claim.verify_pow_from_prefix freens.Claims.Pow.leading_zero_bits
    freens.Claims.Pow.meets_difficulty freens.Claims.Pow.pow_hash freens.Claims.Quorum.add64
    freens.Claims.Quorum.corroborating_witnesses_from_prefix_hash freens.Claims.Quorum.count_nodes
    freens.Claims.Quorum.dedupe freens.Claims.Quorum.has_quorum_from_prefix_hash
    freens.Claims.Quorum.in_band freens.Claims.Quorum.in_set freens.Claims.Quorum.keep
    freens.Claims.Quorum.le64 freens.Claims.Quorum.sub64
    freens.Claims.Quorum.valid_witnesses_from_prefix_hash freens.Claims.Quorum.verify_full
    freens.Claims.Tombstone.before64 freens.Claims.Tombstone.carries freens.Ids.bit_len_u8
    freens.Naming.Text.all_digits freens.Naming.Text.is_ascii freens.Naming.Text.trim_left
    freens.Naming.Wire.decode_labels freens.Naming.Wire.decode_wire_name freens.Wire.Record.tld_id
    freens.Wire.Recovery.be_bytes freens.Wire.Recovery.seen_key freens.Naming.Keys.dht_key_claim
run_witness = refl

h_witness-check_registerable_example :
    (norm : Bytes) × (check_registerable (λ alias. false) by_claimant.setting.unicode none bob
      ≡ ok norm)
h_witness-check_registerable_example =
    h_witness-check_registerable by_claimant node (at_time 100) (asks 1) (text 2 64) 24 refl
      run_witness
