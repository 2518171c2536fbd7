-- ===== src/Tests/Wire.antt =====
-- The records of internal/wire: a TLD root, a name below it, a transfer of the root and a recovery.
pub mod Records
use freens.Prelude.{
  ℕ, ◌≤◌, ◌≡◌, ◌↔◌, ◌⊎◌, refl, true, false, List, [], ◌∷◌, Bytes, Option, none, some, arith,
  bytes_eq, bytes_compare,
}
use freens.Wire.Record.{Envelope, record_hash, verify, verify_signature, tld_id}
use freens.Wire.Winner.{envelope_wins, verify_chain_link}
use freens.Wire.Winner.Order.{envelope_wins_trichotomy, envelope_wins_trans}
use freens.Wire.Authority.{
  verify_authority_chain, self_certified_tld_root, signed_all, chain_well_formed, verify_from_root,
  verify_descents, authorized, strict_descendant, labels_eq,
}
use freens.Wire.Authority.Chain.{IsAuthorityChain, verify_authority_chain_iff}
use freens.Wire.Recovery.{
  verify_recovery, bound_ok, timelock_bound, recovery_signing_message, count_keys, seen_key,
  has_signed, any_signature,
}
use freens.Wire.Recovery.Effective.{Effective, verify_recovery-Effective}
use freens.Wire.Handoff.{
  predecessor, hop_authorized, transfer_walk, handoff_walk, verify_authority_chain_with_transfers,
  verify_authority_chain_with_handoffs,
}
use freens.Wire.Handoff.Lineage.{Lineage, handoff_walk-Lineage, transfers-handoffs}
use freens.Naming.Wire.{decode_labels, decode_wire_name}
use freens.Tests.Wire.Records.{
  p, root, below, moved, recovered, root_hash, moved_hash, recovered_hash, policy, evidence, fetch,
  fetch_evidence,
}

run_root : record_hash p root ≡ some root_hash
unfolding record_hash
run_root = refl

run_moved : record_hash p moved ≡ some moved_hash
unfolding record_hash
run_moved = refl

run_recovered : record_hash p recovered ≡ some recovered_hash
unfolding record_hash
run_recovered = refl

run_moved_wins : envelope_wins p (some moved) (some root) ≡ true
unfolding envelope_wins
run_moved_wins = refl

run_recovered_wins : envelope_wins p (some recovered) (some moved) ≡ true
unfolding envelope_wins record_hash bytes_compare
run_recovered_wins = refl

run_chain : verify_authority_chain p (some root ∷ some below ∷ []) ≡ true
unfolding verify_authority_chain self_certified_tld_root chain_well_formed signed_all
    verify_from_root verify_descents verify_signature verify tld_id decode_wire_name decode_labels
    bytes_eq authorized strict_descendant labels_eq
run_chain = refl

run_transfers : verify_authority_chain_with_transfers p fetch (some moved ∷ []) ≡ true
unfolding verify_authority_chain_with_transfers transfer_walk predecessor self_certified_tld_root
    chain_well_formed signed_all verify_from_root verify_descents verify_signature verify tld_id
    decode_wire_name decode_labels verify_chain_link record_hash bytes_eq
run_transfers = refl

run_recovery : verify_recovery p (some policy) (some evidence) root_hash 5 100 ≡ true
unfolding verify_recovery bytes_eq verify bound_ok timelock_bound recovery_signing_message
    count_keys seen_key has_signed any_signature
run_recovery = refl

run_handoff : handoff_walk p fetch fetch_evidence 100 16 moved ≡ true
unfolding handoff_walk predecessor self_certified_tld_root verify_signature verify tld_id
    decode_wire_name decode_labels verify_chain_link record_hash bytes_eq hop_authorized
run_handoff = refl

envelope_wins_trichotomy_example :
    ((envelope_wins p (some moved) (some root) ≡ true)
      × (envelope_wins p (some root) (some moved) ≡ false))
    ⊎ (((envelope_wins p (some moved) (some root) ≡ false)
          × (envelope_wins p (some root) (some moved) ≡ true))
        ⊎ ((envelope_wins p (some moved) (some root) ≡ false)
            × (envelope_wins p (some root) (some moved) ≡ false)
            × (moved.body.sequence ≡ root.body.sequence)
            × (moved_hash ≡ root_hash)))
envelope_wins_trichotomy_example =
    envelope_wins_trichotomy p moved root moved_hash root_hash run_moved run_root

envelope_wins_trans_example : envelope_wins p (some recovered) (some root) ≡ true
envelope_wins_trans_example =
    envelope_wins_trans p recovered moved recovered_hash moved_hash run_recovered run_moved root
      root_hash run_root run_recovered_wins run_moved_wins

verify_authority_chain_iff_example :
    (verify_authority_chain p (some root ∷ some below ∷ []) ≡ true)
    ↔ IsAuthorityChain p (some root ∷ some below ∷ [])
verify_authority_chain_iff_example = verify_authority_chain_iff p (some root ∷ some below ∷ [])

verify_recovery-Effective_example :
    (verify_recovery p (some policy) (some evidence) root_hash 5 100 ≡ true)
    ↔ Effective p policy evidence root_hash 5 100
verify_recovery-Effective_example =
    verify_recovery-Effective p policy evidence root_hash 5 100 (omega arith)

handoff_walk-Lineage_example :
    (handoff_walk p fetch fetch_evidence 100 16 moved ≡ true)
    ↔ ((n : ℕ) × (n ≤ 16) × Lineage p fetch fetch_evidence 100 n moved)
handoff_walk-Lineage_example = handoff_walk-Lineage p fetch fetch_evidence 100 moved

transfers-handoffs_example :
    verify_authority_chain_with_handoffs p fetch fetch_evidence 100 (some moved ∷ []) ≡ true
transfers-handoffs_example =
    transfers-handoffs p fetch fetch_evidence 100 (some moved ∷ []) run_transfers
