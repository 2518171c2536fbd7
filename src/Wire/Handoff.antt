-- ===== src/Wire/Handoff.antt =====
-- internal/wire/transfer.go: VerifyAuthorityChainWithTransfers (§8.3); internal/wire/recovery_walk.go:
-- VerifyAuthorityChainWithHandoffs (§8.3 and §8.4). A fetch that fails and one that finds nothing are
-- both `none`.
pub mod Linked
pub mod Lineage
use freens.Prelude.{
  ℕ, zero, suc, ◌+◌, ◌%◌, ◌^◌, Bool, true, false, ◌&&◌, not, ◌==◌, List, length, Bytes, bytes_eq,
  Option, none, some, if◌then◌else◌,
}
use freens.Wire.Record.{Envelope, Platform, bytes_of, hash_len, record_hash, verify_signature}
use freens.Wire.Winner.{verify_chain_link}
use freens.Wire.Authority.{self_certified_tld_root, chain_well_formed, verify_from_root}
use freens.Wire.Recovery.{RecoveryEvidence, verify_recovery}

abbrev pub transfer_max_depth : ℕ
transfer_max_depth = 16

-- `fetchEvidence` may be nil.
module _ (p : Platform) (fetch_evidence : Option (Bytes → Option RecoveryEvidence)) (now : ℕ) where
  abbrev pub evidence_ok : Envelope → Envelope → Option RecoveryEvidence → Bool
  evidence_ok cur prev none = false
  evidence_ok cur prev (some ev) =
      bytes_eq ev.new_owner_pk cur.body.owner && (elim (record_hash p prev) [
        | none ↦ false
        | some h_prev ↦ verify_recovery p prev.body.recovery (some ev) h_prev prev.body.created now
      ])

  unfoldable pub verify_recovery_hop : Envelope → Envelope → Bool
  verify_recovery_hop cur prev = elim fetch_evidence [
    | none ↦ false
    | some fetch ↦ elim (record_hash p cur) [
      | none ↦ false
      | some h_cur ↦ evidence_ok cur prev (fetch h_cur)
    ]
  ]

  -- Step (c) of verifyHandoffWalk: a transfer hop, a recovery hop, or neither.
  unfoldable pub hop_authorized : Envelope → Envelope → Bool
  hop_authorized cur prev =
      if bytes_eq cur.signer prev.body.owner
      then true
      else (if bytes_eq cur.signer cur.body.owner && not (bytes_eq prev.body.owner cur.signer)
          then verify_recovery_hop cur prev
          else false)

module _ (p : Platform) (fetch_predecessor : Bytes → Option Envelope) where
  -- Steps (a) and (b) of both walks: the predecessor, if it is found, signed and linked.
  unfoldable pub predecessor : Envelope → Option Envelope
  predecessor cur =
      if length (bytes_of cur.body.prev_hash) == hash_len
      then (elim (fetch_predecessor (bytes_of cur.body.prev_hash)) [
        | none ↦ none
        | some prev ↦
            if verify_signature p prev
              && (prev.body.sequence + 1) % 2 ^ 64 == cur.body.sequence
              && bytes_eq prev.body.name cur.body.name
              && verify_chain_link p (some cur) (some prev)
            then some prev
            else none
      ])
      else none

  -- verifyTransferWalk; the first argument is what `depth` leaves of transferMaxDepth.
  unfoldable pub transfer_walk : ℕ → Envelope → Bool
  transfer_walk zero cur =
      if bytes_eq cur.signer cur.body.owner then self_certified_tld_root p cur else false
  transfer_walk (suc left) cur =
      let walked : Bool = elim (predecessor cur) [
        | none ↦ false
        | some prev ↦ bytes_eq prev.body.owner cur.signer && transfer_walk left prev
      ] in
      if bytes_eq cur.signer cur.body.owner then self_certified_tld_root p cur else walked

  abbrev pub transfer_root_ok : Envelope → Bool
  transfer_root_ok root =
      if bytes_eq root.signer root.body.owner
      then self_certified_tld_root p root
      else transfer_walk transfer_max_depth root

  unfoldable pub verify_authority_chain_with_transfers : List (Option Envelope) → Bool
  verify_authority_chain_with_transfers chain =
      verify_from_root transfer_root_ok (chain_well_formed p chain)

  module _ (fetch_evidence : Option (Bytes → Option RecoveryEvidence)) (now : ℕ) where
    -- verifyHandoffWalk; the first argument is what `depth` leaves of transferMaxDepth.
    unfoldable pub handoff_walk : ℕ → Envelope → Bool
    handoff_walk zero cur = self_certified_tld_root p cur
    handoff_walk (suc left) cur =
        let walked : Bool = elim (predecessor cur) [
          | none ↦ false
          | some prev ↦ hop_authorized p fetch_evidence now cur prev && handoff_walk left prev
        ] in
        if self_certified_tld_root p cur then true else walked

    abbrev pub handoff_root_ok : Envelope → Bool
    handoff_root_ok root =
        if self_certified_tld_root p root then true else handoff_walk transfer_max_depth root

    unfoldable pub verify_authority_chain_with_handoffs : List (Option Envelope) → Bool
    verify_authority_chain_with_handoffs chain =
        verify_from_root handoff_root_ok (chain_well_formed p chain)
