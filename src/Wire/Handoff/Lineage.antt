-- ===== src/Wire/Handoff/Lineage.antt =====
-- The walks of internal/wire/transfer.go and recovery_walk.go against the lineage of a record.
use freens.Prelude.{
  ℕ, zero, suc, ◌≤◌, ◌≡◌, ◌↔◌, ◌⊎◌, true, false, List, Bytes, bytes_eq, bytes_eq→eq, bytes_eq_refl,
  bytes_eq_sym, [], ◌∷◌, Option, some, Bool-cases, Option-cases, inl, inr, arith,
}
use freens.Wire.Record.{Envelope, Platform}
use freens.Wire.Authority.{self_certified_tld_root, chain_well_formed, verify_from_root}
use freens.Wire.Recovery.{RecoveryEvidence}
use freens.Wire.Handoff.Linked.{
  Linked, Declared, predecessor-Linked, Linked-predecessor, recovery_hop-Declared,
  Declared-recovery_hop,
}
use freens.Wire.Handoff.{
  predecessor, transfer_walk, verify_authority_chain_with_transfers, verify_recovery_hop,
  hop_authorized, handoff_walk, verify_authority_chain_with_handoffs,
}

module _ (p : Platform) (fetch_predecessor : Bytes → Option Envelope)
    (fetch_evidence : Option (Bytes → Option RecoveryEvidence)) (now : ℕ) where
  -- A record descends in n hand-offs from a root that certifies itself: each hop to the linked
  -- predecessor is a transfer, signed by the predecessor's owner, or a recovery, signed by the new
  -- owner, with evidence.
  pub data Lineage : ℕ → Envelope → Type 0 where
    origin : (e : Envelope) → self_certified_tld_root p e ≡ true → Lineage zero e
    transfer :
        {n : ℕ} (cur prev : Envelope)
        → Linked p fetch_predecessor cur prev
        → cur.signer ≡ prev.body.owner
        → Lineage n prev
        → Lineage (suc n) cur
    recovered :
        {n : ℕ} (cur prev : Envelope)
        → Linked p fetch_predecessor cur prev
        → cur.signer ≡ cur.body.owner
        → Declared p fetch_evidence now cur prev
        → Lineage n prev
        → Lineage (suc n) cur

module _ (p : Platform) (fetch_predecessor : Bytes → Option Envelope) where
  transfer_walk_step :
      (left : ℕ) (cur : Envelope)
      → bytes_eq cur.signer cur.body.owner ≡ false
      → transfer_walk p fetch_predecessor (suc left) cur ≡ true
      → (prev : Envelope) × (predecessor p fetch_predecessor cur ≡ some prev)
        × (prev.body.owner ≡ cur.signer)
        × (transfer_walk p fetch_predecessor left prev ≡ true)
  unfolding transfer_walk
  transfer_walk_step left cur ne h = elim (Option-cases (predecessor p fetch_predecessor cur)) [
    | inl e ↦ ground arith
    | inr (q, e) ↦ (q, e, ground (arith, bytes_eq→eq q.body.owner cur.signer), ground arith)
  ]

  module _ (fetch_evidence : Option (Bytes → Option RecoveryEvidence)) (now : ℕ) where
    handoff_walk_step :
        (left : ℕ) (cur : Envelope)
        → self_certified_tld_root p cur ≡ false
        → handoff_walk p fetch_predecessor fetch_evidence now (suc left) cur ≡ true
        → (prev : Envelope) × (predecessor p fetch_predecessor cur ≡ some prev)
          × (hop_authorized p fetch_evidence now cur prev ≡ true)
          × (handoff_walk p fetch_predecessor fetch_evidence now left prev ≡ true)
    unfolding handoff_walk
    handoff_walk_step left cur ne h = elim (Option-cases (predecessor p fetch_predecessor cur)) [
      | inl e ↦ ground arith
      | inr (q, e) ↦ (q, e, ground arith, ground arith)
    ]

    hop_cases :
        (cur prev : Envelope)
        → hop_authorized p fetch_evidence now cur prev ≡ true
        → (cur.signer ≡ prev.body.owner)
          ⊎ ((cur.signer ≡ cur.body.owner) × Declared p fetch_evidence now cur prev)
    unfolding hop_authorized
    hop_cases cur prev h = elim (Bool-cases (bytes_eq cur.signer prev.body.owner)) [
      | inl e ↦ inl (bytes_eq→eq _ _ e)
      | inr e ↦
          let own : bytes_eq cur.signer cur.body.owner ≡ true = ground arith in
          let hop : verify_recovery_hop p fetch_evidence now cur prev ≡ true = ground arith in
          inr (bytes_eq→eq _ _ own, recovery_hop-Declared p fetch_evidence now cur prev hop)
    ]

    walk-Lineage :
        (left : ℕ) (cur : Envelope)
        → handoff_walk p fetch_predecessor fetch_evidence now left cur ≡ true
        → (n : ℕ) × (n ≤ left) × Lineage p fetch_predecessor fetch_evidence now n cur
    walk-Lineage zero cur h = (0, omega arith, Lineage.origin cur (unfold handoff_walk in h))
    walk-Lineage (suc left) cur h = elim (Bool-cases (self_certified_tld_root p cur)) [
      | inl root ↦ (0, omega arith, Lineage.origin cur root)
      | inr further ↦
          let (prev, found, hop, before) = handoff_walk_step left cur further h in
          let (n, le, lineage) = walk-Lineage left prev before in
          let linked = predecessor-Linked p fetch_predecessor cur prev found in
          elim (hop_cases cur prev hop) [
            | inl signed ↦ (suc n, omega arith, Lineage.transfer cur prev linked signed lineage)
            | inr (own, declared) ↦
                (suc n, omega arith, Lineage.recovered cur prev linked own declared lineage)
          ]
    ]

    Lineage-walk :
        {n : ℕ} {cur : Envelope} (left : ℕ)
        → Lineage p fetch_predecessor fetch_evidence now n cur
        → n ≤ left
        → handoff_walk p fetch_predecessor fetch_evidence now left cur ≡ true
    unfolding handoff_walk hop_authorized
    Lineage-walk zero (Lineage.origin e root) le = root
    Lineage-walk (suc left) (Lineage.origin e root) le = rw root
    Lineage-walk zero (Lineage.transfer cur prev l s rest) le = absurd (omega arith)
    Lineage-walk (suc left) (Lineage.transfer cur prev l s rest) le =
        let signed : bytes_eq cur.signer prev.body.owner ≡ true =
          rw s (bytes_eq_refl prev.body.owner) in
        let before = Lineage-walk left rest (omega arith) in
        let step = Linked-predecessor p fetch_predecessor cur prev l in ground arith
    Lineage-walk zero (Lineage.recovered cur prev l s d rest) le = absurd (omega arith)
    Lineage-walk (suc left) (Lineage.recovered cur prev l s d rest) le =
        let signed : bytes_eq cur.signer cur.body.owner ≡ true =
          rw s (bytes_eq_refl cur.body.owner) in
        let before = Lineage-walk left rest (omega arith) in
        let step = Linked-predecessor p fetch_predecessor cur prev l in
        let hop = Declared-recovery_hop p fetch_evidence now cur prev d in
        let other = bytes_eq_sym cur.signer prev.body.owner in ground arith

    -- The hand-off walk accepts a record exactly when the record descends, in at most 16 hand-offs,
    -- from a root that certifies itself.
    pub handoff_walk-Lineage :
        (tip : Envelope)
        → (handoff_walk p fetch_predecessor fetch_evidence now 16 tip ≡ true)
          ↔ ((n : ℕ) × (n ≤ 16) × Lineage p fetch_predecessor fetch_evidence now n tip)
    handoff_walk-Lineage tip = (walk-Lineage 16 tip, λ found. Lineage-walk 16 found.2 found.1)

    transfer_walk-handoff_walk :
        (left : ℕ) (cur : Envelope)
        → transfer_walk p fetch_predecessor left cur ≡ true
        → handoff_walk p fetch_predecessor fetch_evidence now left cur ≡ true
    unfolding transfer_walk handoff_walk hop_authorized
    transfer_walk-handoff_walk zero cur h = ground arith
    transfer_walk-handoff_walk (suc left) cur h =
        elim (Bool-cases (bytes_eq cur.signer cur.body.owner)) [
          | inl own ↦ let root : self_certified_tld_root p cur ≡ true = ground arith in ground arith
          | inr other ↦
              let (prev, found, signed, before) = transfer_walk_step left cur other h in
              let rest = transfer_walk-handoff_walk left prev before in
              let hop : bytes_eq cur.signer prev.body.owner ≡ true =
                rw signed (bytes_eq_refl cur.signer) in
              ground arith
        ]

    -- Whatever evidence there is and whatever the clock says, a chain that is accepted with
    -- transfers is accepted with hand-offs.
    pub transfers-handoffs :
        (chain : List (Option Envelope))
        → verify_authority_chain_with_transfers p fetch_predecessor chain ≡ true
        → verify_authority_chain_with_handoffs p fetch_predecessor fetch_evidence now chain ≡ true
    unfolding verify_authority_chain_with_transfers verify_authority_chain_with_handoffs
        verify_from_root
    transfers-handoffs chain h = elim (Option-cases (chain_well_formed p chain)) [
      | inl e ↦ ground arith
      | inr ([], e) ↦ ground arith
      | inr (root ∷ rest, e) ↦ ground (arith, transfer_walk-handoff_walk 16 root)
    ]
