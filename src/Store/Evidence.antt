-- ===== src/Store/Evidence.antt =====
-- The table of recovery evidence of EnvelopeStore (internal/dht/evidence.go).
use freens.Prelude.{
  ℕ, ◌+◌, ◌-◌, Bool, true, false, ◌&&◌, ◌||◌, not, ltb, ◌==◌, List, [], ◌∷◌, ◌++◌, length, Bytes,
  bytes_eq, Option, none, some, Result, ok, err, ◌>>◌, require, if◌then◌else◌,
}
use freens.Wire.Record.{Envelope, Platform, hash_len, record_hash}
use freens.Wire.Recovery.{RecoveryEvidence, decode_recovery_evidence, verify_recovery}
use freens.Store.Entries.{EnvelopeStore, lookup, insert, delete, to_key}

abbrev pub evidence_max : ℕ
evidence_max = 4096

abbrev pub max_evidence_blob_len : ℕ
max_evidence_blob_len = 65536

pub data EvidenceError : Type 0 where
  bad_key blob_too_large bad_evidence : EvidenceError

abbrev pub blob_of : Option Bytes → Bytes
blob_of none = []
blob_of (some b) = b

abbrev pub evidence_full : EnvelopeStore → Bool
evidence_full s =
    (ltb evidence_max (length s.evidence) || ltb s.evid_max_bytes s.evidence_bytes)
    && ltb 1 (length s.evidence)

-- The loop of putEvidenceLocked. Each round takes a key from the queue, which holds the table's keys.
unfoldable pub evict_evidence : List Bytes → EnvelopeStore → EnvelopeStore
evict_evidence [] s = s
evict_evidence (oldest ∷ order) s =
    let rest = evict_evidence order (record s {
      evidence_order = order;
      evidence_bytes = s.evidence_bytes - length (blob_of (lookup oldest s.evidence));
      evidence = delete oldest s.evidence;
    }) in
    if evidence_full s then rest else s

unfoldable pub put_evidence_locked : Bytes → Bytes → EnvelopeStore → EnvelopeStore
put_evidence_locked k raw s =
    let s' = elim (lookup k s.evidence) as (λ o. EnvelopeStore) [
      | none ↦ record s { evidence_order = s.evidence_order ++ (k ∷ []) }
      | some old ↦ record s { evidence_bytes = s.evidence_bytes - length old }
    ] in
    evict_evidence s'.evidence_order (record s' {
      evidence = insert k raw s'.evidence;
      evidence_bytes = s'.evidence_bytes + length raw;
    })

unfoldable pub get_evidence : EnvelopeStore → Bytes → Bytes
get_evidence s record_hash =
    if length record_hash == hash_len then blob_of (lookup (to_key record_hash) s.evidence) else []

abbrev pub is_decodable : {E A : Type 0} → Result E A → Bool
is_decodable (ok a) = true
is_decodable (err e) = false

-- `unmarshal` is the CBOR decoding of a declaration.
module _ (unmarshal : Bytes → Option RecoveryEvidence) where
  -- PutEvidence, PutEvidenceRaw and putEvidenceValidated.
  unfoldable pub put_evidence : Bytes → Bytes → EnvelopeStore → Result EvidenceError EnvelopeStore
  put_evidence record_hash raw s = do
    require (length record_hash == hash_len) EvidenceError.bad_key
    require (not (ltb max_evidence_blob_len (length raw))) EvidenceError.blob_too_large
    require (is_decodable (decode_recovery_evidence unmarshal raw)) EvidenceError.bad_evidence
    ok (put_evidence_locked (to_key record_hash) raw s)

  module _ (p : Platform) where
    -- The evidence given, or what the table holds for the newcomer; empty where there is none.
    unfoldable pub evidence_for : EnvelopeStore → Envelope → Bytes → Bytes
    evidence_for s newcomer given =
        if length given == 0
        then (elim (record_hash p newcomer) [
          | none ↦ []
          | some h ↦ blob_of (lookup (to_key h) s.evidence)
        ])
        else given

    -- recoveryAcceptableLocked: a quorum of the incumbent's policy names the newcomer's key.
    unfoldable pub recovery_acceptable : EnvelopeStore → Envelope → Envelope → Bytes → Bool
    recovery_acceptable s newcomer incumbent given =
        let blob = evidence_for s newcomer given in
        not (length blob == 0) && (elim (decode_recovery_evidence unmarshal blob) [
          | err e ↦ false
          | ok ev ↦
              bytes_eq newcomer.signer newcomer.body.owner
              && bytes_eq ev.new_owner_pk newcomer.signer
              && (elim (record_hash p incumbent) [
                | none ↦ false
                | some h ↦
                    verify_recovery p incumbent.body.recovery (some ev) h incumbent.body.created
                      ev.not_before
              ])
        ])
