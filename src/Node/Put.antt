-- ===== src/Node/Put.antt =====
-- internal/dht/transport.go: hPut and putKeyFor. An argument that is absent or of another type is the
-- empty slice.
use freens.Prelude.{
  Bool, true, false, ◌||◌, not, ltb, ◌==◌, length, Bytes, bytes_eq, Option, none, some, Result, ok,
  err, if◌then◌else◌, ℤ,
}
use freens.Wire.Record.{Envelope, bytes_of, record_hash, verify_signature}
use freens.Claims.Attestation.{ClaimError}
use freens.Claims.Claim.{AliasClaim, decode_alias_claim, prefix_hash}
use freens.Claims.Quorum.{verify_full}
use freens.Claims.Pool.{offer_seen, contains}
use freens.Claims.Tombstone.{quorum_size, key_for_claim, claim_reuse_refusal}
use freens.Store.Envelopes.{key_for_wire_name, get, put_with_evidence}
use freens.Tokens.{verify_token}
use freens.Blacklist.{Class, flagged}
use freens.Node.{
  Node, Outside, Circumstances, Refusal, Reply, done, crashed, refused, decode_envelope,
  record_hash_or_nil, violate, retain_evidence,
}

pub record PutArgs : Type 0 where
  pub sender : Bytes
  pub token : Bytes
  pub envelope : Bytes
  pub evidence : Bytes
  pub key : Bytes

pub data PutKeyError : Type 0 where
  bad_name no_claim bad_claim_key wrong_key nil_dereference : PutKeyError

-- What the code makes of the claim in an envelope.
pub data Carried : Type 0 where
  torn plain : Carried
  claimed : AliasClaim → Carried

module _ (o : Outside) where
  unfoldable pub carried : Envelope → Carried
  carried env = elim (decode_alias_claim o.setting o.unmarshal_claim (bytes_of env.body.claim)) [
    | ok claim ↦ claimed claim
    | err ClaimError.nil_dereference ↦ torn
    | err _ ↦ plain
  ]

  unfoldable pub put_key_for : Bytes → Envelope → Result PutKeyError Bytes
  put_key_for explicit env = elim (key_for_wire_name o.setting.platform.sha256 env.body.name) [
    | err e ↦ err PutKeyError.bad_name
    | ok derived ↦
        if length explicit == 0 || bytes_eq explicit derived
        then ok derived
        else (elim (carried env) [
          | torn ↦ err PutKeyError.nil_dereference
          | plain ↦ err PutKeyError.no_claim
          | claimed claim ↦ elim (key_for_claim o.setting claim.alias) [
            | none ↦ err PutKeyError.bad_claim_key
            | some k ↦ if bytes_eq explicit k then ok k else err PutKeyError.wrong_key
          ]
        ])
  ]

  -- The incumbent of the slot is the envelope itself.
  unfoldable pub is_incumbent : Option Envelope → Envelope → Bool
  is_incumbent none env = false
  is_incumbent (some inc) env = elim (record_hash o.setting.platform inc) [
    | none ↦ false
    | some ih ↦ elim (record_hash o.setting.platform env) [
      | none ↦ false
      | some ph ↦ bytes_eq ih ph
    ]
  ]

  -- From PutWithEvidence on; `kept` tells whether the pool holds the envelope.
  unfoldable pub put_store : Node → Circumstances → Bytes → Envelope → Bytes → Bool → Node × Reply
  put_store n t key env evidence kept =
      elim (put_with_evidence o.setting.platform o.setting.unicode o.setting.idna
        o.unmarshal_evidence n.store key (some env) t.now false evidence) [
          | err e ↦ (n, refused 301 Refusal.store_error)
          | ok (store, true) ↦ (retain_evidence o (record n { store = store }) env evidence, done)
          | ok (store, false) ↦ elim (get o.setting.platform store key t.now) [
            | err e ↦ (
              record n { store = store },
              if kept then done else refused 304 Refusal.stale_record,
            )
            | ok (store', inc) ↦
                if is_incumbent inc env
                then (retain_evidence o (record n { store = store' }) env evidence, done)
                else (
                  record n { store = store' },
                  if kept then done else refused 304 Refusal.stale_record,
                )
          ]
        ]

  unfoldable pub in_reuse_window : Node → Circumstances → AliasClaim → Bool
  in_reuse_window n t claim = elim (prefix_hash o.setting claim) [
    | none ↦ false
    | some ph ↦
        ltb 0 (claim_reuse_refusal o.setting o.unmarshal_claim n.claims claim.alias ph t.now)
  ]

  -- A put at the key of the claim that the envelope carries.
  unfoldable pub put_claim :
      Node → Circumstances → Bytes → Envelope → Bytes → AliasClaim → Node × Reply
  put_claim n t key env evidence claim =
      if not (verify_full o.setting claim (ℤ.negsuc 0) none quorum_size)
      then (n, refused 305 Refusal.claim_filter)
      else (if in_reuse_window n t claim
          then (n, refused 301 Refusal.reuse_window)
          else (let pool =
                (offer_seen o.setting o.unmarshal_claim n.claims key (some env) t.now 0).0 in
              put_store (record n { claims = pool }) t key env evidence
                (contains pool key (record_hash_or_nil o env))))

  -- The part after the signature has been verified.
  unfoldable pub put_verified : Node → Circumstances → PutArgs → Envelope → Node × Reply
  put_verified n t m env = elim (put_key_for m.key env) [
    | err PutKeyError.nil_dereference ↦ (n, crashed)
    | err _ ↦ (n, refused 305 Refusal.bad_key)
    | ok key ↦ elim (carried env) [
      | torn ↦ (n, crashed)
      | plain ↦ put_store n t key env m.evidence false
      | claimed claim ↦ elim (key_for_claim o.setting claim.alias) [
        | none ↦ put_store n t key env m.evidence false
        | some k ↦
            if bytes_eq key k
            then put_claim n t k env m.evidence claim
            else put_store n t key env m.evidence false
      ]
    ]
  ]

  -- The part after the write token has been verified.
  unfoldable pub put_decoded : Node → Circumstances → PutArgs → Node × Reply
  put_decoded n t m = elim (decode_envelope o m.envelope) [
    | none ↦ (n, refused 305 Refusal.invalid_record)
    | some env ↦
        if not (verify_signature o.setting.platform env)
        then (
          violate o n t m.sender Class.bad_envelope m.envelope,
          refused 303 Refusal.invalid_signature,
        )
        else put_verified n t m env
  ]

  -- The part after the sender has been looked up in the ledger.
  unfoldable pub put_admitted : Node → Circumstances → PutArgs → Node × Reply
  put_admitted n t m =
      if n.passive
      then (n, refused 301 Refusal.passive_node)
      else (if not t.allowed
          then (n, refused 301 Refusal.throttled)
          else (if not (verify_token o.hmac o.itoa n.tokens t.now t.source m.token (ℤ.pos 1))
              then (n, refused 302 Refusal.invalid_token)
              else put_decoded n t m))

  unfoldable pub h_put : Node → Circumstances → PutArgs → Node × Reply
  h_put n t m =
      let n' = record n { black = (flagged n.black m.sender t.instant).0 } in
      if (flagged n.black m.sender t.instant).1
      then (n', refused 403 Refusal.blacklisted)
      else put_admitted n' t m
