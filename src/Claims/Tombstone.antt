-- ===== src/Claims/Tombstone.antt =====
-- internal/dht/claims_tombstone.go: which pooled claims count as evidence, and what they forbid; and
-- reAttestRefusal, kClaimFor and claimPrefixHash of internal/dht/transport.go. The node and its pool
-- are never nil.
pub mod Window
pub mod Evidence
use freens.Prelude.{
  ℕ, ◌+◌, ◌%◌, ◌^◌, Bool, true, false, ◌&&◌, ◌||◌, not, ltb, ◌==◌, List, [], ◌∷◌, length, Bytes,
  bytes_eq, Option, none, some, Result, ok, err, if◌then◌else◌, ℤ,
}
use freens.Naming.Labels.{validate_alias}
use freens.Naming.Wire.{decode_wire_name}
use freens.Naming.Keys.{dht_key_claim}
use freens.Wire.Record.{Envelope, bytes_of, is_ok, validate, verify_signature}
use freens.Claims.Attestation.{WitnessAttestation}
use freens.Claims.Claim.{ClaimOf, AliasClaim, Setting, decode_alias_claim, prefix_hash}
use freens.Claims.Quorum.{skew_tolerance, verify_full}
use freens.Claims.Pool.{ClaimPool, alias_reuse_delay, top2, re_attest_eligible}

abbrev pub quorum_size : ℕ
quorum_size = 5

-- `now < int64(x)`, for an x that uint64 addition has wrapped and a time that is not negative: from
-- 2^63 on the int64 is negative.
unfoldable pub before64 : ℕ → ℕ → Bool
before64 now x = ltb (x % 2 ^ 64) (2 ^ 63) && ltb now (x % 2 ^ 64)

-- IsRevoked.
unfoldable pub is_revoked : Envelope → Bool
is_revoked env = elim env.body.revoke [ none ↦ false | some b ↦ b ]

-- `bytes.Equal(env.Signer, claim.ClaimantPK)` and the name of a TLD record, the claim's own.
unfoldable pub carries : Envelope → AliasClaim → Bool
carries env claim =
    bytes_eq env.signer claim.claimant_pk && (elim (decode_wire_name env.body.name) [
      | err e ↦ false
      | ok (labels, tld) ↦ length labels == 0 && bytes_eq tld claim.tld
    ])

module _ (s : Setting) where
  -- KeyForClaim; an error is `none`.
  unfoldable pub key_for_claim : Bytes → Option Bytes
  key_for_claim alias = elim (dht_key_claim s.platform.sha256 s.unicode s.idna alias) [
    | err e ↦ none
    | ok k ↦ some k
  ]

  -- What the pool offers for an alias, and the alias normalized; `none` if the alias has no key.
  unfoldable pub candidates : ClaimPool → Bytes → Option (Bytes × List Envelope)
  candidates p alias = elim (validate_alias s.unicode s.idna alias) [
    | err e ↦ none
    | ok alias_n ↦ elim (key_for_claim alias_n) [ none ↦ none | some k ↦ some (alias_n, top2 p k) ]
  ]

module _ (s : Setting) (unmarshal : Bytes → Option (ClaimOf (Option WitnessAttestation))) where
  -- ClaimEvidence. `none` is also the panic of the decoder on a nil attestation.
  unfoldable pub claim_evidence : Envelope → Bytes → ℕ → Option (AliasClaim × Bytes)
  claim_evidence env alias now =
      if is_revoked env
        || not (env.body.version == 1)
        || ltb env.body.sequence 1
        || not (is_ok (validate env.body))
        || not (verify_signature s.platform env)
      then none
      else (elim (decode_alias_claim s unmarshal (bytes_of env.body.claim)) [
        | err e ↦ none
        | ok claim ↦ elim (validate_alias s.unicode s.idna alias) [
          | err e ↦ none
          | ok alias_n ↦
              if not (bytes_eq claim.alias alias_n)
                || before64 (now + skew_tolerance) claim.timestamp
                || not (carries env claim)
                || not (verify_full s claim (ℤ.negsuc 0) none quorum_size)
              then none
              else (elim (prefix_hash s claim) [ none ↦ none | some ph ↦ some (claim, ph) ])
        ]
      ])

  -- The end of the window and the identity; `none` is the pair of 0 and nil.
  unfoldable pub reuse_window_end : Envelope → Bytes → ℕ → Option (ℕ × Bytes)
  reuse_window_end env alias now = elim (claim_evidence env alias now) [
    | none ↦ none
    | some (claim, ph) ↦
        if before64 now env.body.expires
          || not (before64 now (env.body.expires + alias_reuse_delay))
        then none
        else some ((env.body.expires + alias_reuse_delay) % 2 ^ 64, ph)
  ]

  -- The loop over the pooled envelopes of the alias.
  unfoldable pub refusal_from : List Envelope → Bytes → Bytes → ℕ → ℕ
  refusal_from [] alias incoming now = 0
  refusal_from (cand ∷ cands) alias incoming now = elim (reuse_window_end cand alias now) [
    | none ↦ refusal_from cands alias incoming now
    | some (window_end, ph) ↦
        if bytes_eq ph incoming then refusal_from cands alias incoming now else window_end
  ]

  unfoldable pub claim_reuse_refusal : ClaimPool → Bytes → Bytes → ℕ → ℕ
  claim_reuse_refusal p alias incoming now = elim (candidates s p alias) [
    | none ↦ 0
    | some (alias_n, cands) ↦ refusal_from cands alias_n incoming now
  ]

  unfoldable pub conflict_from : List Envelope → Bytes → Bytes → ℕ → Bool
  conflict_from [] alias incoming now = false
  conflict_from (cand ∷ cands) alias incoming now =
      (elim (claim_evidence cand alias now) [
        | none ↦ false
        | some (claim, ph) ↦ before64 now cand.body.expires && not (bytes_eq ph incoming)
      ])
      || conflict_from cands alias incoming now

  unfoldable pub live_claim_conflict : ClaimPool → Bytes → Bytes → ℕ → Bool
  live_claim_conflict p alias incoming now = elim (candidates s p alias) [
    | none ↦ false
    | some (alias_n, cands) ↦ conflict_from cands alias_n incoming now
  ]

  -- The loop of reAttestRefusal.
  unfoldable pub holds_identity : List Envelope → Bytes → Bytes → ℕ → Bool
  holds_identity [] alias ph now = false
  holds_identity (cand ∷ cands) alias ph now =
      (elim (claim_evidence cand alias now) [
        | none ↦ false
        | some (claim, held) ↦ bytes_eq held ph
      ])
      || holds_identity cands alias ph now

-- The reason that reAttestRefusal gives; its "" is `none` of an option.
pub data ReAttestError : Type 0 where
  bad_alias not_held holding_period live_conflict : ReAttestError

module _ (s : Setting) (unmarshal : Bytes → Option (ClaimOf (Option WitnessAttestation))) where
  unfoldable pub re_attest_refusal : ClaimPool → Bytes → Bytes → ℕ → Option ReAttestError
  re_attest_refusal p alias ph now = elim (validate_alias s.unicode s.idna alias) [
    | err e ↦ some ReAttestError.bad_alias
    | ok alias_n ↦ elim (key_for_claim s alias_n) [
      | none ↦ some ReAttestError.bad_alias
      | some k ↦
          if not (holds_identity s unmarshal (top2 p k) alias_n ph now)
          then some ReAttestError.not_held
          else (if not (re_attest_eligible p k ph now)
              then some ReAttestError.holding_period
              else (if live_claim_conflict s unmarshal p alias_n ph now
                  then some ReAttestError.live_conflict
                  else none))
    ]
  ]

module _ (s : Setting) where
  -- kClaimFor; nil is the empty slice.
  unfoldable pub k_claim_for : Bytes → Bytes
  k_claim_for alias = elim (key_for_claim s alias) [ none ↦ [] | some k ↦ k ]

  -- claimPrefixHash, of the claim with these fields only.
  unfoldable pub claim_prefix_hash : Bytes → Bytes → Bytes → ℕ → Option Bytes
  claim_prefix_hash alias tld claimant ts = prefix_hash s (record {
    alias = alias;
    tld = tld;
    timestamp = ts;
    nonce = [];
    claimant_pk = claimant;
    pow = [];
    witnesses = [];
  })
