-- ===== src/Wire/Recovery/Effective.antt =====
-- VerifyRecovery against the quorum, the time bounds and the shape that §8.4 asks for.
use freens.Prelude.{
  Result-cases, ℕ, ◌+◌, ◌-◌, ◌^◌, ◌≤◌, ◌<◌, ◌≡◌, ◌↔◌, ◌⊎◌, inl, inr, refl, ap, Bool, true, min,
  List, [], ◌∷◌, length, Bytes, some, ok, Bool-cases, arith, Member, Distinct,
}
use freens.Wire.Recovery.Quorum.{count_keys_iff}
use freens.Wire.Record.{RecoveryPolicy, Platform, verify}
use freens.Wire.Recovery.{
  RecoveryEvidence, recovery_signing_message, any_signature, count_keys, timelock_bound, bound_ok,
  has_signed, verify_recovery,
}

any_signature-found :
    (check : Bytes → Bool) (sigs : List Bytes)
    → any_signature check sigs ≡ true
    → (sig : Bytes) × Member sig sigs × (check sig ≡ true)
unfolding any_signature
any_signature-found check [] h = cc
any_signature-found check (s ∷ sigs) h = elim (Bool-cases (check s)) [
  | inl e ↦ (s, inl refl, e)
  | inr e ↦ let (sig, m, c) = any_signature-found check sigs (ground arith) in (sig, inr m, c)
]

found-any_signature :
    (check : Bytes → Bool) (sigs : List Bytes) (sig : Bytes)
    → Member sig sigs
    → check sig ≡ true
    → any_signature check sigs ≡ true
unfolding any_signature
found-any_signature check [] sig m c = elim m [ ]
found-any_signature check (s ∷ sigs) sig (inl e) c = ground (arith, ap check e)
found-any_signature check (s ∷ sigs) sig (inr m) c =
    ground (arith, found-any_signature check sigs sig m c)

-- A key of the policy, of the right length, under which a signature of the evidence verifies.
pub record Endorses (p : Platform) (policy : RecoveryPolicy) (ev : RecoveryEvidence) (msg k : Bytes)
    : Type 0 where
  pub in_policy : Member k policy.keys
  pub size : length k ≡ 32
  pub sig : Bytes
  pub in_evidence : Member sig ev.signatures
  pub verifies : verify p k sig msg ≡ true

-- What §8.4 asks of a declaration: a quorum of distinct policy keys signed the message, and the time
-- from which it holds has come and is no earlier than the timelock after the record's creation.
pub record Effective (p : Platform) (policy : RecoveryPolicy) (ev : RecoveryEvidence) (hash : Bytes)
    (created now : ℕ) : Type 0 where
  pub some_threshold : 1 ≤ policy.threshold
  pub elapsed : ev.not_before ≤ now
  pub waited : (created ≡ 0) ⊎ (min (created + policy.timelock) (2 ^ 64 - 1) ≤ ev.not_before)
  pub msg : Bytes
  pub message : recovery_signing_message hash ev.new_owner_pk ev.not_before ≡ ok msg
  pub signers : List Bytes
  pub distinct : Distinct signers
  pub endorsed : (k : Bytes) → Member k signers → Endorses p policy ev msg k
  pub quorum : policy.threshold ≤ length signers

bound_ok_iff :
    (created timelock not_before : ℕ)
    → created < 2 ^ 64
    → (bound_ok created timelock not_before ≡ true)
      ↔ ((created ≡ 0) ⊎ (min (created + timelock) (2 ^ 64 - 1) ≤ not_before))
unfolding bound_ok timelock_bound
bound_ok_iff created timelock not_before h = (λ e. ground arith, λ e. ground arith)

module _ (p : Platform) (policy : RecoveryPolicy) (ev : RecoveryEvidence) (hash : Bytes)
    (created now : ℕ) (u64 : created < 2 ^ 64) where
  Effective-sound :
      verify_recovery p (some policy) (some ev) hash created now ≡ true
      → Effective p policy ev hash created now
  unfolding verify_recovery
  Effective-sound h =
      elim (Result-cases (recovery_signing_message hash ev.new_owner_pk ev.not_before)) [
        | inr (e, failed) ↦ ground arith
        | inl (msg, made) ↦
            let counted : policy.threshold
                ≤ length (count_keys (has_signed p ev.signatures msg) policy.keys []) =
              ground arith in
            let (signers, distinct, endorsed, quorum) =
              (count_keys_iff (has_signed p ev.signatures msg) policy.threshold policy.keys).0
                counted in
            record {
              some_threshold = ground arith;
              elapsed = ground arith;
              waited = (bound_ok_iff created policy.timelock ev.not_before u64).0 (ground arith);
              msg = msg;
              message = made;
              signers = signers;
              distinct = distinct;
              endorsed = λ k m.
                  let (member, size, g) = endorsed k m in
                  let (sig, inside, c) =
                    any_signature-found (λ sig. verify p k sig msg) ev.signatures
                      (unfold has_signed in g) in
                  record {
                    in_policy = member;
                    size = size;
                    sig = sig;
                    in_evidence = inside;
                    verifies = c;
                  };
              quorum = quorum;
            }
      ]

  message_sizes :
      (msg : Bytes)
      → recovery_signing_message hash ev.new_owner_pk ev.not_before ≡ ok msg
      → (length hash ≡ 32) × (length ev.new_owner_pk ≡ 32)
  unfolding recovery_signing_message
  message_sizes msg h = ground arith

  Effective-complete :
      Effective p policy ev hash created now
      → verify_recovery p (some policy) (some ev) hash created now ≡ true
  unfolding verify_recovery
  Effective-complete d =
      let good = has_signed p ev.signatures d.msg in
      let counted : policy.threshold ≤ length (count_keys good policy.keys []) =
        (count_keys_iff good policy.threshold policy.keys).1 (
          d.signers,
          d.distinct,
          (λ k m.
              let e = d.endorsed k m in
              (
                e.in_policy,
                e.size,
                unfold has_signed in
                    found-any_signature (λ sig. verify p k sig d.msg) ev.signatures e.sig
                      e.in_evidence e.verifies,
              )),
          d.quorum,
        ) in
      let bound = (bound_ok_iff created policy.timelock ev.not_before u64).1 d.waited in
      let sizes = message_sizes d.msg d.message in
      ground (arith, d.some_threshold, d.elapsed, d.message)

  -- For a record whose creation time is a uint64, VerifyRecovery accepts a policy and a declaration
  -- exactly when the declaration is effective: as many distinct policy keys as the threshold says,
  -- and one at least, have each a signature in the evidence over the message; the time it names has
  -- come; and, if the creation time is known, that time is at least the creation time plus the
  -- timelock, or the largest uint64 where the sum is larger.
  pub verify_recovery-Effective :
      (verify_recovery p (some policy) (some ev) hash created now ≡ true)
      ↔ Effective p policy ev hash created now
  verify_recovery-Effective = (Effective-sound, Effective-complete)
