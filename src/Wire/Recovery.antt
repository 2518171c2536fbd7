-- ===== src/Wire/Recovery.antt =====
-- internal/wire/recovery.go: RecoveryEvidence, RecoverySigningMessage and VerifyRecovery (§8.4);
-- NewRecoveryPolicyWire of internal/wire/wire.go.
pub mod Quorum
pub mod Effective
use freens.Prelude.{
  ℕ, zero, suc, ◌+◌, ◌-◌, ◌/◌, ◌%◌, ◌^◌, Bool, true, false, ◌&&◌, ◌||◌, not, ltb, leb, ◌==◌, List,
  [], ◌∷◌, ◌++◌, length, Bytes, bytes_eq, Option, none, some, Result, ok, err, ◌>>=◌, ◌>>◌, require,
  if◌then◌else◌,
}
use freens.Wire.Record.{RecoveryPolicy, Platform, key_len, hash_len, sig_len, verify}

pub record RecoveryEvidence : Type 0 where
  pub new_owner_pk : Bytes
  pub signatures : List Bytes
  pub not_before : ℕ

pub data RecoveryError : Type 0 where
  bad_threshold bad_key threshold_too_large bad_hash bad_owner_key : RecoveryError
  bad_cbor bad_signature : RecoveryError

abbrev pub all_key_len : ℕ → List Bytes → Bool
all_key_len n [] = true
all_key_len n (k ∷ ks) = length k == n && all_key_len n ks

unfoldable pub new_recovery_policy : ℕ → List Bytes → ℕ → Result RecoveryError RecoveryPolicy
new_recovery_policy threshold keys timelock = do
  require (not (ltb threshold 1)) RecoveryError.bad_threshold
  require (all_key_len key_len keys) RecoveryError.bad_key
  require (not (ltb (length keys) threshold)) RecoveryError.threshold_too_large
  ok (record { threshold = threshold; keys = keys; timelock = timelock })

-- DecodeRecoveryEvidence. `unmarshal` is the CBOR decoding of the map and of its three keys, all of
-- them present.
unfoldable pub decode_recovery_evidence :
    (Bytes → Option RecoveryEvidence) → Bytes → Result RecoveryError RecoveryEvidence
decode_recovery_evidence unmarshal raw = elim (unmarshal raw) [
  | none ↦ err RecoveryError.bad_cbor
  | some e ↦ do
    require (length e.new_owner_pk == key_len) RecoveryError.bad_owner_key
    require (all_key_len sig_len e.signatures) RecoveryError.bad_signature
    ok e
]

-- "freens-recovery-v1"
abbrev pub recovery_signing_tag : Bytes
recovery_signing_tag =
    b'f' ∷ b'r' ∷ b'e' ∷ b'e' ∷ b'n' ∷ b's' ∷ b'-' ∷ b'r' ∷ b'e' ∷ b'c' ∷ b'o' ∷ b'v' ∷ b'e' ∷ b'r'
    ∷ b'y' ∷ b'-' ∷ b'v' ∷ b'1' ∷ []

-- The 8 bytes of a uint64, most significant first.
unfoldable pub be_bytes : ℕ → ℕ → Bytes
be_bytes zero x = []
be_bytes (suc k) x = (x / 256 ^ k % 256) ∷ be_bytes k x

unfoldable pub recovery_signing_message : Bytes → Bytes → ℕ → Result RecoveryError Bytes
unfolding be_bytes
recovery_signing_message prev_record_hash new_owner_pk execute_not_before = do
  require (length prev_record_hash == hash_len) RecoveryError.bad_hash
  require (length new_owner_pk == key_len) RecoveryError.bad_owner_key
  ok (recovery_signing_tag ++ (prev_record_hash ++ (new_owner_pk ++ be_bytes 8 execute_not_before)))

-- The inner loop of VerifyRecovery: some signature verifies under the key.
unfoldable pub any_signature : (Bytes → Bool) → List Bytes → Bool
any_signature check [] = false
any_signature check (sig ∷ sigs) = check sig || any_signature check sigs

unfoldable pub seen_key : Bytes → List Bytes → Bool
seen_key k [] = false
seen_key k (x ∷ xs) = bytes_eq x k || seen_key k xs

-- The outer loop: the policy keys counted so far. `verified` is their number.
unfoldable pub count_keys : (Bytes → Bool) → List Bytes → List Bytes → List Bytes
count_keys good [] seen = seen
count_keys good (k ∷ ks) seen = count_keys good ks (
    if not (length k == key_len) || seen_key k seen
    then seen
    else (if good k then k ∷ seen else seen))

-- `prevCreated + Timelock`, or the largest uint64 where that would wrap.
unfoldable pub timelock_bound : ℕ → ℕ → ℕ
timelock_bound prev_created timelock =
    if ltb (2 ^ 64 - 1 - prev_created) timelock then 2 ^ 64 - 1 else prev_created + timelock

-- The declaration may take effect no earlier than the bound, if the creation time is known.
unfoldable pub bound_ok : ℕ → ℕ → ℕ → Bool
bound_ok prev_created timelock not_before =
    prev_created == 0 || not (ltb not_before (timelock_bound prev_created timelock))

module _ (p : Platform) where
  -- Some signature of the evidence verifies the message under the key.
  unfoldable pub has_signed : List Bytes → Bytes → Bytes → Bool
  has_signed sigs msg k = any_signature (λ sig. verify p k sig msg) sigs

  unfoldable pub verify_recovery :
      Option RecoveryPolicy → Option RecoveryEvidence → Bytes → ℕ → ℕ → Bool
  verify_recovery none evidence prev_record_hash prev_created now = false
  verify_recovery (some policy) none prev_record_hash prev_created now = false
  verify_recovery (some policy) (some ev) prev_record_hash prev_created now =
      not (ltb policy.threshold 1)
      && length prev_record_hash == hash_len
      && length ev.new_owner_pk == key_len
      && bound_ok prev_created policy.timelock ev.not_before
      && (elim (recovery_signing_message prev_record_hash ev.new_owner_pk ev.not_before) [
        | err e ↦ false
        | ok msg ↦ not (
            ltb (length (count_keys (has_signed ev.signatures msg) policy.keys []))
              policy.threshold)
      ])
      && leb ev.not_before now
