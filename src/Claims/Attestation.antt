-- ===== src/Claims/Attestation.antt =====
-- internal/claims/claims.go: WitnessAttestation (§7.3); internal/crypto/crypto.go:
-- WitnessSigningMessage. A pointer that may be nil is an `Option`.
pub mod Bound
use freens.Prelude.{
  ℕ, Bool, true, false, ◌&&◌, ◌==◌, [], ◌∷◌, ◌++◌, length, Bytes, bytes_eq, Option, none, some,
  Result, ok, err, ◌>>=◌, ◌>>◌, require,
}
use freens.Wire.Record.{Platform, hash_len, key_len, sig_len, tld_id, verify}
use freens.Wire.Recovery.{be_bytes}

-- One constructor for each place that returns an error. `nil_dereference` is no error of the code:
-- the runtime panics.
pub data ClaimError : Type 0 where
  nil_keypair bad_prefix_hash bad_node_id bad_node_key bad_sig bad_cbor : ClaimError
  bad_alias bad_tld_id bad_key bad_pow_hash bad_nonce bad_prefix no_pow nil_dereference : ClaimError

pub record WitnessAttestation : Type 0 where
  pub node_id : Bytes
  pub node_pk : Bytes
  pub ts : ℕ
  pub sig : Bytes

-- A key pair is its public key and the function that signs.
pub record Keypair : Type 0 where
  pub public : Bytes
  pub sign : Bytes → Bytes

-- "freens-witness-v2"
abbrev pub witness_signing_tag : Bytes
witness_signing_tag =
    b'f' ∷ b'r' ∷ b'e' ∷ b'e' ∷ b'n' ∷ b's' ∷ b'-' ∷ b'w' ∷ b'i' ∷ b't' ∷ b'n' ∷ b'e' ∷ b's' ∷ b's'
    ∷ b'-' ∷ b'v' ∷ b'2' ∷ []

-- `ts` is a uint64, and its bytes are those of `be_bytes` with the most significant first.
unfoldable pub witness_signing_message : Bytes → ℕ → Option Bytes
witness_signing_message claim_prefix_hash ts = elim (length claim_prefix_hash == hash_len) [
  | true ↦ some (witness_signing_tag ++ (claim_prefix_hash ++ be_bytes 8 ts))
  | false ↦ none
]

abbrev pub or_error : {E A : Type 0} → Option A → E → Result E A
or_error none e = err e
or_error (some a) e = ok a

module _ (p : Platform) where
  unfoldable pub new_witness_attestation :
      Option Keypair → ℕ → Bytes → Result ClaimError WitnessAttestation
  new_witness_attestation none ts claim_prefix_hash = err ClaimError.nil_keypair
  new_witness_attestation (some node_kp) ts claim_prefix_hash = do
    require (length claim_prefix_hash == hash_len) ClaimError.bad_prefix_hash
    node_id ← or_error (tld_id p node_kp.public) ClaimError.bad_node_key
    msg ← or_error (witness_signing_message claim_prefix_hash ts) ClaimError.bad_prefix_hash
    ok (record { node_id = node_id; node_pk = node_kp.public; ts = ts; sig = node_kp.sign msg })

  -- WitnessAttestation.Verify of a pointer that is not nil. VerifyMemoized holds results of `verify`.
  unfoldable pub verify_attestation : WitnessAttestation → Bytes → Bool
  verify_attestation w claim_prefix_hash = elim (tld_id p w.node_pk) [
    | none ↦ false
    | some nid ↦ bytes_eq nid w.node_id && (elim (witness_signing_message claim_prefix_hash w.ts) [
      | none ↦ false
      | some msg ↦ verify p w.node_pk w.sig msg
    ])
  ]

unfoldable pub validate_attestation : WitnessAttestation → Result ClaimError (Unit {0})
validate_attestation w = do
  require (length w.node_id == hash_len) ClaimError.bad_node_id
  require (length w.node_pk == key_len) ClaimError.bad_node_key
  require (length w.sig == sig_len) ClaimError.bad_sig

-- `unmarshal` is the CBOR decoding, `none` for its error.
unfoldable pub decode_witness_attestation :
    (Bytes → Option WitnessAttestation) → Bytes → Result ClaimError WitnessAttestation
decode_witness_attestation unmarshal raw = do
  w ← or_error (unmarshal raw) ClaimError.bad_cbor
  validate_attestation w
  ok w
