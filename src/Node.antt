-- ===== src/Node.antt =====
-- internal/dht/transport.go: the handlers of a node for `ping`, `find_node`, `get`, `put` and `witness`, from its
-- local state. A handler takes the node, the arguments of a verified query and the circumstances, and
-- returns the node and its reply; the building and signing of the reply message are left out. One
-- reading of the clock serves a whole handler, and a handler is one step: the code locks each of the
-- stores, not the node.
pub mod Put
pub mod Get
pub mod Witness
pub mod Kept
pub mod Keyed
pub mod Landing
pub mod Guards
pub mod Cooldown
pub mod Registerable
use freens.Prelude.{
  ℕ, ℤ, Bool, true, false, ◌&&◌, ◌==◌, List, [], length, Bytes, Option, none, some, ok, err,
}
use freens.Wire.Record.{Envelope, Record, sig_len, key_len, validate, record_hash, is_ok}
use freens.Wire.Recovery.{RecoveryEvidence}
use freens.Claims.Attestation.{WitnessAttestation, Keypair}
use freens.Claims.Claim.{ClaimOf, Setting}
use freens.Claims.Pool.{ClaimPool}
use freens.Store.Entries.{EnvelopeStore}
use freens.Store.Evidence.{put_evidence}
use freens.Tokens.{TokenStore}
use freens.Difficulty.{DifficultyState}
use freens.Routing.Table.{RoutingTable}
use freens.Routing.Nodes.{Net}
use freens.Blacklist.{Ledger, File, Class, record_violation}

-- What the node signed last for an alias.
pub record WitnessSigned : Type 0 where
  pub prefix_hash : Bytes
  pub claimant : Bytes
  pub at : ℕ

pub record Node : Type 0 where
  pub kp : Keypair
  pub passive : Bool
  pub allow_reserved : Bool
  pub store : EnvelopeStore
  pub claims : ClaimPool
  pub tokens : TokenStore
  pub black : Option Ledger
  pub witness_last : List (Bytes × WitnessSigned)
  pub diff : DifficultyState
  pub rt : RoutingTable

-- What the handlers read beside the node: the settings of the claims, HMAC-SHA256 and `strconv.Itoa`,
-- the CBOR codec, the table `reservedTLDs` of naming, and the functions on network addresses.
pub record Outside : Type 0 where
  pub setting : Setting
  pub hmac : Bytes → Bytes → Bytes
  pub itoa : ℤ → Bytes
  pub unmarshal_envelope : Bytes → Option Envelope
  pub unmarshal_claim : Bytes → Option (ClaimOf (Option WitnessAttestation))
  pub unmarshal_evidence : Bytes → Option RecoveryEvidence
  pub marshal_attestation : WitnessAttestation → Option Bytes
  pub reserved_tlds : Bytes → Bool
  pub net : Net

-- The circumstances of a query: the clock in seconds, and in nanoseconds for the ledger, what the
-- ledger's file holds, the answer of the rate limiter for the source, and the source's IP address, as
-- normIP gives it.
pub record Circumstances : Type 0 where
  pub now : ℕ
  pub instant : ℕ
  pub file : File
  pub allowed : Bool
  pub source : Bytes

-- Why a query is refused.
pub data Refusal : Type 0 where
  blacklisted passive_node throttled invalid_token invalid_record invalid_signature : Refusal
  bad_key claim_filter reuse_window store_error stale_record : Refusal
  bad_witness_args reserved_alias bad_lengths bad_identity bad_prefix_hash invalid_pow : Refusal
  future_ts already_claimed too_old re_attest_refused cooldown : Refusal
  attestation_failed encode_failed bad_target : Refusal

-- The replies; `crashed` is the panic of the decoder of claims on a nil attestation.
pub data Reply : Type 0 where
  done crashed : Reply
  refused : ℕ → Refusal → Reply
  attested : Bytes → ℕ → Reply

-- DecodeEnvelope; an error is `none`. `unmarshal_envelope` also fails where field 1 is missing.
unfoldable pub decode_envelope : Outside → Bytes → Option Envelope
decode_envelope o raw = elim (o.unmarshal_envelope raw) [
  | none ↦ none
  | some env ↦
      elim (is_ok (validate env.body)
        && length env.sig == sig_len
        && length env.signer == key_len) [ true ↦ some env | false ↦ none ]
]

-- recordHashOrNil; nil is the empty slice.
unfoldable pub record_hash_or_nil : Outside → Envelope → Bytes
record_hash_or_nil o env = elim (record_hash o.setting.platform env) [ none ↦ [] | some h ↦ h ]

-- RecordViolation.
unfoldable pub violate : Outside → Node → Circumstances → Bytes → Class → Bytes → Node
violate o n t sender class proof = record n {
  black =
      (record_violation o.setting.platform.sha256 n.black t.file sender class proof t.instant).0;
}

-- retainEvidence; an error is only logged.
unfoldable pub retain_evidence : Outside → Node → Envelope → Bytes → Node
retain_evidence o n env evidence = elim (length evidence == 0) [
  | true ↦ n
  | false ↦ elim (record_hash o.setting.platform env) [
    | none ↦ n
    | some h ↦ elim (put_evidence o.unmarshal_evidence h evidence n.store) [
      | err e ↦ n
      | ok store ↦ record n { store = store }
    ]
  ]
]
