-- ===== src/Wire/Record.antt =====
-- internal/wire/wire.go: Record, SignedEnvelope, Record.Validate, RecordHash, VerifySignature,
-- IsBasicValid; internal/crypto/crypto.go: Verify, TldID.
-- A pointer to an envelope is an `Option Envelope`: `none` is nil, or an envelope whose Record is
-- nil, which the code tells apart nowhere. A slice that may be nil is an `Option Bytes`.
use freens.Prelude.{
  ℕ, Bool, true, false, ◌&&◌, ◌||◌, ltb, leb, ◌==◌, List, [], ◌∷◌, length, Bytes, Option, none,
  some, Result, ok, err, ◌>>◌, require, not,
}

pub record ResourceRecord : Type 0 where
  pub type : ℕ
  pub ttl : ℕ
  pub rdata : Bytes

pub record RecoveryPolicy : Type 0 where
  pub threshold : ℕ
  pub keys : List Bytes
  pub timelock : ℕ

pub record Record : Type 0 where
  pub version : ℕ
  pub name : Bytes
  pub owner : Bytes
  pub sequence : ℕ
  pub created : ℕ
  pub expires : ℕ
  pub rrset : List (Option ResourceRecord)
  pub delegation : Option Bytes
  pub prev_hash : Option Bytes
  pub recovery : Option RecoveryPolicy
  pub claim : Option Bytes
  pub revoke : Option Bool

pub record Envelope : Type 0 where
  pub body : Record
  pub sig : Bytes
  pub signer : Bytes

-- A nil slice reads as an empty one.
abbrev pub bytes_of : Option Bytes → Bytes
bytes_of none = []
bytes_of (some b) = b

-- What lies outside the repository: SHA-256 and Ed25519 of the standard library, and the CBOR codec
-- applied to a record and to an envelope (`none` is an encoding error).
pub record Platform : Type 0 where
  pub sha256 : Bytes → Bytes
  pub ed25519_verify : Bytes → Bytes → Bytes → Bool
  pub marshal_record : Record → Option Bytes
  pub marshal_envelope : Envelope → Option Bytes

pub data RecordError : Type 0 where
  bad_version empty_name bad_owner bad_sequence bad_window too_many_rrs nil_rr : RecordError
  bad_delegation bad_prev_hash : RecordError

abbrev pub key_len : ℕ
key_len = 32

abbrev pub sig_len : ℕ
sig_len = 64

abbrev pub hash_len : ℕ
hash_len = 32

abbrev pub max_rrs : ℕ
max_rrs = 64

-- `r != nil && len(r) != n` does not hold.
abbrev pub nil_or_len : ℕ → Option Bytes → Bool
nil_or_len n none = true
nil_or_len n (some b) = length b == n

unfoldable pub no_nil : List (Option ResourceRecord) → Bool
no_nil [] = true
no_nil (none ∷ rrs) = false
no_nil (some rr ∷ rrs) = no_nil rrs

unfoldable pub validate : Record → Result RecordError (Unit {0})
validate r = do
  require (r.version == 1) RecordError.bad_version
  require (not (length r.name == 0)) RecordError.empty_name
  require (length r.owner == key_len) RecordError.bad_owner
  require (not (ltb r.sequence 1)) RecordError.bad_sequence
  require (not (ltb r.expires r.created)) RecordError.bad_window
  require (not (ltb max_rrs (length r.rrset))) RecordError.too_many_rrs
  require (no_nil r.rrset) RecordError.nil_rr
  require (nil_or_len key_len r.delegation) RecordError.bad_delegation
  require (nil_or_len hash_len r.prev_hash) RecordError.bad_prev_hash

abbrev pub is_ok : {E A : Type 0} → Result E A → Bool
is_ok (ok a) = true
is_ok (err e) = false

module _ (p : Platform) where
  -- `crypto.Verify`. Its memo and that of VerifyMemoized hold results of this same function.
  unfoldable pub verify : Bytes → Bytes → Bytes → Bool
  verify pk sig msg = length pk == key_len && length sig == sig_len && p.ed25519_verify pk sig msg

  unfoldable pub tld_id : Bytes → Option Bytes
  tld_id pk = elim (length pk == key_len) [ true ↦ some (p.sha256 pk) | false ↦ none ]

  -- H_record: the hash of the whole envelope.
  unfoldable pub record_hash : Envelope → Option Bytes
  record_hash e = elim (p.marshal_envelope e) [ none ↦ none | some b ↦ some (p.sha256 b) ]

  unfoldable pub verify_signature : Envelope → Bool
  verify_signature e =
      length e.sig == sig_len
      && length e.signer == key_len
      && (elim (p.marshal_record e.body) [ none ↦ false | some cb ↦ verify e.signer e.sig cb ])

  unfoldable pub is_basic_valid : Option Envelope → ℕ → Bool
  is_basic_valid none now = false
  is_basic_valid (some e) now =
      e.body.version == 1
      && is_ok (validate e.body)
      && verify_signature e
      && not (ltb e.body.sequence 1)
      && not (ltb now e.body.created || leb e.body.expires now)
