-- ===== src/Claims/Claim.antt =====
-- internal/claims/claims.go: AliasClaim, its prefix, proof of work and decoding, and MineAliasClaim.
pub mod Mined
pub mod Decoded
use freens.Prelude.{
  ℕ, ◌+◌, Bool, true, false, ◌&&◌, not, leb, ltb, ◌==◌, List, [], ◌∷◌, length, Bytes, bytes_eq,
  Option, none, some, Result, ok, err, ◌>>=◌, ◌>>◌, require, if◌then◌else◌, ℤ,
}
use freens.Naming.Text.{Unicode}
use freens.Naming.Labels.{Normalizer, validate_alias}
use freens.Wire.Record.{Platform, hash_len, key_len, tld_id}
use freens.Claims.Pow.{pow_hash, meets_difficulty, mine_pow}
use freens.Claims.Attestation.{
  ClaimError, WitnessAttestation, Keypair, or_error, validate_attestation,
}

-- A claim, over the type of the elements of `Witnesses`: the code has pointers, which may be nil in
-- what the CBOR codec returns, and are not in a claim that `DecodeAliasClaim` returns.
pub record ClaimOf (W : Type 0) : Type 0 where
  pub alias : Bytes
  pub tld : Bytes
  pub timestamp : ℕ
  pub nonce : Bytes
  pub claimant_pk : Bytes
  pub pow : Bytes
  pub witnesses : List W

abbrev pub AliasClaim : Type 0
AliasClaim = ClaimOf WitnessAttestation

abbrev pub max_nonce_len : ℕ
max_nonce_len = 128

-- What the functions read beside their arguments: the standard library, the normalizer of naming,
-- the CBOR encoding of the map of identity fields, and the variable PoWDifficultyInit.
pub record Setting : Type 0 where
  pub platform : Platform
  pub unicode : Unicode
  pub idna : Normalizer
  pub marshal_identity : Bytes → Bytes → ℕ → Bytes → Option Bytes
  pub difficulty_init : ℕ

module _ (s : Setting) where
  -- InferDifficultyOf of a claim that is not nil, from its nonce.
  unfoldable pub infer_difficulty : Bytes → ℕ
  infer_difficulty [] = s.difficulty_init
  infer_difficulty (b ∷ nonce) = if leb s.difficulty_init b then b else s.difficulty_init

  unfoldable pub infer_difficulty_of : AliasClaim → ℕ
  unfolding infer_difficulty
  infer_difficulty_of c = infer_difficulty c.nonce

  -- A negative difficulty asks for the inferred one.
  unfoldable pub effective_difficulty : AliasClaim → ℤ → ℤ
  effective_difficulty c (ℤ.pos d) = ℤ.pos d
  effective_difficulty c (ℤ.negsuc d) = ℤ.pos (infer_difficulty_of c)

  -- AliasClaim.Prefix; an error, of the alias or of the encoding, is `none`.
  unfoldable pub prefix : AliasClaim → Option Bytes
  prefix c = elim (validate_alias s.unicode s.idna c.alias) [
    | err e ↦ none
    | ok alias ↦ s.marshal_identity alias c.tld c.timestamp c.claimant_pk
  ]

  unfoldable pub verify_pow_from_prefix : AliasClaim → Bytes → ℤ → Bool
  verify_pow_from_prefix c pre d =
      let recomputed = pow_hash s.platform.sha256 pre c.nonce in
      if bytes_eq recomputed c.pow then meets_difficulty recomputed d else false

  unfoldable pub verify_pow : AliasClaim → ℤ → Bool
  unfolding effective_difficulty
  verify_pow c difficulty_bits = elim (prefix c) [
    | none ↦ false
    | some pre ↦ verify_pow_from_prefix c pre (effective_difficulty c difficulty_bits)
  ]

  unfoldable pub verify_claimant_consistency : AliasClaim → Bool
  verify_claimant_consistency c = elim (tld_id s.platform c.claimant_pk) [
    | none ↦ false
    | some got ↦ bytes_eq got c.tld
  ]

  unfoldable pub prefix_hash : AliasClaim → Option Bytes
  prefix_hash c = elim (prefix c) [ none ↦ none | some pre ↦ some (s.platform.sha256 pre) ]

-- The loop over the witnesses in validate, and the claim's pointers if none is nil.
unfoldable pub validate_witnesses :
    List (Option WitnessAttestation) → Result ClaimError (List WitnessAttestation)
validate_witnesses [] = ok []
validate_witnesses (none ∷ ws) = err ClaimError.nil_dereference
validate_witnesses (some w ∷ ws) =
    validate_attestation w >> validate_witnesses ws >>= λ rest. ok (w ∷ rest)

module _ (s : Setting) where
  -- AliasClaim.validate, with the claim that it leaves to its caller.
  unfoldable pub validate_claim : ClaimOf (Option WitnessAttestation) → Result ClaimError AliasClaim
  validate_claim c = do
    or_error (elim (validate_alias s.unicode s.idna c.alias) [ ok a ↦ some tt | err e ↦ none ])
        ClaimError.bad_alias
    require (length c.tld == hash_len) ClaimError.bad_tld_id
    require (length c.claimant_pk == key_len) ClaimError.bad_key
    require (length c.pow == hash_len) ClaimError.bad_pow_hash
    require (not (ltb max_nonce_len (length c.nonce))) ClaimError.bad_nonce
    witnesses ← validate_witnesses c.witnesses
    ok (record {
      alias = c.alias;
      tld = c.tld;
      timestamp = c.timestamp;
      nonce = c.nonce;
      claimant_pk = c.claimant_pk;
      pow = c.pow;
      witnesses = witnesses;
    })

  -- `unmarshal` is the CBOR decoding, `none` for its error. It leaves nil where the array has null.
  unfoldable pub decode_alias_claim :
      (Bytes → Option (ClaimOf (Option WitnessAttestation))) → Bytes → Result ClaimError AliasClaim
  decode_alias_claim unmarshal raw = elim (unmarshal raw) [
    | none ↦ err ClaimError.bad_cbor
    | some c ↦ elim (validate_alias s.unicode s.idna c.alias) [
      | err e ↦ err ClaimError.bad_alias
      | ok alias ↦ validate_claim (record c { alias = alias })
    ]
  ]

  -- `read` gives the random bytes of each attempt.
  unfoldable pub mine_alias_claim :
      (ℕ → ℕ → Option Bytes) → Bytes → Option Keypair → ℕ → ℤ → ℕ → ℤ → Result ClaimError AliasClaim
  mine_alias_claim read alias none timestamp difficulty_bits max_iters nonce_size =
      err ClaimError.nil_keypair
  mine_alias_claim read alias (some kp) timestamp difficulty_bits max_iters nonce_size =
      elim (validate_alias s.unicode s.idna alias) [
        | err e ↦ err ClaimError.bad_alias
        | ok alias_n ↦ do
          tld ← or_error (tld_id s.platform kp.public) ClaimError.bad_key
          pre ← or_error (s.marshal_identity alias_n tld timestamp kp.public) ClaimError.bad_prefix
          mined ←
              or_error
                (elim (mine_pow s.platform.sha256 read pre difficulty_bits max_iters nonce_size) [
                  | ok found ↦ some found
                  | err e ↦ none
                ])
                ClaimError.no_pow
          ok (record {
            alias = alias_n;
            tld = tld;
            timestamp = timestamp;
            nonce = mined.0;
            claimant_pk = kp.public;
            pow = mined.1;
            witnesses = [];
          })
      ]
