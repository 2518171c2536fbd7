-- ===== src/Claims/Claim/Mined.antt =====
-- A claim that MineAliasClaim returns passes the checks of a verifier.
use freens.Prelude.{
  ℕ, zero, suc, ◌+◌, ◌-◌, ◌≤◌, ◌≡◌, ◌≢◌, refl, sym, ap, ◌∙◌, Bool, true, ◌&&◌, Bytes, bytes_eq_refl,
  Option, some, ok, ℤ, arith, Bool-cases, Option-cases, Result-cases, inl, inr,
}
use freens.Naming.Labels.{validate_alias}
use freens.Naming.Labels.Normal.{validate_alias_fixed, validate_alias-check}
use freens.Wire.Record.{tld_id}
use freens.Claims.Pow.{
  pow_hash, meets_difficulty, clamp_difficulty_byte, attempt_nonce, mine_loop, mine_pow,
}
use freens.Claims.Attestation.{Keypair}
use freens.Claims.Order.{structurally_and_pow_valid}
use freens.Claims.Claim.{
  AliasClaim, Setting, infer_difficulty, infer_difficulty_of, effective_difficulty, prefix,
  verify_pow_from_prefix, verify_pow, verify_claimant_consistency, mine_alias_claim,
}

-- What a nonce and its hash are when the search ends well.
abbrev pub Found : (Bytes → Bytes) → Bytes → ℕ → ℕ → Bytes × Bytes → Type 0
Found sha256 pre d size (nonce, hash) =
    (hash ≡ pow_hash sha256 pre nonce)
    × (meets_difficulty hash (ℤ.pos d) ≡ true)
    × ((tail : Bytes) × (nonce ≡ attempt_nonce d size tail))

mine_loop-Found :
    (sha256 : Bytes → Bytes) (read : ℕ → ℕ → Option Bytes) (pre : Bytes) (d size rounds i : ℕ)
    (nonce hash : Bytes)
    → mine_loop sha256 read pre d size rounds i ≡ ok (nonce, hash)
    → Found sha256 pre d size (nonce, hash)
unfolding mine_loop
mine_loop-Found sha256 read pre d size zero i nonce hash h = cc
mine_loop-Found sha256 read pre d size (suc rounds) i nonce hash h =
    elim (Option-cases (read i (size - 1))) [
      | inl e ↦ let h' = rw (e, mine_loop) at h in cc
      | inr (tail, e) ↦
          let n = attempt_nonce d size tail in
          elim (Bool-cases (meets_difficulty (pow_hash sha256 pre n) (ℤ.pos d))) [
            | inl m ↦
                let h' : ok (n, pow_hash sha256 pre n) ≡ ok (nonce, hash) =
                  rw (e, m, mine_loop) at h in
                let same : n ≡ nonce = cc in
                let hashed : pow_hash sha256 pre n ≡ hash = cc in
                (rw (← same) (sym hashed), rw (← hashed) m, (tail, sym same))
            | inr m ↦
                mine_loop-Found sha256 read pre d size rounds (i + 1) nonce hash
                  (rw (e, m, mine_loop) at h)
          ]
    ]

mine_pow-Found :
    (sha256 : Bytes → Bytes) (read : ℕ → ℕ → Option Bytes) (pre : Bytes) (d iters : ℕ) (size : ℤ)
    (nonce hash : Bytes)
    → mine_pow sha256 read pre (ℤ.pos d) iters size ≡ ok (nonce, hash)
    → (n : ℕ) × (size ≡ ℤ.pos n) × Found sha256 pre d n (nonce, hash)
unfolding mine_pow
mine_pow-Found sha256 read pre d iters (ℤ.pos n) nonce hash h =
    (n, refl, mine_loop-Found sha256 read pre d n iters 0 nonce hash h)
mine_pow-Found sha256 read pre d iters (ℤ.negsuc n) nonce hash h = cc

and_true : {a b : Bool} → a ≡ true → b ≡ true → (a && b) ≡ true
and_true h k = ground arith

attempt_nonce-infer :
    (s : Setting) (d n : ℕ) (tail : Bytes)
    → s.difficulty_init ≤ d
    → d ≤ 255
    → n ≢ 0
    → infer_difficulty s (attempt_nonce d n tail) ≡ d
unfolding infer_difficulty attempt_nonce clamp_difficulty_byte
attempt_nonce-infer s d zero tail lo hi some_byte = absurd (some_byte refl)
attempt_nonce-infer s d (suc n) tail lo hi some_byte = ground arith

module _ (s : Setting) (read : ℕ → ℕ → Option Bytes) (alias : Bytes) (kp : Keypair) (ts d iters : ℕ)
    (size : ℤ) (c : AliasClaim)
    (mined : mine_alias_claim s read alias (some kp) ts (ℤ.pos d) iters size ≡ ok c) where
  -- What a successful run of MineAliasClaim went through.
  record Run : Type 0 where
    pre : Bytes
    n : ℕ
    sized : size ≡ ℤ.pos n
    named : validate_alias s.unicode s.idna c.alias ≡ ok c.alias
    encoded : s.marshal_identity c.alias c.tld ts kp.public ≡ some pre
    certified : tld_id s.platform kp.public ≡ some c.tld
    searched : Found s.platform.sha256 pre d n (c.nonce, c.pow)
    ts_eq : c.timestamp ≡ ts
    pk_eq : c.claimant_pk ≡ kp.public

  run : Run
  unfolding mine_alias_claim
  run = elim (Result-cases (validate_alias s.unicode s.idna alias)) [
    | inr (e, q) ↦ let m = rw (q, mine_alias_claim) at mined in cc
    | inl (name, q) ↦ elim (Option-cases (tld_id s.platform kp.public)) [
      | inl r ↦ let m = rw (q, r, mine_alias_claim) at mined in cc
      | inr (tld, r) ↦ elim (Option-cases (s.marshal_identity name tld ts kp.public)) [
        | inl t ↦ let m = rw (q, r, t, mine_alias_claim) at mined in cc
        | inr (pre, t) ↦
            elim (Result-cases (mine_pow s.platform.sha256 read pre (ℤ.pos d) iters size)) [
              | inr (e, v) ↦ let m = rw (q, r, t, v, mine_alias_claim) at mined in cc
              | inl ((nonce, hash), v) ↦
                  let (n, size_eq, found) =
                    mine_pow-Found s.platform.sha256 read pre d iters size nonce hash v in
                  let fixed =
                    validate_alias_fixed s.unicode s.idna name
                      (validate_alias-check s.unicode s.idna alias name q) in
                  let m = rw (q, r, t, v, mine_alias_claim) at mined in
                  let alias_eq : name ≡ c.alias = ground arith in
                  let tld_eq : tld ≡ c.tld = ground arith in
                  let nonce_eq : nonce ≡ c.nonce = ground arith in
                  let pow_eq : hash ≡ c.pow = ground arith in
                  record {
                    pre = pre;
                    n = n;
                    sized = size_eq;
                    named = rw (← alias_eq) fixed;
                    encoded = rw (← alias_eq, ← tld_eq) t;
                    certified = rw (← tld_eq) r;
                    searched = rw (← nonce_eq, ← pow_eq) found;
                    ts_eq = ground arith;
                    pk_eq = ground arith;
                  }
            ]
      ]
    ]
  ]

  Run-prefix : (r : Run) → prefix s c ≡ some r.pre
  unfolding prefix
  Run-prefix r = rw (r.named, prefix) (rw (r.ts_eq, r.pk_eq) r.encoded)

  -- The search's hash passes the check of the proof of work, for every difficulty that it meets.
  Run-pow :
      (r : Run) (e : ℤ)
      → meets_difficulty c.pow e ≡ true
      → verify_pow_from_prefix s c r.pre e ≡ true
  unfolding verify_pow_from_prefix
  Run-pow r e m = rw (← r.searched.0) (rw (bytes_eq_refl c.pow, m) refl)

  Run-consistent : Run → verify_claimant_consistency s c ≡ true
  unfolding verify_claimant_consistency
  Run-consistent r = rw (r.pk_eq, r.certified, verify_claimant_consistency) (bytes_eq_refl c.tld)

  -- A claim that MineAliasClaim returns is consistent with its key and has the proof of work for the
  -- difficulty asked for, the time asked for and the key of the key pair.
  pub mine_alias_claim-verify :
      (verify_claimant_consistency s c ≡ true)
      × (verify_pow s c (ℤ.pos d) ≡ true)
      × (c.timestamp ≡ ts)
      × (c.claimant_pk ≡ kp.public)
  unfolding verify_pow effective_difficulty
  mine_alias_claim-verify =
      let r = run in
      (
        Run-consistent r,
        rw (Run-prefix r, verify_pow) (Run-pow r (ℤ.pos d) r.searched.1),
        r.ts_eq,
        r.pk_eq,
      )

  Run-infer :
      (r : Run) → s.difficulty_init ≤ d → d ≤ 255 → size ≢ ℤ.pos 0 → infer_difficulty_of s c ≡ d
  unfolding infer_difficulty_of
  Run-infer r lo hi some_byte =
      let (tail, made) = r.searched.2 in
      rw made (attempt_nonce-infer s d r.n tail lo hi (λ e. some_byte (r.sized ∙ ap ℤ.pos e)))

  -- Where the nonce has a byte and the difficulty asked for is one of the initial difficulty to 255,
  -- a verifier infers that difficulty for a claim that MineAliasClaim returns, and the claim passes
  -- the filter of SelectWinner and OrderClaims.
  pub mine_alias_claim-infer :
      s.difficulty_init ≤ d
      → d ≤ 255
      → size ≢ ℤ.pos 0
      → (infer_difficulty_of s c ≡ d) × (structurally_and_pow_valid s c ≡ true)
  unfolding structurally_and_pow_valid verify_pow effective_difficulty
  mine_alias_claim-infer lo hi some_byte =
      let r = run in
      let inferred = Run-infer r lo hi some_byte in
      let met : meets_difficulty c.pow (ℤ.pos (infer_difficulty_of s c)) ≡ true =
        rw inferred r.searched.1 in
      (
        inferred,
        and_true (Run-consistent r)
            (rw (Run-prefix r, verify_pow) (Run-pow r (ℤ.pos (infer_difficulty_of s c)) met)),
      )
