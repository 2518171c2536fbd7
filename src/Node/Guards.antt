-- ===== src/Node/Guards.antt =====
-- What a put has passed that a node answers with success (internal/dht/transport.go, hPut).
pub mod Refused
use freens.Prelude.{
  ℕ, ◌≤◌, ◌≡◌, arith, refl, sym, ◌∙◌, ◌⊎◌, Bool, true, false, ◌&&◌, ◌||◌, not, ltb, ◌==◌, length,
  Bytes, bytes_eq, bytes_eq→eq, bytes_eq_refl, Option, none, some, Result, ok, err, Option-cases,
  Result-cases, Bool-cases, inl, inr, ℤ, if◌then◌else◌,
}
use mathlib.Core.Path.{subst}
use freens.Wire.Record.{Envelope, is_ok, validate, verify_signature}
use freens.Claims.Claim.{AliasClaim, prefix_hash}
use freens.Claims.Quorum.{verify_full}
use freens.Claims.Tombstone.{key_for_claim, claim_reuse_refusal}
use freens.Claims.Quorum.Full.{IsValid, HasTimes, verify_full-IsValid}
use freens.Store.Envelopes.{key_for_wire_name}
use freens.Tokens.{epoch, verify_token}
use freens.Tokens.Accepted.{token_of, verify_token_iff}
use freens.Node.Kept.Put.{Carried-cases}
use freens.Blacklist.{flagged}
use freens.Node.{
  Node, Outside, Circumstances, Reply, Refusal, done, crashed, refused, decode_envelope,
}
use freens.Node.Keyed.{
  CarriesClaim, IsClaimKey, IsKeyOf, CarriesClaim-carried, IsClaimKey-key_for_claim,
  put_key_for-IsKeyOf,
}
use freens.Node.Landing.{ChangesOnly, put_verified-ChangesOnly}
use freens.Node.Put.{
  PutArgs, PutKeyError, Carried, torn, plain, claimed, carried, put_key_for, put_store,
  in_reuse_window, put_claim, put_verified, put_decoded, put_admitted, h_put,
}

module _ (o : Outside) where
  -- No tombstone of another identity stands against the claim's.
  abbrev pub IsCalm : Node → Circumstances → AliasClaim → Type 0
  IsCalm n t claim =
      (ph : Bytes)
      → prefix_hash o.setting claim ≡ some ph
      → claim_reuse_refusal o.setting o.unmarshal_claim n.claims claim.alias ph t.now ≡ 0

  in_reuse_window-IsCalm :
      (n : Node) (t : Circumstances) (claim : AliasClaim)
      → in_reuse_window o n t claim ≡ false
      → IsCalm n t claim
  unfolding in_reuse_window
  in_reuse_window-IsCalm n t claim h ph e = ground (arith, e, h)

  -- A claim that is put at its own key is valid, with a quorum of five, and its alias is in no reuse
  -- window.
  abbrev pub Screened : Node → Circumstances → Envelope → Bytes → Type 0
  Screened n t env key =
      (claim : AliasClaim)
      → CarriesClaim o env claim
      → IsClaimKey o claim key
      → IsValid o.setting claim (ℤ.negsuc 0) none 5 × IsCalm n t claim

  pub record IsAdmitted (n : Node) (t : Circumstances) (m : PutArgs) : Type 0 where
    pub trusted : (flagged n.black m.sender t.instant).1 ≡ false
    pub active : n.passive ≡ false
    pub allowed : t.allowed ≡ true
    pub token_age : ℕ
    pub recent : token_age ≤ 1
    pub token : m.token ≡ token_of o.hmac o.itoa n.tokens t.source (epoch n.tokens t.now) token_age
    pub env : Envelope
    pub decoded : o.unmarshal_envelope m.envelope ≡ some env
    pub well_formed : is_ok (validate env.body) ≡ true
    pub lengths : (length env.sig ≡ 64) × (length env.signer ≡ 32)
    pub authentic : verify_signature o.setting.platform env ≡ true
    pub key : Bytes
    pub keyed : IsKeyOf o m.key env key
    pub screened : Screened n t env key
    pub landed : ChangesOnly key n (h_put o n t m).0

  put_claim-done :
      (n : Node) (t : Circumstances) (key : Bytes) (env : Envelope) (evidence : Bytes)
      (claim : AliasClaim)
      → (put_claim o n t key env evidence claim).1 ≡ done
      → (verify_full o.setting claim (ℤ.negsuc 0) none 5 ≡ true)
        × (in_reuse_window o n t claim ≡ false)
  unfolding put_claim
  put_claim-done n t key env evidence claim h =
      elim (Bool-cases (verify_full o.setting claim (ℤ.negsuc 0) none 5)) [
        | inr e ↦ let h' = rw e at h in cc
        | inl e ↦ elim (Bool-cases (in_reuse_window o n t claim)) [
          | inl f ↦ let h' = rw (e, f) at h in cc
          | inr f ↦ (e, f)
        ]
      ]

  put_verified_keyed :
      (n : Node) (t : Circumstances) (m : PutArgs) (env : Envelope)
      → (put_verified o n t m env).1 ≡ done
      → (key : Bytes) × (put_key_for o m.key env ≡ ok key)
  unfolding put_verified
  put_verified_keyed n t m env h = elim (Result-cases (put_key_for o m.key env)) [
    | inr (PutKeyError.nil_dereference, e) ↦ let h' = rw (e, put_verified) at h in cc
    | inr (PutKeyError.bad_name, e) ↦ let h' = rw (e, put_verified) at h in cc
    | inr (PutKeyError.no_claim, e) ↦ let h' = rw (e, put_verified) at h in cc
    | inr (PutKeyError.bad_claim_key, e) ↦ let h' = rw (e, put_verified) at h in cc
    | inr (PutKeyError.wrong_key, e) ↦ let h' = rw (e, put_verified) at h in cc
    | inl (key, e) ↦ (key, e)
  ]

  put_verified-put_claim :
      (n : Node) (t : Circumstances) (m : PutArgs) (env : Envelope) (key : Bytes)
      (claim : AliasClaim)
      → put_key_for o m.key env ≡ ok key
      → carried o env ≡ claimed claim
      → key_for_claim o.setting claim.alias ≡ some key
      → put_verified o n t m env ≡ put_claim o n t key env m.evidence claim
  unfolding put_verified
  put_verified-put_claim n t m env key claim e c k =
      rw (e, c, k, bytes_eq_refl key, put_verified) refl

  put_verified-Screened :
      (n : Node) (t : Circumstances) (m : PutArgs) (env : Envelope) (key : Bytes)
      → ((claim : AliasClaim) → CarriesClaim o env claim → HasTimes o.setting claim)
      → put_key_for o m.key env ≡ ok key
      → (put_verified o n t m env).1 ≡ done
      → Screened n t env key
  put_verified-Screened n t m env key times e h claim c k =
      let same =
        put_verified-put_claim n t m env key claim e (CarriesClaim-carried o env claim c)
          (IsClaimKey-key_for_claim o claim key k) in
      let h' : (put_claim o n t key env m.evidence claim).1 ≡ done =
        subst (λ r. r.1 ≡ done) same h in
      let (full, calm) = put_claim-done n t key env m.evidence claim h' in
      (
        verify_full-IsValid o.setting claim (ℤ.negsuc 0) none 5 (times claim c) full,
        in_reuse_window-IsCalm n t claim calm,
      )

  put_decoded-done :
      (n : Node) (t : Circumstances) (m : PutArgs)
      → (put_decoded o n t m).1 ≡ done
      → (env : Envelope) × (decode_envelope o m.envelope ≡ some env)
        × (verify_signature o.setting.platform env ≡ true)
        × (put_decoded o n t m ≡ put_verified o n t m env)
  unfolding put_decoded
  put_decoded-done n t m h = elim (Option-cases (decode_envelope o m.envelope)) [
    | inl e ↦ let h' = rw (e, put_decoded) at h in cc
    | inr (env, e) ↦ elim (Bool-cases (verify_signature o.setting.platform env)) [
      | inr f ↦ let h' = rw (e, f, put_decoded) at h in cc
      | inl f ↦ (env, e, f, rw (e, f, put_decoded) refl)
    ]
  ]

  decode_envelope_sound :
      (raw : Bytes) (env : Envelope)
      → decode_envelope o raw ≡ some env
      → (o.unmarshal_envelope raw ≡ some env)
        × (is_ok (validate env.body) ≡ true)
        × ((length env.sig ≡ 64) × (length env.signer ≡ 32))
  unfolding decode_envelope
  decode_envelope_sound raw env h = elim (Option-cases (o.unmarshal_envelope raw)) [
    | inl e ↦ absurd (ground (arith, e, h))
    | inr (found, e) ↦
        let test =
          is_ok (validate found.body) && length found.sig == 64 && length found.signer == 32 in
        elim (Bool-cases test) [
          | inr f ↦ absurd (ground (arith, e, f, h))
          | inl f ↦
              let same : found ≡ env = ground (arith, e, f, h) in
              subst
                (λ (x : Envelope).
                  (o.unmarshal_envelope raw ≡ some x)
                  × (is_ok (validate x.body) ≡ true)
                  × ((length x.sig ≡ 64) × (length x.signer ≡ 32)))
                same (e, ground (arith, f), (ground (arith, f), ground (arith, f)))
        ]
  ]

  put_admitted-done :
      (n : Node) (t : Circumstances) (m : PutArgs)
      → (put_admitted o n t m).1 ≡ done
      → (n.passive ≡ false)
        × (t.allowed ≡ true)
        × (verify_token o.hmac o.itoa n.tokens t.now t.source m.token (ℤ.pos 1) ≡ true)
        × (put_admitted o n t m ≡ put_decoded o n t m)
  unfolding put_admitted
  put_admitted-done n t m h =
      let active : n.passive ≡ false = ground arith in
      let allowed : t.allowed ≡ true = ground arith in
      let token : verify_token o.hmac o.itoa n.tokens t.now t.source m.token (ℤ.pos 1) ≡ true =
        ground arith in
      (active, allowed, token, ground (arith, active, allowed, token))

  -- Where the times of the claim that an envelope carries fit an int64: a put of it that is answered
  -- with success comes from a sender that is not blacklisted, to a node that is not passive, within the limit
  -- of its source, with the write token of its source for the current epoch or the one before. Its
  -- envelope decodes to a well-formed record, and its signature verifies. Its key is the one asked for, if one is, and is
  -- that of the record's name or that of the claim in it; where it is the claim's, the claim is valid with
  -- a quorum of five, and its alias is in no reuse window. Entries of the live table and members of the
  -- pool at other keys were there before.
  pub h_put-IsAdmitted :
      (n : Node) (t : Circumstances) (m : PutArgs)
      → ((env : Envelope) (claim : AliasClaim)
          → o.unmarshal_envelope m.envelope ≡ some env
          → CarriesClaim o env claim
          → HasTimes o.setting claim)
      → (h_put o n t m).1 ≡ done
      → IsAdmitted n t m
  unfolding h_put in_reuse_window
  h_put-IsAdmitted n t m times h = elim (Bool-cases (flagged n.black m.sender t.instant).1) [
    | inl e ↦ let h' = rw e at h in cc
    | inr e ↦
        let n' = record n { black = (flagged n.black m.sender t.instant).0 } in
        let h1 : (put_admitted o n' t m).1 ≡ done = rw e at h in
        let (active, allowed, token, same1) = put_admitted-done n' t m h1 in
        let h2 : (put_decoded o n' t m).1 ≡ done = subst (λ r. r.1 ≡ done) same1 h1 in
        let (env, decoded, authentic, same2) = put_decoded-done n' t m h2 in
        let (sent, well_formed, lengths) = decode_envelope_sound m.envelope env decoded in
        let stored : (put_verified o n' t m env).1 ≡ done = subst (λ r. r.1 ≡ done) same2 h2 in
        let (key, keyed) = put_verified_keyed n' t m env stored in
        let (size, (age, recent, same)) =
          (verify_token_iff o.hmac o.itoa n.tokens t.source t.now 1 m.token).0 token in
        record {
          trusted = e;
          active = active;
          allowed = allowed;
          token_age = age;
          recent = recent;
          token = same;
          env = env;
          decoded = sent;
          well_formed = well_formed;
          lengths = lengths;
          authentic = authentic;
          key = key;
          keyed = put_key_for-IsKeyOf o m.key env key keyed;
          screened =
              put_verified-Screened n' t m env key (λ claim c. times env claim sent c) keyed stored;
          landed = rw e (
              subst (λ r. ChangesOnly key n r.0) (sym (same1 ∙ same2))
                (put_verified-ChangesOnly o key n' t m env keyed));
        }
  ]
