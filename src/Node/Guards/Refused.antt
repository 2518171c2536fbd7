-- ===== src/Node/Guards/Refused.antt =====
-- What a put that is refused leaves as it was (internal/dht/transport.go, hPut).
use freens.Prelude.{
  ◌≡◌, ◌⊎◌, refl, Bool, true, false, not, Bytes, bytes_eq, none, some, Option-cases, Result-cases,
  Bool-cases, inl, inr, ℤ, if◌then◌else◌, if_elim,
}
use freens.Wire.Record.{Envelope, verify_signature}
use freens.Claims.Claim.{AliasClaim}
use freens.Claims.Quorum.{verify_full}
use freens.Claims.Pool.{offer_seen, contains}
use freens.Claims.Tombstone.{key_for_claim}
use freens.Store.Envelopes.{get, put_with_evidence}
use freens.Tokens.{verify_token}
use freens.Blacklist.{Class, flagged}
use freens.Node.{
  Node, Outside, Circumstances, Reply, Refusal, done, refused, decode_envelope, record_hash_or_nil,
  violate,
}
use freens.Node.Put.{
  PutArgs, PutKeyError, carried, put_key_for, is_incumbent, put_store, in_reuse_window, put_claim,
  put_verified, put_decoded, put_admitted, h_put,
}
use freens.Node.Kept.Put.{Carried-cases}

-- The put reached the store and was answered with success, a stale record or an error of the store; or
-- the store and the pool are as they were.
abbrev pub Settled : Node → Node × Reply → Type 0
Settled n r =
    ((r.1 ≡ done)
      ⊎ ((r.1 ≡ refused 304 Refusal.stale_record) ⊎ (r.1 ≡ refused 301 Refusal.store_error)))
    ⊎ ((r.0.store ≡ n.store) × (r.0.claims ≡ n.claims))

either :
    (n : Node) (b : Bool) (x y : Node × Reply)
    → Settled n x
    → Settled n y
    → Settled n (if b then x else y)
either n = if_elim (Settled n)

same : (n : Node) (r : Reply) → Settled n (n, r)
same n r = inr (refl, refl)

kept_or_stale :
    (n n' : Node) (b : Bool) → Settled n (n', if b then done else refused 304 Refusal.stale_record)
kept_or_stale n n' true = inl (inl refl)
kept_or_stale n n' false = inl (inr (inl refl))

module _ (o : Outside) where
  put_store-Settled :
      (start n : Node) (t : Circumstances) (key : Bytes) (env : Envelope) (evidence : Bytes)
      (pooled : Bool)
      → Settled start (put_store o n t key env evidence pooled)
  unfolding put_store
  put_store-Settled start n t key env evidence pooled =
      let put =
        put_with_evidence o.setting.platform o.setting.unicode o.setting.idna o.unmarshal_evidence
          n.store key (some env) t.now false evidence in
      elim (Result-cases put) [
        | inr (why, e) ↦ rw (e, put_store) (inl (inr (inr refl)))
        | inl ((store, true), e) ↦ rw (e, put_store) (inl (inl refl))
        | inl ((store, false), e) ↦ elim (Result-cases (get o.setting.platform store key t.now)) [
          | inr (why, f) ↦
              rw (e, f, put_store) (kept_or_stale start (record n { store = store }) pooled)
          | inl ((store', inc), f) ↦ elim (Bool-cases (is_incumbent o inc env)) [
            | inl g ↦ rw (e, f, g, put_store) (inl (inl refl))
            | inr g ↦
                rw (e, f, g, put_store) (kept_or_stale start (record n { store = store' }) pooled)
          ]
        ]
      ]

  put_claim-Settled :
      (n : Node) (t : Circumstances) (key : Bytes) (env : Envelope) (evidence : Bytes)
      (claim : AliasClaim)
      → Settled n (put_claim o n t key env evidence claim)
  unfolding put_claim
  put_claim-Settled n t key env evidence claim =
      let pool = (offer_seen o.setting o.unmarshal_claim n.claims key (some env) t.now 0).0 in
      let stored =
        put_store-Settled n (record n { claims = pool }) t key env evidence
          (contains pool key (record_hash_or_nil o env)) in
      either n (not (verify_full o.setting claim (ℤ.negsuc 0) none 5)) (n, _) _ (same n _)
        (either n (in_reuse_window o n t claim) (n, _) _ (same n _) stored)

  put_verified-Settled :
      (n : Node) (t : Circumstances) (m : PutArgs) (env : Envelope)
      → Settled n (put_verified o n t m env)
  unfolding put_verified
  put_verified-Settled n t m env = elim (Result-cases (put_key_for o m.key env)) [
    | inr (PutKeyError.nil_dereference, e) ↦ rw (e, put_verified) (same n _)
    | inr (PutKeyError.bad_name, e) ↦ rw (e, put_verified) (same n _)
    | inr (PutKeyError.no_claim, e) ↦ rw (e, put_verified) (same n _)
    | inr (PutKeyError.bad_claim_key, e) ↦ rw (e, put_verified) (same n _)
    | inr (PutKeyError.wrong_key, e) ↦ rw (e, put_verified) (same n _)
    | inl (key, e) ↦
        let plainly = put_store-Settled n n t key env m.evidence false in
        elim (Carried-cases (carried o env)) [
          | inl (inl f) ↦ rw (e, f, put_verified) (same n _)
          | inl (inr f) ↦ rw (e, f, put_verified) plainly
          | inr (claim, f) ↦ elim (Option-cases (key_for_claim o.setting claim.alias)) [
            | inl g ↦ rw (e, f, g, put_verified) plainly
            | inr (k, g) ↦
                rw (e, f, g, put_verified)
                  (either n (bytes_eq key k) _ _ (put_claim-Settled n t k env m.evidence claim)
                    plainly)
          ]
        ]
  ]

  put_decoded-Settled :
      (n : Node) (t : Circumstances) (m : PutArgs) → Settled n (put_decoded o n t m)
  unfolding put_decoded
  put_decoded-Settled n t m = elim (Option-cases (decode_envelope o m.envelope)) [
    | inl e ↦ rw (e, put_decoded) (same n _)
    | inr (env, e) ↦
        let bad : Settled n (
          violate o n t m.sender Class.bad_envelope m.envelope,
          refused 303 Refusal.invalid_signature,
        ) =
          unfold violate in inr (refl, refl) in
        rw (e, put_decoded)
          (either n (not (verify_signature o.setting.platform env)) _ (put_verified o n t m env) bad
            (put_verified-Settled n t m env))
  ]

  put_admitted-Settled :
      (n : Node) (t : Circumstances) (m : PutArgs) → Settled n (put_admitted o n t m)
  unfolding put_admitted
  put_admitted-Settled n t m =
      let valid = verify_token o.hmac o.itoa n.tokens t.now t.source m.token (ℤ.pos 1) in
      either n n.passive (n, refused 301 Refusal.passive_node) _ (same n _)
        (either n (not t.allowed) (n, refused 301 Refusal.throttled) _ (same n _)
          (either n (not valid) (n, refused 302 Refusal.invalid_token) (put_decoded o n t m)
            (same n _) (put_decoded-Settled n t m)))

  -- Every put is answered with success, with 304 for a stale record or with 301 for an error of the
  -- store, or it leaves the live table, the evidence, the history and the claim pool as they were.
  pub h_put-Settled : (n : Node) (t : Circumstances) (m : PutArgs) → Settled n (h_put o n t m)
  unfolding h_put
  h_put-Settled n t m =
      let n' = record n { black = (flagged n.black m.sender t.instant).0 } in
      either n (flagged n.black m.sender t.instant).1 (n', refused 403 Refusal.blacklisted)
        (put_admitted o n' t m) (inr (refl, refl)) (put_admitted-Settled n' t m)
