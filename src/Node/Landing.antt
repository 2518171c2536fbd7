-- ===== src/Node/Landing.antt =====
-- Where a put changes the store and the pool of a node (internal/dht/transport.go, hPut).
use freens.Prelude.{
  ◌≡◌, refl, sym, arith, Bool, true, false, ◌==◌, length, Bytes, bytes_eq, bytes_eq→eq, none, some,
  ok, Option-cases, Result-cases, Bool-cases, inl, inr, ℤ,
}
use mathlib.Core.Path.{subst}
use freens.Wire.Record.{Envelope, record_hash}
use freens.Claims.Claim.{AliasClaim}
use freens.Claims.Quorum.{verify_full}
use freens.Claims.Pool.{offer_seen, contains}
use freens.Claims.Pool.Landing.{offer_seen-OffersAt}
use freens.Claims.Tombstone.{key_for_claim}
use freens.Store.Entries.{EnvelopeStore, to_key}
use freens.Store.Envelopes.{get, put_with_evidence}
use freens.Store.Evidence.{put_evidence, put_evidence_locked}
use freens.Store.Landing.{ChangesAt, ChangesAt-refl, ChangesAt-trans, LandsAt, Landed-ok}
use freens.Store.Landing.Put.{get-Landed, put-Landed}
use freens.Store.Runs.{put_evidence_keeps}
use freens.Node.{Node, Outside, Circumstances, record_hash_or_nil, retain_evidence}
use freens.Node.Put.{
  PutArgs, carried, put_key_for, is_incumbent, put_store, in_reuse_window, put_claim, put_verified,
}
use freens.Node.Kept.Put.{Carried-cases}

-- At the key only, but for what goes: other entries of the live table, and other members of the pool,
-- were there before.
abbrev pub ChangesOnly : Bytes → Node → Node → Type 0
ChangesOnly key n n' =
    ChangesAt (to_key key) n.store.entries n'.store.entries
    × ChangesAt key n.claims.by_key n'.claims.by_key

ChangesOnly-refl : (key : Bytes) (n : Node) → ChangesOnly key n n
ChangesOnly-refl key n =
    (ChangesAt-refl (to_key key) n.store.entries, ChangesAt-refl key n.claims.by_key)

module _ (o : Outside) (key : Bytes) where
  put_evidence-same :
      (s s' : EnvelopeStore) (h raw : Bytes)
      → put_evidence o.unmarshal_evidence h raw s ≡ ok s'
      → s'.entries ≡ s.entries
  unfolding put_evidence
  put_evidence-same s s' h raw e =
      let done : put_evidence_locked (to_key h) raw s ≡ s' = ground arith in
      subst (λ x. x.entries ≡ s.entries) done (put_evidence_keeps (to_key h) raw s).0

  retain_evidence-entries :
      (n : Node) (env : Envelope) (evidence : Bytes)
      → ((retain_evidence o n env evidence).store.entries ≡ n.store.entries)
        × ((retain_evidence o n env evidence).claims ≡ n.claims)
  unfolding retain_evidence
  retain_evidence-entries n env evidence = elim (Bool-cases (length evidence == 0)) [
    | inl e ↦ rw (e, retain_evidence) (refl, refl)
    | inr e ↦ elim (Option-cases (record_hash o.setting.platform env)) [
      | inl f ↦ rw (e, f, retain_evidence) (refl, refl)
      | inr (h, f) ↦ elim (Result-cases (put_evidence o.unmarshal_evidence h evidence n.store)) [
        | inr (why, g) ↦ rw (e, f, g, retain_evidence) (refl, refl)
        | inl (store, g) ↦
            rw (e, f, g, retain_evidence) (put_evidence-same n.store store h evidence g, refl)
      ]
    ]
  ]

  -- The node with a store that has changed at the key, and the evidence kept.
  stored-ChangesOnly :
      (n : Node) (store : EnvelopeStore)
      → LandsAt o.setting.platform (to_key key) n.store store
      → ChangesOnly key n (record n { store = store })
  stored-ChangesOnly n store l = (l, ChangesAt-refl key n.claims.by_key)

  retained-ChangesOnly :
      (n n' : Node) (env : Envelope) (evidence : Bytes)
      → ChangesOnly key n n'
      → ChangesOnly key n (retain_evidence o n' env evidence)
  retained-ChangesOnly n n' env evidence (l, r) =
      let (same, pool) = retain_evidence-entries n' env evidence in
      (
        subst (λ m. ChangesAt (to_key key) n.store.entries m) (sym same) l,
        subst (λ q. ChangesAt key n.claims.by_key q.by_key) (sym pool) r,
      )

  put_store-ChangesOnly :
      (n : Node) (t : Circumstances) (env : Envelope) (evidence : Bytes) (pooled : Bool)
      → ChangesOnly key n (put_store o n t key env evidence pooled).0
  unfolding put_store
  put_store-ChangesOnly n t env evidence pooled =
      let p = o.setting.platform in
      let put =
        put_with_evidence p o.setting.unicode o.setting.idna o.unmarshal_evidence n.store key
          (some env) t.now false evidence in
      let whole =
        put-Landed p o.setting.unicode o.setting.idna o.unmarshal_evidence n.store key env t.now
          evidence in
      elim (Result-cases put) [
        | inr (why, e) ↦ rw (e, put_store) (ChangesOnly-refl key n)
        | inl ((store, true), e) ↦
            let l = Landed-ok p (to_key key) n.store put store true whole e in
            rw (e, put_store) (retained-ChangesOnly n _ env evidence (stored-ChangesOnly n store l))
        | inl ((store, false), e) ↦
            let l = Landed-ok p (to_key key) n.store put store false whole e in
            let kept = stored-ChangesOnly n store l in
            elim (Result-cases (get p store key t.now)) [
              | inr (why, f) ↦ rw (e, f, put_store) kept
              | inl ((store', inc), f) ↦
                  let l' =
                    ChangesAt-trans (to_key key) n.store.entries store.entries store'.entries l (
                      Landed-ok p (to_key key) store _ store' inc (get-Landed p store key t.now)
                        f) in
                  let kept' = stored-ChangesOnly n store' l' in
                  elim (Bool-cases (is_incumbent o inc env)) [
                    | inl g ↦ rw (e, f, g, put_store) (retained-ChangesOnly n _ env evidence kept')
                    | inr g ↦ rw (e, f, g, put_store) kept'
                  ]
            ]
      ]

  put_claim-ChangesOnly :
      (n : Node) (t : Circumstances) (env : Envelope) (evidence : Bytes) (claim : AliasClaim)
      → ChangesOnly key n (put_claim o n t key env evidence claim).0
  unfolding put_claim
  put_claim-ChangesOnly n t env evidence claim =
      let none_changed = ChangesOnly-refl key n in
      let pool = (offer_seen o.setting o.unmarshal_claim n.claims key (some env) t.now 0).0 in
      let offered = offer_seen-OffersAt key o.setting o.unmarshal_claim n.claims env t.now 0 in
      let (l, r) =
        put_store-ChangesOnly (record n { claims = pool }) t env evidence
          (contains pool key (record_hash_or_nil o env)) in
      elim (Bool-cases (verify_full o.setting claim (ℤ.negsuc 0) none 5)) [
        | inr e ↦ rw e none_changed
        | inl e ↦ elim (Bool-cases (in_reuse_window o n t claim)) [
          | inl f ↦ rw (e, f) none_changed
          | inr f ↦ rw (e, f) (l, ChangesAt-trans key n.claims.by_key pool.by_key _ offered r)
        ]
      ]

  -- A put whose key has been found changes the node at this key only.
  pub put_verified-ChangesOnly :
      (n : Node) (t : Circumstances) (m : PutArgs) (env : Envelope)
      → put_key_for o m.key env ≡ ok key
      → ChangesOnly key n (put_verified o n t m env).0
  unfolding put_verified
  put_verified-ChangesOnly n t m env e =
      let plainly = put_store-ChangesOnly n t env m.evidence false in
      elim (Carried-cases (carried o env)) [
        | inl (inl f) ↦ rw (e, f, put_verified) (ChangesOnly-refl key n)
        | inl (inr f) ↦ rw (e, f, put_verified) plainly
        | inr (claim, f) ↦ elim (Option-cases (key_for_claim o.setting claim.alias)) [
          | inl g ↦ rw (e, f, g, put_verified) plainly
          | inr (k, g) ↦ elim (Bool-cases (bytes_eq key k)) [
            | inl h ↦
                rw (e, f, g, h, put_verified)
                  (subst (λ x. ChangesOnly key n (put_claim o n t x env m.evidence claim).0)
                    (bytes_eq→eq key k h) (put_claim-ChangesOnly n t env m.evidence claim))
            | inr h ↦ rw (e, f, g, h, put_verified) plainly
          ]
        ]
      ]
