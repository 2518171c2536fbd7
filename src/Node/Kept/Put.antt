-- ===== src/Node/Kept/Put.antt =====
-- hPut keeps the node's invariant (internal/dht/transport.go).
use freens.Prelude.{
  ◌≡◌, ◌⊎◌, if◌then◌else◌, refl, Bool, true, false, not, ◌==◌, length, Bytes, bytes_eq, none, some,
  Option-cases, Result-cases, Bool-cases, inl, inr, ℤ,
}
use freens.Wire.Record.{Envelope, record_hash, verify_signature}
use freens.Claims.Claim.{AliasClaim}
use freens.Claims.Quorum.{verify_full}
use freens.Claims.Pool.{offer_seen, contains}
use freens.Claims.Pool.Runs.{offer_seen-IsPool}
use freens.Claims.Tombstone.{key_for_claim}
use freens.Store.Evidence.{put_evidence}
use freens.Store.Envelopes.{get, put_with_evidence}
use freens.Store.Operations.{Kept-ok, get-Kept, put-Kept}
use freens.Store.Runs.{put_evidence-IsStore}
use freens.Tokens.{verify_token}
use freens.Blacklist.{flagged}
use freens.Node.{
  Node, Outside, Circumstances, Refusal, refused, decode_envelope, record_hash_or_nil,
  retain_evidence, violate,
}
use freens.Node.Put.{
  PutArgs, PutKeyError, Carried, torn, plain, claimed, carried, put_key_for, is_incumbent,
  put_store, in_reuse_window, put_claim, put_verified, put_decoded, put_admitted, h_put,
}
use freens.Node.Kept.{IsNode, with_store, with_pool, same_node, either}

pub Carried-cases :
    (c : Carried) → ((c ≡ torn) ⊎ (c ≡ plain)) ⊎ ((claim : AliasClaim) × (c ≡ claimed claim))
Carried-cases torn = inl (inl refl)
Carried-cases plain = inl (inr refl)
Carried-cases (claimed claim) = inr (claim, refl)

module _ (o : Outside) where
  retain_evidence-IsNode :
      (n : Node) (env : Envelope) (evidence : Bytes)
      → IsNode o n
      → IsNode o (retain_evidence o n env evidence)
  unfolding retain_evidence
  retain_evidence-IsNode n env evidence i = elim (Bool-cases (length evidence == 0)) [
    | inl e ↦ rw (e, retain_evidence) i
    | inr e ↦ elim (Option-cases (record_hash o.setting.platform env)) [
      | inl f ↦ rw (e, f, retain_evidence) i
      | inr (h, f) ↦ elim (Result-cases (put_evidence o.unmarshal_evidence h evidence n.store)) [
        | inr (why, g) ↦ rw (e, f, g, retain_evidence) i
        | inl (store, g) ↦
            rw (e, f, g, retain_evidence)
              (with_store o n store i (
                put_evidence-IsStore o.setting.platform o.setting.unicode o.setting.idna
                  o.unmarshal_evidence n.store store h evidence i.stored g))
      ]
    ]
  ]

  put_store-IsNode :
      (n : Node) (t : Circumstances) (key : Bytes) (env : Envelope) (evidence : Bytes)
      (pooled : Bool)
      → IsNode o n
      → IsNode o (put_store o n t key env evidence pooled).0
  unfolding put_store
  put_store-IsNode n t key env evidence pooled i =
      let put =
        put_with_evidence o.setting.platform o.setting.unicode o.setting.idna o.unmarshal_evidence
          n.store key (some env) t.now false evidence in
      let whole =
        put-Kept o.setting.platform o.setting.unicode o.setting.idna o.unmarshal_evidence n.store
          key (some env) t.now false evidence i.stored in
      elim (Result-cases put) [
        | inr (why, e) ↦ rw (e, put_store) i
        | inl ((store, true), e) ↦
            let kept = Kept-ok o.setting.platform put store true whole e in
            rw (e, put_store) (retain_evidence-IsNode _ env evidence (with_store o n store i kept))
        | inl ((store, false), e) ↦
            let kept = Kept-ok o.setting.platform put store false whole e in
            let got = get-Kept o.setting.platform store key t.now kept in
            elim (Result-cases (get o.setting.platform store key t.now)) [
              | inr (why, f) ↦ rw (e, f, put_store) (with_store o n store i kept)
              | inl ((store', inc), f) ↦
                  let kept' = Kept-ok o.setting.platform _ store' inc got f in
                  elim (Bool-cases (is_incumbent o inc env)) [
                    | inl g ↦
                        rw (e, f, g, put_store)
                          (retain_evidence-IsNode _ env evidence (with_store o n store' i kept'))
                    | inr g ↦ rw (e, f, g, put_store) (with_store o n store' i kept')
                  ]
            ]
      ]

  put_claim-IsNode :
      (n : Node) (t : Circumstances) (key : Bytes) (env : Envelope) (evidence : Bytes)
      (claim : AliasClaim)
      → IsNode o n
      → IsNode o (put_claim o n t key env evidence claim).0
  unfolding put_claim
  put_claim-IsNode n t key env evidence claim i =
      let pool =
        offer_seen-IsPool o.setting o.unmarshal_claim n.claims key (some env) t.now 0 i.pooled in
      let stored =
        put_store-IsNode _ t key env evidence
          (contains (offer_seen o.setting o.unmarshal_claim n.claims key (some env) t.now 0).0 key
            (record_hash_or_nil o env))
          (with_pool o n _ i pool) in
      elim (Bool-cases (verify_full o.setting claim (ℤ.negsuc 0) none 5)) [
        | inr e ↦ rw e i
        | inl e ↦ elim (Bool-cases (in_reuse_window o n t claim)) [
          | inl f ↦ rw (e, f) i
          | inr f ↦ rw (e, f) stored
        ]
      ]

  put_verified-IsNode :
      (n : Node) (t : Circumstances) (m : PutArgs) (env : Envelope)
      → IsNode o n
      → IsNode o (put_verified o n t m env).0
  unfolding put_verified
  put_verified-IsNode n t m env i = elim (Result-cases (put_key_for o m.key env)) [
    | inr (PutKeyError.nil_dereference, e) ↦ rw (e, put_verified) i
    | inr (PutKeyError.bad_name, e) ↦ rw (e, put_verified) i
    | inr (PutKeyError.no_claim, e) ↦ rw (e, put_verified) i
    | inr (PutKeyError.bad_claim_key, e) ↦ rw (e, put_verified) i
    | inr (PutKeyError.wrong_key, e) ↦ rw (e, put_verified) i
    | inl (key, e) ↦
        let plainly = put_store-IsNode n t key env m.evidence false i in
        elim (Carried-cases (carried o env)) [
          | inl (inl f) ↦ rw (e, f, put_verified) i
          | inl (inr f) ↦ rw (e, f, put_verified) plainly
          | inr (claim, f) ↦ elim (Option-cases (key_for_claim o.setting claim.alias)) [
            | inl g ↦ rw (e, f, g, put_verified) plainly
            | inr (k, g) ↦ elim (Bool-cases (bytes_eq key k)) [
              | inl h ↦
                  rw (e, f, g, h, put_verified) (put_claim-IsNode n t k env m.evidence claim i)
              | inr h ↦ rw (e, f, g, h, put_verified) plainly
            ]
          ]
        ]
  ]

  put_decoded-IsNode :
      (n : Node) (t : Circumstances) (m : PutArgs) → IsNode o n → IsNode o (put_decoded o n t m).0
  unfolding put_decoded
  put_decoded-IsNode n t m i = elim (Option-cases (decode_envelope o m.envelope)) [
    | inl e ↦ rw (e, put_decoded) i
    | inr (env, e) ↦ elim (Bool-cases (verify_signature o.setting.platform env)) [
      | inl f ↦ rw (e, f, put_decoded) (put_verified-IsNode n t m env i)
      | inr f ↦ rw (e, f, put_decoded) (unfold violate in (same_node o n _ refl refl i))
    ]
  ]

  put_admitted-IsNode :
      (n : Node) (t : Circumstances) (m : PutArgs) → IsNode o n → IsNode o (put_admitted o n t m).0
  unfolding put_admitted
  put_admitted-IsNode n t m i =
      let accepted = verify_token o.hmac o.itoa n.tokens t.now t.source m.token (ℤ.pos 1) in
      let rest : IsNode o
          (if not accepted then (n, refused 302 Refusal.invalid_token) else put_decoded o n t m).0 =
        either o (not accepted) (n, refused 302 Refusal.invalid_token) (put_decoded o n t m) i
          (put_decoded-IsNode n t m i) in
      either o n.passive (n, refused 301 Refusal.passive_node) _ i
        (either o (not t.allowed) (n, refused 301 Refusal.throttled) _ i rest)

  pub h_put-IsNode :
      (n : Node) (t : Circumstances) (m : PutArgs) → IsNode o n → IsNode o (h_put o n t m).0
  unfolding h_put
  h_put-IsNode n t m i =
      let n' = record n { black = (flagged n.black m.sender t.instant).0 } in
      let looked_up : IsNode o n' = same_node o n n' refl refl i in
      elim (Bool-cases (flagged n.black m.sender t.instant).1) [
        | inl e ↦ rw e looked_up
        | inr e ↦ rw e (put_admitted-IsNode n' t m looked_up)
      ]
