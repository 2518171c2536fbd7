-- ===== src/Node/Kept/Witness.antt =====
-- hWitness keeps the node's invariant (internal/dht/transport.go).
use freens.Naming.Reserved.{is_reserved_tld}
use freens.Prelude.{
  ℕ, ◌+◌, ◌++◌, if◌then◌else◌, if_elim, refl, Bool, true, false, ◌&&◌, ◌||◌, not, ltb, ◌==◌, [],
  ◌∷◌, length, Bytes, bytes_eq, Option, none, some, Option-cases, Result-cases, Bool-cases, inl,
  inr,
}
use freens.Naming.Labels.{validate_alias}
use freens.Claims.Pool.{ClaimPool}
use freens.Claims.Pool.Budget.{IsPool}
use freens.Claims.Pool.Runs.{store_re_attests-IsPool}
use freens.Claims.Attestation.{new_witness_attestation}
use freens.Claims.Tombstone.{
  claim_reuse_refusal, live_claim_conflict, re_attest_refusal, k_claim_for, claim_prefix_hash,
}
use freens.Store.Entries.{lookup}
use freens.Blacklist.{flagged}
use freens.Node.{Node, Outside, Circumstances, Reply, Refusal, refused, violate}
use freens.Node.Witness.{
  WitnessArgs, cooling, is_old, co_sign, witness_proved, witness_named, witness_timed,
  witness_admitted, h_witness,
}
use freens.Blacklist.{Class}
use freens.Node.Kept.{IsNode, same_node, either}

IsPool-either : (b : Bool) (p q : ClaimPool) → IsPool p → IsPool q → IsPool (if b then p else q)
IsPool-either = if_elim IsPool

module _ (o : Outside) where
  co_sign-IsNode :
      (n : Node) (t : Circumstances) (m : WitnessArgs) (alias want : Bytes) (reattest : Bool)
      → IsNode o n
      → IsNode o (co_sign o n t m alias want reattest).0
  unfolding co_sign
  co_sign-IsNode n t m alias want reattest i =
      elim (Bool-cases (cooling (lookup alias n.witness_last) m t.now)) [
        | inl e ↦ rw (e, co_sign) i
        | inr e ↦
            elim (Result-cases
              (new_witness_attestation o.setting.platform (some n.kp) t.now want)) [
                | inr (why, f) ↦ rw (e, f, co_sign) (same_node o n _ refl refl i)
                | inl (att, f) ↦ elim (Option-cases (o.marshal_attestation att)) [
                  | inl g ↦ rw (e, f, g, co_sign) (same_node o n _ refl refl i)
                  | inr (raw, g) ↦
                      rw (e, f, g, co_sign)
                        (record {
                          stored = i.stored;
                          pooled =
                              IsPool-either reattest _ _
                                (store_re_attests-IsPool n.claims (k_claim_for o.setting alias)
                                  m.prefix_hash (att ∷ []) i.pooled)
                                i.pooled;
                        })
                ]
              ]
      ]

  witness_proved-IsNode :
      (n : Node) (t : Circumstances) (m : WitnessArgs) (alias want : Bytes) (ts : ℕ)
      → IsNode o n
      → IsNode o (witness_proved o n t m alias want ts).0
  unfolding witness_proved
  witness_proved-IsNode n t m alias want ts i =
      let old : IsNode o
          (elim (re_attest_refusal o.setting o.unmarshal_claim n.claims alias m.prefix_hash t.now)
            as (λ r. Node × Reply) [
              | some why ↦ (n, refused 305 Refusal.re_attest_refused)
              | none ↦ co_sign o n t m alias want true
            ]).0 =
        elim (Option-cases
          (re_attest_refusal o.setting o.unmarshal_claim n.claims alias m.prefix_hash t.now)) [
            | inl e ↦ rw e (co_sign-IsNode n t m alias want true i)
            | inr (why, e) ↦ rw e i
          ] in
      either o (ltb (t.now + 60) ts) (n, refused 305 Refusal.future_ts) _ i
        (either o
          (ltb 0
            (claim_reuse_refusal o.setting o.unmarshal_claim n.claims alias m.prefix_hash t.now))
          (n, refused 301 Refusal.reuse_window) _ i
          (either o
            (live_claim_conflict o.setting o.unmarshal_claim n.claims alias m.prefix_hash t.now)
            (n, refused 305 Refusal.already_claimed) _ i
            (either o (is_old ts t.now) _ (co_sign o n t m alias want false)
              (either o (not m.reattest) (n, refused 305 Refusal.too_old) _ i old)
              (co_sign-IsNode n t m alias want false i))))

  witness_named-IsNode :
      (n : Node) (t : Circumstances) (m : WitnessArgs) (alias : Bytes) (ts : ℕ)
      → IsNode o n
      → IsNode o (witness_named o n t m alias ts).0
  unfolding witness_named
  witness_named-IsNode n t m alias ts i =
      let broken : IsNode o (violate o n t m.sender Class.bad_pow (m.prefix_hash ++ m.nonce)) =
        unfold violate in (same_node o n _ refl refl i) in
      elim (Option-cases (claim_prefix_hash o.setting alias m.tld m.claimant ts)) [
        | inl e ↦ rw (e, witness_named) (either o _ (n, _) (n, _) i i)
        | inr (want, e) ↦
            rw (e, witness_named)
              (either o (not (length m.tld == 32) || not (length m.claimant == 32))
                (n, refused 305 Refusal.bad_lengths) _ i
                (either o (not (length m.prefix_hash == 32) || not (bytes_eq m.prefix_hash want))
                  (n, refused 305 Refusal.bad_prefix_hash) _ i
                  (either o _ (witness_proved o n t m alias want ts)
                    (_, refused 305 Refusal.invalid_pow)
                    (witness_proved-IsNode n t m alias want ts i) broken)))
      ]

  witness_timed-IsNode :
      (n : Node) (t : Circumstances) (m : WitnessArgs) (ts : Option ℕ)
      → IsNode o n
      → IsNode o (witness_timed o n t m ts).0
  unfolding witness_timed
  witness_timed-IsNode n t m none i = i
  witness_timed-IsNode n t m (some ts) i =
      elim (Result-cases (validate_alias o.setting.unicode o.setting.idna m.alias)) [
        | inr (why, f) ↦ rw (f, witness_timed) i
        | inl (alias, f) ↦
            let reserved : IsNode o (violate o n t m.sender Class.reserved_claim alias) =
              unfold violate in (same_node o n _ refl refl i) in
            rw (f, witness_timed)
              (either o (length m.nonce == 0 || not (length m.pow == 32))
                (n, refused 305 Refusal.bad_witness_args) _ i
                (either o (is_reserved_tld o.reserved_tlds alias && not n.allow_reserved)
                  (_, refused 305 Refusal.reserved_alias) (witness_named o n t m alias ts) reserved
                  (witness_named-IsNode n t m alias ts i)))
      ]

  witness_admitted-IsNode :
      (n : Node) (t : Circumstances) (m : WitnessArgs)
      → IsNode o n
      → IsNode o (witness_admitted o n t m).0
  unfolding witness_admitted
  witness_admitted-IsNode n t m i =
      either o (not t.allowed) (n, refused 301 Refusal.throttled) (witness_timed o n t m m.ts) i
        (witness_timed-IsNode n t m m.ts i)

  pub h_witness-IsNode :
      (n : Node) (t : Circumstances) (m : WitnessArgs) → IsNode o n → IsNode o (h_witness o n t m).0
  unfolding h_witness
  h_witness-IsNode n t m i =
      let n' = record n { black = (flagged n.black m.sender t.instant).0 } in
      let looked_up : IsNode o n' = same_node o n n' refl refl i in
      elim (Bool-cases (flagged n.black m.sender t.instant).1) [
        | inl e ↦ rw e looked_up
        | inr e ↦ rw e (witness_admitted-IsNode n' t m looked_up)
      ]
