-- ===== src/Node/Cooldown/Effect.antt =====
-- What hWitness does to the table of the claims signed last (internal/dht/transport.go).
use freens.Naming.Reserved.{is_reserved_tld}
use freens.Prelude.{
  ℕ, ◌+◌, ◌++◌, ◌≡◌, ◌⊎◌, refl, sym, ap, ◌∙◌, Bool, true, false, ◌&&◌, ◌||◌, not, ltb, ◌==◌, length,
  Bytes, bytes_eq, bytes_eq→eq, Option, none, some, ok, Option-cases, Result-cases, Bool-cases, inl,
  inr, if_elim,
}
use freens.Naming.Labels.{validate_alias}
use freens.Claims.Attestation.{new_witness_attestation}
use freens.Claims.Tombstone.{
  claim_prefix_hash, claim_reuse_refusal, live_claim_conflict, re_attest_refusal,
}
use freens.Store.Entries.{lookup}
use freens.Blacklist.{Class, flagged}
use freens.Node.{Node, Outside, Circumstances, Reply, Refusal, refused, attested, violate}
use freens.Node.Witness.{
  WitnessArgs, cooling, signed_now, is_old, co_sign, witness_proved, witness_named, witness_timed,
  witness_admitted, h_witness,
}

abbrev pub is_attested : Reply → Bool
is_attested (attested raw difficulty) = true
is_attested _ = false

module _ (o : Outside) where
  -- The query is signed for, or fails to be after it has been noted.
  pub record Signs (n : Node) (t : Circumstances) (m : WitnessArgs) (r : Node × Reply)
      : Type 0 where
    pub alias : Bytes
    pub ts : ℕ
    pub named : validate_alias o.setting.unicode o.setting.idna m.alias ≡ ok alias
    pub bound : claim_prefix_hash o.setting alias m.tld m.claimant ts ≡ some m.prefix_hash
    pub calm : cooling (lookup alias n.witness_last) m t.now ≡ false
    pub noted : r.0.witness_last ≡ signed_now n.witness_last alias m t.now

  abbrev pub Effect : Node → Circumstances → WitnessArgs → Node × Reply → Type 0
  Effect n t m r = ((r.0.witness_last ≡ n.witness_last) × (is_attested r.1 ≡ false)) ⊎ Signs n t m r

  module _ (n : Node) (t : Circumstances) (m : WitnessArgs) where
    idle :
        (n' : Node) (c : ℕ) (why : Refusal)
        → n'.witness_last ≡ n.witness_last
        → Effect n t m (n', refused c why)
    idle n' c why e = inl (e, refl)

    module _ (alias : Bytes) (ts : ℕ)
        (named : validate_alias o.setting.unicode o.setting.idna m.alias ≡ ok alias)
        (bound : claim_prefix_hash o.setting alias m.tld m.claimant ts ≡ some m.prefix_hash) where
      co_sign-Effect :
          (want : Bytes) (reattest : Bool) → Effect n t m (co_sign o n t m alias want reattest)
      unfolding co_sign
      co_sign-Effect want reattest =
          elim (Bool-cases (cooling (lookup alias n.witness_last) m t.now)) [
            | inl e ↦ rw (e, co_sign) (idle n _ _ refl)
            | inr e ↦
                elim (Result-cases
                  (new_witness_attestation o.setting.platform (some n.kp) t.now want)) [
                    | inr (why, f) ↦
                        rw (e, f, co_sign)
                          (inr (record {
                            alias = alias;
                            ts = ts;
                            named = named;
                            bound = bound;
                            calm = e;
                            noted = refl;
                          }))
                    | inl (att, f) ↦ elim (Option-cases (o.marshal_attestation att)) [
                      | inl g ↦
                          rw (e, f, g, co_sign)
                            (inr (record {
                              alias = alias;
                              ts = ts;
                              named = named;
                              bound = bound;
                              calm = e;
                              noted = refl;
                            }))
                      | inr (raw, g) ↦
                          rw (e, f, g, co_sign)
                            (inr (record {
                              alias = alias;
                              ts = ts;
                              named = named;
                              bound = bound;
                              calm = e;
                              noted = refl;
                            }))
                    ]
                  ]
          ]

      witness_proved-Effect : (want : Bytes) → Effect n t m (witness_proved o n t m alias want ts)
      unfolding witness_proved
      witness_proved-Effect want =
          let old : Effect n t m
              (elim (re_attest_refusal o.setting o.unmarshal_claim n.claims alias m.prefix_hash
                  t.now)
                as (λ r. Node × Reply) [
                  | some why ↦ (n, refused 305 Refusal.re_attest_refused)
                  | none ↦ co_sign o n t m alias want true
                ]) =
            elim (Option-cases
              (re_attest_refusal o.setting o.unmarshal_claim n.claims alias m.prefix_hash t.now)) [
                | inl e ↦ rw e (co_sign-Effect want true)
                | inr (why, e) ↦ rw e (idle n _ _ refl)
              ] in
          if_elim (Effect n t m) (ltb (t.now + 60) ts) (n, refused 305 Refusal.future_ts) _
            (idle n _ _ refl)
            (if_elim (Effect n t m)
              (ltb 0 (
                claim_reuse_refusal o.setting o.unmarshal_claim n.claims alias m.prefix_hash t.now))
              (n, refused 301 Refusal.reuse_window) _ (idle n _ _ refl)
              (if_elim (Effect n t m)
                (live_claim_conflict o.setting o.unmarshal_claim n.claims alias m.prefix_hash t.now)
                (n, refused 305 Refusal.already_claimed) _ (idle n _ _ refl)
                (if_elim (Effect n t m) (is_old ts t.now) _ (co_sign o n t m alias want false)
                  (if_elim (Effect n t m) (not m.reattest) (n, refused 305 Refusal.too_old) _
                    (idle n _ _ refl) old)
                  (co_sign-Effect want false))))

    witness_named-Effect :
        (alias : Bytes) (ts : ℕ)
        → validate_alias o.setting.unicode o.setting.idna m.alias ≡ ok alias
        → Effect n t m (witness_named o n t m alias ts)
    unfolding witness_named
    witness_named-Effect alias ts named =
        let bad : Effect n t m (
          violate o n t m.sender Class.bad_pow (m.prefix_hash ++ m.nonce),
          refused 305 Refusal.invalid_pow,
        ) =
          unfold violate in idle _ _ _ refl in
        let short = not (length m.tld == 32) || not (length m.claimant == 32) in
        elim (Option-cases (claim_prefix_hash o.setting alias m.tld m.claimant ts)) [
          | inl e ↦
              rw (e, witness_named)
                (if_elim (Effect n t m) short (n, _) (n, _) (idle n _ _ refl) (idle n _ _ refl))
          | inr (want, e) ↦ elim (Bool-cases (bytes_eq m.prefix_hash want)) [
            | inr f ↦
                let other =
                  if_elim (Effect n t m) short (n, refused 305 Refusal.bad_lengths)
                    (n, refused 305 Refusal.bad_prefix_hash) (idle n _ _ refl) (idle n _ _ refl) in
                elim (Bool-cases (length m.prefix_hash == 32)) [
                  | inl g ↦ rw (e, f, g, witness_named) other
                  | inr g ↦ rw (e, f, g, witness_named) other
                ]
            | inl f ↦
                let bound = e ∙ ap some (sym (bytes_eq→eq m.prefix_hash want f)) in
                rw (e, witness_named)
                  (if_elim (Effect n t m) short (n, _) _ (idle n _ _ refl)
                    (if_elim (Effect n t m)
                      (not (length m.prefix_hash == 32) || not (bytes_eq m.prefix_hash want)) (n, _)
                      _ (idle n _ _ refl)
                      (if_elim (Effect n t m) _ (witness_proved o n t m alias want ts) _
                        (witness_proved-Effect alias ts named bound want) bad)))
          ]
        ]

    witness_timed-Effect : (ts : Option ℕ) → Effect n t m (witness_timed o n t m ts)
    unfolding witness_timed
    witness_timed-Effect none = idle n _ _ refl
    witness_timed-Effect (some ts) =
        elim (Result-cases (validate_alias o.setting.unicode o.setting.idna m.alias)) [
          | inr (why, f) ↦ rw (f, witness_timed) (idle n _ _ refl)
          | inl (alias, f) ↦
              let reserved : Effect n t m (
                violate o n t m.sender Class.reserved_claim alias,
                refused 305 Refusal.reserved_alias,
              ) =
                unfold violate in idle _ _ _ refl in
              rw (f, witness_timed)
                (if_elim (Effect n t m) (length m.nonce == 0 || not (length m.pow == 32))
                  (n, refused 305 Refusal.bad_witness_args) _ (idle n _ _ refl)
                  (if_elim (Effect n t m)
                    (is_reserved_tld o.reserved_tlds alias && not n.allow_reserved) _
                    (witness_named o n t m alias ts) reserved (witness_named-Effect alias ts f)))
        ]

    witness_admitted-Effect : Effect n t m (witness_admitted o n t m)
    unfolding witness_admitted
    witness_admitted-Effect =
        if_elim (Effect n t m) (not t.allowed) (n, refused 301 Refusal.throttled)
          (witness_timed o n t m m.ts) (idle n _ _ refl) (witness_timed-Effect m.ts)

  -- A query for a signature leaves the table as it was and is refused, or it passes the cooldown and is
  -- noted in the table.
  pub h_witness-Effect :
      (n : Node) (t : Circumstances) (m : WitnessArgs) → Effect n t m (h_witness o n t m)
  unfolding h_witness
  h_witness-Effect n t m =
      let n' = record n { black = (flagged n.black m.sender t.instant).0 } in
      if_elim (Effect n t m) (flagged n.black m.sender t.instant).1
        (n', refused 403 Refusal.blacklisted) (witness_admitted o n' t m) (inl (refl, refl))
        (elim (witness_admitted-Effect n' t m) [
          | inl e ↦ inl e
          | inr g ↦ inr (record {
            alias = g.alias;
            ts = g.ts;
            named = g.named;
            bound = g.bound;
            calm = g.calm;
            noted = g.noted;
          })
        ])
