-- ===== src/Node/Witness.antt =====
-- internal/dht/transport.go: hWitness. An argument that is absent or of another type is the empty
-- slice or false; `ts` is what asUint64 makes of its argument. A state that is set under witnessMu
-- stays set where the signing fails.
use freens.Prelude.{
  ℕ, ◌+◌, ◌-◌, Bool, true, false, ◌&&◌, ◌||◌, not, ltb, leb, ◌==◌, List, [], ◌∷◌, ◌++◌, length,
  Bytes, bytes_eq, Option, none, some, ok, err, if◌then◌else◌, ℤ,
}
use freens.Naming.Labels.{validate_alias}
use freens.Naming.Reserved.{is_reserved_tld}
use freens.Wire.Record.{hash_len, key_len}
use freens.Claims.Attestation.{new_witness_attestation}
use freens.Claims.Claim.{verify_pow}
use freens.Claims.Quorum.{skew_tolerance, witness_present_window}
use freens.Claims.Pool.{store_re_attests}
use freens.Claims.Tombstone.{
  claim_prefix_hash, claim_reuse_refusal, live_claim_conflict, re_attest_refusal, k_claim_for,
}
use freens.Store.Entries.{lookup, insert}
use freens.Difficulty.{DifficultyState, record_accepted}
use freens.Blacklist.{Class, flagged}
use freens.Node.{
  Node, WitnessSigned, Outside, Circumstances, Refusal, Reply, refused, attested, violate,
}

pub record WitnessArgs : Type 0 where
  pub sender : Bytes
  pub alias : Bytes
  pub tld : Bytes
  pub claimant : Bytes
  pub prefix_hash : Bytes
  pub nonce : Bytes
  pub pow : Bytes
  pub ts : Option ℕ
  pub reattest : Bool

abbrev pub witness_cooldown : ℕ
witness_cooldown = 3600

abbrev pub witness_last_prune_at : ℕ
witness_last_prune_at = 1024

-- Another claim, of another claimant, was signed within the cooldown.
unfoldable pub cooling : Option WitnessSigned → WitnessArgs → ℕ → Bool
cooling none m now = false
cooling (some last) m now =
    ltb now (last.at + witness_cooldown)
    && not (bytes_eq last.prefix_hash m.prefix_hash)
    && not (bytes_eq last.claimant m.claimant)

-- The sweep of the entries older than the cooldown.
unfoldable pub still_cooling : ℕ → List (Bytes × WitnessSigned) → List (Bytes × WitnessSigned)
still_cooling now [] = []
still_cooling now ((alias, w) ∷ m) =
    if leb (w.at + witness_cooldown) now
    then still_cooling now m
    else (alias, w) ∷ still_cooling now m

unfoldable pub signed_now :
    List (Bytes × WitnessSigned) → Bytes → WitnessArgs → ℕ → List (Bytes × WitnessSigned)
unfolding still_cooling
signed_now last alias m now =
    let set =
      insert alias (record { prefix_hash = m.prefix_hash; claimant = m.claimant; at = now }) last in
    if leb witness_last_prune_at (length set) then still_cooling now set else set

-- The claim is older than the window in which it may be presented.
unfoldable pub is_old : ℕ → ℕ → Bool
is_old ts now = leb ts now && ltb witness_present_window (now - ts)

module _ (o : Outside) where
  -- From the cooldown on, for a validated alias; `reattest` where the claim is an old one.
  unfoldable pub co_sign : Node → Circumstances → WitnessArgs → Bytes → Bytes → Bool → Node × Reply
  unfolding signed_now
  co_sign n t m alias want reattest =
      let n' = record n { witness_last = signed_now n.witness_last alias m t.now } in
      if cooling (lookup alias n.witness_last) m t.now
      then (n, refused 301 Refusal.cooldown)
      else (elim (new_witness_attestation o.setting.platform (some n.kp) t.now want) [
        | err e ↦ (n', refused 305 Refusal.attestation_failed)
        | ok att ↦ elim (o.marshal_attestation att) [
          | none ↦ (n', refused 301 Refusal.encode_failed)
          | some raw ↦
              let diff : DifficultyState = elim (lookup alias n.witness_last) [
                | none ↦ record_accepted n.diff t.now
                | some last ↦ n.diff
              ] in
              (
                record n' {
                  claims =
                      if reattest
                      then store_re_attests n.claims (k_claim_for o.setting alias) m.prefix_hash
                          (att ∷ [])
                      else n.claims;
                  diff = diff;
                },
                attested raw diff.current,
              )
        ]
      ])

  -- From the test of the claim's time on, for a claim whose proof of work has been verified.
  unfoldable pub witness_proved :
      Node → Circumstances → WitnessArgs → Bytes → Bytes → ℕ → Node × Reply
  witness_proved n t m alias want ts =
      if ltb (t.now + skew_tolerance) ts
      then (n, refused 305 Refusal.future_ts)
      else (if ltb 0
            (claim_reuse_refusal o.setting o.unmarshal_claim n.claims alias m.prefix_hash t.now)
          then (n, refused 301 Refusal.reuse_window)
          else (if live_claim_conflict o.setting o.unmarshal_claim n.claims alias m.prefix_hash
                t.now
              then (n, refused 305 Refusal.already_claimed)
              else (if is_old ts t.now
                  then (if not m.reattest
                      then (n, refused 305 Refusal.too_old)
                      else (elim (re_attest_refusal o.setting o.unmarshal_claim n.claims alias
                          m.prefix_hash t.now) [
                            | some why ↦ (n, refused 305 Refusal.re_attest_refused)
                            | none ↦ co_sign n t m alias want true
                          ]))
                  else co_sign n t m alias want false)))

  -- From the lengths on, for a validated alias that is not reserved.
  unfoldable pub witness_named : Node → Circumstances → WitnessArgs → Bytes → ℕ → Node × Reply
  witness_named n t m alias ts =
      if not (length m.tld == hash_len) || not (length m.claimant == key_len)
      then (n, refused 305 Refusal.bad_lengths)
      else (elim (claim_prefix_hash o.setting alias m.tld m.claimant ts) [
        | none ↦ (n, refused 305 Refusal.bad_identity)
        | some want ↦
            if not (length m.prefix_hash == hash_len) || not (bytes_eq m.prefix_hash want)
            then (n, refused 305 Refusal.bad_prefix_hash)
            else (if verify_pow o.setting
                  (record {
                    alias = alias;
                    tld = m.tld;
                    timestamp = ts;
                    nonce = m.nonce;
                    claimant_pk = m.claimant;
                    pow = m.pow;
                    witnesses = [];
                  })
                  (ℤ.negsuc 0)
                then witness_proved n t m alias want ts
                else (
                  violate o n t m.sender Class.bad_pow (m.prefix_hash ++ m.nonce),
                  refused 305 Refusal.invalid_pow,
                ))
      ])

  -- The test of the arguments, for what asUint64 makes of the claim's time.
  unfoldable pub witness_timed : Node → Circumstances → WitnessArgs → Option ℕ → Node × Reply
  witness_timed n t m none = (n, refused 305 Refusal.bad_witness_args)
  witness_timed n t m (some ts) = elim (validate_alias o.setting.unicode o.setting.idna m.alias) [
    | err e ↦ (n, refused 305 Refusal.bad_witness_args)
    | ok alias ↦
        if length m.nonce == 0 || not (length m.pow == hash_len)
        then (n, refused 305 Refusal.bad_witness_args)
        else (if is_reserved_tld o.reserved_tlds alias && not n.allow_reserved
            then (
              violate o n t m.sender Class.reserved_claim alias,
              refused 305 Refusal.reserved_alias,
            )
            else witness_named n t m alias ts)
  ]

  -- From the throttle on.
  unfoldable pub witness_admitted : Node → Circumstances → WitnessArgs → Node × Reply
  witness_admitted n t m =
      if not t.allowed then (n, refused 301 Refusal.throttled) else witness_timed n t m m.ts

  unfoldable pub h_witness : Node → Circumstances → WitnessArgs → Node × Reply
  h_witness n t m =
      let n' = record n { black = (flagged n.black m.sender t.instant).0 } in
      if (flagged n.black m.sender t.instant).1
      then (n', refused 403 Refusal.blacklisted)
      else witness_admitted n' t m
