-- ===== src/Store/Takeover.antt =====
-- Who may take the slot of a live record from its owner: PutWithEvidence of internal/dht/store.go.
use freens.Prelude.{
  ℕ, ◌<◌, ◌^◌, ◌≡◌, refl, sym, ap, ◌∙◌, ◌⊎◌, inl, inr, Bool, true, false, ◌&&◌, not, ◌==◌, [], ◌∷◌,
  length, Bytes, bytes_eq, bytes_eq→eq, Option, none, some, Option-cases, Bool-cases, arith,
  Result-cases, ok,
}
use mathlib.Core.Path.{subst}
use freens.Naming.Text.{Unicode}
use freens.Naming.Labels.{Normalizer}
use freens.Wire.Record.{
  Envelope, Platform, RecoveryPolicy, bytes_of, record_hash, verify_signature, hash_len,
}
use freens.Wire.Winner.{envelope_wins, verify_chain_link}
use freens.Wire.Recovery.{RecoveryEvidence, decode_recovery_evidence, verify_recovery}
use freens.Wire.Recovery.Effective.{Effective, verify_recovery-Effective}
use freens.Store.Entries.{Entry, EnvelopeStore, lookup, to_key, alive}
use freens.Store.Evidence.{evidence_for, recovery_acceptable}
use freens.Store.Envelopes.{
  parent_key, parent_authorizes, same_stored_record, may_displace, put_live, put_with_evidence,
}

empty : (b : Bytes) → (length b == 0) ≡ true → b ≡ []
empty [] q = refl
empty (x ∷ b) q = ground arith

module _ (p : Platform) (u : Unicode) (idna : Normalizer)
    (unmarshal : Bytes → Option RecoveryEvidence) (s : EnvelopeStore) (env cur : Envelope) where
  -- A recovery: the newcomer links to the incumbent, and a quorum of the incumbent's policy named
  -- the newcomer's key.
  pub record Recovered (given : Bytes) : Type 0 where
    pub hash : Bytes
    pub hashed : record_hash p cur ≡ some hash
    pub linked : bytes_of env.body.prev_hash ≡ hash
    pub later : cur.body.sequence < env.body.sequence
    pub own : env.signer ≡ env.body.owner
    pub policy : RecoveryPolicy
    pub has_policy : cur.body.recovery ≡ some policy
    pub ev : RecoveryEvidence
    pub declared : decode_recovery_evidence unmarshal (evidence_for unmarshal p s env given) ≡ ok ev
    pub named : ev.new_owner_pk ≡ env.signer
    pub effective : Effective p policy ev hash cur.body.created ev.not_before

  -- The live record of the parent name gives the name to the newcomer's key.
  pub record Reassigned (now : ℕ) : Type 0 where
    pub unlinked : bytes_of env.body.prev_hash ≡ []
    pub key : Bytes
    pub parent_slot : parent_key p u idna cur.body.name ≡ ok key
    pub parent : Entry
    pub stored : lookup (to_key key) s.entries ≡ some parent
    pub live : alive parent now ≡ true
    pub gives :
        (parent.env.body.owner ≡ env.signer) ⊎ (parent.env.body.delegation ≡ some env.signer)

  acceptable-facts :
      (given : Bytes)
      → recovery_acceptable unmarshal p s env cur given ≡ true
      → (ev : RecoveryEvidence) × (hash : Bytes) × (decode_recovery_evidence unmarshal
            (evidence_for unmarshal p s env given)
          ≡ ok ev)
        × (env.signer ≡ env.body.owner)
        × (ev.new_owner_pk ≡ env.signer)
        × (record_hash p cur ≡ some hash)
        × (verify_recovery p cur.body.recovery (some ev) hash cur.body.created ev.not_before ≡ true)
  unfolding recovery_acceptable
  acceptable-facts given h =
      elim (Result-cases
        (decode_recovery_evidence unmarshal (evidence_for unmarshal p s env given))) [
          | inr (e, q) ↦ ground arith
          | inl (ev, q) ↦ elim (Option-cases (record_hash p cur)) [
            | inl r ↦ ground arith
            | inr (hash, r) ↦
                let own : bytes_eq env.signer env.body.owner ≡ true = ground arith in
                let named : bytes_eq ev.new_owner_pk env.signer ≡ true = ground arith in
                (ev, hash, q, bytes_eq→eq _ _ own, bytes_eq→eq _ _ named, r, ground arith)
          ]
        ]

  link-facts :
      (hash : Bytes)
      → record_hash p cur ≡ some hash
      → (length (bytes_of env.body.prev_hash) == 0) ≡ false
      → verify_chain_link p (some env) (some cur) ≡ true
      → (bytes_of env.body.prev_hash ≡ hash) × (cur.body.sequence < env.body.sequence)
  unfolding verify_chain_link
  link-facts hash r q h =
      let same : bytes_eq (bytes_of env.body.prev_hash) hash ≡ true = ground arith in
      (bytes_eq→eq _ _ same, ground arith)

  parent_authorizes-Reassigned :
      (now : ℕ)
      → bytes_of env.body.prev_hash ≡ []
      → parent_authorizes p u idna s env cur now ≡ true
      → Reassigned now
  unfolding parent_authorizes
  parent_authorizes-Reassigned now empty h =
      elim (Result-cases (parent_key p u idna cur.body.name)) [
        | inr (e, q) ↦ ground arith
        | inl (key, q) ↦ elim (Option-cases (lookup (to_key key) s.entries)) [
          | inl r ↦ ground arith
          | inr (parent, r) ↦
              let live : alive parent now ≡ true = ground arith in
              let gives : (parent.env.body.owner ≡ env.signer)
                  ⊎ (parent.env.body.delegation ≡ some env.signer) =
                elim (Bool-cases (bytes_eq parent.env.body.owner env.signer)) [
                  | inl o ↦ inl (bytes_eq→eq _ _ o)
                  | inr o ↦ elim (Option-cases parent.env.body.delegation) [
                    | inl f ↦ ground arith
                    | inr (d, f) ↦
                        let same : bytes_eq d env.signer ≡ true = ground arith in
                        inr (f ∙ ap some (bytes_eq→eq _ _ same))
                  ]
                ] in
              record {
                unlinked = empty;
                key = key;
                parent_slot = q;
                parent = parent;
                stored = r;
                live = live;
                gives = gives;
              }
        ]
      ]

  acceptable-Recovered :
      (given : Bytes)
      → cur.body.created < 2 ^ 64
      → (length (bytes_of env.body.prev_hash) == 0) ≡ false
      → verify_chain_link p (some env) (some cur) ≡ true
      → recovery_acceptable unmarshal p s env cur given ≡ true
      → Recovered given
  acceptable-Recovered given u64 q l h =
      let (ev, hash, declared, own, named, hashed, checked) = acceptable-facts given h in
      let (linked, later) = link-facts hash hashed q l in
      elim (Option-cases cur.body.recovery) [
        | inl f ↦
            let refused : verify_recovery p none (some ev) hash cur.body.created ev.not_before
                ≡ true =
              subst (λ x. verify_recovery p x (some ev) hash cur.body.created ev.not_before ≡ true)
                f checked in
            unfold verify_recovery in cc refused
        | inr (policy, f) ↦
            let accepted : verify_recovery p (some policy) (some ev) hash cur.body.created
                  ev.not_before
                ≡ true =
              subst (λ x. verify_recovery p x (some ev) hash cur.body.created ev.not_before ≡ true)
                f checked in
            record {
              hash = hash;
              hashed = hashed;
              linked = linked;
              later = later;
              own = own;
              policy = policy;
              has_policy = f;
              ev = ev;
              declared = declared;
              named = named;
              effective =
                  (verify_recovery-Effective p policy ev hash cur.body.created ev.not_before u64).0
                    accepted;
            }
      ]

  may_displace-cases :
      (now : ℕ) (given : Bytes)
      → cur.body.created < 2 ^ 64
      → ¬ (env.signer ≡ cur.body.owner)
      → may_displace p u idna unmarshal s env cur now given ≡ true
      → (envelope_wins p (some env) (some cur) ≡ true) × (Recovered given ⊎ Reassigned now)
  unfolding may_displace
  may_displace-cases now given u64 other h =
      let stranger : bytes_eq env.signer cur.body.owner ≡ false =
        elim (Bool-cases (bytes_eq env.signer cur.body.owner)) [
          | inl e ↦ absurd (other (bytes_eq→eq _ _ e))
          | inr e ↦ e
        ] in
      let wins : envelope_wins p (some env) (some cur) ≡ true = ground arith in
      elim (Bool-cases (length (bytes_of env.body.prev_hash) == 0)) [
        | inr q ↦ (wins, inl (acceptable-Recovered given u64 q (ground arith) (ground arith)))
        | inl q ↦ (wins, inr (parent_authorizes-Reassigned now (empty _ q) (ground arith)))
      ]

  accepted-facts :
      (s' : EnvelopeStore) (key : Bytes) (now : ℕ) (check : Bool) (given : Bytes) (e : Entry)
      → put_with_evidence p u idna unmarshal s key (some env) now check given ≡ ok (s', true)
      → lookup (to_key key) s.entries ≡ some e
      → alive e now ≡ true
      → same_stored_record p env e.env ≡ false
      → ((check ≡ true) → verify_signature p env ≡ true)
        × (may_displace p u idna unmarshal s env e.env now given ≡ true)
  unfolding put_with_evidence put_live
  accepted-facts s' key now check given e h stored live fresh =
      elim (Bool-cases (length key == hash_len)) [
        | inr q ↦ ground arith
        | inl q ↦ elim (Bool-cases (check && not (verify_signature p env))) [
          | inl bad ↦ ground arith
          | inr good ↦ elim (Bool-cases (may_displace p u idna unmarshal s env e.env now given)) [
            | inr no_right ↦ ground arith
            | inl right ↦ ((λ c. ground arith), right)
          ]
        ]
      ]

  -- In a well-formed call of PutWithEvidence that is accepted, where the slot holds a live record
  -- that is not the one put, whose creation time is a uint64, and whose owner did not sign the
  -- newcomer: the newcomer's signature verifies if that is asked for, it beats the record by the
  -- winner rule, and it either is a recovery by a quorum of the policy of the record, or carries no
  -- prev_hash and is signed by a key to which the live record of the parent name gives the name.
  pub put-takeover :
      (s' : EnvelopeStore) (key : Bytes) (now : ℕ) (check : Bool) (given : Bytes) (e : Entry)
      → put_with_evidence p u idna unmarshal s key (some env) now check given ≡ ok (s', true)
      → lookup (to_key key) s.entries ≡ some e
      → e.env ≡ cur
      → alive e now ≡ true
      → same_stored_record p env cur ≡ false
      → ¬ (env.signer ≡ cur.body.owner)
      → cur.body.created < 2 ^ 64
      → ((check ≡ true) → verify_signature p env ≡ true)
        × ((envelope_wins p (some env) (some cur) ≡ true) × (Recovered given ⊎ Reassigned now))
  put-takeover s' key now check given e h stored same live fresh other u64 =
      let fresh' : same_stored_record p env e.env ≡ false =
        subst (λ x. same_stored_record p env x ≡ false) (sym same) fresh in
      let (signed, displaced) = accepted-facts s' key now check given e h stored live fresh' in
      (
        signed,
        may_displace-cases now given u64 other
            (subst (λ x. may_displace p u idna unmarshal s env x now given ≡ true) same displaced),
      )
