-- ===== src/Store/Landing/Put.antt =====
-- Where PutWithEvidence and Get change the live table (internal/dht/store.go).
use freens.Prelude.{
  ℕ, ◌≡◌, refl, false, ◌==◌, length, Bytes, Option, some, Option-cases, Bool-cases, inl, inr,
}
use mathlib.Core.Path.{subst}
use freens.Naming.Text.{Unicode}
use freens.Naming.Labels.{Normalizer}
use freens.Wire.Record.{Envelope, Platform, hash_len}
use freens.Wire.Recovery.{RecoveryEvidence}
use freens.Store.Entries.{Entry, EnvelopeStore, lookup, insert, to_key, alive, retain_history}
use freens.Store.Envelopes.{
  evict_expired, enforce_cap, get, same_stored_record, may_displace, install, put_live,
  put_with_evidence,
}
use freens.Store.Budget.{retain_history_keeps}
use freens.Store.Landing.{
  ChangesAt, ChangesAt-refl, ChangesAt-trans, ChangesAt-insert, LandsAt, Landed, drop_entry-LandsAt,
  sweeps-LandsAt,
}

module _ (p : Platform) where
  pub get-Landed :
      (s : EnvelopeStore) (key : Bytes) (now : ℕ) → Landed p (to_key key) s (get p s key now)
  unfolding get
  get-Landed s key now = elim (Bool-cases (length key == hash_len)) [
    | inr q ↦ rw q tt
    | inl q ↦ elim (Option-cases (lookup (to_key key) s.entries)) [
      | inl f ↦ rw (q, f, get) (ChangesAt-refl (to_key key) s.entries)
      | inr (e, f) ↦ elim (Bool-cases (alive e now)) [
        | inl live ↦
            rw (q, f, live, get)
              (ChangesAt-insert (to_key key) (record e { last_access = now }) s.entries)
        | inr dead ↦ rw (q, f, dead, get) (drop_entry-LandsAt p (to_key key) (to_key key) e s)
      ]
    ]
  ]

  -- The sweeps after an entry has been put in a table.
  swept-LandsAt :
      (s s0 : EnvelopeStore) (k : Bytes) (e : Entry) (now bytes : ℕ)
      → s0.entries ≡ s.entries
      → LandsAt p k s (
          enforce_cap p now k
            (evict_expired p now (record s0 { entries = insert k e s0.entries; bytes = bytes })))
  swept-LandsAt s s0 k e now bytes same =
      let s1 : EnvelopeStore = record s0 { entries = insert k e s0.entries; bytes = bytes } in
      ChangesAt-trans k s.entries s1.entries _
        (subst (λ m. ChangesAt k m s1.entries) same (ChangesAt-insert k e s0.entries))
        (sweeps-LandsAt p k now s1)

  module _ (u : Unicode) (idna : Normalizer) (unmarshal : Bytes → Option RecoveryEvidence) where
    install-Landed :
        (s : EnvelopeStore) (k : Bytes) (env : Envelope) (now : ℕ)
        → Landed p k s (install p u idna unmarshal s k env now)
    unfolding install
    install-Landed s k env now = elim (Option-cases (p.marshal_envelope env)) [
      | inl q ↦ rw (q, install) tt
      | inr (b, q) ↦ elim (Option-cases (lookup k s.entries)) [
        | inl f ↦ rw (q, f, install) (swept-LandsAt s s k _ now _ refl)
        | inr (cur, f) ↦
            rw (q, f, install)
              (swept-LandsAt s (retain_history p cur s) k _ now _ (retain_history_keeps p cur s).0)
      ]
    ]

    put_live-Landed :
        (s : EnvelopeStore) (k : Bytes) (env : Envelope) (now : ℕ) (evidence : Bytes) (cur : Entry)
        → Landed p k s (put_live p u idna unmarshal s k env now evidence cur)
    unfolding put_live
    put_live-Landed s k env now evidence cur =
        elim (Bool-cases (same_stored_record p env cur.env)) [
          | inl q ↦
              rw (q, put_live) (ChangesAt-insert k (record cur { last_access = now }) s.entries)
          | inr q ↦ elim (Bool-cases (may_displace p u idna unmarshal s env cur.env now evidence)) [
            | inl f ↦ rw (q, f, put_live) (install-Landed s k env now)
            | inr f ↦ rw (q, f, put_live) (ChangesAt-refl k s.entries)
          ]
        ]

    -- Without the check of the signature, which the handler has made.
    pub put-Landed :
        (s : EnvelopeStore) (key : Bytes) (env : Envelope) (now : ℕ) (evidence : Bytes)
        → Landed p
            (to_key key)
            s
            (put_with_evidence p u idna unmarshal s key (some env) now false evidence)
    unfolding put_with_evidence
    put-Landed s key env now evidence = elim (Bool-cases (length key == hash_len)) [
      | inr q ↦ rw q tt
      | inl q ↦ elim (Option-cases (lookup (to_key key) s.entries)) [
        | inl f ↦ rw (q, f, put_with_evidence) (install-Landed s (to_key key) env now)
        | inr (cur, f) ↦ elim (Bool-cases (alive cur now)) [
          | inl live ↦
              rw (q, f, live, put_with_evidence)
                (put_live-Landed s (to_key key) env now evidence cur)
          | inr dead ↦ rw (q, f, dead, put_with_evidence) (install-Landed s (to_key key) env now)
        ]
      ]
    ]
