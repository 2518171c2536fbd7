-- ===== src/Store/Operations.antt =====
-- What each operation of the store keeps (internal/dht/store.go).
use freens.Prelude.{
  true, sym, ℕ, ◌+◌, ◌-◌, ◌≡◌, refl, ap, Bool, false, ◌&&◌, not, ◌==◌, length, Bytes, bytes_eq,
  Option, none, some, Option-cases, Bool-cases, inl, inr, arith, Result, ok, err,
}
use mathlib.Core.Path.{subst}
use freens.Naming.Text.{Unicode}
use freens.Naming.Labels.{Normalizer}
use freens.Wire.Record.{Envelope, Platform, verify_signature, hash_len}
use freens.Wire.Recovery.{RecoveryEvidence}
use freens.Store.Entries.{
  Entry, EnvelopeStore, lookup, insert, to_key, alive, size_of, retain_history,
}
use freens.Store.Envelopes.{
  StoreError, evict_dead, evict_expired, enforce_cap, remove, get, same_stored_record, may_displace,
  install, put_live, put_with_evidence,
}
use freens.Store.Limit.{retain_history_max}
use freens.Store.Maps.{Distinct-delete, delete-gone, Holds-self, lookup-All, delete-All}
use freens.Store.Budget.{
  IsStore, IsCached, total-delete, retain_history_keeps, drop_entry-IsStore, evict_dead-IsStore,
  cap_loop-IsStore,
}

module _ (p : Platform) where
  -- The entries are what matters: the other fields may change.
  pub IsStore-same :
      (s s' : EnvelopeStore)
      → s'.entries ≡ s.entries
      → s'.bytes ≡ s.bytes
      → IsStore p s
      → IsStore p s'
  IsStore-same s s' e b i = record {
    distinct = rw e i.distinct;
    cached = rw e i.cached;
    budget = rw (e, b) i.budget;
  }

  -- An entry with a cached size in the place of what the key had.
  insert-IsStore :
      (s : EnvelopeStore) (k : Bytes) (e : Entry) (bytes : ℕ)
      → IsStore p s
      → IsCached p e
      → bytes + size_of (lookup k s.entries) ≡ s.bytes + e.size
      → IsStore p (record s { entries = insert k e s.entries; bytes = bytes })
  insert-IsStore s k e bytes i c h = record {
    distinct = (delete-gone k s.entries i.distinct, Distinct-delete k s.entries i.distinct);
    cached = (c, delete-All (IsCached p) k s.entries i.cached);
    budget = omega (arith, h, i.budget, total-delete k s.entries);
  }

  touch-IsStore :
      (s : EnvelopeStore) (k : Bytes) (e : Entry) (now : ℕ)
      → IsStore p s
      → lookup k s.entries ≡ some e
      → IsStore p (record s { entries = insert k (record e { last_access = now }) s.entries })
  touch-IsStore s k e now i h =
      insert-IsStore s k (record e { last_access = now }) s.bytes i
        (lookup-All (IsCached p) k e s.entries i.cached h) (omega (arith, ap size_of h))

  sweeps-IsStore :
      (now : ℕ) (k : Bytes) (s : EnvelopeStore)
      → IsStore p s
      → IsStore p (enforce_cap p now k (evict_expired p now s))
  unfolding enforce_cap evict_expired
  sweeps-IsStore now k s i =
      let fresh =
        evict_dead-IsStore p (λ j. false) now s.entries s i i.distinct
          (Holds-self s.entries i.distinct) in
      let t : EnvelopeStore = evict_dead p (λ j. false) now s.entries s in
      let fresh' =
        evict_dead-IsStore p (λ j. bytes_eq j k) now t.entries t fresh fresh.distinct
          (Holds-self t.entries fresh.distinct) in
      cap_loop-IsStore p _ k _ fresh'

  -- The store of a result, if there is one, keeps the invariant.
  abbrev pub Kept : {A : Type 0} → Result StoreError (EnvelopeStore × A) → Type 0
  Kept (ok (s, a)) = IsStore p s
  Kept (err e) = Unit

  pub Kept-ok :
      {A : Type 0} (r : Result StoreError (EnvelopeStore × A)) (s : EnvelopeStore) (a : A)
      → Kept r
      → r ≡ ok (s, a)
      → IsStore p s
  Kept-ok r s a i h = subst (λ x. Kept x) h i

  pub get-Kept : (s : EnvelopeStore) (key : Bytes) (now : ℕ) → IsStore p s → Kept (get p s key now)
  unfolding get
  get-Kept s key now i = elim (Bool-cases (length key == hash_len)) [
    | inr q ↦ rw q tt
    | inl q ↦ elim (Option-cases (lookup (to_key key) s.entries)) [
      | inl f ↦ rw (q, f, get) i
      | inr (e, f) ↦ elim (Bool-cases (alive e now)) [
        | inl live ↦ rw (q, f, live, get) (touch-IsStore s (to_key key) e now i f)
        | inr dead ↦ rw (q, f, dead, get) (drop_entry-IsStore p (to_key key) e s i f)
      ]
    ]
  ]

  pub remove-IsStore : (s : EnvelopeStore) (key : Bytes) → IsStore p s → IsStore p (remove s key).0
  unfolding remove
  remove-IsStore s key i = elim (Bool-cases (length key == hash_len)) [
    | inr q ↦ rw q i
    | inl q ↦ elim (Option-cases (lookup (to_key key) s.entries)) [
      | inl e ↦ rw (q, e) i
      | inr (e, f) ↦
          rw (q, f)
            (record {
              distinct = Distinct-delete (to_key key) s.entries i.distinct;
              cached = delete-All (IsCached p) (to_key key) s.entries i.cached;
              budget = omega (arith, i.budget, total-delete (to_key key) s.entries, ap size_of f);
            })
    ]
  ]

  module _ (u : Unicode) (idna : Normalizer) (unmarshal : Bytes → Option RecoveryEvidence) where
    -- What `install` returns is swept from a well-formed store with the new entry in it.
    pub install_swept :
        (s : EnvelopeStore) (k : Bytes) (env : Envelope) (now : ℕ) (b : Bytes)
        → IsStore p s
        → p.marshal_envelope env ≡ some b
        → (s0 : EnvelopeStore) × IsStore p s0
          × (s0.max_bytes ≡ s.max_bytes)
          × (install p u idna unmarshal s k env now
              ≡ ok (enforce_cap p now k (evict_expired p now s0), true))
    unfolding install
    install_swept s k env now b i e = elim (Option-cases (lookup k s.entries)) [
      | inl f ↦
          let new : Entry = record { env = env; size = length b; last_access = now } in
          (
            record s { entries = insert k new s.entries; bytes = s.bytes + length b - 0 },
            insert-IsStore s k new (s.bytes + length b - 0) i (b, e, refl)
                (omega (arith, ap size_of f)),
            refl,
            rw (e, f, install) refl,
          )
      | inr (cur, f) ↦
          let (kept, same) = retain_history_keeps p cur s in
          let s' : EnvelopeStore = retain_history p cur s in
          let i' : IsStore p s' = IsStore-same s s' kept same i in
          let f' : lookup k s'.entries ≡ some cur = rw kept f in
          let new : Entry = record { env = env; size = length b; last_access = now } in
          (
            record s' { entries = insert k new s'.entries; bytes = s'.bytes + length b - cur.size },
            insert-IsStore s' k new (s'.bytes + length b - cur.size) i' (b, e, refl)
                (omega (arith, ap size_of f', total-delete k s'.entries, i'.budget)),
            retain_history_max p cur s,
            rw (e, f, install) refl,
          )
    ]

    install-Kept :
        (s : EnvelopeStore) (k : Bytes) (env : Envelope) (now : ℕ)
        → IsStore p s
        → Kept (install p u idna unmarshal s k env now)
    install-Kept s k env now i = elim (Option-cases (p.marshal_envelope env)) [
      | inl e ↦ unfold install in (rw (e, install) tt)
      | inr (b, e) ↦
          let (s0, i0, same, q) = install_swept s k env now b i e in
          subst (λ x. Kept x) (sym q) (sweeps-IsStore now k s0 i0)
    ]

    put_live-Kept :
        (s : EnvelopeStore) (k : Bytes) (env : Envelope) (now : ℕ) (evidence : Bytes) (cur : Entry)
        → IsStore p s
        → lookup k s.entries ≡ some cur
        → Kept (put_live p u idna unmarshal s k env now evidence cur)
    unfolding put_live
    put_live-Kept s k env now evidence cur i f =
        elim (Bool-cases (same_stored_record p env cur.env)) [
          | inl q ↦ rw q (touch-IsStore s k cur now i f)
          | inr q ↦ elim (Bool-cases (may_displace p u idna unmarshal s env cur.env now evidence)) [
            | inl r ↦ rw (q, r) (install-Kept s k env now i)
            | inr r ↦ rw (q, r) i
          ]
        ]

    pub put-Kept :
        (s : EnvelopeStore) (key : Bytes) (env : Option Envelope) (now : ℕ) (check : Bool)
        (evidence : Bytes)
        → IsStore p s
        → Kept (put_with_evidence p u idna unmarshal s key env now check evidence)
    unfolding put_with_evidence
    put-Kept s key none now check evidence i = elim (Bool-cases (length key == hash_len)) [
      | inl q ↦ rw q tt
      | inr q ↦ rw q tt
    ]
    put-Kept s key (some env) now check evidence i = elim (Bool-cases (length key == hash_len)) [
      | inr q ↦ rw q tt
      | inl q ↦ elim (Bool-cases (check && not (verify_signature p env))) [
        | inl bad ↦ rw (q, bad) i
        | inr good ↦ elim (Option-cases (lookup (to_key key) s.entries)) [
          | inl f ↦ rw (q, good, f, put_with_evidence) (install-Kept s (to_key key) env now i)
          | inr (cur, f) ↦ elim (Bool-cases (alive cur now)) [
            | inl live ↦
                rw (q, good, f, live, put_with_evidence)
                  (put_live-Kept s (to_key key) env now evidence cur i f)
            | inr dead ↦
                rw (q, good, f, dead, put_with_evidence) (install-Kept s (to_key key) env now i)
          ]
        ]
      ]
    ]
