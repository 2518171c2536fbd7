-- ===== src/Store/Runs.antt =====
-- Runs of a store's operations (internal/dht/store.go, internal/dht/evidence.go).
use freens.Prelude.{
  ℕ, ◌-◌, ◌≡◌, refl, Bool, List, [], ◌∷◌, ◌++◌, length, Bytes, Option, none, some, Option-cases,
  Bool-cases, inl, inr, arith, ok,
}
use mathlib.Core.Path.{subst}
use freens.Naming.Text.{Unicode}
use freens.Naming.Labels.{Normalizer}
use freens.Wire.Record.{Envelope, Platform}
use freens.Wire.Recovery.{RecoveryEvidence}
use freens.Store.Entries.{
  EnvelopeStore, lookup, delete, to_key, retain_envelope, new_envelope_store,
}
use freens.Store.Evidence.{
  blob_of, put_evidence, put_evidence_locked, evict_evidence, evidence_full,
}
use freens.Store.Envelopes.{remove, get, put_with_evidence}
use freens.Store.Budget.{IsStore, retain_history_keeps}
use freens.Store.Operations.{IsStore-same, Kept-ok, get-Kept, remove-IsStore, put-Kept}

evict_evidence_keeps :
    (order : List Bytes) (s : EnvelopeStore)
    → ((evict_evidence order s).entries ≡ s.entries) × ((evict_evidence order s).bytes ≡ s.bytes)
unfolding evict_evidence
evict_evidence_keeps [] s = (refl, refl)
evict_evidence_keeps (oldest ∷ order) s = elim (Bool-cases (evidence_full s)) [
  | inr q ↦ rw q (refl, refl)
  | inl q ↦ rw q (
      evict_evidence_keeps order (record s {
        evidence_order = order;
        evidence_bytes = s.evidence_bytes - length (blob_of (lookup oldest s.evidence));
        evidence = delete oldest s.evidence;
      }))
]

pub put_evidence_keeps :
    (k raw : Bytes) (s : EnvelopeStore)
    → ((put_evidence_locked k raw s).entries ≡ s.entries)
      × ((put_evidence_locked k raw s).bytes ≡ s.bytes)
unfolding put_evidence_locked
put_evidence_keeps k raw s = elim (Option-cases (lookup k s.evidence)) [
  | inl f ↦ rw (f, put_evidence_locked) (evict_evidence_keeps (s.evidence_order ++ (k ∷ [])) _)
  | inr (old, f) ↦ rw (f, put_evidence_locked) (evict_evidence_keeps s.evidence_order _)
]

module _ (p : Platform) (u : Unicode) (idna : Normalizer)
    (unmarshal : Bytes → Option RecoveryEvidence) where
  -- The stores that a sequence of operations leads to, from an empty one.
  pub data Reachable : EnvelopeStore → Type 0 where
    created : (max_bytes : ℕ) → Reachable (new_envelope_store max_bytes)
    put :
        (s s' : EnvelopeStore) (key : Bytes) (env : Option Envelope) (now : ℕ) (check : Bool)
        (evidence : Bytes) (done : Bool)
        → Reachable s
        → put_with_evidence p u idna unmarshal s key env now check evidence ≡ ok (s', done)
        → Reachable s'
    got :
        (s s' : EnvelopeStore) (key : Bytes) (now : ℕ) (found : Option Envelope)
        → Reachable s
        → get p s key now ≡ ok (s', found)
        → Reachable s'
    removed : (s : EnvelopeStore) (key : Bytes) → Reachable s → Reachable (remove s key).0
    retained :
        (s : EnvelopeStore) (env : Option Envelope) (now : ℕ)
        → Reachable s
        → Reachable (retain_envelope p env now s)
    declared :
        (s s' : EnvelopeStore) (record_hash raw : Bytes)
        → Reachable s
        → put_evidence unmarshal record_hash raw s ≡ ok s'
        → Reachable s'

  retain_envelope-IsStore :
      (env : Option Envelope) (now : ℕ) (s : EnvelopeStore)
      → IsStore p s
      → IsStore p (retain_envelope p env now s)
  unfolding retain_envelope
  retain_envelope-IsStore none now s i = i
  retain_envelope-IsStore (some env) now s i =
      let (kept, same) =
        retain_history_keeps p (record { env = env; size = 0; last_access = now }) s in
      IsStore-same p s _ kept same i

  pub put_evidence-IsStore :
      (s s' : EnvelopeStore) (record_hash raw : Bytes)
      → IsStore p s
      → put_evidence unmarshal record_hash raw s ≡ ok s'
      → IsStore p s'
  unfolding put_evidence
  put_evidence-IsStore s s' record_hash raw i h =
      let (kept, same) = put_evidence_keeps (to_key record_hash) raw s in
      let done : put_evidence_locked (to_key record_hash) raw s ≡ s' = ground arith in
      subst (λ x. IsStore p x) done (IsStore-same p s _ kept same i)

  -- After any sequence of operations on a new store, no key of the live table occurs twice, the
  -- cached size of each entry is the length of its envelope's encoding, and the byte counter is the
  -- sum of the cached sizes.
  pub Reachable-IsStore : (s : EnvelopeStore) → Reachable s → IsStore p s
  unfolding new_envelope_store
  Reachable-IsStore _ (Reachable.created max_bytes) = record {
    distinct = tt;
    cached = tt;
    budget = refl;
  }
  Reachable-IsStore _ (Reachable.put s s' key env now check evidence done r h) =
      Kept-ok p _ s' done
        (put-Kept p u idna unmarshal s key env now check evidence (Reachable-IsStore s r)) h
  Reachable-IsStore _ (Reachable.got s s' key now found r h) =
      Kept-ok p _ s' found (get-Kept p s key now (Reachable-IsStore s r)) h
  Reachable-IsStore _ (Reachable.removed s key r) = remove-IsStore p s key (Reachable-IsStore s r)
  Reachable-IsStore _ (Reachable.retained s env now r) =
      retain_envelope-IsStore env now s (Reachable-IsStore s r)
  Reachable-IsStore _ (Reachable.declared s s' record_hash raw r h) =
      put_evidence-IsStore s s' record_hash raw (Reachable-IsStore s r) h
