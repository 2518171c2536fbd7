-- ===== src/Store/Landing.antt =====
-- Where a put changes the live table (internal/dht/store.go).
pub mod Put
use freens.Prelude.{
  ℕ, zero, suc, ◌≡◌, ◌⊎◌, refl, sym, ap, Bool, true, false, ◌&&◌, ◌||◌, not, ◌==◌, List, [], ◌∷◌,
  length, Bytes, bytes_eq, Option, none, some, Option-cases, Bool-cases, Result, ok, err, inl, inr,
  Member,
}
use mathlib.Core.Path.{subst}
use freens.Naming.Text.{Unicode}
use freens.Naming.Labels.{Normalizer}
use freens.Wire.Record.{Envelope, Platform, verify_signature, hash_len}
use freens.Wire.Recovery.{RecoveryEvidence}
use freens.Store.Entries.{
  Entry, EnvelopeStore, lookup, insert, delete, to_key, alive, least_accessed, retain_history,
}
use freens.Store.Envelopes.{
  StoreError, drop_entry, evict_dead, evict_expired, evict_lru, over_cap, cap_loop, enforce_cap,
  get, same_stored_record, may_displace, install, put_live, put_with_evidence,
}
use freens.Store.Budget.{retain_history_keeps, drop_entry-entries}

module _ {V : Type 0} where
  -- Of the entries of the new map, those of other keys than this one are entries of the old one.
  abbrev pub ChangesAt : Bytes → List (Bytes × V) → List (Bytes × V) → Type 0
  ChangesAt k m m' = (x : Bytes × V) → Member x m' → (x.0 ≡ k) ⊎ Member x m

  pub ChangesAt-refl : (k : Bytes) (m : List (Bytes × V)) → ChangesAt k m m
  ChangesAt-refl k m x h = inr h

  pub ChangesAt-trans :
      (k : Bytes) (m1 m2 m3 : List (Bytes × V))
      → ChangesAt k m1 m2
      → ChangesAt k m2 m3
      → ChangesAt k m1 m3
  ChangesAt-trans k m1 m2 m3 f g x h = elim (g x h) [ inl e ↦ inl e | inr n ↦ f x n ]

  delete-Member :
      (j : Bytes) (m : List (Bytes × V)) (x : Bytes × V) → Member x (delete j m) → Member x m
  unfolding delete
  delete-Member j [] x h = h
  delete-Member j ((i, v) ∷ m) x h = elim (Bool-cases (bytes_eq i j)) [
    | inl e ↦ inr (rw (e, delete) at h)
    | inr e ↦
        let h' : ((i, v) ≡ x) ⊎ Member x (delete j m) = rw (e, delete) at h in
        elim h' [ inl same ↦ inl same | inr later ↦ inr (delete-Member j m x later) ]
  ]

  pub ChangesAt-delete : (k j : Bytes) (m : List (Bytes × V)) → ChangesAt k m (delete j m)
  ChangesAt-delete k j m x h = inr (delete-Member j m x h)

  pub ChangesAt-insert : (k : Bytes) (v : V) (m : List (Bytes × V)) → ChangesAt k m (insert k v m)
  ChangesAt-insert k v m x h = elim h [
    | inl same ↦ inl (ap (λ y. y.0) (sym same))
    | inr later ↦ inr (delete-Member k m x later)
  ]

module _ (p : Platform) (k : Bytes) where
  -- From one store to another.
  abbrev pub LandsAt : EnvelopeStore → EnvelopeStore → Type 0
  LandsAt s s' = ChangesAt k s.entries s'.entries

  pub drop_entry-LandsAt :
      (j : Bytes) (e : Entry) (s : EnvelopeStore) → LandsAt s (drop_entry p j e s)
  drop_entry-LandsAt j e s =
      subst (λ m. ChangesAt k s.entries m) (sym (drop_entry-entries p j e s))
        (ChangesAt-delete k j s.entries)

  evict_dead-LandsAt :
      (skip : Bytes → Bool) (now : ℕ) (xs : List (Bytes × Entry)) (s : EnvelopeStore)
      → LandsAt s (evict_dead p skip now xs s)
  unfolding evict_dead
  evict_dead-LandsAt skip now [] s = ChangesAt-refl k s.entries
  evict_dead-LandsAt skip now ((j, e) ∷ xs) s = elim (Bool-cases (skip j || alive e now)) [
    | inl kept ↦ rw (kept, evict_dead) (evict_dead-LandsAt skip now xs s)
    | inr dead ↦
        rw (dead, evict_dead)
          (ChangesAt-trans k s.entries (drop_entry p j e s).entries _ (drop_entry-LandsAt j e s)
            (evict_dead-LandsAt skip now xs (drop_entry p j e s)))
  ]

  cap_loop-LandsAt :
      (fuel : ℕ) (protected : Bytes) (s : EnvelopeStore) → LandsAt s (cap_loop p fuel protected s)
  unfolding cap_loop evict_lru
  cap_loop-LandsAt zero protected s = ChangesAt-refl k s.entries
  cap_loop-LandsAt (suc fuel) protected s = elim (Bool-cases (over_cap p s)) [
    | inr q ↦ rw q (ChangesAt-refl k s.entries)
    | inl q ↦ elim (Option-cases (least_accessed (λ j. bytes_eq j protected) none s.entries)) [
      | inl f ↦ rw (q, f) (ChangesAt-refl k s.entries)
      | inr ((j, last), f) ↦ elim (Option-cases (lookup j s.entries)) [
        | inl g ↦ rw (q, f, g) (ChangesAt-refl k s.entries)
        | inr (e, g) ↦
            rw (q, f, g)
              (ChangesAt-trans k s.entries (drop_entry p j e s).entries _ (drop_entry-LandsAt j e s)
                (cap_loop-LandsAt fuel protected (drop_entry p j e s)))
      ]
    ]
  ]

  pub sweeps-LandsAt :
      (now : ℕ) (s : EnvelopeStore) → LandsAt s (enforce_cap p now k (evict_expired p now s))
  unfolding enforce_cap evict_expired
  sweeps-LandsAt now s =
      let t : EnvelopeStore = evict_dead p (λ j. false) now s.entries s in
      let t' : EnvelopeStore = evict_dead p (λ j. bytes_eq j k) now t.entries t in
      ChangesAt-trans k s.entries t.entries _ (evict_dead-LandsAt (λ j. false) now s.entries s) (
        ChangesAt-trans k t.entries t'.entries _
          (evict_dead-LandsAt (λ j. bytes_eq j k) now t.entries t)
          (cap_loop-LandsAt (length t'.entries) k t'))

  -- The store of a result, if there is one.
  abbrev pub Landed : {A : Type 0} → EnvelopeStore → Result StoreError (EnvelopeStore × A) → Type 0
  Landed s (ok (s', a)) = LandsAt s s'
  Landed s (err e) = Unit

  pub Landed-ok :
      {A : Type 0} (s : EnvelopeStore) (r : Result StoreError (EnvelopeStore × A))
      (s' : EnvelopeStore) (a : A)
      → Landed s r
      → r ≡ ok (s', a)
      → LandsAt s s'
  Landed-ok s r s' a i h = subst (λ x. Landed s x) h i
