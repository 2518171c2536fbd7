-- ===== src/Store/Limit.antt =====
-- The byte limit of a store (internal/dht/store.go) stays what it was made with.
use freens.Prelude.{
  ℕ, zero, suc, ◌-◌, ◌+◌, ◌≡◌, refl, ◌∙◌, Bool, false, ◌||◌, List, [], ◌∷◌, length, Bytes, bytes_eq,
  none, Option-cases, Bool-cases, inl, inr,
}
use freens.Wire.Record.{Platform, record_hash}
use freens.Store.Entries.{
  Entry, EnvelopeStore, lookup, insert, delete, to_key, alive, least_accessed, size_of,
  history_full, evict_history, evict_history_oldest, sized, retain_history,
}
use freens.Store.Envelopes.{
  drop_entry, evict_dead, evict_expired, evict_lru, over_cap, cap_loop, enforce_cap,
}

evict_oldest_max : (s : EnvelopeStore) → (evict_history_oldest s).max_bytes ≡ s.max_bytes
unfolding evict_history_oldest
evict_oldest_max s = elim (Option-cases (least_accessed (λ k. false) none s.history)) [
  | inl e ↦ rw (e, evict_history_oldest) refl
  | inr (x, e) ↦ rw (e, evict_history_oldest) refl
]

evict_history_max : (fuel : ℕ) (s : EnvelopeStore) → (evict_history fuel s).max_bytes ≡ s.max_bytes
unfolding evict_history
evict_history_max zero s = refl
evict_history_max (suc fuel) s = elim (Bool-cases (history_full s)) [
  | inr full ↦ rw full refl
  | inl full ↦ rw full (evict_history_max fuel (evict_history_oldest s) ∙ evict_oldest_max s)
]

module _ (p : Platform) where
  pub retain_history_max :
      (e : Entry) (s : EnvelopeStore) → (retain_history p e s).max_bytes ≡ s.max_bytes
  unfolding retain_history
  retain_history_max e s = elim (Option-cases (record_hash p e.env)) [
    | inl q ↦ rw (q, retain_history) refl
    | inr (h, q) ↦
        rw (q, retain_history)
          (evict_history_max (suc (length (delete (to_key h) s.history))) (record s {
            history = insert (to_key h) (sized p e) s.history;
            history_bytes =
                s.history_bytes - size_of (lookup (to_key h) s.history) + (sized p e).size;
          }))
  ]

  drop_entry_max :
      (k : Bytes) (e : Entry) (s : EnvelopeStore) → (drop_entry p k e s).max_bytes ≡ s.max_bytes
  unfolding drop_entry
  drop_entry_max k e s = retain_history_max e s

  evict_dead_max :
      (skip : Bytes → Bool) (now : ℕ) (xs : List (Bytes × Entry)) (s : EnvelopeStore)
      → (evict_dead p skip now xs s).max_bytes ≡ s.max_bytes
  unfolding evict_dead
  evict_dead_max skip now [] s = refl
  evict_dead_max skip now ((k, e) ∷ xs) s = elim (Bool-cases (skip k || alive e now)) [
    | inl kept ↦ rw (kept, evict_dead) (evict_dead_max skip now xs s)
    | inr dead ↦
        rw (dead, evict_dead)
          (evict_dead_max skip now xs (drop_entry p k e s) ∙ drop_entry_max k e s)
  ]

  cap_loop_max :
      (fuel : ℕ) (protected : Bytes) (s : EnvelopeStore)
      → (cap_loop p fuel protected s).max_bytes ≡ s.max_bytes
  unfolding cap_loop evict_lru
  cap_loop_max zero protected s = refl
  cap_loop_max (suc fuel) protected s = elim (Bool-cases (over_cap p s)) [
    | inr q ↦ rw q refl
    | inl q ↦ elim (Option-cases (least_accessed (λ k. bytes_eq k protected) none s.entries)) [
      | inl f ↦ rw (q, f) refl
      | inr ((k, last), f) ↦ elim (Option-cases (lookup k s.entries)) [
        | inl g ↦ rw (q, f, g) refl
        | inr (e, g) ↦
            rw (q, f, g) (cap_loop_max fuel protected (drop_entry p k e s) ∙ drop_entry_max k e s)
      ]
    ]
  ]

  -- Both sweeps after a put.
  pub sweeps_max :
      (now : ℕ) (k : Bytes) (s : EnvelopeStore)
      → (enforce_cap p now k (evict_expired p now s)).max_bytes ≡ s.max_bytes
  unfolding enforce_cap evict_expired
  sweeps_max now k s =
      cap_loop_max _ k _
      ∙ evict_dead_max (λ j. bytes_eq j k) now _ _
      ∙ evict_dead_max (λ j. false) now s.entries s
