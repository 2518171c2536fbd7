-- ===== src/Store/Budget.antt =====
-- The byte counter of the live table (internal/dht/store.go) through every operation.
use freens.Prelude.{
  ℕ, zero, suc, ◌+◌, ◌-◌, ◌≡◌, refl, sym, ap, Bool, false, ◌||◌, ◌==◌, List, [], ◌∷◌, length, All,
  Bytes, bytes_eq, none, some, Option-cases, Bool-cases, inl, inr, arith, Distinct, ◌∙◌,
}
use freens.Wire.Record.{Platform, record_hash}
use freens.Store.Entries.{
  Entry, EnvelopeStore, lookup, insert, delete, to_key, alive, least_accessed, size_of,
  history_full, evict_history, evict_history_oldest, sized, retain_history,
}
use freens.Store.Envelopes.{drop_entry, evict_dead, evict_lru, over_cap, cap_loop}
use freens.Store.Maps.{keys, Holds, Distinct-delete, Holds-delete, lookup-All, delete-All}

abbrev pub total : List (Bytes × Entry) → ℕ
total [] = 0
total ((k, e) ∷ m) = e.size + total m

-- The cached size is the length of the encoding.
abbrev pub IsCached : Platform → Entry → Type 0
IsCached p e = (b : Bytes) × (p.marshal_envelope e.env ≡ some b) × (e.size ≡ length b)

pub record IsStore (p : Platform) (s : EnvelopeStore) : Type 0 where
  pub distinct : Distinct (keys s.entries)
  pub cached : All (λ x. IsCached p x.1) s.entries
  pub budget : s.bytes ≡ total s.entries

pub total-delete :
    (k : Bytes) (m : List (Bytes × Entry)) → total (delete k m) + size_of (lookup k m) ≡ total m
unfolding delete lookup
total-delete k [] = refl
total-delete k ((j, e) ∷ m) = elim (Bool-cases (bytes_eq j k)) [
  | inl q ↦ rw q (omega arith)
  | inr q ↦ rw q (omega (arith, total-delete k m))
]

evict_oldest_keeps :
    (s : EnvelopeStore)
    → ((evict_history_oldest s).entries ≡ s.entries) × ((evict_history_oldest s).bytes ≡ s.bytes)
unfolding evict_history_oldest
evict_oldest_keeps s = elim (Option-cases (least_accessed (λ k. false) none s.history)) [
  | inl e ↦ rw (e, evict_history_oldest) (refl, refl)
  | inr (x, e) ↦ rw (e, evict_history_oldest) (refl, refl)
]

evict_history_keeps :
    (fuel : ℕ) (s : EnvelopeStore)
    → ((evict_history fuel s).entries ≡ s.entries) × ((evict_history fuel s).bytes ≡ s.bytes)
unfolding evict_history
evict_history_keeps zero s = (refl, refl)
evict_history_keeps (suc fuel) s = elim (Bool-cases (history_full s)) [
  | inr full ↦ rw full (refl, refl)
  | inl full ↦
      let (kept, same) = evict_oldest_keeps s in
      let (kept', same') = evict_history_keeps fuel (evict_history_oldest s) in
      rw full (kept' ∙ kept, same' ∙ same)
]

module _ (p : Platform) where
  pub retain_history_keeps :
      (e : Entry) (s : EnvelopeStore)
      → ((retain_history p e s).entries ≡ s.entries) × ((retain_history p e s).bytes ≡ s.bytes)
  unfolding retain_history
  retain_history_keeps e s = elim (Option-cases (record_hash p e.env)) [
    | inl q ↦ rw (q, retain_history) (refl, refl)
    | inr (h, q) ↦
        rw (q, retain_history)
          (evict_history_keeps (suc (length (delete (to_key h) s.history))) (record s {
            history = insert (to_key h) (sized p e) s.history;
            history_bytes =
                s.history_bytes - size_of (lookup (to_key h) s.history) + (sized p e).size;
          }))
  ]

  sized-size : (e : Entry) → IsCached p e → (sized p e).size ≡ e.size
  unfolding sized
  sized-size e (b, m, q) = elim (Bool-cases (e.size == 0)) [
    | inl z ↦ rw (z, m, sized) (sym q)
    | inr z ↦ rw z refl
  ]

  pub drop_entry-IsStore :
      (k : Bytes) (e : Entry) (s : EnvelopeStore)
      → IsStore p s
      → lookup k s.entries ≡ some e
      → IsStore p (drop_entry p k e s)
  unfolding drop_entry
  drop_entry-IsStore k e s i h =
      let (kept, same) = retain_history_keeps e s in
      let size = sized-size e (lookup-All (IsCached p) k e s.entries i.cached h) in
      record {
        distinct = rw kept (Distinct-delete k s.entries i.distinct);
        cached = rw kept (delete-All (IsCached p) k s.entries i.cached);
        budget =
            rw (kept, same, size) (omega (arith, i.budget, total-delete k s.entries, ap size_of h));
      }

  pub drop_entry-entries :
      (k : Bytes) (e : Entry) (s : EnvelopeStore)
      → (drop_entry p k e s).entries ≡ delete k s.entries
  unfolding drop_entry
  drop_entry-entries k e s = ap (delete k) (retain_history_keeps e s).0

  pub evict_dead-IsStore :
      (skip : Bytes → Bool) (now : ℕ) (xs : List (Bytes × Entry)) (s : EnvelopeStore)
      → IsStore p s
      → Distinct (keys xs)
      → Holds s.entries xs
      → IsStore p (evict_dead p skip now xs s)
  unfolding evict_dead
  evict_dead-IsStore skip now [] s i d h = i
  evict_dead-IsStore skip now ((k, e) ∷ xs) s i (new, d) (h, hs) =
      elim (Bool-cases (skip k || alive e now)) [
        | inl kept ↦ rw kept (evict_dead-IsStore skip now xs s i d hs)
        | inr dead ↦ rw dead (
            evict_dead-IsStore skip now xs (drop_entry p k e s) (drop_entry-IsStore k e s i h) d
              (rw (drop_entry-entries k e s) (Holds-delete k s.entries xs new hs)))
      ]

  pub cap_loop-IsStore :
      (fuel : ℕ) (protected : Bytes) (s : EnvelopeStore)
      → IsStore p s
      → IsStore p (cap_loop p fuel protected s)
  unfolding cap_loop evict_lru
  cap_loop-IsStore zero protected s i = i
  cap_loop-IsStore (suc fuel) protected s i = elim (Bool-cases (over_cap p s)) [
    | inr q ↦ rw q i
    | inl q ↦ elim (Option-cases (least_accessed (λ k. bytes_eq k protected) none s.entries)) [
      | inl f ↦ rw (q, f) i
      | inr ((k, last), f) ↦ elim (Option-cases (lookup k s.entries)) [
        | inl g ↦ rw (q, f, g) i
        | inr (e, g) ↦
            rw (q, f, g)
              (cap_loop-IsStore fuel protected (drop_entry p k e s) (drop_entry-IsStore k e s i g))
      ]
    ]
  ]
