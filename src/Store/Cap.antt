-- ===== src/Store/Cap.antt =====
-- The cap on the live table (internal/dht/store.go) after a put.
use freens.Prelude.{
  ℕ, zero, suc, ◌≤◌, ◌≡◌, refl, sym, ap, ◌∙◌, ◌⊎◌, inl, inr, Bool, true, false, List, [], ◌∷◌,
  length, Bytes, bytes_eq, bytes_eq→eq, bytes_eq_refl, Option, none, some, Option-cases, Bool-cases,
  arith, true, Member, Distinct, All, ok,
}
use mathlib.Core.Path.{subst}
use freens.Naming.Text.{Unicode}
use freens.Naming.Labels.{Normalizer}
use freens.Wire.Record.{Envelope, Platform}
use freens.Wire.Recovery.{RecoveryEvidence}
use freens.Store.Entries.{Entry, EnvelopeStore, lookup, delete, earlier, least_accessed}
use freens.Store.Envelopes.{
  drop_entry, evict_dead, evict_expired, evict_lru, over_cap, cap_loop, enforce_cap, install,
}
use freens.Store.Limit.{sweeps_max}
use freens.Store.Operations.{install_swept}
use freens.Store.Maps.{keys, Holds-self}
use freens.Store.Budget.{IsStore, drop_entry-IsStore, drop_entry-entries, evict_dead-IsStore}

length-delete :
    {V : Type 0} (k : Bytes) (v : V) (m : List (Bytes × V))
    → lookup k m ≡ some v
    → suc (length (delete k m)) ≡ length m
unfolding lookup delete
length-delete k v [] h = cc
length-delete k v ((j, w) ∷ m) h = elim (Bool-cases (bytes_eq j k)) [
  | inl e ↦ rw e refl
  | inr e ↦ let later : lookup k m ≡ some v = rw e at h in rw e (ap suc (length-delete k v m later))
]

lookup-Member :
    {V : Type 0} (k : Bytes) (m : List (Bytes × V))
    → Member k (keys m)
    → (v : V) × (lookup k m ≡ some v)
unfolding lookup
lookup-Member k [] h = absurd h
lookup-Member k ((j, w) ∷ m) h = elim (Bool-cases (bytes_eq j k)) [
  | inl e ↦ (w, rw e refl)
  | inr e ↦ elim h [
    | inl same ↦
        let loop : bytes_eq k k ≡ false = subst (λ x. bytes_eq x k ≡ false) same e in
        cc (loop, bytes_eq_refl k)
    | inr later ↦ let (v, f) = lookup-Member k m later in (v, rw e f)
  ]
]

module _ (skip : Bytes → Bool) where
  -- What the scan finds is in the map, or was found before.
  least_accessed-Member :
      (best : Option (Bytes × ℕ)) (m : List (Bytes × Entry)) (k : Bytes) (last : ℕ)
      → least_accessed skip best m ≡ some (k, last)
      → (best ≡ some (k, last)) ⊎ Member k (keys m)
  unfolding least_accessed
  least_accessed-Member best [] k last h = inl h
  least_accessed-Member best ((j, e) ∷ m) k last h = elim (Bool-cases (skip j)) [
    | inl s ↦ elim (least_accessed-Member best m k last (rw s at h)) [
      | inl found ↦ inl found
      | inr later ↦ inr (inr later)
    ]
    | inr s ↦ elim (Bool-cases (earlier j e.last_access best)) [
      | inl better ↦
          elim (least_accessed-Member (some (j, e.last_access)) m k last (rw (s, better) at h)) [
            | inl found ↦ inr (inl (cc found))
            | inr later ↦ inr (inr later)
          ]
      | inr worse ↦ elim (least_accessed-Member best m k last (rw (s, worse) at h)) [
        | inl found ↦ inl found
        | inr later ↦ inr (inr later)
      ]
    ]
  ]

  -- Where the scan finds nothing, it skipped every key.
  least_accessed-none :
      (best : Option (Bytes × ℕ)) (m : List (Bytes × Entry))
      → least_accessed skip best m ≡ none
      → (best ≡ none) × All (λ k. skip k ≡ true) (keys m)
  unfolding least_accessed earlier
  least_accessed-none best [] h = (h, tt)
  least_accessed-none best ((j, e) ∷ m) h = elim (Bool-cases (skip j)) [
    | inl s ↦ let (empty, all) = least_accessed-none best m (rw s at h) in (empty, (s, all))
    | inr s ↦ elim (Bool-cases (earlier j e.last_access best)) [
      | inl better ↦
          let (empty, all) =
            least_accessed-none (some (j, e.last_access)) m (rw (s, better) at h) in
          cc empty
      | inr worse ↦
          let (empty, all) = least_accessed-none best m (rw (s, worse) at h) in
          let found : earlier j e.last_access none ≡ false =
            subst (λ b. earlier j e.last_access b ≡ false) empty worse in
          cc found
    ]
  ]

-- A map whose only key is one key has one entry at most.
length-protected :
    (protected : Bytes) (m : List (Bytes × Entry))
    → Distinct (keys m)
    → All (λ k. bytes_eq k protected ≡ true) (keys m)
    → length m ≤ 1
length-protected protected [] d a = omega arith
length-protected protected ((j, e) ∷ []) d a = omega arith
length-protected protected ((j, e) ∷ (i, f) ∷ m) (new, d) (a, (b, as')) =
    absurd (new (inl (bytes_eq→eq i protected b ∙ sym (bytes_eq→eq j protected a))))

module _ (p : Platform) where
  abbrev pub Capped : EnvelopeStore → Type 0
  Capped s = (s.bytes ≤ s.max_bytes) ⊎ (length s.entries ≤ 1)

  cap_loop-Capped :
      (fuel : ℕ) (protected : Bytes) (s : EnvelopeStore)
      → IsStore p s
      → length s.entries ≤ fuel
      → Capped (cap_loop p fuel protected s)
  unfolding cap_loop evict_lru
  cap_loop-Capped zero protected s i h = inr (omega (arith, h))
  cap_loop-Capped (suc fuel) protected s i h = elim (Bool-cases (over_cap p s)) [
    | inr q ↦ rw q (ground arith)
    | inl q ↦ elim (Option-cases (least_accessed (λ k. bytes_eq k protected) none s.entries)) [
      | inl f ↦
          let (empty, all) = least_accessed-none (λ k. bytes_eq k protected) none s.entries f in
          rw (q, f) (inr (length-protected protected s.entries i.distinct all))
      | inr ((k, last), f) ↦
          elim (least_accessed-Member (λ k. bytes_eq k protected) none s.entries k last f) [
            | inl found ↦ cc found
            | inr found ↦
                let (e, g) = lookup-Member k s.entries found in
                let shorter : length (drop_entry p k e s).entries ≤ fuel =
                  rw (drop_entry-entries p k e s)
                    (omega (arith, h, length-delete k e s.entries g)) in
                rw (q, f, g)
                  (cap_loop-Capped fuel protected (drop_entry p k e s)
                    (drop_entry-IsStore p k e s i g) shorter)
          ]
    ]
  ]

  sweeps-Capped :
      (now : ℕ) (k : Bytes) (s : EnvelopeStore)
      → IsStore p s
      → Capped (enforce_cap p now k (evict_expired p now s))
  unfolding enforce_cap evict_expired
  sweeps-Capped now k s i =
      let fresh =
        evict_dead-IsStore p (λ j. false) now s.entries s i i.distinct
          (Holds-self s.entries i.distinct) in
      let t : EnvelopeStore = evict_dead p (λ j. false) now s.entries s in
      let fresh' =
        evict_dead-IsStore p (λ j. bytes_eq j k) now t.entries t fresh fresh.distinct
          (Holds-self t.entries fresh.distinct) in
      cap_loop-Capped _ k _ fresh' (omega arith)

  module _ (u : Unicode) (idna : Normalizer) (unmarshal : Bytes → Option RecoveryEvidence) where
    -- On a well-formed store, the accepting part of a put of an envelope that has an encoding gives a
    -- store that keeps to the byte limit, or holds one entry at most, which may be over it alone; the
    -- limit is the old one.
    pub install-Capped :
        (s : EnvelopeStore) (k : Bytes) (env : Envelope) (now : ℕ) (b : Bytes)
        → IsStore p s
        → p.marshal_envelope env ≡ some b
        → (s' : EnvelopeStore) × (install p u idna unmarshal s k env now ≡ ok (s', true))
          × (s'.max_bytes ≡ s.max_bytes)
          × ((s'.bytes ≤ s.max_bytes) ⊎ (length s'.entries ≤ 1))
    install-Capped s k env now b i e =
        let (s0, i0, same, q) = install_swept p u idna unmarshal s k env now b i e in
        let limit = sweeps_max p now k s0 ∙ same in
        (
          enforce_cap p now k (evict_expired p now s0),
          q,
          limit,
          elim (sweeps-Capped now k s0 i0) [
            | inl fits ↦ inl (omega (arith, fits, limit))
            | inr few ↦ inr few
          ],
        )
