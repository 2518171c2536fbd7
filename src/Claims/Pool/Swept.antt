-- ===== src/Claims/Pool/Swept.antt =====
-- What Sweep keeps, and what it leaves (internal/dht/claims_pool.go).
use freens.Prelude.{
  All, ◌<◌, ◌^◌, ◌&&◌, ltb, if◌then◌else◌, ℕ, ◌+◌, ◌≤◌, ◌≡◌, refl, sym, ◌∙◌, bytes_eq→eq, ap, true,
  false, ◌==◌, List, [], ◌∷◌, length, Bytes, bytes_eq, none, some, Option-cases, Bool-cases, inl,
  inr, arith, Distinct, Member,
}
use mathlib.Core.Path.{subst}
use freens.Store.Entries.{lookup, delete}
use freens.Store.Maps.{
  lookup-gone, keys, Holds, Holds-cons, Holds-delete, Holds-self, lookup-delete, delete-gone,
  lookup-All,
}
use freens.Claims.Claim.{Setting}
use freens.Claims.Pool.{PooledClaim, ClaimPool, at, sizes}
use freens.Claims.Pool.Top.{IsRanked, at-insert}
use freens.Claims.Pool.Sweep.{
  retain, spent, live_members, spent_members, sweep_key, sweep_from, sweep,
}
use freens.Claims.Pool.Budget.{
  IsPool, IsMembers, IsPool-same, set-IsPool, drop-IsPool, total-delete, at-some, at-none,
}

-- What is dropped and what is kept make up the members.
sizes-retain :
    (now : ℕ) (ms : List PooledClaim)
    → sizes (live_members now ms) + sizes (spent_members now ms) ≡ sizes ms
unfolding live_members spent_members retain sizes
sizes-retain now [] = refl
sizes-retain now (m ∷ ms) = elim (Bool-cases (spent now m)) [
  | inl e ↦ rw (e, retain) (omega (arith, sizes-retain now ms))
  | inr e ↦ rw (e, retain) (omega (arith, sizes-retain now ms))
]

live-IsRanked : (now : ℕ) (ms : List PooledClaim) → IsRanked ms → IsRanked (live_members now ms)
unfolding live_members retain
live-IsRanked now [] r = tt
live-IsRanked now (a ∷ []) r = elim (Bool-cases (spent now a)) [
  | inl e ↦ rw (e, retain) tt
  | inr e ↦ rw (e, retain) tt
]
live-IsRanked now (a ∷ b ∷ []) r = elim (Bool-cases (spent now a)) [
  | inl e ↦ elim (Bool-cases (spent now b)) [
    | inl f ↦ rw (e, f, retain) tt
    | inr f ↦ rw (e, f, retain) tt
  ]
  | inr e ↦ elim (Bool-cases (spent now b)) [
    | inl f ↦ rw (e, f, retain) tt
    | inr f ↦ rw (e, f, retain) r
  ]
]
live-IsRanked now (a ∷ b ∷ c ∷ rest) r = absurd r

sizes_empty : (ms : List PooledClaim) → length ms == 0 ≡ true → sizes ms ≡ 0
unfolding sizes
sizes_empty [] h = refl
sizes_empty (m ∷ ms) h = ground arith

some_left : (ms : List PooledClaim) → length ms == 0 ≡ false → 1 ≤ length ms
some_left [] h = ground arith
some_left (m ∷ ms) h = omega arith

-- The end of the 30 days after the carrier's expiry does not wrap to a small number.
abbrev pub HasSum : PooledClaim → Type 0
HasSum m = m.env.body.expires + 2592000 < 2 ^ 64

-- The members whose 30 days end after now, at a time that an int64 holds.
unfoldable pub in_window : ℕ → List PooledClaim → List PooledClaim
in_window now [] = []
in_window now (m ∷ ms) =
    let rest = in_window now ms in
    let last = m.env.body.expires + 2592000 in
    if ltb now last && ltb last 9223372036854775808 then m ∷ rest else rest

live_members-in_window :
    (now : ℕ) (ms : List PooledClaim) → All HasSum ms → live_members now ms ≡ in_window now ms
unfolding live_members retain spent in_window
live_members-in_window now [] a = refl
live_members-in_window now (m ∷ ms) (small, a) =
    ground (arith, small, live_members-in_window now ms a)

module _ (s : Setting) where
  -- A round of Sweep, on a key that has these members.
  sweep_key-IsPool :
      (now : ℕ) (k : Bytes) (ms : List PooledClaim) (p : ClaimPool)
      → IsPool p
      → lookup k p.by_key ≡ some ms
      → IsPool (sweep_key s now k ms p)
  unfolding sweep_key
  sweep_key-IsPool now k ms p i h =
      let held : sizes (at k p.by_key) ≡ sizes ms = ap sizes (at-some k ms p.by_key h) in
      let sum = sizes-retain now ms in
      let below = total-delete k p.by_key in
      elim (Bool-cases (length (live_members now ms) == 0)) [
        | inl e ↦
            let none_left : sizes (live_members now ms) ≡ 0 = sizes_empty (live_members now ms) e in
            rw e (drop-IsPool p _ k i refl (omega (arith, held, sum, none_left)))
        | inr e ↦
            let ranked : IsRanked ms = (lookup-All IsMembers k ms p.by_key i.members h).1 in
            rw e (
              set-IsPool p _ k (live_members now ms) i
                (some_left (live_members now ms) e, live-IsRanked now ms ranked) refl
                (omega (arith, held, sum, i.budget, below)))
      ]

  sweep_key-Holds :
      (now : ℕ) (k : Bytes) (ms : List PooledClaim) (p : ClaimPool)
      (rest : List (Bytes × List PooledClaim))
      → Holds p.by_key rest
      → ¬ Member k (keys rest)
      → Holds (sweep_key s now k ms p).by_key rest
  unfolding sweep_key
  sweep_key-Holds now k ms p rest h new = elim (Bool-cases (length (live_members now ms) == 0)) [
    | inl e ↦ rw e (Holds-delete k p.by_key rest new h)
    | inr e ↦ rw e (
        Holds-cons k (live_members now ms) (delete k p.by_key) rest new
          (Holds-delete k p.by_key rest new h))
  ]

  sweep_from-IsPool :
      (now : ℕ) (rest : List (Bytes × List PooledClaim)) (p : ClaimPool)
      → IsPool p
      → Distinct (keys rest)
      → Holds p.by_key rest
      → IsPool (sweep_from s now rest p).0
  unfolding sweep_from
  sweep_from-IsPool now [] p i d h = i
  sweep_from-IsPool now ((k, ms) ∷ rest) p i (new, d) (found, h) =
      sweep_from-IsPool now rest (sweep_key s now k ms p) (sweep_key-IsPool now k ms p i found) d
        (sweep_key-Holds now k ms p rest h new)

  pub sweep-IsPool : (now : ℕ) (p : ClaimPool) → IsPool p → IsPool (sweep s now p).0
  unfolding sweep
  sweep-IsPool now p i =
      IsPool-same _ _ refl refl
        (sweep_from-IsPool now p.by_key p i i.distinct (Holds-self p.by_key i.distinct))

  live-nil : (now : ℕ) (ms : List PooledClaim) → length ms == 0 ≡ true → ms ≡ []
  live-nil now [] h = refl
  live-nil now (m ∷ ms) h = absurd (ground arith)

  -- A round leaves its key the members that are kept.
  sweep_key-live_members :
      (now : ℕ) (k : Bytes) (ms : List PooledClaim) (p : ClaimPool)
      → Distinct (keys p.by_key)
      → at k (sweep_key s now k ms p).by_key ≡ live_members now ms
  unfolding sweep_key
  sweep_key-live_members now k ms p d = elim (Bool-cases (length (live_members now ms) == 0)) [
    | inl e ↦
        let gone = at-none k (delete k p.by_key) (lookup-gone k _ (delete-gone k p.by_key d)) in
        rw (e, at) (gone ∙ sym (live-nil now (live_members now ms) e))
    | inr e ↦ rw (e, at) (at-insert k (live_members now ms) p.by_key)
  ]

  -- A round leaves every other key as it was.
  sweep_key-other :
      (now : ℕ) (j k : Bytes) (ms : List PooledClaim) (p : ClaimPool)
      → bytes_eq k j ≡ false
      → lookup j (sweep_key s now k ms p).by_key ≡ lookup j p.by_key
  unfolding sweep_key
  sweep_key-other now j k ms p h = elim (Bool-cases (length (live_members now ms) == 0)) [
    | inl e ↦ rw (e, lookup) (lookup-delete j k p.by_key h)
    | inr e ↦ rw (e, lookup) (unfold lookup in (rw h (lookup-delete j k p.by_key h)))
  ]

  -- The loop leaves a key that it does not meet as it was.
  sweep_from-other :
      (now : ℕ) (k : Bytes) (rest : List (Bytes × List PooledClaim)) (p : ClaimPool)
      → lookup k rest ≡ none
      → lookup k (sweep_from s now rest p).0.by_key ≡ lookup k p.by_key
  unfolding sweep_from lookup
  sweep_from-other now k [] p h = refl
  sweep_from-other now k ((j, ms) ∷ rest) p h = elim (Bool-cases (bytes_eq j k)) [
    | inl e ↦ absurd (ground (arith, e))
    | inr e ↦
        sweep_from-other now k rest (sweep_key s now j ms p) (rw e at h)
        ∙ sweep_key-other now k j ms p e
  ]

  sweep_from-live_members :
      (now : ℕ) (k : Bytes) (rest : List (Bytes × List PooledClaim)) (p : ClaimPool)
      (found : List PooledClaim)
      → IsPool p
      → Distinct (keys rest)
      → Holds p.by_key rest
      → lookup k rest ≡ some found
      → at k (sweep_from s now rest p).0.by_key ≡ live_members now found
  unfolding sweep_from
  sweep_from-live_members now k [] p found i d h e = unfold lookup in absurd (ground (arith, e))
  sweep_from-live_members now k ((j, ms) ∷ rest) p found i (new, d) (held, h) e =
      elim (Bool-cases (bytes_eq j k)) [
        | inr f ↦
            sweep_from-live_members now k rest (sweep_key s now j ms p) found
              (sweep_key-IsPool now j ms p i held) d (sweep_key-Holds now j ms p rest h new)
              (unfold lookup in (rw f at e))
        | inl f ↦
            let same : j ≡ k = bytes_eq→eq j k f in
            let here : ms ≡ found = unfold lookup in (ground (arith, e, f)) in
            let after : lookup k rest ≡ none =
              lookup-gone k rest (subst (λ x. ¬ Member x (keys rest)) same new) in
            let kept : at k (sweep_key s now j ms p).by_key ≡ live_members now ms =
              subst (λ x. at x (sweep_key s now j ms p).by_key ≡ live_members now ms) same
                (sweep_key-live_members now j ms p i.distinct) in
            let rest_of = sweep_from-other now k rest (sweep_key s now j ms p) after in
            rw (rest_of, at, ← here) kept
      ]

  sweep-live_members :
      (now : ℕ) (k : Bytes) (p : ClaimPool)
      → IsPool p
      → at k (sweep s now p).0.by_key ≡ live_members now (at k p.by_key)
  unfolding sweep live_members retain
  sweep-live_members now k p i = elim (Option-cases (lookup k p.by_key)) [
    | inl e ↦ rw (at-none k p.by_key e) (at-none k _ (sweep_from-other now k p.by_key p e ∙ e))
    | inr (ms, e) ↦ rw (at-some k ms p.by_key e) (
        sweep_from-live_members now k p.by_key p ms i i.distinct (Holds-self p.by_key i.distinct) e)
  ]

  -- On a well-formed pool, and for a key whose members expire at times below 2 ^ 64 less 30 days: Sweep
  -- leaves the key, in their order, exactly the members whose time of expiry and 30 days more lie after
  -- now and are below 2 ^ 63.
  pub sweep-in_window :
      (now : ℕ) (k : Bytes) (p : ClaimPool)
      → IsPool p
      → All HasSum (at k p.by_key)
      → at k (sweep s now p).0.by_key ≡ in_window now (at k p.by_key)
  sweep-in_window now k p i small =
      sweep-live_members now k p i ∙ live_members-in_window now (at k p.by_key) small
