-- ===== src/Claims/Pool/Budget.antt =====
-- What the operations of the pool keep (internal/dht/claims_pool.go).
use freens.Prelude.{
  ℕ, ◌+◌, ◌-◌, ◌≤◌, ◌≡◌, refl, ap, false, ◌&&◌, ◌==◌, List, [], ◌∷◌, length, All, Bytes, bytes_eq,
  none, some, Option-cases, Bool-cases, inl, inr, arith, Distinct,
}
use mathlib.Core.Path.{subst}
use freens.Store.Entries.{lookup, delete, insert}
use freens.Store.Maps.{keys, Distinct-delete, delete-gone, lookup-All, delete-All}
use freens.Claims.Pool.{
  PooledClaim, ClaimPool, at, best_first, place, has_hash, sizes, over_budget, evict_key,
  evict_from, evict_over_budget, join,
}
use freens.Claims.Pool.Top.{IsRanked, placed, place-IsRanked}

abbrev pub total : List (Bytes × List PooledClaim) → ℕ
total [] = 0
total ((k, ms) ∷ m) = sizes ms + total m

-- One member or two, the second no better than the first.
abbrev pub IsMembers : List PooledClaim → Type 0
IsMembers ms = (1 ≤ length ms) × IsRanked ms

-- No key occurs twice, each has one member or two in order, and the byte counter is the sum of the
-- sizes of all the members.
pub record IsPool (p : ClaimPool) : Type 0 where
  pub distinct : Distinct (keys p.by_key)
  pub members : All (λ x. IsMembers x.1) p.by_key
  pub budget : p.bytes ≡ total p.by_key

pub total-delete :
    (k : Bytes) (m : List (Bytes × List PooledClaim))
    → total (delete k m) + sizes (at k m) ≡ total m
unfolding delete lookup sizes
total-delete k [] = refl
total-delete k ((j, ms) ∷ m) = elim (Bool-cases (bytes_eq j k)) [
  | inl e ↦ rw (e, at) (omega arith)
  | inr e ↦ rw (e, at) (omega (arith, total-delete k m))
]

-- A key is given members, and the counter follows.
pub set-IsPool :
    (p q : ClaimPool) (k : Bytes) (ms : List PooledClaim)
    → IsPool p
    → IsMembers ms
    → q.by_key ≡ insert k ms p.by_key
    → q.bytes + sizes (at k p.by_key) ≡ p.bytes + sizes ms
    → IsPool q
set-IsPool p q k ms i new e h = record {
  distinct = rw e (delete-gone k p.by_key i.distinct, Distinct-delete k p.by_key i.distinct);
  members = rw e (new, delete-All IsMembers k p.by_key i.members);
  budget = omega (arith, h, i.budget, total-delete k p.by_key, ap total e);
}

-- A key goes, and its bytes with it.
pub drop-IsPool :
    (p q : ClaimPool) (k : Bytes)
    → IsPool p
    → q.by_key ≡ delete k p.by_key
    → q.bytes ≡ p.bytes - sizes (at k p.by_key)
    → IsPool q
drop-IsPool p q k i e h = record {
  distinct = rw e (Distinct-delete k p.by_key i.distinct);
  members = rw e (delete-All IsMembers k p.by_key i.members);
  budget = omega (arith, h, i.budget, total-delete k p.by_key, ap total e);
}

-- The members and the counter are what matters.
pub IsPool-same : (p q : ClaimPool) → q.by_key ≡ p.by_key → q.bytes ≡ p.bytes → IsPool p → IsPool q
IsPool-same p q e b i = record {
  distinct = rw e i.distinct;
  members = rw e i.members;
  budget = rw (e, b) i.budget;
}

evict_from-IsPool :
    (protected : Bytes) (order : List Bytes) (p : ClaimPool)
    → IsPool p
    → IsPool (evict_from protected order p)
unfolding evict_from evict_key
evict_from-IsPool protected [] p i = IsPool-same p _ refl refl i
evict_from-IsPool protected (oldest ∷ rest) p i =
    let next =
      evict_from-IsPool protected rest (evict_key p oldest) (drop-IsPool p _ oldest i refl refl) in
    let stop = IsPool-same p (record p { order = oldest ∷ rest }) refl refl i in
    elim (Bool-cases (over_budget p)) [
      | inr e ↦ rw e stop
      | inl e ↦ elim (Bool-cases (bytes_eq oldest protected && length rest == 0)) [
        | inl f ↦ rw (e, f) stop
        | inr f ↦ rw (e, f) next
      ]
    ]

place-sizes :
    (pc : PooledClaim) (cur members : List PooledClaim) (dropped : ℕ)
    → IsRanked cur
    → place pc cur ≡ some (members, dropped)
    → (1 ≤ length members) × (sizes members + dropped ≡ sizes cur + pc.size) × (dropped ≤ sizes cur)
unfolding place best_first sizes
place-sizes pc [] members dropped r h = ground arith
place-sizes pc (a ∷ []) members dropped r h = ground arith
place-sizes pc (a ∷ b ∷ []) members dropped r h = ground arith
place-sizes pc (a ∷ b ∷ c ∷ rest) members dropped r h = absurd r

pub at-none : (k : Bytes) (m : List (Bytes × List PooledClaim)) → lookup k m ≡ none → at k m ≡ []
at-none k m e = rw (e, at) refl

pub at-some :
    (k : Bytes) (ms : List PooledClaim) (m : List (Bytes × List PooledClaim))
    → lookup k m ≡ some ms
    → at k m ≡ ms
at-some k ms m e = rw (e, at) refl

placed_some :
    (pc : PooledClaim) (cur members : List PooledClaim) (dropped : ℕ)
    → place pc cur ≡ some (members, dropped)
    → placed pc cur ≡ members
placed_some pc cur members dropped e = rw (e, placed) refl

at-IsRanked : (p : ClaimPool) (k : Bytes) → IsPool p → IsRanked (at k p.by_key)
at-IsRanked p k i = elim (Option-cases (lookup k p.by_key)) [
  | inl e ↦ rw (at-none k p.by_key e) tt
  | inr (ms, e) ↦ rw (at-some k ms p.by_key e) ((lookup-All IsMembers k ms p.by_key i.members e).1)
]

-- The pool that `join` makes before it evicts.
join-cases :
    (p : ClaimPool) (k : Bytes) (pc : PooledClaim) (members : List PooledClaim) (dropped : ℕ)
    → has_hash pc.h (at k p.by_key) ≡ false
    → place pc (at k p.by_key) ≡ some (members, dropped)
    → IsPool (record p { by_key = insert k members p.by_key; bytes = p.bytes - dropped + pc.size })
    → IsPool (join p k pc).0
unfolding join evict_over_budget
join-cases p k pc members dropped fresh e i = elim (Option-cases (lookup k p.by_key)) [
  | inl f ↦ rw (fresh, e, f, join) (evict_from-IsPool k _ _ (IsPool-same _ _ refl refl i))
  | inr (old, f) ↦ rw (fresh, e, f, join) i
]

pub join-IsPool : (p : ClaimPool) (k : Bytes) (pc : PooledClaim) → IsPool p → IsPool (join p k pc).0
join-IsPool p k pc i = elim (Bool-cases (has_hash pc.h (at k p.by_key))) [
  | inl e ↦ unfold join in (rw e i)
  | inr e ↦ elim (Option-cases (place pc (at k p.by_key))) [
    | inl f ↦ unfold join in (rw (e, f) i)
    | inr ((members, dropped), f) ↦
        let ranked = at-IsRanked p k i in
        let (nonempty, sum, leaves) = place-sizes pc (at k p.by_key) members dropped ranked f in
        let new : IsRanked members =
          subst (λ ms. IsRanked ms) (placed_some pc (at k p.by_key) members dropped f)
            (place-IsRanked pc (at k p.by_key) ranked) in
        join-cases p k pc members dropped e f (
          set-IsPool p _ k members i (nonempty, new) refl
            (omega (arith, sum, leaves, i.budget, total-delete k p.by_key)))
  ]
]
