-- ===== src/Routing/Contact/Repoint.antt =====
-- The addresses of a contact, and the change of the preferred one.
use freens.Prelude.{
  ℕ, zero, suc, ◌≤◌, ◌≡◌, refl, sym, ap, ◌∙◌, List, [], ◌∷◌, map, length, Bytes, Option, none, some,
  if◌then◌else◌, arith, Distinct, Distinct-swap, set, remove_at, get_elem?, drop, ◌⊎◌, length-set,
  Option-cases, Bool-cases, inl, inr,
}
use mathlib.Core.Path.{subst}
use freens.Routing.Contact.{
  AddrState, NodeContact, outranks, preferred, best_from, repoint, repoint_preferred_if_needed,
}

abbrev pub addrs_of : List AddrState → List Bytes
addrs_of = map (λ a. a.addr)

-- The addresses of a contact, the preferred one first.
abbrev pub addresses : NodeContact → List Bytes
addresses c = c.addr ∷ addrs_of c.alts

-- No address twice, and at most maxAddrsPerContact of them.
pub record IsTidy (c : NodeContact) : Type 0 where
  pub distinct : Distinct (addresses c)
  pub bounded : length c.alts ≤ 3

addrs-set :
    (alts : List AddrState) (i : ℕ) (a : AddrState)
    → addrs_of (set alts i a) ≡ set (addrs_of alts) i a.addr
addrs-set [] i a = refl
addrs-set (b ∷ alts) zero a = refl
addrs-set (b ∷ alts) (suc i) a = ap (◌∷◌ b.addr) (addrs-set alts i a)

pub addrs-remove_at :
    (i : ℕ) (alts : List AddrState) → addrs_of (remove_at i alts) ≡ remove_at i (addrs_of alts)
addrs-remove_at i [] = refl
addrs-remove_at zero (b ∷ alts) = refl
addrs-remove_at (suc i) (b ∷ alts) = ap (◌∷◌ b.addr) (addrs-remove_at i alts)

addrs-get_elem? :
    (alts : List AddrState) (i : ℕ) (a : AddrState)
    → get_elem? alts i ≡ some a
    → get_elem? (addrs_of alts) i ≡ some a.addr
addrs-get_elem? [] i a h = cc
addrs-get_elem? (b ∷ alts) zero a h = cc
addrs-get_elem? (b ∷ alts) (suc i) a h = addrs-get_elem? alts i a h

-- The place of an alternative that changes with the preferred address.
pub repoint-IsTidy :
    (c : NodeContact) (i : ℕ) (a old : AddrState)
    → get_elem? c.alts i ≡ some a
    → old.addr ≡ c.addr
    → IsTidy c
    → IsTidy (repoint c i a old)
repoint-IsTidy c i a old h e t = record {
  distinct =
      subst (λ l. Distinct (a.addr ∷ l))
        (sym (addrs-set c.alts i old ∙ ap (set (addrs_of c.alts) i) e))
        (Distinct-swap c.addr a.addr (addrs_of c.alts) i (addrs-get_elem? c.alts i a h) t.distinct);
  bounded = omega (arith, length-set c.alts i old, t.bounded);
}

drop-cons :
    {A : Type 0} (xs : List A) (i : ℕ) (b : A) (rest : List A)
    → drop i xs ≡ b ∷ rest
    → (get_elem? xs i ≡ some b) × (drop (suc i) xs ≡ rest)
drop-cons [] zero b rest h = cc
drop-cons [] (suc i) b rest h = cc
drop-cons (x ∷ xs) zero b rest h = ground arith
drop-cons (x ∷ xs) (suc i) b rest h = drop-cons xs i b rest h

abbrev next_best : AddrState → ℕ → AddrState → Option (ℕ × AddrState) → Option (ℕ × AddrState)
next_best cur i a best =
    if outranks a cur
    then (elim best [
      | none ↦ some (i, a)
      | some (j, b) ↦ if outranks a b then some (i, a) else some (j, b)
    ])
    else best

next_best-cases :
    (cur : AddrState) (i : ℕ) (a : AddrState) (best : Option (ℕ × AddrState))
    → (next_best cur i a best ≡ best) ⊎ (next_best cur i a best ≡ some (i, a))
next_best-cases cur i a none = elim (Bool-cases (outranks a cur)) [
  | inl e ↦ inr (rw e)
  | inr e ↦ inl (rw e)
]
next_best-cases cur i a (some (j, b)) = elim (Bool-cases (outranks a cur)) [
  | inr e ↦ inl (rw e)
  | inl e ↦ elim (Bool-cases (outranks a b)) [ inl f ↦ inr (rw (e, f)) | inr f ↦ inl (rw (e, f)) ]
]

-- What the loop of repointPreferredIfNeeded finds stands in the list at that index.
pub best_from-get_elem? :
    (cur : AddrState) (alts rest : List AddrState) (best : Option (ℕ × AddrState)) (i j : ℕ)
    (a : AddrState)
    → drop i alts ≡ rest
    → ((k : ℕ) (b : AddrState) → best ≡ some (k, b) → get_elem? alts k ≡ some b)
    → best_from cur i best rest ≡ some (j, a)
    → get_elem? alts j ≡ some a
unfolding best_from
best_from-get_elem? cur alts [] best i j a at known h = known j a h
best_from-get_elem? cur alts (b ∷ rest) best i j a at known h =
    let (here, after) = drop-cons alts i b rest at in
    best_from-get_elem? cur alts rest (next_best cur i b best) (suc i) j a after
      (λ k x e. elim (next_best-cases cur i b best) [
        | inl q ↦ known k x (sym q ∙ e)
        | inr q ↦ let same : (i ≡ k) × (b ≡ x) = ground arith in rw (← same.0, ← same.1) here
      ])
      h

pub repoint_preferred-IsTidy : (c : NodeContact) → IsTidy c → IsTidy (repoint_preferred_if_needed c)
unfolding repoint_preferred_if_needed
repoint_preferred-IsTidy c t = elim (Option-cases (best_from (preferred c) 0 none c.alts)) [
  | inl e ↦ rw (e, repoint_preferred_if_needed) t
  | inr ((i, a), e) ↦
      rw (e, repoint_preferred_if_needed)
        (repoint-IsTidy c i a (preferred c)
          (best_from-get_elem? (preferred c) c.alts c.alts none 0 i a refl (λ k b q. cc) e) refl t)
]
