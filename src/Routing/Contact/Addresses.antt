-- ===== src/Routing/Contact/Addresses.antt =====
-- The addresses of a contact: no address twice, and at most four, whatever mergeAddr folds in.
use freens.Prelude.{
  ℕ, zero, suc, ◌+◌, ◌-◌, ◌≤◌, ◌<◌, ◌≡◌, refl, sym, ap, ltb, List, [], ◌∷◌, ◌++◌, length, Bytes,
  bytes_eq, bytes_eq_refl, none, some, arith, Member, Distinct, Distinct-remove_at, Distinct-snoc,
  remove_at, Member-remove_at, ltb→lt, length-remove_at, Option-cases, Bool-cases, inl, inr,
}
use mathlib.Core.Path.{subst}
use mathlib.Core.List.{map-append}
use freens.Routing.Contact.Repoint.{
  addrs_of, addresses, IsTidy, addrs-remove_at, repoint_preferred-IsTidy,
}
use freens.Routing.Contact.{
  AddrState, NodeContact, max_addrs_per_contact, oldest_from, oldest, trim_loop, trim_alts,
  update_alt, merge_addr,
}

oldest_from-lt :
    (i best low : ℕ) (alts : List AddrState)
    → best < i
    → oldest_from i best low alts < i + length alts
unfolding oldest_from
oldest_from-lt i best low [] h = omega arith
oldest_from-lt i best low (a ∷ alts) h = elim (Bool-cases (ltb a.last_seen low)) [
  | inl e ↦ rw e (omega (arith, oldest_from-lt (suc i) i a.last_seen alts (omega arith)))
  | inr e ↦ rw e (omega (arith, oldest_from-lt (suc i) best low alts (omega arith)))
]

oldest-lt : (alts : List AddrState) → 1 ≤ length alts → oldest alts < length alts
unfolding oldest
oldest-lt [] h = absurd (omega arith)
oldest-lt (a ∷ alts) h = omega (arith, oldest_from-lt 1 0 a.last_seen alts (omega arith))

trim_loop-Distinct :
    (fuel : ℕ) (alts : List AddrState) (x : Bytes)
    → Distinct (x ∷ addrs_of alts)
    → length alts ≤ fuel
    → Distinct (x ∷ addrs_of (trim_loop fuel alts)) × (length (trim_loop fuel alts) ≤ 3)
unfolding trim_loop
trim_loop-Distinct zero alts x d h = (d, omega arith)
trim_loop-Distinct (suc fuel) alts x (new, d) h =
    elim (Bool-cases (ltb (max_addrs_per_contact - 1) (length alts))) [
      | inl long ↦
          let i = oldest alts in
          let few : 3 < length alts = ltb→lt 3 (length alts) long in
          let size = length-remove_at i alts (oldest-lt alts (omega arith)) in
          rw long (
            trim_loop-Distinct fuel (remove_at i alts) x
              (rw (addrs-remove_at i alts) (
                (λ m. new (Member-remove_at i (addrs_of alts) x m)),
                Distinct-remove_at i (addrs_of alts) d,
              ))
              (omega arith))
      | inr short ↦ rw short ((new, d), ground arith)
    ]

update_alt-addrs :
    (addr : Bytes) (ls ca : ℕ) (alts alts' : List AddrState)
    → update_alt addr ls ca alts ≡ some alts'
    → addrs_of alts' ≡ addrs_of alts
unfolding update_alt
update_alt-addrs addr ls ca [] alts' h = cc
update_alt-addrs addr ls ca (a ∷ rest) alts' h = elim (Bool-cases (bytes_eq a.addr addr)) [
  | inl e ↦ ground arith
  | inr e ↦ elim (Option-cases (update_alt addr ls ca rest)) [
    | inl f ↦ ground arith
    | inr (later, f) ↦
        let whole : a ∷ later ≡ alts' = ground arith in
        rw (← whole) (ap (◌∷◌ a.addr) (update_alt-addrs addr ls ca rest later f))
  ]
]

update_alt_absent :
    (addr : Bytes) (ls ca : ℕ) (alts : List AddrState)
    → update_alt addr ls ca alts ≡ none
    → ¬ Member addr (addrs_of alts)
unfolding update_alt
update_alt_absent addr ls ca [] h m = m
update_alt_absent addr ls ca (a ∷ rest) h m = elim (Bool-cases (bytes_eq a.addr addr)) [
  | inl e ↦ ground arith
  | inr e ↦ elim (Option-cases (update_alt addr ls ca rest)) [
    | inr (later, f) ↦ ground arith
    | inl f ↦ elim m [
      | inl q ↦ ground (arith, ap (λ t. bytes_eq t addr) q, bytes_eq_refl addr)
      | inr n ↦ update_alt_absent addr ls ca rest f n
    ]
  ]
]

length-addrs : (alts : List AddrState) → length (addrs_of alts) ≡ length alts
length-addrs [] = refl
length-addrs (a ∷ alts) = ap suc (length-addrs alts)

-- mergeAddr never stores an address twice, and never more than four.
pub merge_addr-IsTidy :
    (c : NodeContact) (addr : Bytes) (ls ca : ℕ) → IsTidy c → IsTidy (merge_addr c addr ls ca)
unfolding merge_addr trim_alts
merge_addr-IsTidy c addr ls ca t = elim (Bool-cases (bytes_eq addr c.addr)) [
  | inl e ↦ rw e t
  | inr other ↦ elim (Option-cases (update_alt addr ls ca c.alts)) [
    | inr (alts, e) ↦
        let same = update_alt-addrs addr ls ca c.alts alts e in
        rw (other, e, merge_addr)
          (repoint_preferred-IsTidy (record c { alts = alts })
            (record {
              distinct = subst (λ l. Distinct (c.addr ∷ l)) (sym same) t.distinct;
              bounded = omega (
                arith,
                t.bounded,
                ap (λ (l : List Bytes). length l) same,
                length-addrs alts,
                length-addrs c.alts,
              );
            }))
    | inl e ↦
        let a : AddrState = record { addr = addr; last_seen = ls; confirmed_at = ca } in
        let fresh : ¬ Member addr (addresses c) = λ m. elim m [
          | inl q ↦ ground (arith, ap (λ (x : Bytes). bytes_eq addr x) q, bytes_eq_refl addr)
          | inr n ↦ update_alt_absent addr ls ca c.alts e n
        ] in
        let apart : Distinct (c.addr ∷ addrs_of (c.alts ++ (a ∷ []))) =
          subst (λ l. Distinct (c.addr ∷ l)) (sym (map-append (λ x. x.addr) c.alts (a ∷ [])))
            (Distinct-snoc (addresses c) addr t.distinct fresh) in
        let (d, b) =
          trim_loop-Distinct (length (c.alts ++ (a ∷ []))) (c.alts ++ (a ∷ [])) c.addr apart
            (omega arith) in
        rw (other, e, merge_addr)
          (repoint_preferred-IsTidy (trim_alts (record c { alts = c.alts ++ (a ∷ []) }))
            (record { distinct = d; bounded = b }))
  ]
]
