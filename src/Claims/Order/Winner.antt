-- ===== src/Claims/Order/Winner.antt =====
-- SelectWinner against OrderClaims: the winner is the first of the ordered claims.
use freens.Prelude.{
  ◌≡◌, inl, inr, refl, sym, ap, ◌∙◌, false, List, [], ◌∷◌, Option, none, some, arith, Bool-cases,
  All, if◌then◌else◌,
}
use mathlib.Core.List.{Perm}
use mathlib.Core.List.Perm
use freens.Claims.Claim.{AliasClaim, Setting}
use freens.Claims.Order.{
  less_order_key, insert_claim, sort_stable, structurally_and_pow_valid, select_from, select_winner,
  survivors, order_claims,
}
use freens.Claims.Order.Key.{less_order_key_asym, less_order_key_trans}

-- Each claim comes before none that precedes it.
abbrev pub NotAfter : AliasClaim → AliasClaim → Type 0
NotAfter c d = less_order_key d c ≡ false

abbrev pub IsOrdered : List AliasClaim → Type 0
IsOrdered [] = Unit
IsOrdered (c ∷ cs) = All (NotAfter c) cs × IsOrdered cs

All-mono :
    (c d : AliasClaim) (cs : List AliasClaim)
    → NotAfter c d
    → All (NotAfter d) cs
    → All (NotAfter c) cs
All-mono c d [] h a = tt
All-mono c d (e ∷ cs) h a = (less_order_key_trans c d e h a.0, All-mono c d cs h a.1)

insert_claim-All :
    (b c : AliasClaim) (cs : List AliasClaim)
    → NotAfter b c
    → All (NotAfter b) cs
    → All (NotAfter b) (insert_claim c cs)
unfolding insert_claim
insert_claim-All b c [] h a = (h, tt)
insert_claim-All b c (d ∷ ds) h a = elim (Bool-cases (less_order_key d c)) [
  | inl e ↦ rw e (a.0, insert_claim-All b c ds h a.1)
  | inr e ↦ rw e (h, a)
]

insert_claim-IsOrdered :
    (c : AliasClaim) (cs : List AliasClaim) → IsOrdered cs → IsOrdered (insert_claim c cs)
unfolding insert_claim
insert_claim-IsOrdered c [] o = (tt, tt)
insert_claim-IsOrdered c (d ∷ ds) o = elim (Bool-cases (less_order_key d c)) [
  | inl e ↦
      rw e
        (insert_claim-All d c ds (less_order_key_asym d c e) o.0, insert_claim-IsOrdered c ds o.1)
  | inr e ↦ rw e ((e, All-mono c d ds e o.0), o)
]

pub sort_stable-IsOrdered : (cs : List AliasClaim) → IsOrdered (sort_stable cs)
unfolding sort_stable
sort_stable-IsOrdered [] = tt
sort_stable-IsOrdered (c ∷ cs) =
    insert_claim-IsOrdered c (sort_stable cs) (sort_stable-IsOrdered cs)

insert_claim-perm : (c : AliasClaim) (cs : List AliasClaim) → Perm (insert_claim c cs) (c ∷ cs)
unfolding insert_claim
insert_claim-perm c [] = Perm.rfl
insert_claim-perm c (d ∷ ds) = elim (Bool-cases (less_order_key d c)) [
  | inl e ↦ rw e (Perm.trans (Perm.cons d (insert_claim-perm c ds)) (Perm.swap c d ds))
  | inr e ↦ rw e Perm.rfl
]

pub sort_stable-perm : (cs : List AliasClaim) → Perm (sort_stable cs) cs
unfolding sort_stable
sort_stable-perm [] = Perm.rfl
sort_stable-perm (c ∷ cs) =
    Perm.trans (insert_claim-perm c (sort_stable cs)) (Perm.cons c (sort_stable-perm cs))

abbrev pub head : List AliasClaim → Option AliasClaim
head [] = none
head (c ∷ cs) = some c

-- The first of two claims, the earlier one in the list where the order does not tell them apart.
abbrev better : AliasClaim → Option AliasClaim → Option AliasClaim
better b none = some b
better b (some d) = if less_order_key d b then some d else some b

head-insert_claim :
    (c : AliasClaim) (cs : List AliasClaim) → head (insert_claim c cs) ≡ better c (head cs)
unfolding insert_claim
head-insert_claim c [] = refl
head-insert_claim c (d ∷ ds) = ground arith

-- Taking the better of three does not depend on where one begins.
better_assoc :
    (b c : AliasClaim) (o : Option AliasClaim)
    → better b (better c o) ≡ better (if less_order_key c b then c else b) o
better_assoc b c none = ground arith
better_assoc b c (some d) = ground (
  arith,
  less_order_key_asym b c,
  less_order_key_asym c b,
  less_order_key_asym d c,
  less_order_key_asym c d,
  less_order_key_asym d b,
  less_order_key_trans b c d,
  less_order_key_trans d c b,
  less_order_key_trans b d c,
  less_order_key_trans c b d,
  less_order_key_trans c d b,
)

module _ (s : Setting) where
  select_from-better :
      (cs : List AliasClaim) (b : AliasClaim)
      → select_from s cs (some b) ≡ better b (head (order_claims s cs))
  unfolding select_from order_claims
  select_from-better [] b = refl
  select_from-better (c ∷ cs) b = elim (Bool-cases (structurally_and_pow_valid s c)) [
    | inr e ↦ rw e (select_from-better cs b)
    | inl e ↦ elim (Bool-cases (less_order_key c b)) [
      | inl l ↦
          rw (e, l)
            (select_from-better cs c
              ∙ sym (
                  ap (better b) (head-insert_claim c (order_claims s cs))
                  ∙ better_assoc b c (head (order_claims s cs))
                  ∙ rw l refl))
      | inr l ↦
          rw (e, l)
            (select_from-better cs b
              ∙ sym (
                  ap (better b) (head-insert_claim c (order_claims s cs))
                  ∙ better_assoc b c (head (order_claims s cs))
                  ∙ rw l refl))
    ]
  ]

  -- The claim that SelectWinner returns is the first of those that OrderClaims returns, and nil if
  -- there are none.
  pub select_winner-order_claims :
      (claims : List AliasClaim) → select_winner s claims ≡ head (order_claims s claims)
  unfolding select_winner order_claims
  select_winner-order_claims [] = refl
  select_winner-order_claims (c ∷ cs) = elim (Bool-cases (structurally_and_pow_valid s c)) [
    | inr e ↦ rw e (select_winner-order_claims cs)
    | inl e ↦ rw e (select_from-better cs c ∙ sym (head-insert_claim c (order_claims s cs)))
  ]

  -- OrderClaims returns the claims that pass the structural check and the proof of work, each as
  -- often as it occurs, and none of them after one with a greater key.
  pub order_claims_sorted :
      (claims : List AliasClaim)
      → Perm (order_claims s claims) (survivors s claims) × IsOrdered (order_claims s claims)
  unfolding order_claims
  order_claims_sorted claims =
      (sort_stable-perm (survivors s claims), sort_stable-IsOrdered (survivors s claims))
