-- ===== src/Claims/Order/Least.antt =====
-- What SelectWinner returns among all claims, and that it depends on the set of claims only.
use freens.Prelude.{
  ◌≡◌, ◌⊎◌, ◌↔◌, inl, inr, refl, true, false, List, [], ◌∷◌, Option, none, some, Bool-cases,
  Option-cases, Member,
}
use freens.Claims.Claim.{AliasClaim, Setting}
use freens.Claims.Order.{less_order_key, structurally_and_pow_valid, select_from, select_winner}
use freens.Claims.Order.Key.{
  SameKey, less_order_key_asym, less_order_key_total, less_order_key_trans,
}

module _ (s : Setting) where
  -- The claim is among the valid ones, and no valid one has a smaller key.
  pub record IsLeast (claims : List AliasClaim) (a : AliasClaim) : Type 0 where
    pub member : Member a claims
    pub valid : structurally_and_pow_valid s a ≡ true
    pub least :
        (b : AliasClaim)
        → Member b claims
        → structurally_and_pow_valid s b ≡ true
        → less_order_key b a ≡ false

  -- What the loop returns: its variable at the start, or a valid claim, and the least of these.
  record Chosen (cs : List AliasClaim) (best : Option AliasClaim) (a : AliasClaim) : Type 0 where
    origin : (best ≡ some a) ⊎ (Member a cs × (structurally_and_pow_valid s a ≡ true))
    before : (b : AliasClaim) → best ≡ some b → less_order_key b a ≡ false
    least :
        (b : AliasClaim)
        → Member b cs
        → structurally_and_pow_valid s b ≡ true
        → less_order_key b a ≡ false

  less_order_key_irrefl : (a : AliasClaim) → less_order_key a a ≡ false
  less_order_key_irrefl a = elim (Bool-cases (less_order_key a a)) [
    | inl e ↦ less_order_key_asym a a e
    | inr e ↦ e
  ]

  -- The loop's variable after a valid claim: it has become the claim, or was not after it.
  take_claim :
      (c : AliasClaim) (cs : List AliasClaim) (best : Option AliasClaim) (a d : AliasClaim)
      → Chosen cs (some d) a
      → structurally_and_pow_valid s c ≡ true
      → ((d ≡ c) ⊎ (best ≡ some d))
      → less_order_key c d ≡ false
      → ((b : AliasClaim) → best ≡ some b → less_order_key b d ≡ false)
      → Chosen (c ∷ cs) best a
  take_claim c cs best a d rest ok_c from above other =
      let top = rest.before d refl in
      record {
        origin = elim rest.origin [
          | inl e ↦ elim from [ inl same ↦ inr (inl (cc), cc) | inr old ↦ inl (cc) ]
          | inr (m, v) ↦ inr (inr m, v)
        ];
        before = λ b e. less_order_key_trans a d b top (other b e);
        least = λ b m v. elim m [
          | inl e ↦ rw (← e) (less_order_key_trans a d c top above)
          | inr n ↦ rest.least b n v
        ];
      }

  select_from-Chosen :
      (cs : List AliasClaim) (best : Option AliasClaim) (a : AliasClaim)
      → select_from s cs best ≡ some a
      → Chosen cs best a
  unfolding select_from
  select_from-Chosen [] best a h = record {
    origin = inl h;
    before = λ b e. let same : b ≡ a = cc in rw same (less_order_key_irrefl a);
    least = λ b m v. elim m [ ];
  }
  select_from-Chosen (c ∷ cs) best a h = elim (Bool-cases (structurally_and_pow_valid s c)) [
    | inr e ↦
        let rest = select_from-Chosen cs best a (rw e at h) in
        record {
          origin = elim rest.origin [ inl o ↦ inl o | inr (m, v) ↦ inr (inr m, v) ];
          before = rest.before;
          least = λ b m v. elim m [ inl same ↦ cc | inr n ↦ rest.least b n v ];
        }
    | inl e ↦ elim (Option-cases best) [
      | inl no_best ↦
          take_claim c cs best a c (select_from-Chosen cs (some c) a (rw (e, no_best) at h)) e
            (inl refl) (less_order_key_irrefl c) (λ b f. cc)
      | inr (d, f) ↦ elim (Bool-cases (less_order_key c d)) [
        | inl l ↦
            take_claim c cs best a c (select_from-Chosen cs (some c) a (rw (e, f, l) at h)) e
              (inl refl) (less_order_key_irrefl c)
              (λ b g. let same : b ≡ d = cc in rw same (less_order_key_asym c d l))
        | inr l ↦
            take_claim c cs best a d (select_from-Chosen cs (some d) a (rw (e, f, l) at h)) e
              (inr f) l (λ b g. let same : b ≡ d = cc in rw same (less_order_key_irrefl d))
      ]
    ]
  ]

  -- The winner is a valid claim of the list, and no valid claim of the list has a smaller key.
  pub select_winner-IsLeast :
      (claims : List AliasClaim) (a : AliasClaim)
      → select_winner s claims ≡ some a
      → IsLeast claims a
  unfolding select_winner
  select_winner-IsLeast claims a h =
      let chosen = select_from-Chosen claims none a h in
      elim chosen.origin [
        | inl e ↦ cc
        | inr (m, v) ↦ record { member = m; valid = v; least = chosen.least }
      ]

  select_from-some :
      (cs : List AliasClaim) (b : AliasClaim)
      → (a : AliasClaim) × (select_from s cs (some b) ≡ some a)
  unfolding select_from
  select_from-some [] b = (b, refl)
  select_from-some (c ∷ cs) b = elim (Bool-cases (structurally_and_pow_valid s c)) [
    | inr e ↦ rw e (select_from-some cs b)
    | inl e ↦ elim (Bool-cases (less_order_key c b)) [
      | inl l ↦ rw (e, l) (select_from-some cs c)
      | inr l ↦ rw (e, l) (select_from-some cs b)
    ]
  ]

  select_winner-some :
      (cs : List AliasClaim) (b : AliasClaim)
      → Member b cs
      → structurally_and_pow_valid s b ≡ true
      → (a : AliasClaim) × (select_winner s cs ≡ some a)
  unfolding select_winner select_from
  select_winner-some [] b m v = elim m [ ]
  select_winner-some (c ∷ cs) b m v = elim (Bool-cases (structurally_and_pow_valid s c)) [
    | inl e ↦ rw e (select_from-some cs c)
    | inr e ↦ elim m [ inl same ↦ cc | inr n ↦ rw e (select_winner-some cs b n v) ]
  ]

  -- If a list of claims has a winner, then so has any list with the same claims, in whatever order
  -- and however often, and the two winners have the same timestamp, proof-of-work hash and TLD.
  pub select_winner_converges :
      (xs ys : List AliasClaim)
      → ((c : AliasClaim) → Member c xs ↔ Member c ys)
      → (a : AliasClaim) → select_winner s xs ≡ some a
      → (b : AliasClaim) × (select_winner s ys ≡ some b) × SameKey a b
  select_winner_converges xs ys same a h =
      let la = select_winner-IsLeast xs a h in
      let (b, k) = select_winner-some ys a ((same a).0 la.member) la.valid in
      let lb = select_winner-IsLeast ys b k in
      (
        b,
        k,
        less_order_key_total a b (lb.least a ((same a).0 la.member) la.valid)
            (la.least b ((same b).1 lb.member) lb.valid),
      )
