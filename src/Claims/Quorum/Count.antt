-- ===== src/Claims/Quorum/Count.antt =====
-- The loops that filter attestations and count their nodes.
use freens.Prelude.{
  ℕ, ◌+◌, ◌≤◌, ◌≡◌, ◌⊎◌, ◌↔◌, inl, inr, refl, sym, ap, ◌∙◌, Bool, true, leb, leb→le, List, [], ◌∷◌,
  length, Bytes, Option, if◌then◌else◌, Bool-cases, arith, Member, Distinct, pigeonhole,
}
use mathlib.Core.Path.{subst}
use freens.Wire.Recovery.{seen_key}
use freens.Wire.Recovery.Quorum.{seen_key-Member, Member-seen_key}
use freens.Claims.Attestation.{WitnessAttestation}
use freens.Claims.Quorum.{max_witness_evaluations, dedupe, keep, in_set, count_nodes}

pub keep-Member :
    (test : WitnessAttestation → Bool) (ws : List WitnessAttestation) (w : WitnessAttestation)
    → Member w (keep test ws)
    → Member w ws × (test w ≡ true)
unfolding keep
keep-Member test [] w m = elim m [ ]
keep-Member test (v ∷ ws) w m = elim (Bool-cases (test v)) [
  | inr e ↦ let (n, t) = keep-Member test ws w (rw e at m) in (inr n, t)
  | inl e ↦
      let m' : Member w (v ∷ keep test ws) = rw e at m in
      elim m' [
        | inl same ↦ (inl same, ap test (sym same) ∙ e)
        | inr n ↦ let (n', t) = keep-Member test ws w n in (inr n', t)
      ]
]

pub Member-keep :
    (test : WitnessAttestation → Bool) (ws : List WitnessAttestation) (w : WitnessAttestation)
    → Member w ws
    → test w ≡ true
    → Member w (keep test ws)
unfolding keep
Member-keep test [] w m t = elim m [ ]
Member-keep test (v ∷ ws) w (inl same) t =
    let e : test v ≡ true = ap test same ∙ t in rw e (inl same)
Member-keep test (v ∷ ws) w (inr n) t = elim (Bool-cases (test v)) [
  | inl e ↦ rw e (inr (Member-keep test ws w n t))
  | inr e ↦ rw e (Member-keep test ws w n t)
]

pub dedupe-Member :
    (ws : List WitnessAttestation) (seen : List Bytes) (w : WitnessAttestation)
    → Member w (dedupe ws seen)
    → Member w ws
unfolding dedupe
dedupe-Member [] seen w m = m
dedupe-Member (v ∷ ws) seen w m = elim (Bool-cases (seen_key v.node_id seen)) [
  | inl e ↦ inr (dedupe-Member ws seen w (rw e at m))
  | inr e ↦ elim (Bool-cases (leb max_witness_evaluations (length (v.node_id ∷ seen)))) [
    | inl full ↦
        let m' : Member w (v ∷ []) = rw (e, full) at m in
        elim m' [ inl same ↦ inl same | inr none_left ↦ absurd none_left ]
    | inr room ↦
        let m' : Member w (v ∷ dedupe ws (v.node_id ∷ seen)) = rw (e, room) at m in
        elim m' [ inl same ↦ inl same | inr n ↦ inr (dedupe-Member ws (v.node_id ∷ seen) w n) ]
  ]
]

-- The nodes of some attestations.
abbrev pub node_ids : List WitnessAttestation → List Bytes
node_ids [] = []
node_ids (w ∷ ws) = w.node_id ∷ node_ids ws

no_room : (ws : List WitnessAttestation) → length ws ≡ 0 → ws ≡ []
no_room [] h = refl
no_room (w ∷ ws) h = absurd (omega arith)

-- Below the cap, nothing is dropped from attestations of distinct nodes.
pub dedupe-Distinct :
    (ws : List WitnessAttestation) (seen : List Bytes)
    → Distinct (node_ids ws)
    → ((w : Bytes) → Member w (node_ids ws) → ¬ Member w seen)
    → length ws + length seen ≤ 16
    → dedupe ws seen ≡ ws
unfolding dedupe
dedupe-Distinct [] seen d new room = refl
dedupe-Distinct (v ∷ ws) seen (fresh, d) new room = elim (Bool-cases (seen_key v.node_id seen)) [
  | inl old ↦ absurd (new v.node_id (inl refl) (seen_key-Member v.node_id seen old))
  | inr e ↦ elim (Bool-cases (leb max_witness_evaluations (length (v.node_id ∷ seen)))) [
    | inl full ↦ rw (e, full) (ap (◌∷◌ v) (sym (no_room ws (ground arith))))
    | inr free ↦
        rw (e, free)
          (ap (◌∷◌ v) (
            dedupe-Distinct ws (v.node_id ∷ seen) d
              (λ k m. λ n. elim n [
                | inl same ↦ fresh (subst (λ t. Member t (node_ids ws)) (sym same) m)
                | inr old ↦ new k (inr m) old
              ])
              (omega arith)))
  ]
]

module _ (ids : Option (Bytes → Bool)) where
  -- A counted node has an attestation and is in the set.
  abbrev pub Counted : List WitnessAttestation → Bytes → Type 0
  Counted ws k = (w : WitnessAttestation) × Member w ws × (w.node_id ≡ k) × (in_set ids k ≡ true)

  abbrev next : WitnessAttestation → List Bytes → List Bytes
  next w counted =
      if in_set ids w.node_id
      then (if seen_key w.node_id counted then counted else w.node_id ∷ counted)
      else counted

  next-Distinct :
      (w : WitnessAttestation) (counted : List Bytes) → Distinct counted → Distinct (next w counted)
  next-Distinct w counted d = elim (Bool-cases (in_set ids w.node_id)) [
    | inr e ↦ rw e d
    | inl e ↦ elim (Bool-cases (seen_key w.node_id counted)) [
      | inl f ↦ rw (e, f) d
      | inr f ↦ rw (e, f) ((λ m. cc (Member-seen_key w.node_id counted m)), d)
    ]
  ]

  count_nodes-Distinct :
      (ws : List WitnessAttestation) (counted : List Bytes)
      → Distinct counted
      → Distinct (count_nodes ids ws counted)
  unfolding count_nodes
  count_nodes-Distinct [] counted d = d
  count_nodes-Distinct (w ∷ ws) counted d =
      count_nodes-Distinct ws (next w counted) (next-Distinct w counted d)

  next_sound :
      (w : WitnessAttestation) (counted : List Bytes) (k : Bytes)
      → Member k (next w counted)
      → Member k counted ⊎ ((w.node_id ≡ k) × (in_set ids k ≡ true))
  next_sound w counted k m = elim (Bool-cases (in_set ids w.node_id)) [
    | inr e ↦ inl (rw e at m)
    | inl e ↦ elim (Bool-cases (seen_key w.node_id counted)) [
      | inl f ↦ inl (rw (e, f) at m)
      | inr f ↦
          let m' : Member k (w.node_id ∷ counted) = rw (e, f) at m in
          elim m' [ inl same ↦ inr (same, ap (in_set ids) (sym same) ∙ e) | inr n ↦ inl n ]
    ]
  ]

  count_nodes_sound :
      (ws : List WitnessAttestation) (counted : List Bytes) (k : Bytes)
      → Member k (count_nodes ids ws counted)
      → Member k counted ⊎ Counted ws k
  unfolding count_nodes
  count_nodes_sound [] counted k m = inl m
  count_nodes_sound (w ∷ ws) counted k m = elim (count_nodes_sound ws (next w counted) k m) [
    | inr (v, n, same, s) ↦ inr (v, inr n, same, s)
    | inl before ↦ elim (next_sound w counted k before) [
      | inl old ↦ inl old
      | inr (same, s) ↦ inr (w, inl refl, same, s)
    ]
  ]

  next-keeps :
      (w : WitnessAttestation) (counted : List Bytes) (k : Bytes)
      → Member k counted
      → Member k (next w counted)
  next-keeps w counted k m = elim (Bool-cases (in_set ids w.node_id)) [
    | inr e ↦ rw e m
    | inl e ↦ elim (Bool-cases (seen_key w.node_id counted)) [
      | inl f ↦ rw (e, f) m
      | inr f ↦ rw (e, f) (inr m)
    ]
  ]

  count_nodes-keeps :
      (ws : List WitnessAttestation) (counted : List Bytes) (k : Bytes)
      → Member k counted
      → Member k (count_nodes ids ws counted)
  unfolding count_nodes
  count_nodes-keeps [] counted k m = m
  count_nodes-keeps (w ∷ ws) counted k m =
      count_nodes-keeps ws (next w counted) k (next-keeps w counted k m)

  next_complete :
      (w : WitnessAttestation) (counted : List Bytes)
      → in_set ids w.node_id ≡ true
      → Member w.node_id (next w counted)
  next_complete w counted e = elim (Bool-cases (seen_key w.node_id counted)) [
    | inl f ↦ rw (e, f) (seen_key-Member w.node_id counted f)
    | inr f ↦ rw (e, f) (inl refl)
  ]

  count_nodes_complete :
      (ws : List WitnessAttestation) (counted : List Bytes) (k : Bytes)
      → Counted ws k
      → Member k (count_nodes ids ws counted)
  unfolding count_nodes
  count_nodes_complete [] counted k (w, m, same, e) = elim m [ ]
  count_nodes_complete (v ∷ ws) counted k (w, inl f, same, e) =
      let own : v.node_id ≡ k = ap (λ (t : WitnessAttestation). t.node_id) f ∙ same in
      count_nodes-keeps ws (next v counted) k (
        subst (λ t. Member t (next v counted)) own
          (next_complete v counted (ap (in_set ids) own ∙ e)))
  count_nodes_complete (v ∷ ws) counted k (w, inr m, same, e) =
      count_nodes_complete ws (next v counted) k (w, m, same, e)

  -- The count reaches a number exactly when that many distinct nodes of the set attest.
  pub count_nodes_iff :
      (n : ℕ) (ws : List WitnessAttestation)
      → (leb n (length (count_nodes ids ws [])) ≡ true) ↔ (
          (ks : List Bytes) × Distinct ks
          × ((k : Bytes) → Member k ks → Counted ws k)
          × (n ≤ length ks))
  count_nodes_iff n ws = (
    λ h. (
      count_nodes ids ws [],
      count_nodes-Distinct ws [] tt,
      λ k m. elim (count_nodes_sound ws [] k m) [ inl old ↦ absurd old | inr c ↦ c ],
      leb→le _ _ h,
    ),
    λ (ks, d, all, le).
        let bound =
          pigeonhole ks (count_nodes ids ws []) d (λ k m. count_nodes_complete ws [] k (all k m)) in
        ground arith,
  )
