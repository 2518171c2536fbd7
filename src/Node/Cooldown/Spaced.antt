-- ===== src/Node/Cooldown/Spaced.antt =====
-- Signatures of one witness for one alias (internal/dht/transport.go, hWitness).
use freens.Prelude.{
  ℕ, ◌+◌, ◌≤◌, ◌<◌, ◌≡◌, ◌⊎◌, refl, sym, ap, ◌∙◌, Bool, true, false, ltb, List, [], ◌∷◌, All,
  ltb→lt, Bytes, bytes_eq, bytes_eq→eq, some, ok, err, Bool-cases, inl, inr, arith, if_elim,
  if◌then◌else◌, Member,
}
use mathlib.Core.Path.{subst}
use freens.Naming.Labels.{validate_alias}
use freens.Claims.Tombstone.{claim_prefix_hash}
use freens.Store.Entries.{lookup}
use freens.Store.Maps.{lookup-All}
use freens.Node.{Node, WitnessSigned, Outside, Circumstances, Reply}
use freens.Node.Witness.{WitnessArgs, cooling, h_witness}
use freens.Node.Cooldown.Effect.{is_attested, Signs, h_witness-Effect}
use freens.Node.Cooldown.Table.{new, signed_now_self, signed_now_other, signed_now-All}

-- A signature given for an alias.
pub record Signature : Type 0 where
  pub alias : Bytes
  pub claimant : Bytes
  pub at : ℕ

-- Any two signatures for one alias are for one claimant or at least an hour apart; the list has the
-- later ones first.
abbrev pub Spaced : List Signature → Type 0
Spaced [] = Unit
Spaced (f ∷ log) =
    ((e : Signature)
      → Member e log
      → e.alias ≡ f.alias
      → (e.claimant ≡ f.claimant) ⊎ (e.at + 3600 ≤ f.at))
    × Spaced log

-- The claimant of a prefix hash is the only one: no two claims with different claimants have one
-- prefix hash.
abbrev pub IsBinding : Outside → Type 0
IsBinding o =
    (alias alias' tld tld' claimant claimant' ph : Bytes) (ts ts' : ℕ)
    → claim_prefix_hash o.setting alias tld claimant ts ≡ some ph
    → claim_prefix_hash o.setting alias' tld' claimant' ts' ≡ some ph
    → claimant ≡ claimant'

module _ (o : Outside) where
  -- The alias as the handler keeps it; empty if it does not validate.
  abbrev pub alias_of : WitnessArgs → Bytes
  alias_of m = elim (validate_alias o.setting.unicode o.setting.idna m.alias) [
    | ok a ↦ a
    | err e ↦ []
  ]

  -- The signatures given, with that of the last query if it was signed.
  abbrev pub logged : Circumstances → WitnessArgs → Reply → List Signature → List Signature
  logged t m r log =
      if is_attested r
      then record { alias = alias_of m; claimant = m.claimant; at = t.now } ∷ log
      else log

  -- The witness queries to a node that has signed nothing, with a clock that does not go back, the
  -- signatures given and the time of the last query.
  pub data WitnessRun : Node → List Signature → ℕ → Type 0 where
    started : (n : Node) (now : ℕ) → n.witness_last ≡ [] → WitnessRun n [] now
    asked :
        (n : Node) (log : List Signature) (last : ℕ) (t : Circumstances) (m : WitnessArgs)
        → WitnessRun n log last
        → last ≤ t.now
        → WitnessRun (h_witness o n t m).0 (logged t m (h_witness o n t m).1 log) t.now

  -- A signature that may still matter is remembered with its claimant.
  abbrev Remembered : List (Bytes × WitnessSigned) → ℕ → Signature → Type 0
  Remembered table now e =
      (e.at + 3600 ≤ now)
      ⊎ ((w : WitnessSigned) × (lookup e.alias table ≡ some w)
          × (w.claimant ≡ e.claimant)
          × (e.at ≤ w.at))

  -- What the table holds is a claim of its claimant.
  abbrev Bound : WitnessSigned → Type 0
  Bound w =
      (alias : Bytes) × (tld : Bytes) × (ts : ℕ) × (claim_prefix_hash o.setting alias tld w.claimant
          ts
        ≡ some w.prefix_hash)

  record IsWitness (n : Node) (log : List Signature) (last : ℕ) : Type 0 where
    past : (e : Signature) → Member e log → e.at ≤ last
    remembered : (e : Signature) → Member e log → Remembered n.witness_last last e
    bound : All (λ x. Bound x.1) n.witness_last
    spaced : Spaced log

  -- A signature that may still matter was for the claimant of this one.
  signed_for :
      (t : Circumstances) (m : WitnessArgs) (alias tld : Bytes) (ts : ℕ) (w : WitnessSigned)
      → IsBinding o
      → Bound w
      → claim_prefix_hash o.setting alias tld m.claimant ts ≡ some m.prefix_hash
      → cooling (some w) m t.now ≡ false
      → t.now < w.at + 3600
      → w.claimant ≡ m.claimant
  unfolding cooling
  signed_for t m alias tld ts w binding (alias', tld', ts', b) bound calm young =
      elim (Bool-cases (bytes_eq w.claimant m.claimant)) [
        | inl f ↦ bytes_eq→eq w.claimant m.claimant f
        | inr f ↦
            let same : bytes_eq w.prefix_hash m.prefix_hash ≡ true = ground (arith, f, young) in
            let hash = bytes_eq→eq w.prefix_hash m.prefix_hash same in
            binding alias' alias tld' tld w.claimant m.claimant m.prefix_hash ts' ts
              (b ∙ ap some hash) bound
      ]

  module _ (binding : IsBinding o) (n : Node) (log : List Signature) (last : ℕ)
      (i : IsWitness n log last) (t : Circumstances) (m : WitnessArgs) (r : Node × Reply)
      (onward : last ≤ t.now) where
    -- Of an earlier signature for the alias.
    against :
        (g : Signs o n t m r) (e : Signature)
        → Member e log
        → e.alias ≡ g.alias
        → (e.claimant ≡ m.claimant) ⊎ (e.at + 3600 ≤ t.now)
    against g e k same = elim (i.remembered e k) [
      | inl old ↦ inr (omega (arith, old))
      | inr (w, found, claimant, later) ↦
          let here : lookup g.alias n.witness_last ≡ some w =
            subst (λ a. lookup a n.witness_last ≡ some w) same found in
          elim (Bool-cases (ltb t.now (w.at + 3600))) [
            | inr f ↦ inr (ground (arith, later, f))
            | inl f ↦
                let calm : cooling (some w) m t.now ≡ false =
                  subst (λ x. cooling x m t.now ≡ false) here g.calm in
                let bound = lookup-All Bound g.alias w n.witness_last i.bound here in
                inl (
                  sym claimant
                  ∙ signed_for t m g.alias m.tld g.ts w binding bound g.bound calm
                      (ltb→lt t.now (w.at + 3600) f))
          ]
    ]

    still-Remembered :
        (g : Signs o n t m r) (e : Signature) → Member e log → Remembered r.0.witness_last t.now e
    still-Remembered g e k = elim (i.remembered e k) [
      | inl old ↦ inl (omega (arith, old))
      | inr (w, found, claimant, later) ↦ elim (Bool-cases (bytes_eq g.alias e.alias)) [
        | inl f ↦
            let same = sym (bytes_eq→eq g.alias e.alias f) in
            elim (against g e k same) [
              | inr old ↦ inl old
              | inl c ↦ inr (
                new n.witness_last g.alias m t.now,
                rw (g.noted, same) (signed_now_self n.witness_last g.alias m t.now),
                sym c,
                omega (arith, i.past e k),
              )
            ]
        | inr f ↦ elim (Bool-cases (ltb t.now (w.at + 3600))) [
          | inr old ↦ inl (ground (arith, later, old))
          | inl young ↦ inr (
            w,
            rw g.noted (
                signed_now_other n.witness_last g.alias m t.now e.alias w f
                  (ltb→lt t.now (w.at + 3600) young) found),
            claimant,
            later,
          )
        ]
      ]
    ]

    signed-IsWitness :
        (g : Signs o n t m r) (extra : Bool)
        → IsWitness r.0
            (if extra
              then record { alias = alias_of m; claimant = m.claimant; at = t.now } ∷ log
              else log)
            t.now
    signed-IsWitness g extra =
        let table : All (λ x. Bound x.1) r.0.witness_last = rw g.noted (
          signed_now-All n.witness_last g.alias m t.now Bound (g.alias, m.tld, g.ts, g.bound)
            i.bound) in
        let alias : alias_of m ≡ g.alias = rw (g.named, alias_of) refl in
        let signed : Signature = record { alias = alias_of m; claimant = m.claimant; at = t.now } in
        if_elim (λ l. IsWitness r.0 l t.now) extra (signed ∷ log) log
          (record {
            past = λ e k. elim k [
              | inl q ↦ subst (λ x. x.at ≤ t.now) q (omega arith)
              | inr l ↦ omega (arith, i.past e l)
            ];
            remembered = λ e k. elim k [
              | inl q ↦
                  subst (λ x. Remembered r.0.witness_last t.now x) q
                    (inr (
                      new n.witness_last g.alias m t.now,
                      rw (g.noted, alias) (signed_now_self n.witness_last g.alias m t.now),
                      refl,
                      omega arith,
                    ))
              | inr l ↦ still-Remembered g e l
            ];
            bound = table;
            spaced = ((λ e k same. against g e k (same ∙ alias)), i.spaced);
          })
          (record {
            past = λ e k. omega (arith, i.past e k);
            remembered = still-Remembered g;
            bound = table;
            spaced = i.spaced;
          })

    idle-IsWitness : r.0.witness_last ≡ n.witness_last → IsWitness r.0 log t.now
    idle-IsWitness e = record {
      past = λ f k. omega (arith, i.past f k);
      remembered = λ f k. elim (i.remembered f k) [
        | inl old ↦ inl (omega (arith, old))
        | inr found ↦ inr (rw e found)
      ];
      bound = rw e i.bound;
      spaced = i.spaced;
    }

  WitnessRun-IsWitness :
      (n : Node) (log : List Signature) (last : ℕ)
      → IsBinding o
      → WitnessRun n log last
      → IsWitness n log last
  WitnessRun-IsWitness _ _ _ binding (WitnessRun.started n now e) = record {
    past = λ f k. absurd k;
    remembered = λ f k. absurd k;
    bound = rw e tt;
    spaced = tt;
  }
  WitnessRun-IsWitness _ _ _ binding (WitnessRun.asked n log last t m run onward) =
      let i = WitnessRun-IsWitness n log last binding run in
      let r = h_witness o n t m in
      elim (h_witness-Effect o n t m) [
        | inl (same, refusal) ↦ rw refusal (idle-IsWitness binding n log last i t m r onward same)
        | inr g ↦ signed-IsWitness binding n log last i t m r onward g (is_attested r.1)
      ]

  -- Where no two claimants have claims with one prefix hash: over any sequence of queries for a
  -- signature to a witness that has signed nothing before, with a clock that does not go back, two
  -- signatures for one alias are for one claimant or at least 3600 seconds apart.
  pub WitnessRun-Spaced :
      (n : Node) (log : List Signature) (last : ℕ)
      → IsBinding o
      → WitnessRun n log last
      → Spaced log
  WitnessRun-Spaced n log last binding run = (WitnessRun-IsWitness n log last binding run).spaced
