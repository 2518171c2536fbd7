-- ===== src/Difficulty/Bounds.antt =====
-- The states that the operations reach, and the difficulty that they advise.
use freens.Prelude.{
  ℕ, zero, suc, ◌+◌, ◌-◌, ◌/◌, ◌≤◌, ◌<◌, ◌≡◌, refl, false, ltb, ◌==◌, List, [], ◌∷◌, ◌++◌, length,
  length-drop, All, All-append, All-drop, get_elem?, none, some, ℤ, arith, Bool-cases, inl, inr,
}
use freens.Difficulty.{
  DifficultyState, DifficultyStateJson, new_difficulty_state, record_accepted, in_bounds,
  last_observed, observe, insert_int, sort_ints, median_observed, network_difficulty, keep_bounded,
  restored_current, restored_accepted, restore,
}
use freens.Difficulty.Retarget.{retarget_difficulty_mono}

abbrev pub InBounds : ℕ → Type 0
InBounds v = (24 ≤ v) × (v ≤ 256)

-- A difficulty of 24 at least, less than a block of claims accepted, and eight observed difficulties
-- at most, each from 24 to 256.
pub record IsState (d : DifficultyState) : Type 0 where
  pub low : 24 ≤ d.current
  pub block : d.accepted < 256
  pub ring : length d.observed ≤ 8
  pub each : All InBounds d.observed

-- The states of a node: one step for each method that changes it, with whatever arguments.
pub data Reachable : DifficultyState → Type 0 where
  start : (now : ℕ) → Reachable (new_difficulty_state now)
  accept : {d : DifficultyState} → Reachable d → (now : ℕ) → Reachable (record_accepted d now)
  see : {d : DifficultyState} → Reachable d → (v : ℤ) → Reachable (observe d v)
  load : {d : DifficultyState} → Reachable d → (j : DifficultyStateJson) → Reachable (restore d j)

record_accepted-IsState :
    (d : DifficultyState) (now : ℕ) → IsState d → IsState (record_accepted d now)
unfolding record_accepted
record_accepted-IsState d now k =
    let moved =
      retarget_difficulty_mono d.current (now - d.block_start) (now - d.block_start) 153600
        (omega arith) k.low in
    ground (arith, moved)

last_observed-ring :
    (vs : List ℕ)
    → All InBounds vs
    → (length (last_observed vs) ≤ 8) × All InBounds (last_observed vs)
unfolding last_observed
last_observed-ring vs h =
    (omega (arith, length-drop {0} (length vs - 8) vs), All-drop InBounds (length vs - 8) vs h)

observe-IsState : (d : DifficultyState) (v : ℤ) → IsState d → IsState (observe d v)
unfolding observe
observe-IsState d (ℤ.negsuc v) k = k
observe-IsState d (ℤ.pos v) k = elim (Bool-cases (in_bounds (ℤ.pos v))) [
  | inr e ↦ rw (e, observe) k
  | inl e ↦
      let inside : InBounds v = unfold in_bounds in ground arith in
      let (ring, each) =
        last_observed-ring (d.observed ++ (v ∷ []))
          (All-append InBounds d.observed (v ∷ []) k.each (inside, tt)) in
      rw (e, observe) (record { low = k.low; block = k.block; ring = ring; each = each })
]

keep_bounded-All : (vs : List ℤ) → All InBounds (keep_bounded vs)
unfolding keep_bounded
keep_bounded-All [] = tt
keep_bounded-All (ℤ.negsuc v ∷ vs) = keep_bounded-All vs
keep_bounded-All (ℤ.pos v ∷ vs) = elim (Bool-cases (in_bounds (ℤ.pos v))) [
  | inl e ↦ rw (e, keep_bounded) ((unfold in_bounds in ground arith), keep_bounded-All vs)
  | inr e ↦ rw (e, keep_bounded) (keep_bounded-All vs)
]

restored_current-low : (c : ℤ) → 24 ≤ restored_current c
unfolding restored_current in_bounds
restored_current-low (ℤ.pos c) = ground arith
restored_current-low (ℤ.negsuc c) = omega arith

restored_accepted-lt : (a : ℤ) → restored_accepted a < 256
unfolding restored_accepted
restored_accepted-lt (ℤ.pos a) = ground arith
restored_accepted-lt (ℤ.negsuc a) = omega arith

restore-IsState :
    (d : DifficultyState) (j : DifficultyStateJson) → IsState d → IsState (restore d j)
unfolding restore
restore-IsState d j k =
    let (ring, each) = last_observed-ring (keep_bounded j.observed) (keep_bounded-All j.observed) in
    elim (Bool-cases (length j.observed == 0)) [
      | inl e ↦
          rw (e, restore)
            (record {
              low = restored_current-low j.current;
              block = restored_accepted-lt j.accepted;
              ring = k.ring;
              each = k.each;
            })
      | inr e ↦
          rw (e, restore)
            (record {
              low = restored_current-low j.current;
              block = restored_accepted-lt j.accepted;
              ring = ring;
              each = each;
            })
    ]

pub Reachable-IsState : {d : DifficultyState} → Reachable d → IsState d
unfolding new_difficulty_state
Reachable-IsState (start now) = record {
  low = omega arith;
  block = omega arith;
  ring = omega arith;
  each = tt;
}
Reachable-IsState (accept r now) = record_accepted-IsState _ now (Reachable-IsState r)
Reachable-IsState (see r v) = observe-IsState _ v (Reachable-IsState r)
Reachable-IsState (load r j) = restore-IsState _ j (Reachable-IsState r)

insert_int-All :
    (v : ℕ) (vs : List ℕ) → InBounds v → All InBounds vs → All InBounds (insert_int v vs)
unfolding insert_int
insert_int-All v [] h g = (h, tt)
insert_int-All v (w ∷ ws) h g = elim (Bool-cases (ltb w v)) [
  | inl e ↦ rw (e, insert_int) (g.0, insert_int-All v ws h g.1)
  | inr e ↦ rw (e, insert_int) (h, g)
]

sort_ints-All : (vs : List ℕ) → All InBounds vs → All InBounds (sort_ints vs)
unfolding sort_ints
sort_ints-All [] g = tt
sort_ints-All (v ∷ vs) g = insert_int-All v (sort_ints vs) g.0 (sort_ints-All vs g.1)

All-get_elem? : (vs : List ℕ) (i v : ℕ) → All InBounds vs → get_elem? vs i ≡ some v → InBounds v
All-get_elem? [] i v g h = cc
All-get_elem? (w ∷ ws) zero v g h = let same : w ≡ v = cc in ground arith
All-get_elem? (w ∷ ws) (suc i) v g h = All-get_elem? ws i v g.1 h

insert_int-length : (v : ℕ) (vs : List ℕ) → length (insert_int v vs) ≡ length vs + 1
unfolding insert_int
insert_int-length v [] = omega arith
insert_int-length v (w ∷ ws) = ground (arith, insert_int-length v ws)

sort_ints-length : (vs : List ℕ) → length (sort_ints vs) ≡ length vs
unfolding sort_ints
sort_ints-length [] = refl
sort_ints-length (v ∷ vs) = omega (arith, insert_int-length v (sort_ints vs), sort_ints-length vs)

some_at : (vs : List ℕ) (i : ℕ) → i < length vs → (v : ℕ) × (get_elem? vs i ≡ some v)
some_at [] i h = absurd (omega arith)
some_at (v ∷ vs) zero h = (v, refl)
some_at (v ∷ vs) (suc i) h = some_at vs i (omega arith)

-- Where something has been observed, the median is one from 24 to 256.
median_observed-InBounds :
    (d : DifficultyState)
    → IsState d
    → 0 < length d.observed
    → (v : ℕ) × (median_observed d ≡ some v) × InBounds v
unfolding median_observed
median_observed-InBounds d k pos =
    let sorted = sort_ints d.observed in
    let nonempty : (length d.observed == 0) ≡ false = ground arith in
    let (v, found) =
      some_at sorted ((length d.observed - 1) / 2)
        (omega (arith, sort_ints-length d.observed, pos)) in
    (
      v,
      rw (nonempty, median_observed) found,
      All-get_elem? sorted _ v (sort_ints-All d.observed k.each) found,
    )

-- In every state that a node reaches, its difficulty is 24 at least, less than a block of accepted
-- claims is counted, the ring holds eight difficulties at most, each from 24 to 256, and the
-- difficulty for claimants is 24 at least; it is 256 at most where anything has been observed.
pub network_difficulty_bounds :
    {d : DifficultyState}
    → Reachable d
    → IsState d × (24 ≤ network_difficulty d) × (0 < length d.observed → network_difficulty d ≤ 256)
unfolding network_difficulty median_observed
network_difficulty_bounds {d} r =
    let k = Reachable-IsState r in
    (
      k,
      elim (Bool-cases (length d.observed == 0)) [
        | inl e ↦
            let missing : median_observed d ≡ none = ground (arith, e) in
            rw (missing, network_difficulty) k.low
        | inr ne ↦
            let (v, med, (lo, hi)) = median_observed-InBounds d k (ground arith) in
            rw (med, network_difficulty) lo
      ],
      λ pos.
          let (v, med, (lo, hi)) = median_observed-InBounds d k pos in
          rw (med, network_difficulty) hi,
    )
