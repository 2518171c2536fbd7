-- ===== src/Difficulty.antt =====
-- internal/dht/gossip.go: difficultyState (Appendix A.4); internal/constants/constants.go:
-- RetargetDifficulty. Times are seconds and not negative; `none` for nil is left out, as a method of a
-- nil state does nothing.
pub mod Retarget
pub mod Bounds
use freens.Prelude.{
  ℕ, zero, suc, ◌+◌, ◌-◌, ◌*◌, ◌/◌, Bool, true, false, ◌&&◌, ◌||◌, not, ltb, leb, ◌==◌, List, [],
  ◌∷◌, ◌++◌, length, drop, get_elem?, Option, none, some, if◌then◌else◌, ℤ,
}

abbrev pub pow_difficulty_init : ℕ
pow_difficulty_init = 24

abbrev pub pow_retarget_block : ℕ
pow_retarget_block = 256

abbrev pub pow_target_interval : ℕ
pow_target_interval = 600

abbrev pub difficulty_ring_size : ℕ
difficulty_ring_size = 8

abbrev pub max_observed_difficulty : ℕ
max_observed_difficulty = 256

-- `d + clamp(round(log2(target / actual)), -2, 2)`. The rounded logarithm is k or more exactly where
-- the square of the quotient is 2 ^ (2 k - 1) or more; it is never equal, as 2 has no rational root,
-- and the rounding of the float does not reach the gap for the spans of a block.
unfoldable pub step : ℕ → ℕ → ℕ → ℕ
step d actual target =
    if leb (8 * (actual * actual)) (target * target)
    then d + 2
    else (if leb (2 * (actual * actual)) (target * target)
        then d + 1
        else (if leb (actual * actual) (2 * (target * target))
            then d
            else (if leb (actual * actual) (8 * (target * target)) then d - 1 else d - 2)))

abbrev pub floor : ℕ → ℕ
floor d = if ltb d pow_difficulty_init then pow_difficulty_init else d

-- A span that is not positive is 0.
unfoldable pub retarget_difficulty : ℕ → ℕ → ℕ → ℕ
unfolding step
retarget_difficulty d_old actual target =
    if target == 0
    then floor d_old
    else floor (if actual == 0 then d_old + 2 else step d_old actual target)

pub record DifficultyState : Type 0 where
  pub current : ℕ
  pub accepted : ℕ
  pub block_start : ℕ
  pub observed : List ℕ

unfoldable pub new_difficulty_state : ℕ → DifficultyState
new_difficulty_state now = record {
  current = pow_difficulty_init;
  accepted = 0;
  block_start = now;
  observed = [];
}

unfoldable pub record_accepted : DifficultyState → ℕ → DifficultyState
record_accepted d now =
    if leb pow_retarget_block (d.accepted + 1)
    then record d {
      current =
          retarget_difficulty d.current (now - d.block_start)
            (pow_retarget_block * pow_target_interval);
      block_start = now;
      accepted = 0;
    }
    else record d { accepted = d.accepted + 1 }

unfoldable pub in_bounds : ℤ → Bool
in_bounds (ℤ.pos v) = not (ltb v pow_difficulty_init) && not (ltb max_observed_difficulty v)
in_bounds (ℤ.negsuc v) = false

-- The last values of the ring.
unfoldable pub last_observed : List ℕ → List ℕ
last_observed vs = drop (length vs - difficulty_ring_size) vs

unfoldable pub observe : DifficultyState → ℤ → DifficultyState
observe d (ℤ.negsuc v) = d
observe d (ℤ.pos v) =
    if in_bounds (ℤ.pos v)
    then record d { observed = last_observed (d.observed ++ (v ∷ [])) }
    else d

-- `sort.Ints`
unfoldable pub insert_int : ℕ → List ℕ → List ℕ
insert_int v [] = v ∷ []
insert_int v (w ∷ ws) = let later = w ∷ insert_int v ws in if ltb w v then later else v ∷ w ∷ ws

unfoldable pub sort_ints : List ℕ → List ℕ
unfolding insert_int
sort_ints [] = []
sort_ints (v ∷ vs) = insert_int v (sort_ints vs)

unfoldable pub median_observed : DifficultyState → Option ℕ
unfolding sort_ints
median_observed d = elim (length d.observed == 0) [
  | true ↦ none
  | false ↦ get_elem? (sort_ints d.observed) ((length d.observed - 1) / 2)
]

unfoldable pub network_difficulty : DifficultyState → ℕ
unfolding median_observed
network_difficulty d = elim (median_observed d) [ some med ↦ med | none ↦ d.current ]

-- What a file holds: any numbers.
pub record DifficultyStateJson : Type 0 where
  pub current : ℤ
  pub accepted : ℤ
  pub block_start : ℕ
  pub observed : List ℤ

abbrev pub as_ints : List ℕ → List ℤ
as_ints [] = []
as_ints (v ∷ vs) = ℤ.pos v ∷ as_ints vs

unfoldable pub snapshot : DifficultyState → DifficultyStateJson
snapshot d = record {
  current = ℤ.pos d.current;
  accepted = ℤ.pos d.accepted;
  block_start = d.block_start;
  observed = as_ints d.observed;
}

unfoldable pub restored_current : ℤ → ℕ
restored_current (ℤ.negsuc c) = pow_difficulty_init
restored_current (ℤ.pos c) = if in_bounds (ℤ.pos c) then c else pow_difficulty_init

unfoldable pub restored_accepted : ℤ → ℕ
restored_accepted (ℤ.negsuc a) = 0
restored_accepted (ℤ.pos a) = if leb pow_retarget_block a then 0 else a

unfoldable pub keep_bounded : List ℤ → List ℕ
unfolding in_bounds
keep_bounded [] = []
keep_bounded (ℤ.negsuc v ∷ vs) = keep_bounded vs
keep_bounded (ℤ.pos v ∷ vs) = if in_bounds (ℤ.pos v) then v ∷ keep_bounded vs else keep_bounded vs

unfoldable pub restore : DifficultyState → DifficultyStateJson → DifficultyState
unfolding keep_bounded last_observed restored_current restored_accepted
restore d j = record {
  current = restored_current j.current;
  accepted = restored_accepted j.accepted;
  block_start = j.block_start;
  observed = if length j.observed == 0 then d.observed else last_observed (keep_bounded j.observed);
}
