-- ===== src/Difficulty/Retarget.antt =====
-- The rule by which the difficulty moves.
use native.Mathlib.Nat.{mul-le-mul_right}
use freens.Prelude.{ℕ, ◌+◌, ◌*◌, ◌≤◌, arith}
use freens.Difficulty.{step, retarget_difficulty}

square_mono : (a b : ℕ) → a ≤ b → a * a ≤ b * b
square_mono a b h = omega (arith, mul-le-mul_right a h, mul-le-mul_right b h)

step_mono : (d a b t : ℕ) → a ≤ b → step d b t ≤ step d a t
unfolding step
step_mono d a b t h = ground (arith, square_mono a b h)

step_bounds : (d a t : ℕ) → (step d a t ≤ d + 2) × (d ≤ step d a t + 2)
unfolding step
step_bounds d a t = ground arith

-- A block that took longer never leads to a higher difficulty than a shorter one, a block moves a
-- difficulty of 24 or more by 2 at most, and never below 24.
pub retarget_difficulty_mono :
    (d a b t : ℕ)
    → a ≤ b
    → 24 ≤ d
    → (retarget_difficulty d b t ≤ retarget_difficulty d a t)
      × (retarget_difficulty d a t ≤ d + 2)
      × (d ≤ retarget_difficulty d a t + 2)
      × (24 ≤ retarget_difficulty d a t)
unfolding retarget_difficulty
retarget_difficulty_mono d a b t h low =
    ground (arith, step_mono d a b t h, step_bounds d a t, step_bounds d b t)
