-- ===== src/Tests/Difficulty.antt =====
-- The difficulty of a node of internal/dht/gossip.go after a few steps.
use freens.Prelude.{◌≤◌, ◌<◌, ◌≡◌, refl, length, ℤ}
use freens.Difficulty.{
  DifficultyState, retarget_difficulty, new_difficulty_state, record_accepted, observe,
  network_difficulty,
}
use freens.Difficulty.Bounds.{start, accept, see, IsState, network_difficulty_bounds}

-- log2 (153600 / 100000) is 0.62, and log2 (153600 / 1000000) is -2.7.
faster : retarget_difficulty 30 100000 153600 ≡ 31
unfolding retarget_difficulty
faster = refl

slower : retarget_difficulty 30 1000000 153600 ≡ 28
unfolding retarget_difficulty
slower = refl

abbrev seen : DifficultyState
seen = observe (observe (record_accepted (new_difficulty_state 5) 9) (ℤ.pos 30)) (ℤ.pos 7)

network_difficulty_bounds_example :
    IsState seen
    × (24 ≤ network_difficulty seen)
    × (0 < length seen.observed → network_difficulty seen ≤ 256)
network_difficulty_bounds_example =
    network_difficulty_bounds (see (see (accept (start 5) 9) (ℤ.pos 30)) (ℤ.pos 7))
