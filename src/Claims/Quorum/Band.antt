-- ===== src/Claims/Quorum/Band.antt =====
-- The corroboration band, for times that an int64 holds.
use freens.Prelude.{ℕ, ◌+◌, ◌^◌, ◌≤◌, ◌<◌, ◌≡◌, ◌↔◌, true, arith}
use freens.Claims.Quorum.{le64, add64, sub64, in_band}

-- A time is in the band from 60 seconds before a claim to 360 after it exactly as the numbers say.
pub in_band_iff :
    (claimed ts : ℕ)
    → 60 ≤ claimed
    → claimed + 360 < 2 ^ 63
    → ts < 2 ^ 63
    → (in_band (sub64 claimed 60) (add64 (add64 claimed 300) 60) ts ≡ true)
      ↔ ((claimed ≤ ts + 60) × (ts ≤ claimed + 360))
unfolding in_band le64 add64 sub64
in_band_iff claimed ts lo hi small = ground arith
