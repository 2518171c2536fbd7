-- ===== src/Tests/Claims/Pool.antt =====
-- A pool of two claims to which a third is offered.
use freens.Prelude.{
  All, arith, ◌+◌, ◌≡◌, refl, true, false, [], ◌∷◌, take, Bytes, Option, some, none, bytes_eq,
}
use freens.Naming.Text.{
  is_ascii, all_digits, is_all_digits, trim_left, trim_space, to_lower, has_prefix, has_suffix,
}
use freens.Naming.Labels.{all_ldh, check_ldh, normalize, validate_alias}
use freens.Ids.{bit_len_u8}
use freens.Wire.Record.{tld_id, record_hash}
use freens.Store.Entries.{lookup}
use freens.Claims.Attestation.{WitnessAttestation}
use freens.Claims.Pow.{leading_zero_bits, meets_difficulty, pow_hash}
use freens.Claims.Claim.{
  ClaimOf, AliasClaim, prefix, prefix_hash, infer_difficulty, infer_difficulty_of,
  effective_difficulty, verify_pow_from_prefix, verify_pow, verify_claimant_consistency,
  validate_witnesses, validate_claim, decode_alias_claim,
}
use freens.Claims.Order.{less_order_key, sort_stable}
use freens.Claims.Pool.{
  PooledClaim, ClaimPool, new_claim_pool, at, has_hash, screen, offer_seen, identity_first_seen,
  re_attest_eligible, sizes,
}
use freens.Claims.Pool.Top.{IsRanked, claims_of, offer_seen-sort_stable}
use freens.Claims.Pool.Stamp.{offer_seen-re_attest_eligible}
use freens.Claims.Pool.Sweep.{sweep}
use freens.Claims.Pool.Swept.{HasSum, in_window, sweep-in_window}
use freens.Claims.Pool.Budget.{IsPool}
use freens.Claims.Pool.Runs.{PoolRun, PoolRun-IsPool}
use freens.Tests.Wire.Records.{text, root}
use freens.Tests.Claims.Values.{setting, claim, later, prefix_bytes}

abbrev key : Bytes
key = text 3 32

-- What the codec makes of the claim of the envelope.
abbrev wired : ClaimOf (Option WitnessAttestation)
wired = record {
  alias = b'b' ∷ b'o' ∷ b'b' ∷ [];
  tld = text 1 32;
  timestamp = 500;
  nonce = [];
  claimant_pk = text 1 32;
  pow = prefix_bytes;
  witnesses = [];
}

abbrev offered : AliasClaim
offered = record claim { timestamp = 500; nonce = []; pow = prefix_bytes; witnesses = [] }

abbrev newcomer : PooledClaim
newcomer = record { env = root; claim = offered; h = 1 ∷ 1 ∷ text 0 30; size = 32 }

abbrev first : PooledClaim
first = record { env = root; claim = claim; h = 7 ∷ []; size = 1 }

abbrev second : PooledClaim
second = record { env = root; claim = later; h = 8 ∷ []; size = 1 }

abbrev pool : ClaimPool
pool = record new_claim_pool {
  by_key = (key, first ∷ second ∷ []) ∷ [];
  order = key ∷ [];
  bytes = 2;
}

passed : screen setting (λ raw. some wired) root ≡ some (newcomer, prefix_bytes)
unfolding screen decode_alias_claim validate_alias normalize check_ldh to_lower trim_space all_ldh
    has_prefix has_suffix is_all_digits validate_claim validate_witnesses
    verify_claimant_consistency tld_id bytes_eq verify_pow prefix effective_difficulty
    infer_difficulty infer_difficulty_of prefix_hash verify_pow_from_prefix leading_zero_bits
    meets_difficulty pow_hash bit_len_u8 all_digits is_ascii trim_left record_hash
passed = refl

held : lookup key pool.by_key ≡ some (first ∷ second ∷ [])
unfolding lookup bytes_eq
held = refl

fresh : has_hash newcomer.h (first ∷ second ∷ []) ≡ false
unfolding has_hash bytes_eq
fresh = refl

ranked : less_order_key second.claim first.claim ≡ false
unfolding less_order_key
ranked = refl

worse : less_order_key newcomer.claim second.claim ≡ false
unfolding less_order_key
worse = refl

unseen : identity_first_seen pool key prefix_bytes ≡ none
unfolding identity_first_seen lookup new_claim_pool
unseen = refl

offer_seen-sort_stable_example :
    (claims_of (at key (offer_seen setting (λ raw. some wired) pool key (some root) 600 0).0.by_key)
      ≡ take 2 (sort_stable (claim ∷ later ∷ offered ∷ [])))
    × IsRanked (at key (offer_seen setting (λ raw. some wired) pool key (some root) 600 0).0.by_key)
offer_seen-sort_stable_example =
    offer_seen-sort_stable setting (λ raw. some wired) pool key root 600 0 (first ∷ second ∷ [])
      newcomer prefix_bytes refl passed held fresh ranked

offer_seen-re_attest_eligible_example :
    ((offer_seen setting (λ raw. some wired) pool key (some root) 600 0).1 ≡ false)
    × ((offer_seen setting (λ raw. some wired) pool key (some root) 600 0).0.by_key ≡ pool.by_key)
    × (re_attest_eligible
          (offer_seen setting (λ raw. some wired) pool key (some root) 600 0).0
          key
          prefix_bytes
          (600 + 86400)
        ≡ true)
offer_seen-re_attest_eligible_example =
    offer_seen-re_attest_eligible setting (λ raw. some wired) pool key root 600 first second
      newcomer prefix_bytes refl passed held worse fresh unseen

-- An offer to a new pool, and a sweep long after.
abbrev offered_pool : ClaimPool
offered_pool = (offer_seen setting (λ raw. some wired) new_claim_pool key (some root) 600 0).0

PoolRun-IsPool_example : IsPool (sweep setting 9000000 offered_pool).0
PoolRun-IsPool_example =
    PoolRun-IsPool setting (λ raw. some wired) (sweep setting 9000000 offered_pool).0
      (PoolRun.swept offered_pool 9000000
        (PoolRun.offered new_claim_pool key (some root) 600 0 PoolRun.created))

-- A pool with a member that expired long ago and one that has not expired.
abbrev long_lived : PooledClaim
long_lived = record second { env = record root { body = record root.body { expires = 9500000 } } }

abbrev mixed_pool : ClaimPool
mixed_pool = record pool { by_key = (key, first ∷ long_lived ∷ []) ∷ [] }

mixed_pool-IsPool : IsPool mixed_pool
unfolding sizes
mixed_pool-IsPool = record {
  distinct = ((λ n. n), tt);
  members = ((omega arith, ranked), tt);
  budget = refl;
}

mixed_held : at key mixed_pool.by_key ≡ first ∷ long_lived ∷ []
unfolding lookup bytes_eq
mixed_held = refl

mixed-HasSum : All HasSum (at key mixed_pool.by_key)
mixed-HasSum = rw mixed_held (omega arith)

mixed_left : in_window 9000000 (first ∷ long_lived ∷ []) ≡ long_lived ∷ []
unfolding in_window
mixed_left = refl

sweep-in_window_example :
    at key (sweep setting 9000000 mixed_pool).0.by_key
    ≡ in_window 9000000 (at key mixed_pool.by_key)
sweep-in_window_example =
    sweep-in_window setting 9000000 key mixed_pool mixed_pool-IsPool mixed-HasSum
