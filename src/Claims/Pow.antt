-- ===== src/Claims/Pow.antt =====
-- internal/crypto/crypto.go: LeadingZeroBits, MeetsDifficulty, PoWHash and MinePoW. A number of bits
-- is an `int`, and may be negative. What `crypto/rand` reads in the round i is a parameter, `none`
-- for its error.
pub mod Value
use freens.Prelude.{
  ℕ, zero, suc, ◌+◌, ◌-◌, Bool, true, false, leb, ltb, ◌==◌, List, [], ◌∷◌, ◌++◌, Bytes, Option,
  none, some, Result, ok, err, ◌>>=◌, ◌>>◌, require, if◌then◌else◌, ℤ,
}
use freens.Ids.{bit_len_u8}

pub data MineError : Type 0 where
  negative_difficulty negative_nonce_size no_randomness exhausted : MineError

-- `bitLenU8` is the same loop in crypto.go and in dht/ids.go.
unfoldable pub leading_zero_bits : Bytes → ℕ
leading_zero_bits [] = 0
leading_zero_bits (b ∷ bs) = elim (b == 0) [
  | true ↦ 8 + leading_zero_bits bs
  | false ↦ 8 - bit_len_u8 b
]

unfoldable pub meets_difficulty : Bytes → ℤ → Bool
meets_difficulty digest (ℤ.pos d) = leb d (leading_zero_bits digest)
meets_difficulty digest (ℤ.negsuc d) = true

unfoldable pub pow_hash : (Bytes → Bytes) → Bytes → Bytes → Bytes
pow_hash sha256 prefix nonce = sha256 (prefix ++ nonce)

unfoldable pub clamp_difficulty_byte : ℕ → ℕ
clamp_difficulty_byte difficulty_bits = if ltb 255 difficulty_bits then 255 else difficulty_bits

-- The nonce of one attempt: the difficulty byte and the random tail, or nothing for the size 0.
unfoldable pub attempt_nonce : ℕ → ℕ → Bytes → Bytes
attempt_nonce difficulty_bits zero tail = []
attempt_nonce difficulty_bits (suc tail_len) tail = clamp_difficulty_byte difficulty_bits ∷ tail

module _ (sha256 : Bytes → Bytes) (read : ℕ → ℕ → Option Bytes) where
  -- The loop of MinePoW, on the rounds that are left; `i` counts those made.
  unfoldable pub mine_loop : Bytes → ℕ → ℕ → ℕ → ℕ → Result MineError (Bytes × Bytes)
  unfolding attempt_nonce
  mine_loop prefix difficulty_bits nonce_size zero i = err MineError.exhausted
  mine_loop prefix difficulty_bits nonce_size (suc rounds) i = elim (read i (nonce_size - 1)) [
    | none ↦ err MineError.no_randomness
    | some tail ↦
        let nonce = attempt_nonce difficulty_bits nonce_size tail in
        elim (meets_difficulty (pow_hash sha256 prefix nonce) (ℤ.pos difficulty_bits)) [
          | true ↦ ok (nonce, pow_hash sha256 prefix nonce)
          | false ↦ mine_loop prefix difficulty_bits nonce_size rounds (i + 1)
        ]
  ]

  unfoldable pub mine_pow : Bytes → ℤ → ℕ → ℤ → Result MineError (Bytes × Bytes)
  mine_pow prefix (ℤ.negsuc d) max_iters nonce_size = err MineError.negative_difficulty
  mine_pow prefix (ℤ.pos d) max_iters (ℤ.negsuc n) = err MineError.negative_nonce_size
  mine_pow prefix (ℤ.pos d) max_iters (ℤ.pos n) = mine_loop prefix d n max_iters 0
