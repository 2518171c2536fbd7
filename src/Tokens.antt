-- ===== src/Tokens.antt =====
-- internal/dht/tokens.go: the write tokens of TokenStore. The clock's reading is an argument, in
-- seconds and not negative; HMAC-SHA256 and `strconv.Itoa` are functions of the standard library.
pub mod Accepted
use freens.Prelude.{
  ℕ, zero, suc, ◌+◌, ◌-◌, ◌/◌, Bool, false, ◌&&◌, ◌||◌, not, ltb, leb, ◌==◌, length, Bytes,
  bytes_eq, Result, ok, ℤ, ◌>>=◌, ◌>>◌, require, if◌then◌else◌,
}

-- Epochs go below 0 where the tolerance reaches back before the first.
unfoldable pub difference : ℕ → ℕ → ℤ
difference m n = if leb n m then ℤ.pos (m - n) else ℤ.negsuc (n - m - 1)

pub data TokenError : Type 0 where
  bad_rotation short_secret : TokenError

abbrev pub min_root_secret_len : ℕ
min_root_secret_len = 16

abbrev pub token_len : ℕ
token_len = 32

pub record TokenStore : Type 0 where
  pub rotation_seconds : ℕ
  pub root_secret : Bytes

-- A rotation that is not positive is 0.
unfoldable pub new_token_store : ℕ → Bytes → Result TokenError TokenStore
new_token_store rotation_seconds root_secret = do
  require (not (rotation_seconds == 0)) TokenError.bad_rotation
  require (not (ltb (length root_secret) min_root_secret_len)) TokenError.short_secret
  ok (record { rotation_seconds = rotation_seconds; root_secret = root_secret })

unfoldable pub epoch : TokenStore → ℕ → ℕ
epoch ts now = now / ts.rotation_seconds

module _ (hmac : Bytes → Bytes → Bytes) (itoa : ℤ → Bytes) where
  unfoldable pub secret_for_epoch : TokenStore → ℤ → Bytes
  secret_for_epoch ts e = hmac ts.root_secret (itoa e)

  unfoldable pub issue : TokenStore → ℕ → Bytes → Bytes
  issue ts now peer_ip = hmac (secret_for_epoch ts (ℤ.pos (epoch ts now))) peer_ip

  -- The loop of Verify: `left` more rounds after that of `off`.
  unfoldable pub verify_from : TokenStore → ℕ → Bytes → Bytes → ℕ → ℕ → Bool
  verify_from ts current peer_ip token off zero =
      bytes_eq (hmac (secret_for_epoch ts (difference current off)) peer_ip) token
  verify_from ts current peer_ip token off (suc left) =
      bytes_eq (hmac (secret_for_epoch ts (difference current off)) peer_ip) token
      || verify_from ts current peer_ip token (suc off) left

  unfoldable pub verify_token : TokenStore → ℕ → Bytes → Bytes → ℤ → Bool
  verify_token ts now peer_ip token (ℤ.negsuc n) = false
  verify_token ts now peer_ip token (ℤ.pos tolerance_epochs) =
      length token == token_len && verify_from ts (epoch ts now) peer_ip token 0 tolerance_epochs
