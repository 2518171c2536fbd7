-- ===== src/Tests/Tokens.antt =====
-- A write token of internal/dht/tokens.go, issued in one epoch and shown in the next.
use freens.Prelude.{ℤ, ℕ, ◌≤◌, ◌≡◌, ◌↔◌, refl, true, ◌∷◌, ◌+◌, ◌++◌, Bytes, length, ok, arith}
use freens.Tokens.{TokenStore, new_token_store, epoch, secret_for_epoch, issue, verify_token}
use freens.Tokens.Accepted.{token_of, verify_token_iff}
use freens.Tests.Wire.Records.{text}

-- Hashes are the key and the text, one after the other.
abbrev hmac : Bytes → Bytes → Bytes
hmac k m = k ++ m

abbrev itoa : ℤ → Bytes
itoa (ℤ.pos n) = text n 8
itoa (ℤ.negsuc n) = b'-' ∷ text n 7

abbrev tokens : TokenStore
tokens = record { rotation_seconds = 300; root_secret = text 4 16 }

abbrev peer_ip : Bytes
peer_ip = text 9 8

run_new : new_token_store 300 (text 4 16) ≡ ok tokens
unfolding new_token_store
run_new = refl

run_size : length (issue hmac itoa tokens 299 peer_ip) ≡ 32
unfolding issue secret_for_epoch epoch
run_size = refl

run_order : epoch tokens 299 ≤ epoch tokens 301
unfolding epoch
run_order = omega arith

run_near : epoch tokens 301 ≤ epoch tokens 299 + 1
unfolding epoch
run_near = omega arith

verify_token_iff_example :
    (verify_token hmac itoa tokens 301 peer_ip (text 7 32) (ℤ.pos 1) ≡ true) ↔ (
      (length (text 7 32) ≡ 32)
      × ((i : ℕ) × (i ≤ 1) × (text 7 32 ≡ token_of hmac itoa tokens peer_ip (epoch tokens 301) i)))
verify_token_iff_example = verify_token_iff hmac itoa tokens peer_ip 301 1 (text 7 32)
