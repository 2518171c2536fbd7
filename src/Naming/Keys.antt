-- ===== src/Naming/Keys.antt =====
-- DHTKeyTld, DHTKeyName and DHTKeyClaim of internal/naming/naming.go, over a hash function.
use freens.Prelude.{◌==◌, [], ◌∷◌, ◌++◌, length, Bytes, Result, ok, ◌>>=◌, ◌>>◌, require}
use freens.Naming.Text.{Unicode}
use freens.Naming.Labels.{NamingError, Normalizer, validate_alias}
use freens.Naming.Wire.{sha256_len}

-- "claim:"
abbrev pub claim_tag : Bytes
claim_tag = b'c' ∷ b'l' ∷ b'a' ∷ b'i' ∷ b'm' ∷ b':' ∷ []

unfoldable pub dht_key_tld : Bytes → Result NamingError Bytes
dht_key_tld tld_id = do require (length tld_id == sha256_len) NamingError.bad_tld_id; ok tld_id

-- `sha256` is SHA-256 of the standard library.
module _ (sha256 : Bytes → Bytes) where
  unfoldable pub dht_key_name : Bytes → Bytes
  dht_key_name wire_name = sha256 (0x02 ∷ wire_name)

  unfoldable pub dht_key_claim : Unicode → Normalizer → Bytes → Result NamingError Bytes
  dht_key_claim u idna alias = do
    a ← validate_alias u idna alias
    ok (sha256 (0x03 ∷ (claim_tag ++ a)))
