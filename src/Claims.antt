-- ===== src/Claims.antt =====
-- internal/claims/claims.go: alias claims, their proof of work and their witnesses (§7), with the
-- functions of internal/crypto/crypto.go that they call.
pub mod Pow
pub mod Attestation
pub mod Claim
pub mod Quorum
pub mod Order
pub mod Pool
pub mod Tombstone
