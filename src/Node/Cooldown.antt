-- ===== src/Node/Cooldown.antt =====
-- The cooldown of a witness (internal/dht/transport.go, hWitness).
pub mod Effect
pub mod Table
pub mod Spaced
