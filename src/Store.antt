-- ===== src/Store.antt =====
-- internal/dht/store.go, and the store's part of internal/dht/evidence.go and internal/dht/lookup.go.
pub mod Entries
pub mod Evidence
pub mod Envelopes
pub mod Maps
pub mod Budget
pub mod Limit
pub mod Operations
pub mod Runs
pub mod Landing
pub mod Cap
pub mod Takeover
