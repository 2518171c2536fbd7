-- ===== src/Naming.antt =====
-- internal/naming/naming.go: labels and aliases, name decomposition, the wire name and the DHT keys.
-- A Go string is the list of its bytes. The children hold the codec and the proofs.
pub mod Text
pub mod Labels
pub mod Wire
pub mod Keys
pub mod Reserved
