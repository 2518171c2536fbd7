-- ===== src/Routing.antt =====
-- internal/dht/routing.go: contacts with several addresses, the k-buckets and the routing table.
-- Unix seconds are numbers; the code's int64 values are not negative.
pub mod Nodes
pub mod Contact
pub mod Bucket
pub mod Table
pub mod Closest
