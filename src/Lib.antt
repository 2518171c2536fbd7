-- ===== src/Lib.antt =====
-- freens is a naming system on a Kademlia network: names are TLDs certified by a key and labels
-- below them, records are signed envelopes, nodes keep the winning envelope of each key. The
-- models below follow the Go code of `internal/`.
--
-- Ids (internal/dht/ids.go): node IDs, CompareDistance and CommonPrefixLength on byte lists of
-- 32.
--
-- Naming (internal/naming/naming.go): Naming/Text has the string functions of Go that the code
-- calls, Naming/Labels has ValidateAlias, ValidateLabel and DecomposeName, Naming/Wire has
-- EncodeWireName and DecodeWireName, Naming/Keys has the keys of the DHT. Text is a list of
-- bytes; what `strings` does to text that is not ASCII is a parameter `Unicode`, the normalizer a
-- parameter `Normalizer`. DecodeWireName runs on a round for each byte and one more, which are
-- enough, as each round takes a byte at least.
--
-- Wire (internal/wire): Wire/Record has Record, SignedEnvelope, Validate and the signature
-- checks, Wire/Winner has EnvelopeWins and VerifyChainLink, Wire/Authority has
-- VerifyAuthorityChain, Wire/Recovery has VerifyRecovery (recovery.go), Wire/Handoff has the
-- walks of transfer.go and recovery_walk.go. SHA-256, Ed25519 and the CBOR codec are the fields
-- of the parameter `Platform`; fetching a predecessor or evidence is a function parameter. The
-- fuel of the walks is the code's own limit of 16 hops. uint64 sums wrap as in Go.
--
-- Routing (internal/dht/routing.go): Routing/Contact has a contact and its addresses,
-- Routing/Bucket has KBucket, Routing/Table has RoutingTable as a function from the index to the
-- bucket, and citizenNow of transport.go, Routing/Closest has Closest and its heap, whose loops
-- run on the index and on the length, which bound their rounds. The contacts are values: the code
-- holds pointers, and hands out clones. The loop of trimAlts runs on a round for each address, as
-- each round drops one.
--
-- Store (internal/dht/store.go, evidence.go, lookup.go): Store/Entries has the state of
-- EnvelopeStore, its maps as lists of keys and values, and the history; Store/Evidence has the
-- recovery evidence and who may recover; Store/Envelopes has PutWithEvidence, Get, Has, Remove
-- and the sweeps. Put and Get return the next store beside their result, and an error where the
-- code returns one, the store then being the old one. The lock makes each operation one step.
-- Times are seconds and not negative. The loops that evict run on a round for each entry, as each
-- round drops one.
--
-- Tokens (internal/dht/tokens.go): the rotating write tokens of TokenStore, over a hash function;
-- epochs are integers, as the tolerance may reach back below 0.
--
-- Claims (internal/claims/claims.go, internal/crypto/crypto.go): Claims/Pow has the difficulty of
-- a digest and the search for a nonce, Claims/Attestation a witness's attestation, Claims/Claim a
-- claim, its decoding and MineAliasClaim, Claims/Quorum the counting of witnesses and VerifyFull,
-- Claims/Order the order of claims and SelectWinner. The search runs on the code's own number of
-- rounds. An int64 is its bit pattern. A runtime panic on nil is the result `nil_dereference`.
--
-- Claims/Pool (internal/dht/claims_pool.go) has the pool that a storing node keeps, two claims to
-- a key, and its re-attestations; eviction runs on the list of keys. Claims/Pool/Sweep has Sweep,
-- whose loop runs on the map's entries.
--
-- Difficulty (internal/dht/gossip.go, internal/constants/constants.go): the retarget rule, in
-- whole numbers where the code rounds a logarithm, and the ring of observed difficulties. Times
-- are not negative, also the one that a snapshot holds.
--
-- Claims/Tombstone (internal/dht/claims_tombstone.go): ClaimEvidence, the reuse window of an
-- expired claim and the conflict with a live one, over what the pool offers; and the helpers of
-- transport.go for signatures to old claims.
--
-- Blacklist (internal/blacklist/blacklist.go): the ledger of provable violations. What a read of
-- its file yields is an argument; a failed write changes no result.
--
-- Node (internal/dht/transport.go): the local state of a node, Node/Put with hPut and putKeyFor,
-- Node/Get with hPing, hFindNode and hGet, Node/Witness with hWitness. They compose the routing
-- table, the store, the pool, the tokens, the ledger and the difficulty. The CBOR codecs, HMAC
-- and the generated table of top-level domains are the fields of the parameter `Outside`. What a
-- rate limiter answers is an argument, since it counts in floating point, and so are the clocks,
-- which are read once for a handler. The loop over the witnesses signed runs on the map's
-- entries.
--
-- Routing/Nodes (internal/dht/transport.go): encodeNodes and parseNodes over the parameter `Net`,
-- the functions of Go's packages net and strconv.
--
-- Naming/Reserved (internal/naming/reserved.go): the aliases that nobody may claim.
--
-- Store/Landing, Claims/Pool/Landing and Node/Landing are about the keys at which a put changes
-- the store and the pool.
--
-- Tests runs the models on concrete inputs.
--
-- Not modelled: sockets, files and goroutines (lookups, publishing, TURN, STUN, UPnP, web UI,
-- command line, certificates), the resolver and its cache, the files of the claim pool, and KRPC
-- messages.
pub mod Prelude
pub mod Ids
pub mod Naming
pub mod Wire
pub mod Routing
pub mod Store
pub mod Tokens
pub mod Claims
pub mod Difficulty
pub mod Blacklist
pub mod Node
pub mod Tests
