-- ===== src/Routing/Nodes.antt =====
-- internal/dht/transport.go: encodeNodes and parseNodes, the lists of contacts in replies, with
-- advertiseableAddr, encodeNodeEntry, asUint64, hostOf and portOf.
pub mod RoundTrip
use freens.Prelude.{
  ℕ, suc, ◌+◌, ◌-◌, ◌^◌, Bool, true, false, ◌&&◌, ◌||◌, not, ltb, leb, ◌==◌, List, [], ◌∷◌, ◌++◌,
  length, Bytes, Option, none, some, ok, err, if◌then◌else◌, ℤ,
}
use freens.Routing.Contact.{NodeContact, AddrState, new_node_contact}

-- A value that the CBOR decoder yields within an entry. A float stands for what Go converts it to.
pub data Field : Type 0 where
  uint : ℕ → Field
  int : ℤ → Field
  float : ℕ → Field
  blob : Bytes → Field
  other : Field

-- A decoded list of entries; what is not an array is `none`.
abbrev pub Nodes : Type 0
Nodes = Option (List (Option (List Field)))

-- The functions of `net` and `strconv`: SplitHostPort, Atoi, whose error is ignored, ParseIP, which
-- yields 16 bytes, To4, IsUnspecified, String, FormatUint in base 10 and JoinHostPort.
pub record Net : Type 0 where
  pub split_host_port : Bytes → Option (Bytes × Bytes)
  pub atoi : Bytes → ℤ
  pub parse_ip : Bytes → Option Bytes
  pub to4 : Bytes → Option Bytes
  pub is_unspecified : Bytes → Bool
  pub ip_string : Bytes → Bytes
  pub format_uint : ℕ → Bytes
  pub join_host_port : Bytes → Bytes → Bytes

-- The conversion of an int64 to a uint64.
unfoldable pub to_uint64 : ℤ → ℕ
to_uint64 (ℤ.pos n) = n
to_uint64 (ℤ.negsuc n) = 2 ^ 64 - (n + 1)

unfoldable pub as_uint64 : Field → Option ℕ
unfolding to_uint64
as_uint64 (uint n) = some n
as_uint64 (int z) = some (to_uint64 z)
as_uint64 (float n) = some n
as_uint64 (blob b) = none
as_uint64 other = none

-- A port that the wire allows, from 1 to 65535.
unfoldable pub is_port : ℤ → Bool
is_port (ℤ.pos n) = ltb 0 n && leb n 65535
is_port (ℤ.negsuc n) = false

module _ (net : Net) where
  unfoldable pub host_of : Bytes → Bytes
  host_of addr = elim (net.split_host_port addr) [ none ↦ addr | some (h, p) ↦ h ]

  unfoldable pub port_of : Bytes → ℤ
  port_of addr = elim (net.split_host_port addr) [ none ↦ ℤ.pos 0 | some (h, p) ↦ net.atoi p ]

  unfoldable pub advertiseable_addr : Bytes → Bool
  unfolding is_port host_of port_of
  advertiseable_addr addr = is_port (port_of addr) && (elim (net.parse_ip (host_of addr)) [
    | none ↦ false
    | some ip ↦ not (net.is_unspecified ip)
  ])

  -- The bytes of the IP: four for IPv4, none where the host is no IP.
  unfoldable pub ip_bytes : Bytes → Bytes
  unfolding host_of
  ip_bytes addr = elim (net.parse_ip (host_of addr)) [
    | none ↦ []
    | some ip ↦ elim (net.to4 ip) [ none ↦ ip | some v4 ↦ v4 ]
  ]

  unfoldable pub encode_node_entry : Bytes → Bytes → Bytes → Option (List Field)
  unfolding ip_bytes port_of to_uint64
  encode_node_entry addr node_id pk =
      some (blob (ip_bytes addr) ∷ uint (to_uint64 (port_of addr)) ∷ blob node_id ∷ blob pk ∷ [])

  unfoldable pub encode_alts : NodeContact → List AddrState → List (Option (List Field))
  unfolding advertiseable_addr encode_node_entry
  encode_alts c [] = []
  encode_alts c (a ∷ alts) =
      let rest = encode_alts c alts in
      if advertiseable_addr a.addr
      then encode_node_entry a.addr c.node_id c.public_key ∷ rest
      else rest

  unfoldable pub encode_nodes : List NodeContact → List (Option (List Field))
  unfolding advertiseable_addr encode_node_entry encode_alts
  encode_nodes [] = []
  encode_nodes (c ∷ cs) =
      let rest = encode_alts c c.alts ++ encode_nodes cs in
      if advertiseable_addr c.addr
      then encode_node_entry c.addr c.node_id c.public_key ∷ rest
      else rest

  -- The contact of an entry with these fields, if it is one.
  unfoldable pub parse_fields : Bytes → ℕ → Bytes → Bytes → Option NodeContact
  unfolding new_node_contact
  parse_fields ip port node_id pk =
      if port == 0
        || ltb 65535 port
        || (not (length ip == 4) && not (length ip == 16))
        || net.is_unspecified ip
      then none
      else (elim (new_node_contact node_id pk
          (net.join_host_port (net.ip_string ip) (net.format_uint port)) 0) [
            | err e ↦ none
            | ok c ↦ some c
          ])

  unfoldable pub parse_node : Option (List Field) → Option NodeContact
  unfolding as_uint64 parse_fields
  parse_node (some (blob ip ∷ port ∷ blob node_id ∷ blob pk ∷ [])) = elim (as_uint64 port) [
    | none ↦ none
    | some n ↦ parse_fields ip n node_id pk
  ]
  parse_node _ = none

  -- The loop of parseNodes: malformed entries are skipped.
  unfoldable pub parse_entries : List (Option (List Field)) → List NodeContact
  unfolding parse_node
  parse_entries [] = []
  parse_entries (e ∷ es) = elim (parse_node e) [
    | none ↦ parse_entries es
    | some c ↦ c ∷ parse_entries es
  ]

  unfoldable pub parse_nodes : Nodes → List NodeContact
  unfolding parse_entries
  parse_nodes none = []
  parse_nodes (some es) = parse_entries es
