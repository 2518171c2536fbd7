-- ===== src/Routing/Nodes/RoundTrip.antt =====
-- What a receiver makes of an encoded list of contacts (internal/dht/transport.go).
use freens.Prelude.{
  ◌≡◌, refl, arith, true, false, ◌&&◌, not, ltb, ◌==◌, List, [], ◌∷◌, ◌++◌, length, Bytes, Option,
  none, some, Option-cases, Bool-cases, inl, inr, All, ℤ, if◌then◌else◌,
}
use freens.Routing.Contact.{NodeContact, AddrState, new_node_contact}
use freens.Routing.Nodes.{
  Net, Field, to_uint64, is_port, host_of, port_of, advertiseable_addr, ip_bytes, encode_node_entry,
  encode_alts, encode_nodes, parse_fields, parse_node, parse_entries, parse_nodes,
}

module _ (net : Net) where
  -- What Go documents of these functions: To4 yields four bytes and leaves the unspecified address
  -- unspecified, an IP without them has 16, and JoinHostPort never yields the empty text.
  pub record IsNet : Type 0 where
    pub short : (h ip v4 : Bytes) → net.parse_ip h ≡ some ip → net.to4 ip ≡ some v4 → length v4 ≡ 4
    pub long : (h ip : Bytes) → net.parse_ip h ≡ some ip → net.to4 ip ≡ none → length ip ≡ 16
    pub alike :
        (h ip v4 : Bytes)
        → net.parse_ip h ≡ some ip
        → net.to4 ip ≡ some v4
        → net.is_unspecified v4 ≡ net.is_unspecified ip
    pub nonempty : (h p : Bytes) → (length (net.join_host_port h p) == 0) ≡ false

  -- The contact that a receiver learns: at the canonical text of the address, never confirmed.
  unfoldable pub learned : NodeContact → Bytes → NodeContact
  learned c addr = record {
    node_id = c.node_id;
    public_key = c.public_key;
    addr =
        net.join_host_port (net.ip_string (ip_bytes net addr))
          (net.format_uint (to_uint64 (port_of net addr)));
    last_seen = 0;
    confirmed_at = 0;
    first_seen = 0;
    alts = [];
  }

  -- One contact for each of these addresses that is an IP with a port.
  unfoldable pub learned_all : NodeContact → List Bytes → List NodeContact
  learned_all c [] = []
  learned_all c (a ∷ addrs) =
      let rest = learned_all c addrs in
      if advertiseable_addr net a then learned c a ∷ rest else rest

  unfoldable pub addrs_of : List AddrState → List Bytes
  addrs_of [] = []
  addrs_of (a ∷ alts) = a.addr ∷ addrs_of alts

  unfoldable pub heard : List NodeContact → List NodeContact
  heard [] = []
  heard (c ∷ cs) = learned_all c (c.addr ∷ addrs_of c.alts) ++ heard cs

  -- The ID and the key have 32 bytes each.
  abbrev pub IsKeyed : NodeContact → Type 0
  IsKeyed c = (length c.node_id ≡ 32) × (length c.public_key ≡ 32)

  is_port-bounds :
      (z : ℤ) → is_port z ≡ true → ((to_uint64 z == 0) ≡ false) × (ltb 65535 (to_uint64 z) ≡ false)
  unfolding is_port to_uint64
  is_port-bounds (ℤ.pos n) h = (ground arith, ground arith)
  is_port-bounds (ℤ.negsuc n) h = absurd (ground arith)

  ip_bytes_sound :
      IsNet
      → (addr : Bytes) → advertiseable_addr net addr ≡ true
      → ((not (length (ip_bytes net addr) == 4) && not (length (ip_bytes net addr) == 16)) ≡ false)
        × (net.is_unspecified (ip_bytes net addr) ≡ false)
  unfolding advertiseable_addr ip_bytes
  ip_bytes_sound laws addr h = elim (Option-cases (net.parse_ip (host_of net addr))) [
    | inl e ↦ absurd (ground (arith, e))
    | inr (ip, e) ↦ elim (Option-cases (net.to4 ip)) [
      | inl f ↦ let size = laws.long _ ip e f in (ground (arith, e, f, size), ground (arith, e, f))
      | inr (v4, f) ↦
          let size = laws.short _ ip v4 e f in
          let same = laws.alike _ ip v4 e f in
          (ground (arith, e, f, size), ground (arith, e, f, same))
    ]
  ]

  advertiseable_addr-port :
      (addr : Bytes) → advertiseable_addr net addr ≡ true → is_port (port_of net addr) ≡ true
  unfolding advertiseable_addr
  advertiseable_addr-port addr h = ground arith

  parse_node-encode_node_entry :
      IsNet
      → (c : NodeContact) (addr : Bytes) → IsKeyed c
      → advertiseable_addr net addr ≡ true
      → parse_node net (encode_node_entry net addr c.node_id c.public_key) ≡ some (learned c addr)
  unfolding parse_node encode_node_entry learned parse_fields new_node_contact
  parse_node-encode_node_entry laws c addr k h =
      let ip = ip_bytes net addr in
      let port = to_uint64 (port_of net addr) in
      let (positive, small) = is_port-bounds (port_of net addr) (advertiseable_addr-port addr h) in
      let (sized, specified) = ip_bytes_sound laws addr h in
      let text = laws.nonempty (net.ip_string ip) (net.format_uint port) in
      ground (arith, positive, small, sized, specified, text, k.0, k.1)

  encode_alts-learned :
      IsNet
      → (c : NodeContact) (alts : List AddrState) (rest : List (Option (List Field))) → IsKeyed c
      → parse_entries net (encode_alts net c alts ++ rest)
        ≡ learned_all c (addrs_of alts) ++ parse_entries net rest
  unfolding encode_alts learned_all addrs_of parse_entries
  encode_alts-learned laws c [] rest k = refl
  encode_alts-learned laws c (a ∷ alts) rest k = elim (Bool-cases (advertiseable_addr net a.addr)) [
    | inl e ↦ ground (
      arith,
      e,
      parse_node-encode_node_entry laws c a.addr k e,
      encode_alts-learned laws c alts rest k,
    )
    | inr e ↦ ground (arith, e, encode_alts-learned laws c alts rest k)
  ]

  -- For contacts whose IDs and keys have 32 bytes: a receiver of an encoded list makes of it one
  -- contact for each address that is a specified IP with a port from 1 to 65535, the preferred one
  -- first, with the contact's ID and key, the canonical text of that address, no time and no
  -- confirmation; nothing else is learned and no entry is skipped.
  pub parse_nodes-encode_nodes :
      IsNet
      → (cs : List NodeContact) → All IsKeyed cs
      → parse_nodes net (some (encode_nodes net cs)) ≡ heard cs
  unfolding parse_nodes parse_entries encode_nodes heard learned_all
  parse_nodes-encode_nodes laws [] k = refl
  parse_nodes-encode_nodes laws (c ∷ cs) k =
      let later = parse_nodes-encode_nodes laws cs k.1 in
      let alts = encode_alts-learned laws c c.alts (encode_nodes net cs) k.0 in
      elim (Bool-cases (advertiseable_addr net c.addr)) [
        | inl e ↦ ground (arith, e, parse_node-encode_node_entry laws c c.addr k.0 e, alts, later)
        | inr e ↦ ground (arith, e, alts, later)
      ]
