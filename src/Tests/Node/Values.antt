-- ===== src/Tests/Node/Values.antt =====
-- The nodes and queries that the tests share.
use freens.Prelude.{
  length, ℤ, ◌==◌, if◌then◌else◌, ℕ, [], ◌∷◌, ◌++◌, take, Bytes, Option, some, none, true, false,
}
use freens.Wire.Record.{Envelope, Platform}
use freens.Claims.Attestation.{WitnessAttestation}
use freens.Claims.Claim.{ClaimOf, AliasClaim, Setting}
use freens.Claims.Pool.{ClaimPool, new_claim_pool}
use freens.Store.Entries.{new_envelope_store}
use freens.Difficulty.{new_difficulty_state}
use freens.Routing.Contact.{NodeContact}
use freens.Routing.Table.{RoutingTable}
use freens.Routing.Nodes.{Net}
use freens.Blacklist.{Ledger, missing}
use freens.Node.{Node, Outside, Circumstances}
use freens.Node.Put.{PutArgs}
use freens.Node.Witness.{WitnessArgs}
use freens.Tests.Wire.Records.{text, p, root}
use freens.Tests.Claims.Values.{prefix_bytes, kp}

-- A hash is the text's first 32 bytes, filled up with zeros.
abbrev pub platform : Platform
platform = record p { sha256 = λ b. take 32 (b ++ text 0 32) }

abbrev pub setting : Setting
setting = record {
  platform = platform;
  unicode = record { trim_space = λ t. t; to_lower = λ t. t };
  idna = none;
  marshal_identity = λ alias tld ts pk. some prefix_bytes;
  difficulty_init = 24;
}

abbrev pub bob : Bytes
bob = b'b' ∷ b'o' ∷ b'b' ∷ []

abbrev pub attestation : ℕ → WitnessAttestation
attestation b = record { node_id = text b 32; node_pk = text b 32; ts = 100; sig = text b 64 }

abbrev pub wired : ClaimOf (Option WitnessAttestation)
wired = record {
  alias = bob;
  tld = text 1 32;
  timestamp = 100;
  nonce = 24 ∷ [];
  claimant_pk = text 1 32;
  pow = prefix_bytes;
  witnesses =
      some (attestation 2)
      ∷ some (attestation 3)
      ∷ some (attestation 4)
      ∷ some (attestation 5)
      ∷ some (attestation 6)
      ∷ [];
}

abbrev pub held : AliasClaim
held = record {
  alias = bob;
  tld = text 1 32;
  timestamp = 100;
  nonce = 24 ∷ [];
  claimant_pk = text 1 32;
  pow = prefix_bytes;
  witnesses = attestation 2 ∷ attestation 3 ∷ attestation 4 ∷ attestation 5 ∷ attestation 6 ∷ [];
}

-- The TLD record that carries the claim.
abbrev pub carrier : Envelope
carrier = record root { body = record root.body { claim = some (1 ∷ []) } }

-- The key of the claim.
abbrev pub claim_key : Bytes
claim_key =
    take 32
      ((0x03 ∷ b'c' ∷ b'l' ∷ b'a' ∷ b'i' ∷ b'm' ∷ b':' ∷ b'b' ∷ b'o' ∷ b'b' ∷ []) ++ text 0 32)

abbrev pub pool : ClaimPool
pool = record new_claim_pool {
  by_key =
      (claim_key, record { env = carrier; claim = held; h = 1 ∷ 1 ∷ text 0 30; size = 32 } ∷ [])
      ∷ [];
  order = claim_key ∷ [];
  bytes = 32;
}

-- Every text is the address 1.1.1.1 with the port 53.
abbrev pub net : Net
net = record {
  split_host_port = λ addr. some (addr, b'5' ∷ b'3' ∷ []);
  atoi = λ port. ℤ.pos 53;
  parse_ip = λ host. some (text 0 10 ++ (255 ∷ 255 ∷ 1 ∷ 1 ∷ 1 ∷ 1 ∷ []));
  to4 = λ ip. some (1 ∷ 1 ∷ 1 ∷ 1 ∷ []);
  is_unspecified = λ ip. false;
  ip_string = λ ip. b'1' ∷ b'.' ∷ b'1' ∷ b'.' ∷ b'1' ∷ b'.' ∷ b'1' ∷ [];
  format_uint = λ port. b'5' ∷ b'3' ∷ [];
  join_host_port = λ host port. host ++ (b':' ∷ port);
}

abbrev pub contact : NodeContact
contact = record {
  node_id = text 64 32;
  public_key = text 5 32;
  addr = b'a' ∷ [];
  last_seen = 100;
  confirmed_at = 100;
  first_seen = 0;
  alts = record { addr = b'b' ∷ []; last_seen = 90; confirmed_at = 0 } ∷ [];
}

-- A table that holds the contact.
abbrev pub table : RoutingTable
table = record {
  self_id = text 0 32;
  capacity = 20;
  buckets = λ i. record { index = i; capacity = 20; nodes = if i == 1 then contact ∷ [] else [] };
}

abbrev pub outside : Outside
outside = record {
  setting = setting;
  hmac = λ key msg. text 0 32;
  itoa = λ n. [];
  unmarshal_envelope = λ raw. some carrier;
  unmarshal_claim = λ raw. some wired;
  unmarshal_evidence = λ raw. none;
  marshal_attestation = λ w. some w.sig;
  reserved_tlds = λ alias. false;
  net = net;
}

abbrev pub node : Node
node = record {
  kp = kp;
  passive = false;
  allow_reserved = false;
  store = new_envelope_store 0;
  claims = new_claim_pool;
  tokens = record { rotation_seconds = 300; root_secret = text 8 32 };
  black = none;
  witness_last = [];
  diff = new_difficulty_state 0;
  rt = table;
}

abbrev pub at_time : ℕ → Circumstances
at_time now = record {
  now = now;
  instant = now;
  file = missing;
  allowed = true;
  source = 127 ∷ 0 ∷ 0 ∷ 1 ∷ [];
}

-- A put of the carrier at the key of its claim.
abbrev pub put_args : PutArgs
put_args = record {
  sender = text 7 32;
  token = text 0 32;
  envelope = 1 ∷ [];
  evidence = [];
  key = claim_key;
}

-- A query for a signature, of a claimant.
abbrev pub asks : ℕ → WitnessArgs
asks claimant = record {
  sender = text 7 32;
  alias = bob;
  tld = text 1 32;
  claimant = text claimant 32;
  prefix_hash = text claimant 32;
  nonce = 24 ∷ [];
  pow = text 0 32;
  ts = some 100;
  reattest = false;
}

-- The identity of a claim is its claimant's key, and any 33 bytes have the hash of zeros, so that
-- every proof of work is one.
abbrev pub by_claimant : Outside
by_claimant = record outside {
  setting = record setting {
    marshal_identity = λ alias tld ts pk. if length pk == 33 then none else some pk;
    platform = record p { sha256 = λ b. if length b == 33 then text 0 32 else b };
  };
}

abbrev pub ledger : Ledger
ledger = record { has_path = false; ttl = 100; entries = [] }
