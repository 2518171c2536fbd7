-- ===== src/Tests/Wire/Records.antt =====
-- The records that the tests share, over a platform that computes.
use freens.Prelude.{
  ℕ, zero, suc, [], ◌∷◌, ◌++◌, take, Bytes, bytes_eq, Option, none, some, if◌then◌else◌,
}
use freens.Wire.Record.{Envelope, Platform, RecoveryPolicy}
use freens.Wire.Recovery.{RecoveryEvidence}

-- A text of one byte throughout.
abbrev pub text : ℕ → ℕ → Bytes
text b zero = []
text b (suc n) = b ∷ text b n

-- Hashes are short encodings themselves, and a signature verifies under the key it begins with.
abbrev pub p : Platform
p = record {
  sha256 = λ b. b;
  ed25519_verify = λ pk sig msg. bytes_eq (take 1 sig) (take 1 pk);
  marshal_record = λ r. some (r.sequence ∷ []);
  marshal_envelope = λ e. some (e.body.sequence ∷ take 1 e.body.owner ++ text 0 30);
}

abbrev pub policy : RecoveryPolicy
policy = record { threshold = 1; keys = text 7 32 ∷ []; timelock = 10 }

abbrev pub root : Envelope
root = record {
  body = record {
    version = 1;
    name = 0x00 ∷ text 1 32;
    owner = text 1 32;
    sequence = 1;
    created = 5;
    expires = 1000;
    rrset = [];
    delegation = none;
    prev_hash = none;
    recovery = some policy;
    claim = none;
    revoke = none;
  };
  sig = text 1 64;
  signer = text 1 32;
}

abbrev pub root_hash : Bytes
root_hash = 1 ∷ 1 ∷ text 0 30

-- The record of a name below the root, signed by the root's owner.
abbrev pub below : Envelope
below = record root {
  body = record root.body { name = 0x01 ∷ 1 ∷ b'a' ∷ 0x00 ∷ text 1 32; owner = text 3 32 };
}

-- The root with a new owner, signed by the old one.
abbrev pub moved : Envelope
moved = record root {
  body = record root.body { owner = text 2 32; sequence = 2; prev_hash = some root_hash };
}

abbrev pub moved_hash : Bytes
moved_hash = 2 ∷ 2 ∷ text 0 30

-- The root with a new owner, signed by the new one.
abbrev pub recovered : Envelope
recovered = record {
  body = record root.body { owner = text 9 32; sequence = 2; prev_hash = some root_hash };
  sig = text 9 64;
  signer = text 9 32;
}

abbrev pub recovered_hash : Bytes
recovered_hash = 2 ∷ 9 ∷ text 0 30

-- The declaration of the new owner, signed by the key of the policy.
abbrev pub evidence : RecoveryEvidence
evidence = record { new_owner_pk = text 9 32; signatures = text 7 64 ∷ []; not_before = 20 }

abbrev pub fetch : Bytes → Option Envelope
fetch h = if bytes_eq h root_hash then some root else none

abbrev pub fetch_evidence : Option (Bytes → Option RecoveryEvidence)
fetch_evidence = some (λ h. if bytes_eq h recovered_hash then some evidence else none)
