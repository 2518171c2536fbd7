-- ===== src/Tests/Claims/Values.antt =====
-- The claims that the tests share.
use freens.Prelude.{ℕ, [], ◌∷◌, ◌++◌, Bytes, Option, some, none}
use freens.Tests.Wire.Records.{text, p}
use freens.Claims.Attestation.{WitnessAttestation, Keypair}
use freens.Claims.Claim.{ClaimOf, AliasClaim, Setting}

-- The prefix of every claim, which is its own hash here.
abbrev pub prefix_bytes : Bytes
prefix_bytes = text 0 31 ++ (1 ∷ [])

abbrev pub setting : Setting
setting = record {
  platform = p;
  unicode = record { trim_space = λ t. t; to_lower = λ t. t };
  idna = none;
  marshal_identity = λ alias tld ts pk. some prefix_bytes;
  difficulty_init = 24;
}

abbrev pub kp : Keypair
kp = record { public = text 2 32; sign = λ msg. text 2 64 }

abbrev pub second : WitnessAttestation
second = record { node_id = text 2 32; node_pk = text 2 32; ts = 100; sig = text 2 64 }

abbrev pub third : WitnessAttestation
third = record { node_id = text 3 32; node_pk = text 3 32; ts = 130; sig = text 3 64 }

abbrev pub claim : AliasClaim
claim = record {
  alias = b'b' ∷ b'o' ∷ b'b' ∷ [];
  tld = text 1 32;
  timestamp = 100;
  nonce = 24 ∷ [];
  claimant_pk = text 1 32;
  pow = prefix_bytes ++ (24 ∷ []);
  witnesses = second ∷ third ∷ [];
}

abbrev pub later : AliasClaim
later = record claim { timestamp = 101 }

abbrev pub read : ℕ → ℕ → Option Bytes
read i n = some (text 9 n)

abbrev pub mined : AliasClaim
mined = record {
  alias = b'b' ∷ b'o' ∷ b'b' ∷ [];
  tld = text 2 32;
  timestamp = 100;
  nonce = 24 ∷ 9 ∷ [];
  claimant_pk = text 2 32;
  pow = prefix_bytes ++ (24 ∷ 9 ∷ []);
  witnesses = [];
}

-- A claim with a null among its witnesses.
abbrev pub torn : ClaimOf (Option WitnessAttestation)
torn = record {
  alias = b'b' ∷ b'o' ∷ b'b' ∷ [];
  tld = text 1 32;
  timestamp = 100;
  nonce = 24 ∷ [];
  claimant_pk = text 1 32;
  pow = text 0 32;
  witnesses = some second ∷ none ∷ [];
}
