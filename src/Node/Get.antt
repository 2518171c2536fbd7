-- ===== src/Node/Get.antt =====
-- internal/dht/transport.go: hPing, hFindNode and hGet, with advertiseableNodes and reAttestArgs. A
-- reply is what its fields hold; an optional field that is left out is empty.
pub mod Contained
pub mod Served
pub mod Token
use freens.Prelude.{
  ℕ, ◌+◌, Bool, true, false, ◌&&◌, ◌||◌, not, ltb, ◌==◌, List, [], ◌∷◌, ◌++◌, length, Bytes, Option,
  none, some, Result, ok, err, if◌then◌else◌, ℤ,
}
use freens.Wire.Record.{Envelope, hash_len, bytes_of, record_hash}
use freens.Claims.Attestation.{WitnessAttestation}
use freens.Claims.Claim.{decode_alias_claim, prefix_hash}
use freens.Claims.Quorum.{fresh_attestations}
use freens.Claims.Pool.{ClaimPool, top2, re_attests_of}
use freens.Store.Entries.{EnvelopeStore, get_history}
use freens.Store.Evidence.{get_evidence}
use freens.Store.Envelopes.{get}
use freens.Tokens.{issue}
use freens.Routing.Contact.{NodeContact}
use freens.Routing.Closest.{closest}
use freens.Routing.Nodes.{Field, encode_nodes}
use freens.Blacklist.{Ledger, flagged_id}
use freens.Node.{Node, Outside, Circumstances, Refusal, record_hash_or_nil}

-- The size of a closest set, K.
abbrev pub closest_size : ℕ
closest_size = 20

abbrev pub ad_fresh_window : ℕ
ad_fresh_window = 600

abbrev pub re_attest_fresh : ℕ
re_attest_fresh = 172800

-- The node list as encoded, and the token for the source.
pub record FoundNodes : Type 0 where
  pub token : Bytes
  pub nodes : List (Option (List Field))

-- What a get returns: the envelope, the envelopes of the pooled claims, and pairs of an identity and
-- an attestation, encoded.
pub record Got : Type 0 where
  pub token : Bytes
  pub nodes : List (Option (List Field))
  pub envelope : Option Bytes
  pub evidence : Bytes
  pub envelopes : List Bytes
  pub reattests : List (Bytes × Bytes)

-- A contact never confirmed and not heard of for longer than the window.
unfoldable pub is_ghost : NodeContact → ℕ → Bool
is_ghost c now = c.confirmed_at == 0 && ltb (c.last_seen + ad_fresh_window) now

-- FlaggedID, of a ledger that may be nil.
unfoldable pub flagged_contact : Option Ledger → NodeContact → ℕ → Option Ledger × Bool
flagged_contact none c instant = (none, false)
flagged_contact (some l) c instant =
    let (l', found) = flagged_id l c.node_id instant in (some l', found)

-- The loop of advertiseableNodes; FlaggedID drops the flags that have expired.
unfoldable pub keep_contacts :
    Option Ledger → ℕ → ℕ → List NodeContact → Option Ledger × List NodeContact
unfolding is_ghost flagged_contact
keep_contacts black now instant [] = (black, [])
keep_contacts black now instant (c ∷ cs) =
    if is_ghost c now
    then keep_contacts black now instant cs
    else (let (black', found) = flagged_contact black c instant in
        let (last, kept) = keep_contacts black' now instant cs in
        if found then (last, kept) else (last, c ∷ kept))

-- The contacts nearest to a key that the node advertises, and the ledger left.
unfoldable pub advertiseable_nodes : Node → Circumstances → Bytes → Option Ledger × List NodeContact
unfolding keep_contacts
advertiseable_nodes n t key = keep_contacts n.black t.now t.instant (closest n.rt key closest_size)

module _ (o : Outside) where
  unfoldable pub issue_token : Node → Circumstances → Bytes
  issue_token n t = issue o.hmac o.itoa n.tokens t.now t.source

  unfoldable pub h_ping : Node → Circumstances → Bytes
  unfolding issue_token
  h_ping n t = issue_token n t

  unfoldable pub h_find_node : Node → Circumstances → Bytes → Node × Result (ℕ × Refusal) FoundNodes
  unfolding advertiseable_nodes issue_token
  h_find_node n t target =
      if not t.allowed
      then (n, err (301, Refusal.throttled))
      else (if not (length target == 32)
          then (n, err (305, Refusal.bad_target))
          else (let (black, kept) = advertiseable_nodes n t target in
              (
                record n { black = black },
                ok (record { token = issue_token n t; nodes = encode_nodes o.net kept }),
              )))

  unfoldable pub encode_attestations : Bytes → List WitnessAttestation → List (Bytes × Bytes)
  encode_attestations ph [] = []
  encode_attestations ph (a ∷ atts) = elim (o.marshal_attestation a) [
    | none ↦ encode_attestations ph atts
    | some raw ↦ (ph, raw) ∷ encode_attestations ph atts
  ]

  -- The fresh attestations of one pooled envelope. A pooled envelope's claim has been decoded before,
  -- so that the decoder does not panic.
  unfoldable pub fresh_of : ClaimPool → Bytes → ℕ → Envelope → List (Bytes × Bytes)
  unfolding encode_attestations
  fresh_of p key now env =
      elim (decode_alias_claim o.setting o.unmarshal_claim (bytes_of env.body.claim)) [
        | err e ↦ []
        | ok claim ↦ elim (prefix_hash o.setting claim) [
          | none ↦ []
          | some ph ↦
              encode_attestations ph
                (fresh_attestations o.setting (re_attests_of p key ph) ph now re_attest_fresh)
        ]
      ]

  unfoldable pub re_attest_args : ClaimPool → Bytes → ℕ → List Envelope → List (Bytes × Bytes)
  unfolding fresh_of
  re_attest_args p key now [] = []
  re_attest_args p key now (env ∷ pooled) =
      fresh_of p key now env ++ re_attest_args p key now pooled

  -- The encodings of the envelopes that have one.
  unfoldable pub encode_envelopes : List Envelope → List Bytes
  encode_envelopes [] = []
  encode_envelopes (env ∷ envs) = elim (o.setting.platform.marshal_envelope env) [
    | none ↦ encode_envelopes envs
    | some raw ↦ raw ∷ encode_envelopes envs
  ]

  -- The envelope served: the live one, or else a superseded one with this hash.
  unfoldable pub served : EnvelopeStore → Bytes → ℕ → EnvelopeStore × Option Envelope
  served s key now = elim (get o.setting.platform s key now) [
    | err e ↦ (s, get_history s key)
    | ok (s', none) ↦ (s', get_history s' key)
    | ok (s', some env) ↦ (s', some env)
  ]

  -- The key of the evidence: the hash of the envelope served, or the key itself.
  unfoldable pub evidence_key : Bytes → Option Envelope → Bytes
  evidence_key key none = key
  evidence_key key (some env) = record_hash_or_nil o env

  -- The reply where the store has been left so, with this envelope found.
  unfoldable pub answer : Node → Circumstances → Bytes → EnvelopeStore → Option Envelope → Got
  unfolding advertiseable_nodes issue_token re_attest_args encode_envelopes evidence_key
  answer n t key store found =
      let pooled = top2 n.claims key in
      record {
        token = issue_token n t;
        nodes = encode_nodes o.net (advertiseable_nodes n t key).1;
        envelope = elim found [ none ↦ none | some env ↦ o.setting.platform.marshal_envelope env ];
        evidence = get_evidence store (evidence_key key found);
        envelopes = encode_envelopes pooled;
        reattests = re_attest_args n.claims key t.now pooled;
      }

  unfoldable pub h_get : Node → Circumstances → Bytes → Node × Result (ℕ × Refusal) Got
  unfolding advertiseable_nodes served answer
  h_get n t key =
      if not t.allowed
      then (n, err (301, Refusal.throttled))
      else (if not (length key == hash_len)
          then (n, err (305, Refusal.bad_key))
          else (let (store, found) = served n.store key t.now in
              (
                record n { store = store; black = (advertiseable_nodes n t key).0 },
                ok (answer n t key store found),
              )))
