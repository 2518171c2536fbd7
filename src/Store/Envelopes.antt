-- ===== src/Store/Envelopes.antt =====
-- The live table of EnvelopeStore (internal/dht/store.go): Put, Get, Has, Remove, the sweeps and the
-- cap; KeyForWireName and StoreLookup of internal/dht/lookup.go. The counts that the sweeps return,
-- which Put discards, are left out.
use freens.Prelude.{
  ℕ, zero, suc, ◌+◌, ◌-◌, Bool, true, false, ◌&&◌, ◌||◌, not, ltb, ◌==◌, List, [], ◌∷◌, length,
  Bytes, bytes_eq, Option, none, some, Result, ok, err, ◌>>=◌, ◌>>◌, require, if◌then◌else◌,
}
use freens.Naming.Text.{Unicode}
use freens.Naming.Labels.{NamingError, Normalizer}
use freens.Naming.Wire.{encode_wire_name, decode_wire_name}
use freens.Naming.Keys.{dht_key_name}
use freens.Wire.Record.{Envelope, Platform, bytes_of, hash_len, record_hash, verify_signature}
use freens.Wire.Winner.{envelope_wins, verify_chain_link}
use freens.Wire.Recovery.{RecoveryEvidence}
use freens.Store.Entries.{
  Entry, EnvelopeStore, lookup, insert, delete, to_key, alive, least_accessed, size_of, sized,
  retain_history,
}
use freens.Store.Evidence.{recovery_acceptable}

pub data StoreError : Type 0 where
  bad_key nil_env bad_encoding bad_name : StoreError

-- A TLD root is kept under its TLD ID, every other name under a hash.
unfoldable pub key_for_wire_name : (Bytes → Bytes) → Bytes → Result NamingError Bytes
key_for_wire_name sha256 wire_name = do
  (labels, tld_id) ← decode_wire_name wire_name
  ok (if length labels == 0 then tld_id else dht_key_name sha256 wire_name)

unfoldable pub has : EnvelopeStore → Bytes → ℕ → Bool
has s key now =
    length key == hash_len
    && (elim (lookup (to_key key) s.entries) [ none ↦ false | some e ↦ alive e now ])

unfoldable pub remove : EnvelopeStore → Bytes → EnvelopeStore × Bool
remove s key =
    if length key == hash_len
    then (elim (lookup (to_key key) s.entries) [
      | none ↦ (s, false)
      | some e ↦
          (record s { entries = delete (to_key key) s.entries; bytes = s.bytes - e.size }, true)
    ])
    else (s, false)

module _ (p : Platform) where
  -- An entry that a sweep drops: into the history, out of the table.
  unfoldable pub drop_entry : Bytes → Entry → EnvelopeStore → EnvelopeStore
  drop_entry k e s =
      let s' = retain_history p e s in
      record s' { entries = delete k s'.entries; bytes = s'.bytes - (sized p e).size }

  unfoldable pub get :
      EnvelopeStore → Bytes → ℕ → Result StoreError (EnvelopeStore × Option Envelope)
  get s key now = do
    require (length key == hash_len) StoreError.bad_key
    elim (lookup (to_key key) s.entries) [
      | none ↦ ok (s, none)
      | some e ↦
          if alive e now
          then ok (
            record s { entries = insert (to_key key) (record e { last_access = now }) s.entries },
            some e.env,
          )
          else ok (drop_entry (to_key key) e s, none)
    ]

  -- The sweep of evictExpiredLocked, and of enforceCapLocked which skips the protected key.
  unfoldable pub evict_dead :
      (Bytes → Bool) → ℕ → List (Bytes × Entry) → EnvelopeStore → EnvelopeStore
  evict_dead skip now [] s = s
  evict_dead skip now ((k, e) ∷ rest) s =
      evict_dead skip now rest (if skip k || alive e now then s else drop_entry k e s)

  unfoldable pub evict_expired : ℕ → EnvelopeStore → EnvelopeStore
  evict_expired now s = evict_dead (λ k. false) now s.entries s

  -- The body of the loop of enforceCapLocked; `none` where only the protected entry is left.
  unfoldable pub evict_lru : Bytes → EnvelopeStore → Option EnvelopeStore
  evict_lru protected s = elim (least_accessed (λ k. bytes_eq k protected) none s.entries) [
    | none ↦ none
    | some (k, last) ↦ elim (lookup k s.entries) [ none ↦ none | some e ↦ some (drop_entry k e s) ]
  ]

  abbrev pub over_cap : EnvelopeStore → Bool
  over_cap s = ltb s.max_bytes s.bytes && ltb 1 (length s.entries)

  -- Each round drops an entry.
  unfoldable pub cap_loop : ℕ → Bytes → EnvelopeStore → EnvelopeStore
  cap_loop zero protected s = s
  cap_loop (suc fuel) protected s =
      let rest = elim (evict_lru protected s) as (λ o. EnvelopeStore) [
        | none ↦ s
        | some s' ↦ cap_loop fuel protected s'
      ] in
      if over_cap s then rest else s

  unfoldable pub enforce_cap : ℕ → Bytes → EnvelopeStore → EnvelopeStore
  enforce_cap now protected s =
      let s' = evict_dead (λ k. bytes_eq k protected) now s.entries s in
      cap_loop (length s'.entries) protected s'

  unfoldable pub same_stored_record : Envelope → Envelope → Bool
  same_stored_record env incumbent = elim (record_hash p env) [
    | none ↦ false
    | some nh ↦ elim (record_hash p incumbent) [ none ↦ false | some oh ↦ bytes_eq nh oh ]
  ]

  module _ (u : Unicode) (idna : Normalizer) where
    -- The key of the parent of a name: the name less its first label; the alias is not encoded.
    unfoldable pub parent_key : Bytes → Result NamingError Bytes
    parent_key name = do
      (labels, tld_id) ← decode_wire_name name
      elim labels [
        | [] ↦ err NamingError.empty_part
        | _ ∷ above ↦ do
          parent_wire ← encode_wire_name u idna above (b'x' ∷ []) tld_id
          key_for_wire_name p.sha256 parent_wire
      ]

    unfoldable pub parent_authorizes : EnvelopeStore → Envelope → Envelope → ℕ → Bool
    parent_authorizes s newcomer incumbent now = elim (parent_key incumbent.body.name) [
      | err e ↦ false
      | ok k ↦ elim (lookup (to_key k) s.entries) [
        | none ↦ false
        | some parent ↦
            alive parent now
            && (bytes_eq parent.env.body.owner newcomer.signer || (elim parent.env.body.delegation [
              | none ↦ false
              | some d ↦ bytes_eq d newcomer.signer
            ]))
      ]
    ]

    module _ (unmarshal : Bytes → Option RecoveryEvidence) where
      -- Rule 3: whether the newcomer may take the slot of a live incumbent.
      unfoldable pub may_displace : EnvelopeStore → Envelope → Envelope → ℕ → Bytes → Bool
      may_displace s env incumbent now evidence =
          let chained = not (length (bytes_of env.body.prev_hash) == 0) in
          let owner_signs = bytes_eq env.signer incumbent.body.owner in
          envelope_wins p (some env) (some incumbent)
          && (if chained
              then verify_chain_link p (some env) (some incumbent)
                && (owner_signs || recovery_acceptable unmarshal p s env incumbent evidence)
              else owner_signs || parent_authorizes s env incumbent now)

      -- The accepting part: the entry replaces what the slot held, then the sweeps.
      unfoldable pub install :
          EnvelopeStore → Bytes → Envelope → ℕ → Result StoreError (EnvelopeStore × Bool)
      install s k env now = elim (p.marshal_envelope env) [
        | none ↦ err StoreError.bad_encoding
        | some b ↦
            let s' = elim (lookup k s.entries) as (λ o. EnvelopeStore) [
              | none ↦ s
              | some cur ↦ retain_history p cur s
            ] in
            let entry : Entry = record { env = env; size = length b; last_access = now } in
            ok (
              enforce_cap now k (
                  evict_expired now (record s' {
                    entries = insert k entry s'.entries;
                    bytes = s'.bytes + length b - size_of (lookup k s.entries);
                  })),
              true,
            )
      ]

      unfoldable pub put_live :
          EnvelopeStore
          → Bytes
          → Envelope
          → ℕ
          → Bytes
          → Entry
          → Result StoreError (EnvelopeStore × Bool)
      put_live s k env now evidence cur =
          if same_stored_record env cur.env
          then ok
              (record s { entries = insert k (record cur { last_access = now }) s.entries }, true)
          else (if may_displace s env cur.env now evidence
              then install s k env now
              else ok (s, false))

      unfoldable pub put_with_evidence :
          EnvelopeStore
          → Bytes
          → Option Envelope
          → ℕ
          → Bool
          → Bytes
          → Result StoreError (EnvelopeStore × Bool)
      put_with_evidence s key none now check evidence = do
        require (length key == hash_len) StoreError.bad_key
        err StoreError.nil_env
      put_with_evidence s key (some env) now check evidence = do
        require (length key == hash_len) StoreError.bad_key
        let k = to_key key
        if check && not (verify_signature p env)
            then ok (s, false)
            else (elim (lookup k s.entries) [
              | none ↦ install s k env now
              | some cur ↦
                  if alive cur now then put_live s k env now evidence cur else install s k env now
            ])
