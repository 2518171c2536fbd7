-- ===== src/Store/Entries.antt =====
-- The state of EnvelopeStore (internal/dht/store.go), its maps, and the history of superseded
-- envelopes. A map is a list of its keys and values, no key twice; the model goes through it in the
-- list's order where Go's order is unspecified. Times are seconds and not negative.
use freens.Prelude.{
  ℕ, zero, suc, ◌+◌, ◌-◌, ◌%◌, ◌^◌, Bool, true, false, ◌&&◌, ◌||◌, ltb, ◌==◌, List, [], ◌∷◌, ◌++◌,
  length, take, Bytes, bytes_eq, bytes_compare, Ordering, Option, none, some, if◌then◌else◌,
}
use freens.Wire.Record.{Envelope, Platform, hash_len, record_hash}

-- `last_access` is in unix seconds, `size` the cached length of the envelope's encoding.
pub record Entry : Type 0 where
  pub env : Envelope
  pub size : ℕ
  pub last_access : ℕ

module _ {V : Type 0} where
  -- `m[k]`, `delete(m, k)` and `m[k] = v`.
  unfoldable pub lookup : Bytes → List (Bytes × V) → Option V
  lookup k [] = none
  lookup k ((j, v) ∷ m) = if bytes_eq j k then some v else lookup k m

  unfoldable pub delete : Bytes → List (Bytes × V) → List (Bytes × V)
  delete k [] = []
  delete k ((j, v) ∷ m) = if bytes_eq j k then m else (j, v) ∷ delete k m

  abbrev pub insert : Bytes → V → List (Bytes × V) → List (Bytes × V)
  insert k v m = (k, v) ∷ delete k m

abbrev pub history_max : ℕ
history_max = 4096

abbrev pub history_max_bytes : ℕ
history_max_bytes = 16777216

abbrev pub evidence_max_bytes : ℕ
evidence_max_bytes = 16777216

abbrev pub node_storage_max : ℕ
node_storage_max = 268435456

abbrev pub expiry_grace : ℕ
expiry_grace = 86400

pub record EnvelopeStore : Type 0 where
  pub max_bytes : ℕ
  pub entries : List (Bytes × Entry)
  pub bytes : ℕ
  pub history : List (Bytes × Entry)
  pub hist_max_bytes : ℕ
  pub history_bytes : ℕ
  pub evidence : List (Bytes × Bytes)
  pub evidence_order : List Bytes
  pub evid_max_bytes : ℕ
  pub evidence_bytes : ℕ

-- NewEnvelopeStore; `max_bytes` is 0 where the argument is not positive.
unfoldable pub new_envelope_store : ℕ → EnvelopeStore
new_envelope_store max_bytes = record {
  max_bytes = if max_bytes == 0 then node_storage_max else max_bytes;
  entries = [];
  bytes = 0;
  history = [];
  hist_max_bytes = history_max_bytes;
  history_bytes = 0;
  evidence = [];
  evidence_order = [];
  evid_max_bytes = evidence_max_bytes;
  evidence_bytes = 0;
}

-- `copy(k[:], b)` into an array of 32 zeros.
zeros : ℕ → Bytes
zeros zero = []
zeros (suc n) = 0 ∷ zeros n

unfoldable pub to_key : Bytes → Bytes
unfolding zeros
to_key b = take hash_len (b ++ zeros hash_len)

-- aliveLocked: the sum is an int64, so that from 2^63 on it is negative, and before every `now`.
unfoldable pub alive : Entry → ℕ → Bool
alive e now =
    let until = (e.env.body.expires + expiry_grace) % 2 ^ 64 in ltb until (2 ^ 63) && ltb now until

abbrev pub is_lt : Ordering → Bool
is_lt Ordering.lt = true
is_lt Ordering.eq = false
is_lt Ordering.gt = false

-- `k` with its last access comes before the one found so far.
unfoldable pub earlier : Bytes → ℕ → Option (Bytes × ℕ) → Bool
earlier k last none = true
earlier k last (some (found, found_last)) =
    ltb last found_last || (last == found_last && is_lt (bytes_compare k found))

-- The scan for the entry touched first, ties going to the smaller key; `skip` tells the keys left out.
unfoldable pub least_accessed :
    (Bytes → Bool) → Option (Bytes × ℕ) → List (Bytes × Entry) → Option (Bytes × ℕ)
least_accessed skip best [] = best
least_accessed skip best ((k, e) ∷ m) =
    let kept = least_accessed skip best m in
    let replaced = least_accessed skip (some (k, e.last_access)) m in
    if skip k then kept else (if earlier k e.last_access best then replaced else kept)

abbrev pub size_of : Option Entry → ℕ
size_of none = 0
size_of (some e) = e.size

unfoldable pub evict_history_oldest : EnvelopeStore → EnvelopeStore
evict_history_oldest s = elim (least_accessed (λ k. false) none s.history) [
  | none ↦ s
  | some (k, last) ↦ record s {
    history_bytes = s.history_bytes - size_of (lookup k s.history);
    history = delete k s.history;
  }
]

abbrev pub history_full : EnvelopeStore → Bool
history_full s =
    (ltb history_max (length s.history) || ltb s.hist_max_bytes s.history_bytes)
    && ltb 1 (length s.history)

-- The loop at the end of retainHistoryLocked. Each round drops an entry.
unfoldable pub evict_history : ℕ → EnvelopeStore → EnvelopeStore
evict_history zero s = s
evict_history (suc fuel) s =
    let rest = evict_history fuel (evict_history_oldest s) in if history_full s then rest else s

module _ (p : Platform) where
  -- The entry with its size computed where it is 0, as retainHistoryLocked leaves it.
  unfoldable pub sized : Entry → Entry
  sized e =
      if e.size == 0
      then (elim (p.marshal_envelope e.env) [ none ↦ e | some b ↦ record e { size = length b } ])
      else e

  unfoldable pub retain_history : Entry → EnvelopeStore → EnvelopeStore
  retain_history e s = elim (record_hash p e.env) [
    | none ↦ s
    | some h ↦
        let history = insert (to_key h) (sized e) s.history in
        evict_history (length history) (record s {
          history = history;
          history_bytes = s.history_bytes - size_of (lookup (to_key h) s.history) + (sized e).size;
        })
  ]

  -- RetainHistory, at the clock's time.
  unfoldable pub retain_envelope : Option Envelope → ℕ → EnvelopeStore → EnvelopeStore
  retain_envelope none now s = s
  retain_envelope (some env) now s =
      retain_history (record { env = env; size = 0; last_access = now }) s

unfoldable pub get_history : EnvelopeStore → Bytes → Option Envelope
get_history s h =
    if length h == hash_len
    then (elim (lookup (to_key h) s.history) [ none ↦ none | some e ↦ some e.env ])
    else none
