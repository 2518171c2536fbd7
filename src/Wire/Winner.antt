-- ===== src/Wire/Winner.antt =====
-- internal/wire/wire.go: EnvelopeWins (§6.4 step 3) and VerifyChainLink (§4.4 rule 4, §8.3).
pub mod Order
use freens.Prelude.{
  ℕ, ◌<◌, ◌≡◌, Bool, true, false, ◌&&◌, ltb, ◌==◌, [], ◌∷◌, length, Bytes, bytes_eq, bytes_compare,
  Option, none, some, Ordering, compare, if◌then◌else◌,
}
use freens.Wire.Record.{Record, Envelope, Platform, bytes_of, record_hash}

abbrev pub is_gt : Ordering → Bool
is_gt Ordering.gt = true
is_gt Ordering.eq = false
is_gt Ordering.lt = false

-- `bytes.Compare(nh, oh) > 0`, and false on a hash error.
abbrev pub hash_beats : Option Bytes → Option Bytes → Bool
hash_beats (some nh) (some oh) = is_gt (bytes_compare nh oh)
hash_beats (some nh) none = false
hash_beats none oh = false

module _ (p : Platform) where
  unfoldable pub envelope_wins : Option Envelope → Option Envelope → Bool
  envelope_wins (some newer) (some older) =
      if ltb older.body.sequence newer.body.sequence
      then true
      else (if newer.body.sequence == older.body.sequence
          then hash_beats (record_hash p newer) (record_hash p older)
          else false)
  envelope_wins (some newer) none = false
  envelope_wins none older = false

  -- The branch of VerifyChainLink where prev_hash is absent or empty, then the one where it is set.
  unfoldable pub verify_chain_link : Option Envelope → Option Envelope → Bool
  verify_chain_link none older = false
  verify_chain_link (some newer) none =
      if length (bytes_of newer.body.prev_hash) == 0 then newer.body.sequence == 1 else false
  verify_chain_link (some newer) (some older) =
      if length (bytes_of newer.body.prev_hash) == 0
      then ltb older.body.sequence newer.body.sequence
      else (elim (record_hash p older) [
        | none ↦ false
        | some h ↦
            bytes_eq (bytes_of newer.body.prev_hash) h
            && ltb older.body.sequence newer.body.sequence
      ])
