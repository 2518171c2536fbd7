-- ===== src/Blacklist/Flags.antt =====
-- How long an identity stays flagged, and how long its row grows (internal/blacklist/blacklist.go).
use freens.Prelude.{ℕ, ◌+◌, ◌≤◌, ◌≡◌, ◌↔◌, refl, true, length, Bytes, bytes_eq_refl, some, arith}
use freens.Store.Entries.{lookup}
use freens.Blacklist.{
  Ledger, Class, File, missing, corrupt, rows, adopt_file, record_violation, flagged, flagged_id,
}

adopt_file-ttl : (l : Ledger) (file : File) (now : ℕ) → (adopt_file l file now).ttl ≡ l.ttl
unfolding adopt_file
adopt_file-ttl l missing now = refl
adopt_file-ttl l corrupt now = refl
adopt_file-ttl l (rows rs) now = ground arith

module _ (sha256 : Bytes → Bytes) (l : Ledger) (file : File) (id : Bytes) (class : Class)
    (proof : Bytes) (now later : ℕ) where
  -- A violation of an identity of 32 bytes is recorded. Then the identity is flagged at a later time,
  -- with nothing recorded in between, exactly until the ledger's lifetime of a flag has passed.
  pub record_violation-flagged_iff :
      length id ≡ 32
      → ((record_violation sha256 (some l) file id class proof now).1 ≡ true)
        × (((flagged (record_violation sha256 (some l) file id class proof now).0 id later).1
              ≡ true)
            ↔ (later ≤ now + l.ttl))
  unfolding record_violation flagged flagged_id lookup
  record_violation-flagged_iff size = (
    ground arith,
    (
      (λ h. ground (arith, adopt_file-ttl l file now, bytes_eq_refl id, h)),
      (λ h. ground (arith, adopt_file-ttl l file now, bytes_eq_refl id)),
    ),
  )
