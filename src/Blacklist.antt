-- ===== src/Blacklist.antt =====
-- internal/blacklist/blacklist.go: the ledger of proven violations. An identity is kept as its bytes,
-- where the code keeps their hexadecimal text. A time is a number of nanoseconds. What the ledger's
-- file holds is an argument, and `none` where it cannot be read; writing it is left out. The lock
-- makes each method one step. A nil ledger is `none`.
pub mod Flags
use freens.Prelude.{
  ℕ, ◌+◌, ◌-◌, Bool, true, false, ◌&&◌, ◌||◌, not, ltb, ◌==◌, List, [], ◌∷◌, ◌++◌, length, drop,
  Bytes, Option, none, some, Result, ok, err, if◌then◌else◌,
}
use freens.Store.Entries.{lookup, insert, delete}

pub data Class : Type 0 where
  wrong_slice bad_envelope bad_pow reserved_claim : Class

abbrev pub default_ttl : ℕ
default_ttl = 86400000000000

abbrev pub max_violations_per_entry : ℕ
max_violations_per_entry = 32

abbrev pub node_id_len : ℕ
node_id_len = 32

-- The detail is text for the log.
pub record Violation : Type 0 where
  pub class : Class
  pub at : ℕ
  pub proof : Option Bytes

pub record Entry : Type 0 where
  pub violations : List Violation
  pub flagged_at : ℕ
  pub expires_at : ℕ

-- The path is only asked whether it is empty.
pub record Ledger : Type 0 where
  pub has_path : Bool
  pub ttl : ℕ
  pub entries : List (Bytes × Entry)

-- The rows of the file; a null among them is `none`.
abbrev pub Rows : Type 0
Rows = List (Option (Bytes × Entry))

-- The loops of Open and adoptFileLocked: `takes` tells whether a row that has not expired is taken.
unfoldable pub adopt :
    (Entry → Option Entry → Bool) → ℕ → Rows → List (Bytes × Entry) → List (Bytes × Entry)
adopt takes now [] m = m
adopt takes now (none ∷ rows) m = adopt takes now rows m
adopt takes now (some (id, e) ∷ rows) m =
    adopt takes now rows
      (if not (ltb e.expires_at now) && takes e (lookup id m) then insert id e m else m)

unfoldable pub outlives : Entry → Option Entry → Bool
outlives e none = true
outlives e (some cur) = ltb cur.expires_at e.expires_at

-- A file that cannot be read is the first run, one that is no JSON an error.
pub data File : Type 0 where
  missing corrupt : File
  rows : Rows → File

pub data LedgerError : Type 0 where
  empty_path corrupt_ledger : LedgerError

unfoldable pub open_ledger : Bytes → File → ℕ → Result LedgerError Ledger
unfolding adopt
open_ledger path file now =
    let l : Ledger = record { has_path = true; ttl = default_ttl; entries = [] } in
    if length path == 0 then err LedgerError.empty_path else (elim file [
      | missing ↦ ok l
      | corrupt ↦ err LedgerError.corrupt_ledger
      | rows rs ↦ ok (record l { entries = adopt (λ e cur. true) now rs [] })
    ])

unfoldable pub adopt_file : Ledger → File → ℕ → Ledger
unfolding adopt outlives
adopt_file l missing now = l
adopt_file l corrupt now = l
adopt_file l (rows rs) now =
    if l.has_path then record l { entries = adopt outlives now rs l.entries } else l

-- `e.Violations[len(e.Violations)-maxViolationsPerEntry:]` where there are more.
unfoldable pub most_recent : List Violation → List Violation
most_recent vs = drop (length vs - max_violations_per_entry) vs

abbrev pub violations_of : Option Entry → List Violation
violations_of none = []
violations_of (some e) = e.violations

module _ (sha256 : Bytes → Bytes) where
  unfoldable pub violation : Class → Bytes → ℕ → Violation
  violation class proof now = record {
    class = class;
    at = now;
    proof = if length proof == 0 then none else some (sha256 proof);
  }

  -- The error of a failed write does not change the result.
  unfoldable pub record_violation :
      Option Ledger → File → Bytes → Class → Bytes → ℕ → Option Ledger × Bool
  unfolding adopt_file most_recent violation
  record_violation none file id class proof now = (none, false)
  record_violation (some l) file id class proof now =
      if length id == node_id_len
      then (let l' = adopt_file l file now in
          (
            some (record l' {
              entries =
                  insert id
                    (record {
                      violations = most_recent (
                          violations_of (lookup id l'.entries) ++ (violation class proof now ∷ []));
                      flagged_at = now;
                      expires_at = now + l'.ttl;
                    })
                    l'.entries;
            }),
            true,
          ))
      else (some l, false)

unfoldable pub flagged_id : Ledger → Bytes → ℕ → Ledger × Bool
flagged_id l id now = elim (lookup id l.entries) [
  | none ↦ (l, false)
  | some e ↦
      if ltb e.expires_at now
      then (record l { entries = delete id l.entries }, false)
      else (l, true)
]

unfoldable pub flagged : Option Ledger → Bytes → ℕ → Option Ledger × Bool
unfolding flagged_id
flagged none id now = (none, false)
flagged (some l) id now =
    if length id == node_id_len
    then (let (l', found) = flagged_id l id now in (some l', found))
    else (some l, false)

-- What Entries leaves in the ledger; it returns the rows left, the oldest flag first.
unfoldable pub drop_expired : ℕ → List (Bytes × Entry) → List (Bytes × Entry)
drop_expired now [] = []
drop_expired now ((id, e) ∷ m) =
    if ltb e.expires_at now then drop_expired now m else (id, e) ∷ drop_expired now m

-- Remove, of a text that is the hexadecimal one of the identity.
unfoldable pub remove : Ledger → Bytes → Ledger × Bool
remove l id = elim (lookup id l.entries) [
  | none ↦ (l, false)
  | some e ↦ (record l { entries = delete id l.entries }, true)
]
