-- ===== src/Naming/Reserved.antt =====
-- internal/naming/reserved.go: the aliases that nobody may claim. Membership in the generated table
-- `reservedTLDs` of internal/naming/reserved_tlds.go is a parameter.
use freens.Prelude.{
  ◌≡◌, arith, Bool, true, false, [], ◌∷◌, Bytes, bytes_eq, Option, none, some, Result, ok, err,
  Bool-cases, inl, inr, if◌then◌else◌,
}
use freens.Naming.Text.{Unicode}
use freens.Naming.Labels.{NamingError, Normalizer, validate_alias}

-- The project's own namespace, or a top-level domain of the DNS.
pub data Reason : Type 0 where
  own_namespace public_tld : Reason

pub data RegisterError : Type 0 where
  invalid : NamingError → RegisterError
  reserved : Reason → RegisterError

-- projectReserved: "freens".
unfoldable pub project_reserved : Bytes → Bool
project_reserved alias = bytes_eq alias (b'f' ∷ b'r' ∷ b'e' ∷ b'e' ∷ b'n' ∷ b's' ∷ [])

module _ (reserved_tlds : Bytes → Bool) where
  -- ReservedReason; "" is `none`.
  unfoldable pub reserved_reason : Bytes → Option Reason
  unfolding project_reserved
  reserved_reason alias =
      if project_reserved alias
      then some own_namespace
      else (if reserved_tlds alias then some public_tld else none)

  unfoldable pub is_reserved_tld : Bytes → Bool
  unfolding project_reserved
  is_reserved_tld alias = if project_reserved alias then true else reserved_tlds alias

  unfoldable pub is_public_tld : Bytes → Bool
  is_public_tld alias = reserved_tlds alias

  unfoldable pub check_registerable : Unicode → Normalizer → Bytes → Result RegisterError Bytes
  unfolding reserved_reason
  check_registerable u idna alias = elim (validate_alias u idna alias) [
    | err e ↦ err (invalid e)
    | ok norm ↦ elim (reserved_reason norm) [ none ↦ ok norm | some why ↦ err (reserved why) ]
  ]

  -- CheckRegisterable accepts the valid aliases whose normal form IsReservedTLD does not reject.
  pub check_registerable-free :
      (u : Unicode) (idna : Normalizer) (alias norm : Bytes)
      → validate_alias u idna alias ≡ ok norm
      → is_reserved_tld norm ≡ false
      → check_registerable u idna alias ≡ ok norm
  unfolding check_registerable is_reserved_tld
  check_registerable-free u idna alias norm v free = elim (Bool-cases (project_reserved norm)) [
    | inl e ↦ absurd (ground (arith, e))
    | inr e ↦ ground (arith, v, e, free)
  ]
