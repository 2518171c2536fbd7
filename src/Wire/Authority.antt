-- ===== src/Wire/Authority.antt =====
-- internal/wire/wire.go: VerifyAuthorityChain (§3.4), and its parts as internal/wire/transfer.go has
-- them: chainWellFormed, selfCertifiedTldRoot, verifyDescents.
pub mod Descent
pub mod Chain
use freens.Prelude.{
  ℕ, ◌+◌, ◌-◌, Bool, true, false, ◌&&◌, ◌||◌, not, ltb, leb, ◌==◌, List, [], ◌∷◌, drop, length,
  Bytes, bytes_eq, Option, none, some, Result, ok, err, if◌then◌else◌,
}
use freens.Naming.Labels.{NamingError, max_labels}
use freens.Naming.Wire.{decode_wire_name}
use freens.Wire.Record.{Record, Envelope, Platform, bytes_of, tld_id, verify_signature}

-- Every `parent.labels[j] == child.labels[off+j]`, on lists of one length.
unfoldable pub labels_eq : List Bytes → List Bytes → Bool
labels_eq [] [] = true
labels_eq (x ∷ xs) (y ∷ ys) = bytes_eq x y && labels_eq xs ys
labels_eq _ _ = false

-- The child's name is strictly below the parent's: the same tld_id, more labels, and the parent's
-- labels at the end of the child's.
unfoldable pub strict_descendant : Bytes → Bytes → Bool
strict_descendant parent child = elim (decode_wire_name parent) [
  | err e ↦ false
  | ok (p_labels, p_tld) ↦ elim (decode_wire_name child) [
    | err e ↦ false
    | ok (c_labels, c_tld) ↦
        bytes_eq c_tld p_tld
        && ltb (length p_labels) (length c_labels)
        && labels_eq (drop (length c_labels - length p_labels) c_labels) p_labels
  ]
]

-- The parent's delegation, if it is set, or its owner signed the child.
unfoldable pub authorized : Envelope → Envelope → Bool
authorized parent child =
    ltb 0 (length (bytes_of parent.body.delegation))
      && bytes_eq (bytes_of parent.body.delegation) child.signer
    || bytes_eq parent.body.owner child.signer

unfoldable pub verify_descents : Envelope → List Envelope → Bool
verify_descents parent [] = true
verify_descents parent (child ∷ rest) =
    authorized parent child
    && strict_descendant parent.body.name child.body.name
    && verify_descents child rest

-- The end of each verifier: the check of the root, given the chain that chainWellFormed passed, and
-- verifyDescents.
unfoldable pub verify_from_root : (Envelope → Bool) → Option (List Envelope) → Bool
verify_from_root root_ok none = false
verify_from_root root_ok (some []) = false
verify_from_root root_ok (some (root ∷ rest)) = root_ok root && verify_descents root rest

module _ (p : Platform) where
  unfoldable pub self_certified_tld_root : Envelope → Bool
  self_certified_tld_root env =
      bytes_eq env.signer env.body.owner && (elim (decode_wire_name env.body.name) [
        | err e ↦ false
        | ok (labels, name_tld) ↦ length labels == 0 && (elim (tld_id p env.body.owner) [
          | none ↦ false
          | some owner_tld ↦ bytes_eq owner_tld name_tld
        ])
      ])

  -- The loop of chainWellFormed: the envelopes, if none is nil and each signature verifies.
  unfoldable pub signed_all : List (Option Envelope) → Option (List Envelope)
  signed_all [] = some []
  signed_all (none ∷ chain) = none
  signed_all (some e ∷ chain) =
      let rest = signed_all chain in
      if verify_signature p e then (elim rest [ none ↦ none | some es ↦ some (e ∷ es) ]) else none

  -- chainWellFormed, with the envelopes of a chain that passes.
  unfoldable pub chain_well_formed : List (Option Envelope) → Option (List Envelope)
  chain_well_formed chain =
      if length chain == 0
      then none
      else (if ltb (max_labels + 1) (length chain) then none else signed_all chain)

  unfoldable pub verify_authority_chain : List (Option Envelope) → Bool
  unfolding verify_from_root
  verify_authority_chain chain = verify_from_root self_certified_tld_root (chain_well_formed chain)
