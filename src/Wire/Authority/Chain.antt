-- ===== src/Wire/Authority/Chain.antt =====
-- VerifyAuthorityChain against the chain of authority of §3.4.
use freens.Prelude.{
  suc, ◌≤◌, ◌≡◌, ◌↔◌, refl, sym, ◌∙◌, ap, ap₂, true, ◌==◌, ==→eq, List, [], ◌∷◌, map, All, length,
  bytes_eq, bytes_eq→eq, bytes_eq_refl, Option, none, some, ok, Bool-cases, Option-cases,
  Result-cases, inl, inr, arith,
}
use mathlib.Core.Path.{subst}
use freens.Naming.Wire.{decode_wire_name}
use freens.Wire.Record.{Envelope, Platform, tld_id, verify_signature, key_len}
use freens.Wire.Authority.Descent.{Below, descents-Below, Below-descents}
use freens.Wire.Authority.{
  verify_descents, self_certified_tld_root, signed_all, chain_well_formed, verify_authority_chain,
}

-- The owner signed the record of a TLD whose id is the hash of the owner's key.
pub record SelfCertified (p : Platform) (e : Envelope) : Type 0 where
  pub own : e.signer ≡ e.body.owner
  pub key_size : length e.body.owner ≡ 32
  pub names : decode_wire_name e.body.name ≡ ok ([], p.sha256 e.body.owner)

module _ (p : Platform) where
  root-SelfCertified : (e : Envelope) → self_certified_tld_root p e ≡ true → SelfCertified p e
  unfolding self_certified_tld_root tld_id
  root-SelfCertified e h = elim (Result-cases (decode_wire_name e.body.name)) [
    | inr (x, ne) ↦ ground arith
    | inl ((ls, tld), ne) ↦ elim (Bool-cases (length e.body.owner == key_len)) [
      | inr wrong ↦ ground arith
      | inl size ↦
          let own : bytes_eq e.signer e.body.owner ≡ true = ground arith in
          let none_above : length ls ≡ 0 = ground arith in
          let same : bytes_eq (p.sha256 e.body.owner) tld ≡ true = ground arith in
          let empty : ls ≡ [] = ground arith in
          record {
            own = bytes_eq→eq _ _ own;
            key_size = ==→eq _ _ size;
            names = ne ∙ ap₂ (λ l t. ok (l, t)) empty (sym (bytes_eq→eq _ _ same));
          }
    ]
  ]

  SelfCertified-root : (e : Envelope) → SelfCertified p e → self_certified_tld_root p e ≡ true
  unfolding self_certified_tld_root tld_id
  SelfCertified-root e c = ground (
    arith,
    c.own,
    c.key_size,
    c.names,
    ap (λ s. bytes_eq s e.body.owner) c.own,
    bytes_eq_refl e.body.owner,
    bytes_eq_refl (p.sha256 e.body.owner),
  )

  abbrev IsSigned : Envelope → Type 0
  IsSigned e = verify_signature p e ≡ true

  signed_all-map :
      (chain : List (Option Envelope)) (es : List Envelope)
      → signed_all p chain ≡ some es
      → (chain ≡ map some es) × All IsSigned es
  unfolding signed_all
  signed_all-map [] [] h = (refl, tt)
  signed_all-map [] (e ∷ es) h = cc
  signed_all-map (none ∷ chain) es h = cc
  signed_all-map (some e ∷ chain) es h = elim (Option-cases (signed_all p chain)) [
    | inl none_left ↦ ground arith
    | inr (r, found) ↦
        let (shape, signed) = signed_all-map chain r found in
        let here : verify_signature p e ≡ true = ground arith in
        let whole : e ∷ r ≡ es = ground arith in
        subst (λ l. (some e ∷ chain ≡ map some l) × All IsSigned l) whole
          (ap (◌∷◌ (some e)) shape, (here, signed))
  ]

  map-signed_all : (es : List Envelope) → All IsSigned es → signed_all p (map some es) ≡ some es
  unfolding signed_all
  map-signed_all [] h = refl
  map-signed_all (e ∷ es) (h, hs) = rw (h, map-signed_all es hs)

  length-map-some : (es : List Envelope) → length (map {B = Option Envelope} some es) ≡ length es
  length-map-some [] = refl
  length-map-some (e ∷ es) = ap suc (length-map-some es)

  -- A chain of records, TLD first, that §3.4 accepts.
  abbrev pub IsAuthorityChain : List (Option Envelope) → Type 0
  IsAuthorityChain chain =
      (root : Envelope) × (rest : List Envelope) × (chain ≡ map some (root ∷ rest))
      × (length rest ≤ 8)
      × All IsSigned (root ∷ rest)
      × SelfCertified p root
      × Below root rest

  chain_sound :
      (chain : List (Option Envelope))
      → verify_authority_chain p chain ≡ true
      → IsAuthorityChain chain
  unfolding verify_authority_chain chain_well_formed
  chain_sound chain h = elim (Option-cases (signed_all p chain)) [
    | inl e ↦ ground arith
    | inr ([], e) ↦ ground arith
    | inr (root ∷ rest, e) ↦
        let (shape, signed) = signed_all-map chain (root ∷ rest) e in
        let size : length chain ≤ 9 = ground arith in
        let root_ok : self_certified_tld_root p root ≡ true = ground arith in
        let below : verify_descents root rest ≡ true = ground arith in
        (
          root,
          rest,
          shape,
          omega (arith, ap length shape, length-map-some rest),
          signed,
          root-SelfCertified root root_ok,
          descents-Below root rest below,
        )
  ]

  chain_complete :
      (root : Envelope) (rest : List Envelope)
      → length rest ≤ 8
      → All IsSigned (root ∷ rest)
      → SelfCertified p root
      → Below root rest
      → verify_authority_chain p (map some (root ∷ rest)) ≡ true
  unfolding verify_authority_chain chain_well_formed
  chain_complete root rest size signed own below = ground (
    arith,
    length-map-some rest,
    map-signed_all (root ∷ rest) signed,
    SelfCertified-root root own,
    Below-descents below,
  )

  -- VerifyAuthorityChain accepts a chain exactly when it is 1 to 9 signed records, none nil, of
  -- which the first certifies itself and each other is authorized by the one before it.
  pub verify_authority_chain_iff :
      (chain : List (Option Envelope))
      → (verify_authority_chain p chain ≡ true) ↔ IsAuthorityChain chain
  verify_authority_chain_iff chain = (
    chain_sound chain,
    λ (root, rest, shape, size, signed, own, below).
        ap (verify_authority_chain p) shape ∙ chain_complete root rest size signed own below,
  )
