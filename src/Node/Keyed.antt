-- ===== src/Node/Keyed.antt =====
-- The key of a put and the claim that its envelope carries (internal/dht/transport.go, putKeyFor).
use freens.Prelude.{
  ◌≡◌, arith, refl, ◌∙◌, ◌⊎◌, true, ◌||◌, ◌==◌, length, Bytes, bytes_eq, bytes_eq→eq, some, ok,
  Option-cases, Result-cases, Bool-cases, inl, inr,
}
use mathlib.Core.Path.{subst}
use freens.Naming.Keys.{dht_key_claim}
use freens.Wire.Record.{Envelope, bytes_of}
use freens.Claims.Claim.{AliasClaim, decode_alias_claim}
use freens.Claims.Tombstone.{key_for_claim}
use freens.Store.Envelopes.{key_for_wire_name}
use freens.Node.{Outside}
use freens.Node.Put.{claimed, carried, put_key_for}
use freens.Node.Kept.Put.{Carried-cases}

module _ (o : Outside) where
  -- The claim that the decoder makes of field 11.
  abbrev pub CarriesClaim : Envelope → AliasClaim → Type 0
  CarriesClaim env claim =
      decode_alias_claim o.setting o.unmarshal_claim (bytes_of env.body.claim) ≡ ok claim

  -- K_claim of the claim's alias.
  abbrev pub IsClaimKey : AliasClaim → Bytes → Type 0
  IsClaimKey claim key =
      dht_key_claim o.setting.platform.sha256 o.setting.unicode o.setting.idna claim.alias ≡ ok key

  carried-CarriesClaim :
      (env : Envelope) (claim : AliasClaim) → carried o env ≡ claimed claim → CarriesClaim env claim
  unfolding carried
  carried-CarriesClaim env claim c =
      elim (Result-cases
        (decode_alias_claim o.setting o.unmarshal_claim (bytes_of env.body.claim))) [
          | inl (found, e) ↦ ground (arith, e, c)
          | inr (why, e) ↦ absurd (ground (arith, e, c))
        ]

  pub CarriesClaim-carried :
      (env : Envelope) (claim : AliasClaim) → CarriesClaim env claim → carried o env ≡ claimed claim
  unfolding carried
  CarriesClaim-carried env claim e = rw (e, carried) refl

  key_for_claim-IsClaimKey :
      (claim : AliasClaim) (key : Bytes)
      → key_for_claim o.setting claim.alias ≡ some key
      → IsClaimKey claim key
  unfolding key_for_claim
  key_for_claim-IsClaimKey claim key e = ground (arith, e)

  pub IsClaimKey-key_for_claim :
      (claim : AliasClaim) (key : Bytes)
      → IsClaimKey claim key
      → key_for_claim o.setting claim.alias ≡ some key
  unfolding key_for_claim
  IsClaimKey-key_for_claim claim key e = rw (e, key_for_claim) refl

  -- The key asked for is the one used, unless none is asked for; it is that of the name, or it is
  -- asked for and that of the claim in the envelope.
  abbrev pub IsKeyOf : Bytes → Envelope → Bytes → Type 0
  IsKeyOf explicit env key =
      ((key_for_wire_name o.setting.platform.sha256 env.body.name ≡ ok key)
        × ((length explicit ≡ 0) ⊎ (explicit ≡ key)))
      ⊎ ((explicit ≡ key) × ((claim : AliasClaim) × CarriesClaim env claim × IsClaimKey claim key))

  asked_for :
      (explicit derived : Bytes)
      → (length explicit == 0 || bytes_eq explicit derived) ≡ true
      → (length explicit ≡ 0) ⊎ (explicit ≡ derived)
  asked_for explicit derived h = elim (Bool-cases (length explicit == 0)) [
    | inl e ↦ inl (ground (arith, e))
    | inr e ↦ inr (bytes_eq→eq explicit derived (ground (arith, e, h)))
  ]

  pub put_key_for-IsKeyOf :
      (explicit : Bytes) (env : Envelope) (key : Bytes)
      → put_key_for o explicit env ≡ ok key
      → IsKeyOf explicit env key
  unfolding put_key_for
  put_key_for-IsKeyOf explicit env key h =
      elim (Result-cases (key_for_wire_name o.setting.platform.sha256 env.body.name)) [
        | inr (why, e) ↦ let h' = rw (e, put_key_for) at h in cc
        | inl (derived, e) ↦ elim (Bool-cases (length explicit == 0 || bytes_eq explicit derived)) [
          | inl f ↦
              let h' : ok derived ≡ ok key = rw (e, f, put_key_for) at h in
              let same : derived ≡ key = cc h' in
              inl (
                rw e (cc h'),
                subst (λ x. (length explicit ≡ 0) ⊎ (explicit ≡ x)) same
                    (asked_for explicit derived f),
              )
          | inr f ↦ elim (Carried-cases (carried o env)) [
            | inl (inl g) ↦ let h' = rw (e, f, g, put_key_for) at h in cc
            | inl (inr g) ↦ let h' = rw (e, f, g, put_key_for) at h in cc
            | inr (claim, g) ↦ elim (Option-cases (key_for_claim o.setting claim.alias)) [
              | inl k ↦ let h' = rw (e, f, g, k, put_key_for) at h in cc
              | inr (own, k) ↦ elim (Bool-cases (bytes_eq explicit own)) [
                | inr b ↦ let h' = rw (e, f, g, k, b, put_key_for) at h in cc
                | inl b ↦
                    let h' : ok own ≡ ok key = rw (e, f, g, k, b, put_key_for) at h in
                    let same : own ≡ key = cc h' in
                    inr (
                      bytes_eq→eq explicit own b ∙ same,
                      (
                        claim,
                        carried-CarriesClaim env claim g,
                        key_for_claim-IsClaimKey claim key (k ∙ cc same),
                      ),
                    )
              ]
            ]
          ]
        ]
      ]
