-- ===== src/Claims/Attestation/Bound.antt =====
-- What a witness signs determines the claim's prefix hash and the witness's time.
use freens.Prelude.{
  ℕ, ◌/◌, ◌%◌, ◌^◌, ◌<◌, ◌≡◌, sym, ap, ◌∙◌, true, ◌==◌, ◌++◌, take, drop, take_append, drop_append,
  length, Bytes, bytes_eq_refl, none, some, ok, arith, Bool-cases, Option-cases, inl, inr, ==→eq,
}
use freens.Wire.Record.{Platform, hash_len, tld_id, verify}
use freens.Wire.Recovery.{be_bytes}
use freens.Claims.Attestation.{
  WitnessAttestation, Keypair, witness_signing_tag, witness_signing_message,
  new_witness_attestation, verify_attestation,
}

-- The eight bytes of a uint64 determine it.
be_bytes_cancel : (x y : ℕ) → x < 2 ^ 64 → y < 2 ^ 64 → be_bytes 8 x ≡ be_bytes 8 y → x ≡ y
unfolding be_bytes
be_bytes_cancel x y hx hy h =
    let d7 : x / 256 ^ 7 % 256 ≡ y / 256 ^ 7 % 256 = cc in
    let d6 : x / 256 ^ 6 % 256 ≡ y / 256 ^ 6 % 256 = cc in
    let d5 : x / 256 ^ 5 % 256 ≡ y / 256 ^ 5 % 256 = cc in
    let d4 : x / 256 ^ 4 % 256 ≡ y / 256 ^ 4 % 256 = cc in
    let d3 : x / 256 ^ 3 % 256 ≡ y / 256 ^ 3 % 256 = cc in
    let d2 : x / 256 ^ 2 % 256 ≡ y / 256 ^ 2 % 256 = cc in
    let d1 : x / 256 ^ 1 % 256 ≡ y / 256 ^ 1 % 256 = cc in
    let d0 : x / 256 ^ 0 % 256 ≡ y / 256 ^ 0 % 256 = cc in
    let q7 : x / 256 ^ 7 ≡ y / 256 ^ 7 = omega (arith, d7) in
    let q6 : x / 256 ^ 6 ≡ y / 256 ^ 6 = omega (arith, q7, d6) in
    let q5 : x / 256 ^ 5 ≡ y / 256 ^ 5 = omega (arith, q6, d5) in
    let q4 : x / 256 ^ 4 ≡ y / 256 ^ 4 = omega (arith, q5, d4) in
    let q3 : x / 256 ^ 3 ≡ y / 256 ^ 3 = omega (arith, q4, d3) in
    let q2 : x / 256 ^ 2 ≡ y / 256 ^ 2 = omega (arith, q3, d2) in
    let q1 : x / 256 ^ 1 ≡ y / 256 ^ 1 = omega (arith, q2, d1) in
    let q0 : x / 256 ^ 0 ≡ y / 256 ^ 0 = omega (arith, q1, d0) in omega (arith, q0)

-- Two claims and times with the same message to sign are the same, for times that are uint64.
pub witness_signing_message_injective :
    (ph qh : Bytes) (t r : ℕ) (msg : Bytes)
    → t < 2 ^ 64
    → r < 2 ^ 64
    → witness_signing_message ph t ≡ some msg
    → witness_signing_message qh r ≡ some msg
    → (ph ≡ qh) × (t ≡ r)
unfolding witness_signing_message
witness_signing_message_injective ph qh t r msg ht hr h k =
    elim (Bool-cases (length ph == hash_len)) [
      | inr e ↦ let h' : none ≡ some msg = rw (e, witness_signing_message) at h in cc
      | inl e ↦ elim (Bool-cases (length qh == hash_len)) [
        | inr f ↦ let k' : none ≡ some msg = rw (f, witness_signing_message) at k in cc
        | inl f ↦
            let h' : some (witness_signing_tag ++ (ph ++ be_bytes 8 t)) ≡ some msg =
              rw (e, witness_signing_message) at h in
            let k' : some (witness_signing_tag ++ (qh ++ be_bytes 8 r)) ≡ some msg =
              rw (f, witness_signing_message) at k in
            let whole : witness_signing_tag ++ (ph ++ be_bytes 8 t)
                ≡ witness_signing_tag ++ (qh ++ be_bytes 8 r) =
              cc in
            let same : ph ++ be_bytes 8 t ≡ qh ++ be_bytes 8 r = ap (drop 17) whole in
            let size : length ph ≡ length qh = ==→eq _ _ e ∙ sym (==→eq _ _ f) in
            let times : be_bytes 8 t ≡ be_bytes 8 r =
              sym (drop_append ph (be_bytes 8 t))
              ∙ ap (drop (length ph)) same
              ∙ ap (λ n. drop n (qh ++ be_bytes 8 r)) size
              ∙ drop_append qh (be_bytes 8 r) in
            (
              sym (take_append ph (be_bytes 8 t))
                  ∙ ap (take (length ph)) same
                  ∙ ap (λ n. take n (qh ++ be_bytes 8 r)) size
                  ∙ take_append qh (be_bytes 8 r),
              be_bytes_cancel t r ht hr times,
            )
      ]
    ]

module _ (p : Platform) (kp : Keypair) where
  -- With a key pair whose signatures verify under its public key, an attestation that is made for a
  -- prefix hash passes Verify for that hash, and it carries the time and the hash of the key.
  pub new_witness_attestation-verify :
      ((msg : Bytes) → verify p kp.public (kp.sign msg) msg ≡ true)
      → (ts : ℕ) (ph : Bytes) (w : WitnessAttestation)
      → new_witness_attestation p (some kp) ts ph ≡ ok w
      → (verify_attestation p w ph ≡ true)
        × (w.ts ≡ ts)
        × (w.node_pk ≡ kp.public)
        × (tld_id p kp.public ≡ some w.node_id)
  unfolding new_witness_attestation verify_attestation witness_signing_message
  new_witness_attestation-verify good ts ph w h = elim (Bool-cases (length ph == hash_len)) [
    | inr e ↦ let h' = rw (e, new_witness_attestation) at h in cc
    | inl e ↦ elim (Option-cases (tld_id p kp.public)) [
      | inl no_id ↦ let h' = rw (e, no_id, new_witness_attestation) at h in cc
      | inr (id, has_id) ↦
          let msg = witness_signing_tag ++ (ph ++ be_bytes 8 ts) in
          ground (arith, e, has_id, good msg, bytes_eq_refl id)
    ]
  ]
