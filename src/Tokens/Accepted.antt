-- ===== src/Tokens/Accepted.antt =====
-- Which write tokens TokenStore accepts (internal/dht/tokens.go).
use freens.Prelude.{
  ℤ, ℕ, zero, suc, ◌+◌, ◌-◌, ◌≤◌, ◌≡◌, ◌↔◌, refl, sym, ap, true, leb, length, Bytes, bytes_eq,
  bytes_eq→eq, bytes_eq_refl, Bool-cases, inl, inr, arith,
}
use mathlib.Core.Path.{subst}
use freens.Tokens.{
  difference, TokenStore, epoch, secret_for_epoch, issue, verify_from, verify_token,
}

difference-back : (m n : ℕ) → n ≤ m → difference m (m - n) ≡ ℤ.pos n
unfolding difference
difference-back m n h =
    let before : leb (m - n) m ≡ true = ground arith in
    let same : m - (m - n) ≡ n = omega (arith, h) in rw before (ap (λ k. ℤ.pos k) same)

module _ (hmac : Bytes → Bytes → Bytes) (itoa : ℤ → Bytes) (ts : TokenStore) (peer_ip : Bytes) where
  -- The token of the peer in the epoch `off` before the current one.
  abbrev pub token_of : ℕ → ℕ → Bytes
  token_of current off = hmac (secret_for_epoch hmac itoa ts (difference current off)) peer_ip

  verify_from_sound :
      (current off left : ℕ) (token : Bytes)
      → verify_from hmac itoa ts current peer_ip token off left ≡ true
      → (i : ℕ) × (off ≤ i) × (i ≤ off + left) × (token ≡ token_of current i)
  unfolding verify_from
  verify_from_sound current off zero token h =
      (off, omega arith, omega arith, sym (bytes_eq→eq (token_of current off) token h))
  verify_from_sound current off (suc left) token h =
      elim (Bool-cases (bytes_eq (token_of current off) token)) [
        | inl e ↦ (off, omega arith, omega arith, sym (bytes_eq→eq (token_of current off) token e))
        | inr e ↦
            let (i, low, high, same) =
              verify_from_sound current (suc off) left token (ground arith) in
            (i, omega (arith, low), omega (arith, high), same)
      ]

  verify_from_complete :
      (current off left i : ℕ)
      → off ≤ i
      → i ≤ off + left
      → verify_from hmac itoa ts current peer_ip (token_of current i) off left ≡ true
  unfolding verify_from
  verify_from_complete current off zero i low high =
      let same : off ≡ i = omega arith in
      subst (λ j. bytes_eq (token_of current j) (token_of current i) ≡ true) (sym same)
        (bytes_eq_refl (token_of current i))
  verify_from_complete current off (suc left) i low high = elim (Bool-cases (leb i off)) [
    | inl e ↦
        let same : off ≡ i = ground arith in
        let here : bytes_eq (token_of current off) (token_of current i) ≡ true =
          subst (λ j. bytes_eq (token_of current j) (token_of current i) ≡ true) (sym same)
            (bytes_eq_refl (token_of current i)) in
        rw here refl
    | inr e ↦
        let later = verify_from_complete current (suc off) left i (ground arith) (ground arith) in
        ground (arith, later)
  ]

  -- Verify, with a tolerance that is not negative, accepts a token exactly when it has 32 bytes and is
  -- the token of the peer in the current epoch or in one of as many earlier ones as the tolerance
  -- says.
  pub verify_token_iff :
      (now tolerance : ℕ) (token : Bytes)
      → (verify_token hmac itoa ts now peer_ip token (ℤ.pos tolerance) ≡ true)
        ↔ ((length token ≡ 32) × ((i : ℕ) × (i ≤ tolerance) × (token ≡ token_of (epoch ts now) i)))
  unfolding verify_token
  verify_token_iff now tolerance token = (
    (λ h.
        let size : length token ≡ 32 = ground arith in
        let (i, low, high, same) =
          verify_from_sound (epoch ts now) 0 tolerance token (ground arith) in
        (size, (i, omega (arith, high), same))),
    (λ (size, (i, high, same)).
        let found =
          subst (λ t. verify_from hmac itoa ts (epoch ts now) peer_ip t 0 tolerance ≡ true)
            (sym same)
            (verify_from_complete (epoch ts now) 0 tolerance i (omega arith)
              (omega (arith, high))) in
        ground (arith, size, found)),
  )

  -- A token of 32 bytes that is issued at one time is accepted at a later one, as long as no more
  -- epochs than the tolerance have begun in between.
  pub verify_token-issue :
      (before now tolerance : ℕ)
      → length (issue hmac itoa ts before peer_ip) ≡ 32
      → epoch ts before ≤ epoch ts now
      → epoch ts now ≤ epoch ts before + tolerance
      → verify_token hmac itoa ts now peer_ip (issue hmac itoa ts before peer_ip) (ℤ.pos tolerance)
        ≡ true
  unfolding issue
  verify_token-issue before now tolerance size order near =
      let back = difference-back (epoch ts now) (epoch ts before) order in
      (verify_token_iff now tolerance (issue hmac itoa ts before peer_ip)).1 (
        size,
        (
          epoch ts now - epoch ts before,
          omega (arith, near),
          ap (λ e. hmac (secret_for_epoch hmac itoa ts e) peer_ip) (sym back),
        ),
      )
