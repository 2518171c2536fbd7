-- ===== src/Node/Get/Served.antt =====
-- What a get returns (internal/dht/transport.go, hGet).
use freens.Prelude.{
  ℕ, ◌+◌, ◌^◌, ◌≤◌, ◌<◌, ◌≡◌, ◌⊎◌, refl, sym, ap, ◌∙◌, arith, true, ◌==◌, List, [], ◌∷◌, ◌++◌,
  length, Bytes, some, ok, Option-cases, Result-cases, Bool-cases, inl, inr, Member,
}
use mathlib.Core.Path.{subst}
use freens.Wire.Record.{Envelope, hash_len, bytes_of}
use freens.Claims.Attestation.{WitnessAttestation, verify_attestation}
use freens.Claims.Claim.{AliasClaim, decode_alias_claim, prefix_hash}
use freens.Claims.Quorum.{fresh_attestations, add64, sub64}
use freens.Claims.Quorum.Fresh.{fresh_from-Fresh, in_window_iff}
use freens.Claims.Pool.{ClaimPool, top2, re_attests_of}
use freens.Store.Entries.{EnvelopeStore, Entry, alive, get_history, lookup, to_key}
use freens.Store.Envelopes.{get}
use freens.Routing.Closest.{closest}
use freens.Routing.Nodes.{encode_nodes}
use freens.Node.{Node, Outside, Circumstances}
use freens.Node.Get.{
  Got, advertiseable_nodes, encode_attestations, fresh_of, re_attest_args, served, answer, h_get,
}
use freens.Node.Get.Contained.{HasRows, trusted_contacts, keep_contacts-trusted_contacts}

Member-append :
    {A : Type 0} (a : A) (xs ys : List A) → Member a (xs ++ ys) → Member a xs ⊎ Member a ys
Member-append a [] ys m = inr m
Member-append a (x ∷ xs) ys (inl e) = inl (inl e)
Member-append a (x ∷ xs) ys (inr m) = elim (Member-append a xs ys m) [
  | inl k ↦ inl (inr k)
  | inr k ↦ inr k
]

module _ (o : Outside) (p : ClaimPool) (key : Bytes) (now : ℕ) where
  -- An attestation of a pooled claim's identity that this node keeps, as encoded, which verifies and
  -- was made at most 48 hours before now and 60 seconds after it.
  pub record IsFresh (pooled : List Envelope) (ph raw : Bytes) : Type 0 where
    pub env : Envelope
    pub pooled_here : Member env pooled
    pub claim : AliasClaim
    pub decoded :
        decode_alias_claim o.setting o.unmarshal_claim (bytes_of env.body.claim) ≡ ok claim
    pub identity : prefix_hash o.setting claim ≡ some ph
    pub attestation : WitnessAttestation
    pub held : Member attestation (re_attests_of p key ph)
    pub encoded : o.marshal_attestation attestation ≡ some raw
    pub verified : verify_attestation o.setting.platform attestation ph ≡ true
    pub recent : now ≤ attestation.ts + 172800
    pub past : attestation.ts ≤ now + 60

  encode_attestations-encoded :
      (ph : Bytes) (atts : List WitnessAttestation) (x : Bytes × Bytes)
      → Member x (encode_attestations o ph atts)
      → (x.0 ≡ ph)
        × ((a : WitnessAttestation) × Member a atts × (o.marshal_attestation a ≡ some x.1))
  unfolding encode_attestations
  encode_attestations-encoded ph [] x m = absurd m
  encode_attestations-encoded ph (a ∷ atts) x m = elim (Option-cases (o.marshal_attestation a)) [
    | inl e ↦
        let (i, (b, k, f)) =
          encode_attestations-encoded ph atts x (rw (e, encode_attestations) at m) in
        (i, (b, inr k, f))
    | inr (raw, e) ↦
        let m' : ((ph, raw) ≡ x) ⊎ Member x (encode_attestations o ph atts) =
          rw (e, encode_attestations) at m in
        elim m' [
          | inl same ↦ (
            ap (λ y. y.0) (sym same),
            (a, inl refl, e ∙ ap (λ (y : Bytes × Bytes). some y.1) same),
          )
          | inr later ↦
              let (i, (b, k, f)) = encode_attestations-encoded ph atts x later in (i, (b, inr k, f))
        ]
  ]

  fresh_of-IsFresh :
      172800 ≤ now
      → now + 60 < 2 ^ 63
      → ((ph : Bytes) (w : WitnessAttestation) → Member w (re_attests_of p key ph) → w.ts < 2 ^ 63)
      → (env : Envelope) (pooled : List Envelope) (x : Bytes × Bytes) → Member env pooled
      → Member x (fresh_of o p key now env)
      → IsFresh pooled x.0 x.1
  unfolding fresh_of fresh_attestations
  fresh_of-IsFresh late soon signed env pooled x k m =
      elim (Result-cases
        (decode_alias_claim o.setting o.unmarshal_claim (bytes_of env.body.claim))) [
          | inr (why, e) ↦ absurd (rw (e, fresh_of) at m)
          | inl (claim, e) ↦ elim (Option-cases (prefix_hash o.setting claim)) [
            | inl f ↦ absurd (rw (e, f, fresh_of) at m)
            | inr (ph, f) ↦
                let m' : Member x (
                    encode_attestations o ph
                      (fresh_attestations o.setting (re_attests_of p key ph) ph now 172800)) =
                  rw (e, f, fresh_of) at m in
                let (same, (a, kept, encoded)) = encode_attestations-encoded ph _ x m' in
                let (held, (verified, dated)) =
                  fresh_from-Fresh o.setting ph (sub64 now 172800) (add64 now 60)
                    (re_attests_of p key ph) [] 0 a kept in
                let times = in_window_iff now 172800 a.ts late soon (signed ph a held) dated in
                subst (λ y. IsFresh pooled y x.1) (sym same)
                  (record {
                    env = env;
                    pooled_here = k;
                    claim = claim;
                    decoded = e;
                    identity = f;
                    attestation = a;
                    held = held;
                    encoded = encoded;
                    verified = verified;
                    recent = times.0;
                    past = times.1;
                  })
          ]
        ]

  re_attest_args-IsFresh :
      172800 ≤ now
      → now + 60 < 2 ^ 63
      → ((ph : Bytes) (w : WitnessAttestation) → Member w (re_attests_of p key ph) → w.ts < 2 ^ 63)
      → (all envs : List Envelope) (x : Bytes × Bytes)
      → ((env : Envelope) → Member env envs → Member env all)
      → Member x (re_attest_args o p key now envs)
      → IsFresh all x.0 x.1
  unfolding re_attest_args
  re_attest_args-IsFresh late soon signed all [] x sub m = absurd m
  re_attest_args-IsFresh late soon signed all (env ∷ envs) x sub m =
      elim (Member-append x (fresh_of o p key now env) (re_attest_args o p key now envs) m) [
        | inl k ↦ fresh_of-IsFresh late soon signed env all x (sub env (inl refl)) k
        | inr k ↦ re_attest_args-IsFresh late soon signed all envs x (λ e j. sub e (inr j)) k
      ]

-- Where an envelope comes from: a live entry of the key, or else a superseded envelope of the history
-- under the key, its hash.
abbrev pub IsFrom : EnvelopeStore → EnvelopeStore → Bytes → ℕ → Envelope → Type 0
IsFrom s s' key now env =
    ((e : Entry) × (lookup (to_key key) s.entries ≡ some e) × (alive e now ≡ true) × (e.env ≡ env))
    ⊎ (get_history s' key ≡ some env)

module _ (o : Outside) where
  served-IsFrom :
      (s : EnvelopeStore) (key : Bytes) (now : ℕ) (env : Envelope)
      → (served o s key now).1 ≡ some env
      → IsFrom s (served o s key now).0 key now env
  unfolding served get
  served-IsFrom s key now env h = elim (Bool-cases (length key == hash_len)) [
    | inr q ↦ rw (q, served, get) (inr (rw (q, served, get) at h))
    | inl q ↦ elim (Option-cases (lookup (to_key key) s.entries)) [
      | inl f ↦ rw (q, f, served, get) (inr (rw (q, f, served, get) at h))
      | inr (e, f) ↦ elim (Bool-cases (alive e now)) [
        | inl live ↦ let same : e.env ≡ env = ground (arith, q, f, live) in inl (e, f, live, same)
        | inr dead ↦ rw (q, f, dead, served, get) (inr (rw (q, f, dead, served, get) at h))
      ]
    ]
  ]

  -- What a get hands out.
  pub record IsServed (n n' : Node) (t : Circumstances) (key : Bytes) (g : Got) : Type 0 where
    pub contained :
        g.nodes
        ≡ encode_nodes o.net (trusted_contacts n.black t.now t.instant (closest n.rt key 20))
    pub stored :
        (raw : Bytes)
        → g.envelope ≡ some raw
        → (env : Envelope) × IsFrom n.store n'.store key t.now env
          × (o.setting.platform.marshal_envelope env ≡ some raw)
    pub fresh :
        (ph raw : Bytes)
        → Member (ph, raw) g.reattests
        → IsFresh o n.claims key t.now (top2 n.claims key) ph raw

  pub h_get-answer :
      (n : Node) (t : Circumstances) (key : Bytes) (g : Got)
      → (h_get o n t key).1 ≡ ok g
      → (g ≡ answer o n t key (served o n.store key t.now).0 (served o n.store key t.now).1)
        × ((h_get o n t key).0.store ≡ (served o n.store key t.now).0)
  unfolding h_get
  h_get-answer n t key g h = elim (Bool-cases t.allowed) [
    | inr e ↦ absurd (ground (arith, e))
    | inl e ↦ elim (Bool-cases (length key == 32)) [
      | inr f ↦ absurd (ground (arith, e, f))
      | inl f ↦ (ground (arith, e, f), ground (arith, e, f))
    ]
  ]

  -- With a ledger in which no identity has two rows, and for times that an int64 holds, at 48 hours
  -- or later: a get that is answered returns of the 20 nearest contacts those that are not flagged and
  -- not ghosts; an envelope only as the encoding of the live one at the key or of one in the history
  -- under it; and as re-attestations only the encodings of ones that this node keeps for the identity
  -- of a claim pooled at the key, that verify, and that were made within 48 hours.
  pub h_get-IsServed :
      (n : Node) (t : Circumstances) (key : Bytes) (g : Got)
      → HasRows n.black
      → 172800 ≤ t.now
      → t.now + 60 < 2 ^ 63
      → ((ph : Bytes) (w : WitnessAttestation)
          → Member w (re_attests_of n.claims key ph)
          → w.ts < 2 ^ 63)
      → (h_get o n t key).1 ≡ ok g
      → IsServed n (h_get o n t key).0 t key g
  unfolding answer advertiseable_nodes
  h_get-IsServed n t key g rows late soon signed h =
      let (same, left) = h_get-answer n t key g h in
      let contacts =
        keep_contacts-trusted_contacts n.black t.now t.instant (closest n.rt key 20) rows in
      subst (λ x. IsServed n (h_get o n t key).0 t key x) (sym same)
        (record {
          contained = ap (λ cs. encode_nodes o.net cs) contacts;
          stored = λ raw e. elim (Option-cases (served o n.store key t.now).1) [
            | inl f ↦ absurd (ground (arith, e, f))
            | inr (env, f) ↦ (
              env,
              subst (λ x. IsFrom n.store x key t.now env) (sym left)
                  (served-IsFrom n.store key t.now env f),
              ground (arith, e, f),
            )
          ];
          fresh = λ ph raw m.
              re_attest_args-IsFresh o n.claims key t.now late soon signed (top2 n.claims key)
                (top2 n.claims key) (ph, raw) (λ env k. k) m;
        })
