-- ===== src/Wire/Handoff/Linked.antt =====
-- What one hop of the walks of internal/wire/transfer.go and recovery_walk.go checks.
use freens.Prelude.{
  ℕ, ◌+◌, ◌%◌, ◌^◌, ◌<◌, ◌≡◌, sym, ◌∙◌, ap, Bool, true, ◌&&◌, ◌==◌, length, Bytes, bytes_eq,
  bytes_eq→eq, bytes_eq_refl, Option, some, Bool-cases, Option-cases, inl, inr, arith, ltb, ltb→lt,
}
use freens.Wire.Record.{Envelope, Platform, bytes_of, record_hash, verify_signature}
use freens.Wire.Winner.{verify_chain_link}
use freens.Wire.Recovery.{RecoveryEvidence, verify_recovery}
use freens.Wire.Handoff.{predecessor, verify_recovery_hop}

-- `prev` is the signed record of the same name that `cur` names by its hash, one sequence earlier.
pub record Linked (p : Platform) (fetch_predecessor : Bytes → Option Envelope) (cur prev : Envelope)
    : Type 0 where
  pub hash_size : length (bytes_of cur.body.prev_hash) ≡ 32
  pub found : fetch_predecessor (bytes_of cur.body.prev_hash) ≡ some prev
  pub is_hash : record_hash p prev ≡ some (bytes_of cur.body.prev_hash)
  pub signed : verify_signature p prev ≡ true
  pub next : cur.body.sequence ≡ prev.body.sequence + 1
  pub fits : cur.body.sequence < 2 ^ 64
  pub same_name : prev.body.name ≡ cur.body.name

-- Evidence for `cur` is found that hands the name to its owner under the policy of `prev`.
pub record Declared (p : Platform) (fetch_evidence : Option (Bytes → Option RecoveryEvidence))
    (now : ℕ) (cur prev : Envelope) : Type 0 where
  pub fetch : Bytes → Option RecoveryEvidence
  pub hash_cur : Bytes
  pub hash_prev : Bytes
  pub evidence : RecoveryEvidence
  pub fetches : fetch_evidence ≡ some fetch
  pub is_hash_cur : record_hash p cur ≡ some hash_cur
  pub is_hash_prev : record_hash p prev ≡ some hash_prev
  pub found : fetch hash_cur ≡ some evidence
  pub names_owner : evidence.new_owner_pk ≡ cur.body.owner
  pub holds :
      verify_recovery p prev.body.recovery (some evidence) hash_prev prev.body.created now ≡ true

module _ (p : Platform) (fetch_predecessor : Bytes → Option Envelope) where
  abbrev link_test : Envelope → Envelope → Bool
  link_test cur prev =
      verify_signature p prev
      && (prev.body.sequence + 1) % 2 ^ 64 == cur.body.sequence
      && bytes_eq prev.body.name cur.body.name
      && verify_chain_link p (some cur) (some prev)

  chain_link_set :
      (cur prev : Envelope)
      → length (bytes_of cur.body.prev_hash) ≡ 32
      → verify_chain_link p (some cur) (some prev) ≡ true
      → (record_hash p prev ≡ some (bytes_of cur.body.prev_hash))
        × (ltb prev.body.sequence cur.body.sequence ≡ true)
  unfolding verify_chain_link
  chain_link_set cur prev len h = elim (Option-cases (record_hash p prev)) [
    | inl e ↦ ground arith
    | inr (x, e) ↦ ground (arith, bytes_eq→eq (bytes_of cur.body.prev_hash) x)
  ]

  predecessor_found :
      (cur prev : Envelope)
      → predecessor p fetch_predecessor cur ≡ some prev
      → (length (bytes_of cur.body.prev_hash) ≡ 32)
        × (fetch_predecessor (bytes_of cur.body.prev_hash) ≡ some prev)
        × (link_test cur prev ≡ true)
  unfolding predecessor
  predecessor_found cur prev h =
      elim (Option-cases (fetch_predecessor (bytes_of cur.body.prev_hash))) [
        | inl e ↦ ground arith
        | inr (q, e) ↦ elim (Bool-cases (link_test cur q)) [
          | inl passed ↦
              let same : q ≡ prev = ground arith in
              (ground arith, e ∙ ap some same, ap (link_test cur) (sym same) ∙ passed)
          | inr failed ↦ ground arith
        ]
      ]

  pub predecessor-Linked :
      (cur prev : Envelope)
      → predecessor p fetch_predecessor cur ≡ some prev
      → Linked p fetch_predecessor cur prev
  predecessor-Linked cur prev h =
      let (len, found, passed) = predecessor_found cur prev h in
      let signed : verify_signature p prev ≡ true = ground arith in
      let seq : (prev.body.sequence + 1) % 2 ^ 64 ≡ cur.body.sequence = ground arith in
      let name : bytes_eq prev.body.name cur.body.name ≡ true = ground arith in
      let link : verify_chain_link p (some cur) (some prev) ≡ true = ground arith in
      let (is_hash, later) = chain_link_set cur prev len link in
      let less = ltb→lt prev.body.sequence cur.body.sequence later in
      record {
        hash_size = len;
        found = found;
        is_hash = is_hash;
        signed = signed;
        next = omega arith;
        fits = omega arith;
        same_name = bytes_eq→eq _ _ name;
      }

  pub Linked-predecessor :
      (cur prev : Envelope)
      → Linked p fetch_predecessor cur prev
      → predecessor p fetch_predecessor cur ≡ some prev
  unfolding predecessor verify_chain_link
  Linked-predecessor cur prev l =
      let same : bytes_eq prev.body.name cur.body.name ≡ true =
        rw l.same_name (bytes_eq_refl cur.body.name) in
      ground (
        arith,
        l.hash_size,
        l.found,
        l.is_hash,
        l.signed,
        l.next,
        l.fits,
        same,
        bytes_eq_refl (bytes_of cur.body.prev_hash),
      )

module _ (p : Platform) (fetch_evidence : Option (Bytes → Option RecoveryEvidence)) (now : ℕ) where
  pub recovery_hop-Declared :
      (cur prev : Envelope)
      → verify_recovery_hop p fetch_evidence now cur prev ≡ true
      → Declared p fetch_evidence now cur prev
  unfolding verify_recovery_hop
  recovery_hop-Declared cur prev h = elim (Option-cases fetch_evidence) [
    | inl e ↦ ground arith
    | inr (f, ef) ↦ elim (Option-cases (record_hash p cur)) [
      | inl e ↦ ground arith
      | inr (hc, ec) ↦ elim (Option-cases (f hc)) [
        | inl e ↦ ground arith
        | inr (ev, ee) ↦ elim (Option-cases (record_hash p prev)) [
          | inl e ↦ ground arith
          | inr (hp, ep) ↦
              let names : bytes_eq ev.new_owner_pk cur.body.owner ≡ true = ground arith in
              record {
                fetch = f;
                hash_cur = hc;
                hash_prev = hp;
                evidence = ev;
                fetches = ef;
                is_hash_cur = ec;
                is_hash_prev = ep;
                found = ee;
                names_owner = bytes_eq→eq _ _ names;
                holds = ground arith;
              }
        ]
      ]
    ]
  ]

  pub Declared-recovery_hop :
      (cur prev : Envelope)
      → Declared p fetch_evidence now cur prev
      → verify_recovery_hop p fetch_evidence now cur prev ≡ true
  unfolding verify_recovery_hop
  Declared-recovery_hop cur prev d =
      let names : bytes_eq d.evidence.new_owner_pk cur.body.owner ≡ true =
        rw d.names_owner (bytes_eq_refl cur.body.owner) in
      ground (arith, d.fetches, d.is_hash_cur, d.found, d.is_hash_prev, names, d.holds)
