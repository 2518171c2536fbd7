-- ===== src/Node/Kept.antt =====
-- What every handler keeps of the node (internal/dht/transport.go).
pub mod Put
pub mod Get
pub mod Witness
pub mod Runs
use freens.Prelude.{
  ℕ, ◌+◌, ◌≡◌, ◌⊎◌, if◌then◌else◌, if_elim, refl, Bool, true, false, ◌&&◌, ◌||◌, not, ltb, ◌==◌,
  List, [], ◌∷◌, length, Bytes, bytes_eq, Option, none, some, Result, ok, err, Option-cases,
  Result-cases, Bool-cases, inl, inr, ℤ,
}
use mathlib.Core.Path.{subst}
use freens.Wire.Record.{Envelope, record_hash, verify_signature}
use freens.Claims.Claim.{AliasClaim, prefix_hash}
use freens.Claims.Quorum.{verify_full}
use freens.Claims.Pool.{ClaimPool, offer_seen, contains, new_claim_pool}
use freens.Claims.Pool.Budget.{IsPool}
use freens.Claims.Pool.Runs.{offer_seen-IsPool, store_re_attests-IsPool}
use freens.Claims.Attestation.{new_witness_attestation}
use freens.Claims.Tombstone.{
  key_for_claim, claim_reuse_refusal, live_claim_conflict, re_attest_refusal, k_claim_for,
  claim_prefix_hash,
}
use freens.Store.Entries.{EnvelopeStore, lookup}
use freens.Store.Evidence.{put_evidence}
use freens.Store.Envelopes.{get, put_with_evidence}
use freens.Store.Budget.{IsStore}
use freens.Store.Operations.{Kept-ok, get-Kept, put-Kept}
use freens.Store.Runs.{put_evidence-IsStore}
use freens.Tokens.{verify_token}
use freens.Blacklist.{flagged}
use freens.Node.{
  Node, Outside, Circumstances, Reply, Refusal, crashed, refused, decode_envelope,
  record_hash_or_nil, retain_evidence, violate,
}
use freens.Node.Put.{
  PutArgs, PutKeyError, Carried, torn, plain, claimed, carried, put_key_for, is_incumbent,
  put_store, in_reuse_window, put_claim, put_verified, put_decoded, put_admitted, h_put,
}
use freens.Node.Witness.{
  WitnessArgs, cooling, is_old, co_sign, witness_proved, witness_named, witness_admitted, h_witness,
}

-- The store's counters are right, and so are the pool's.
pub record IsNode (o : Outside) (n : Node) : Type 0 where
  pub stored : IsStore o.setting.platform n.store
  pub pooled : IsPool n.claims

module _ (o : Outside) where
  pub with_store :
      (n : Node) (s : EnvelopeStore)
      → IsNode o n
      → IsStore o.setting.platform s
      → IsNode o (record n { store = s })
  with_store n s i h = record { stored = h; pooled = i.pooled }

  pub with_pool :
      (n : Node) (p : ClaimPool) → IsNode o n → IsPool p → IsNode o (record n { claims = p })
  with_pool n p i h = record { stored = i.stored; pooled = h }

  -- The store and the pool are what matters.
  pub same_node :
      (n n' : Node) → n'.store ≡ n.store → n'.claims ≡ n.claims → IsNode o n → IsNode o n'
  same_node n n' s c i = record { stored = rw s i.stored; pooled = rw c i.pooled }

  -- A branch of a handler.
  pub either :
      (b : Bool) (x y : Node × Reply)
      → IsNode o x.0
      → IsNode o y.0
      → IsNode o (if b then x else y).0
  either = if_elim (λ r. IsNode o r.0)
