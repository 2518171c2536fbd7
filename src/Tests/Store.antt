-- ===== src/Tests/Store.antt =====
-- A store of internal/dht/store.go: a root is put, then a recovery takes its slot.
use freens.Prelude.{
  ◌≤◌, ◌≡◌, ◌⊎◌, length, refl, true, false, [], ◌∷◌, Bytes, Option, none, some, ok, arith, bytes_eq,
}
use freens.Naming.Text.{Unicode}
use freens.Wire.Record.{record_hash, verify, verify_signature}
use freens.Wire.Recovery.{
  RecoveryEvidence, decode_recovery_evidence, verify_recovery, bound_ok, timelock_bound,
  recovery_signing_message, count_keys, seen_key, has_signed, any_signature,
}
use freens.Wire.Winner.{envelope_wins, verify_chain_link}
use freens.Store.Entries.{
  Entry, EnvelopeStore, new_envelope_store, lookup, delete, to_key, alive, evict_history, sized,
  retain_history,
}
use freens.Store.Evidence.{evidence_for, recovery_acceptable}
use freens.Store.Envelopes.{
  put_with_evidence, put_live, install, may_displace, evict_dead, evict_expired, enforce_cap,
  cap_loop, same_stored_record,
}
use freens.Store.Budget.{IsStore}
use freens.Store.Cap.{install-Capped}
use freens.Store.Runs.{Reachable, Reachable-IsStore}
use freens.Store.Takeover.{Recovered, Reassigned, put-takeover}
use freens.Tests.Wire.Records.{text, p, root, recovered, root_hash, recovered_hash, evidence}

abbrev u : Unicode
u = record { trim_space = λ s. s; to_lower = λ s. s }

abbrev unmarshal : Bytes → Option RecoveryEvidence
unmarshal = λ b. some evidence

abbrev root_entry : Entry
root_entry = record { env = root; size = 32; last_access = 10 }

abbrev with_root : EnvelopeStore
with_root = record {
  max_bytes = 268435456;
  entries = (text 1 32, root_entry) ∷ [];
  bytes = 32;
  history = [];
  hist_max_bytes = 16777216;
  history_bytes = 0;
  evidence = [];
  evidence_order = [];
  evid_max_bytes = 16777216;
  evidence_bytes = 0;
}

abbrev taken : EnvelopeStore
taken = record with_root {
  entries = (text 1 32, record { env = recovered; size = 32; last_access = 50 }) ∷ [];
  history = (root_hash, root_entry) ∷ [];
  history_bytes = 32;
}

run_put :
    put_with_evidence p u none unmarshal (new_envelope_store 0) (text 1 32) (some root) 10 true []
    ≡ ok (with_root, true)
unfolding put_with_evidence install lookup delete alive evict_dead evict_expired enforce_cap
    cap_loop verify_signature verify bytes_eq new_envelope_store to_key
run_put = refl

run_takeover :
    put_with_evidence p u none unmarshal with_root (text 1 32) (some recovered) 50 true (0 ∷ [])
    ≡ ok (taken, true)
unfolding put_with_evidence put_live install may_displace same_stored_record recovery_acceptable
    evidence_for verify_recovery lookup delete alive evict_dead evict_expired enforce_cap cap_loop
    verify_signature verify bytes_eq to_key envelope_wins verify_chain_link record_hash
    retain_history sized evict_history decode_recovery_evidence bound_ok timelock_bound
    recovery_signing_message count_keys seen_key has_signed any_signature
run_takeover = refl

run_lookup : lookup (to_key (text 1 32)) with_root.entries ≡ some root_entry
unfolding lookup to_key bytes_eq
run_lookup = refl

run_alive : alive root_entry 50 ≡ true
unfolding alive
run_alive = refl

run_fresh : same_stored_record p recovered root ≡ false
unfolding same_stored_record record_hash bytes_eq
run_fresh = refl

put-takeover_example :
    ((true ≡ true) → verify_signature p recovered ≡ true)
    × ((envelope_wins p (some recovered) (some root) ≡ true)
        × (Recovered p u none unmarshal with_root recovered root (0 ∷ [])
            ⊎ Reassigned p u none unmarshal with_root recovered root 50))
put-takeover_example =
    put-takeover p u none unmarshal with_root recovered root taken (text 1 32) 50 true (0 ∷ [])
      root_entry run_takeover run_lookup refl run_alive run_fresh (λ e. ground arith) (omega arith)

Reachable-IsStore_example : IsStore p taken
Reachable-IsStore_example = Reachable-IsStore p u none unmarshal taken (
    Reachable.put with_root taken (text 1 32) (some recovered) 50 true (0 ∷ []) true
      (Reachable.put (new_envelope_store 0) with_root (text 1 32) (some root) 10 true [] true
        (Reachable.created 0) run_put)
      run_takeover)

with_root-IsStore : IsStore p with_root
with_root-IsStore = Reachable-IsStore p u none unmarshal with_root (
    Reachable.put (new_envelope_store 0) with_root (text 1 32) (some root) 10 true [] true
      (Reachable.created 0) run_put)

install-Capped_example :
    (s' : EnvelopeStore) × (install p u none unmarshal with_root (text 2 32) recovered 50
      ≡ ok (s', true))
    × (s'.max_bytes ≡ 268435456)
    × ((s'.bytes ≤ 268435456) ⊎ (length s'.entries ≤ 1))
install-Capped_example =
    install-Capped p u none unmarshal with_root (text 2 32) recovered 50 recovered_hash
      with_root-IsStore refl
