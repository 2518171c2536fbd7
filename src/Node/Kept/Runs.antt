-- ===== src/Node/Kept/Runs.antt =====
-- Runs of a node's handlers (internal/dht/transport.go; SweepClaimPool of
-- internal/dht/claims_pool.go).
use freens.Prelude.{Bytes, ℕ, ◌≡◌}
use freens.Claims.Pool.{new_claim_pool}
use freens.Claims.Pool.Runs.{PoolRun, PoolRun-IsPool}
use freens.Claims.Pool.Sweep.{sweep}
use freens.Claims.Pool.Swept.{sweep-IsPool}
use freens.Store.Entries.{new_envelope_store}
use freens.Store.Runs.{Reachable, Reachable-IsStore}
use freens.Node.{Node, Outside, Circumstances}
use freens.Node.Put.{PutArgs, h_put}
use freens.Node.Get.{h_find_node, h_get}
use freens.Node.Witness.{WitnessArgs, h_witness}
use freens.Node.Kept.{IsNode}
use freens.Node.Kept.Get.{h_find_node-IsNode, h_get-IsNode}
use freens.Node.Kept.Put.{h_put-IsNode}
use freens.Node.Kept.Witness.{h_witness-IsNode}

-- The sweep of the pool by the persisting loop.
unfoldable pub sweep_claim_pool : Outside → Node → ℕ → Node
sweep_claim_pool o n now = record n { claims = (sweep o.setting now n.claims).0 }

module _ (o : Outside) where
  -- The nodes that a sequence of queries and sweeps leads to, from one with an empty store and an empty
  -- pool.
  pub data NodeRun : Node → Type 0 where
    created :
        (n : Node) (max_bytes : ℕ)
        → n.store ≡ new_envelope_store max_bytes
        → n.claims ≡ new_claim_pool
        → NodeRun n
    put : (n : Node) (t : Circumstances) (m : PutArgs) → NodeRun n → NodeRun (h_put o n t m).0
    witnessed :
        (n : Node) (t : Circumstances) (m : WitnessArgs) → NodeRun n → NodeRun (h_witness o n t m).0
    found :
        (n : Node) (t : Circumstances) (target : Bytes)
        → NodeRun n
        → NodeRun (h_find_node o n t target).0
    got : (n : Node) (t : Circumstances) (key : Bytes) → NodeRun n → NodeRun (h_get o n t key).0
    swept : (n : Node) (now : ℕ) → NodeRun n → NodeRun (sweep_claim_pool o n now)

  created-IsNode :
      (n : Node) (max_bytes : ℕ)
      → n.store ≡ new_envelope_store max_bytes
      → n.claims ≡ new_claim_pool
      → IsNode o n
  created-IsNode n max_bytes s c = record {
    stored = rw s (
        Reachable-IsStore o.setting.platform o.setting.unicode o.setting.idna o.unmarshal_evidence _
          (Reachable.created max_bytes));
    pooled = rw c (PoolRun-IsPool o.setting o.unmarshal_claim _ PoolRun.created);
  }

  -- After any sequence of puts, gets, lookups of nodes, queries for signatures and sweeps of the pool, to a node with an empty
  -- store and an empty pool: no key of the live table occurs twice, the cached sizes are right, and the
  -- store's byte counter is their sum; and no key of the pool occurs twice, each has one member or two
  -- in order, and the pool's byte counter is the sum of the members' sizes.
  pub NodeRun-IsNode : (n : Node) → NodeRun n → IsNode o n
  unfolding sweep_claim_pool
  NodeRun-IsNode _ (NodeRun.created n max_bytes s c) = created-IsNode n max_bytes s c
  NodeRun-IsNode _ (NodeRun.put n t m r) = h_put-IsNode o n t m (NodeRun-IsNode n r)
  NodeRun-IsNode _ (NodeRun.witnessed n t m r) = h_witness-IsNode o n t m (NodeRun-IsNode n r)
  NodeRun-IsNode _ (NodeRun.found n t target r) =
      h_find_node-IsNode o n t target (NodeRun-IsNode n r)
  NodeRun-IsNode _ (NodeRun.got n t key r) = h_get-IsNode o n t key (NodeRun-IsNode n r)
  NodeRun-IsNode _ (NodeRun.swept n now r) =
      let i = NodeRun-IsNode n r in
      record { stored = i.stored; pooled = sweep-IsPool o.setting now n.claims i.pooled }
