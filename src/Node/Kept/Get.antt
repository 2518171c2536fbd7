-- ===== src/Node/Kept/Get.antt =====
-- What the handlers that read keep (internal/dht/transport.go, hFindNode and hGet).
use freens.Prelude.{ℕ, refl, ◌==◌, length, Bytes, none, some, Result-cases, Bool-cases, inl, inr}
use freens.Store.Budget.{IsStore}
use freens.Store.Entries.{EnvelopeStore}
use freens.Store.Envelopes.{get}
use freens.Store.Operations.{Kept-ok, get-Kept}
use freens.Node.{Node, Outside, Circumstances}
use freens.Node.Get.{advertiseable_nodes, served, h_find_node, h_get}
use freens.Node.Kept.{IsNode, same_node, with_store}

module _ (o : Outside) where
  served-IsStore :
      (s : EnvelopeStore) (key : Bytes) (now : ℕ)
      → IsStore o.setting.platform s
      → IsStore o.setting.platform (served o s key now).0
  unfolding served
  served-IsStore s key now i = elim (Result-cases (get o.setting.platform s key now)) [
    | inr (why, e) ↦ rw (e, served) i
    | inl ((s', none), e) ↦
        rw (e, served)
          (Kept-ok o.setting.platform _ s' none (get-Kept o.setting.platform s key now i) e)
    | inl ((s', some env), e) ↦
        rw (e, served)
          (Kept-ok o.setting.platform _ s' (some env) (get-Kept o.setting.platform s key now i) e)
  ]

  pub h_find_node-IsNode :
      (n : Node) (t : Circumstances) (target : Bytes)
      → IsNode o n
      → IsNode o (h_find_node o n t target).0
  unfolding h_find_node
  h_find_node-IsNode n t target i = elim (Bool-cases t.allowed) [
    | inr e ↦ rw (e, h_find_node) i
    | inl e ↦ elim (Bool-cases (length target == 32)) [
      | inr f ↦ rw (e, f, h_find_node) i
      | inl f ↦
          rw (e, f, h_find_node)
            (same_node o n (record n { black = (advertiseable_nodes n t target).0 }) refl refl i)
    ]
  ]

  pub h_get-IsNode :
      (n : Node) (t : Circumstances) (key : Bytes) → IsNode o n → IsNode o (h_get o n t key).0
  unfolding h_get
  h_get-IsNode n t key i = elim (Bool-cases t.allowed) [
    | inr e ↦ rw (e, h_get) i
    | inl e ↦ elim (Bool-cases (length key == 32)) [
      | inr f ↦ rw (e, f, h_get) i
      | inl f ↦
          let store = served-IsStore n.store key t.now i.stored in
          let n' = record n { store = (served o n.store key t.now).0 } in
          rw (e, f, h_get)
            (same_node o n' (record n' { black = (advertiseable_nodes n t key).0 }) refl refl
              (with_store o n (served o n.store key t.now).0 i store))
    ]
  ]
