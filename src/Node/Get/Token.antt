-- ===== src/Node/Get/Token.antt =====
-- The write token that a get returns, in a later put (internal/dht/transport.go, internal/dht/tokens.go).
use freens.Prelude.{◌+◌, ◌≤◌, ◌≡◌, sym, ap, ◌∙◌, arith, true, false, length, Bytes, ok, ℤ}
use freens.Tokens.{epoch, issue, verify_token}
use freens.Tokens.Accepted.{verify_token-issue}
use freens.Blacklist.{flagged}
use freens.Node.{Node, Outside, Circumstances}
use freens.Node.Put.{PutArgs, put_admitted, put_decoded, h_put}
use freens.Node.Get.{Got, issue_token, answer, h_get}
use freens.Node.Get.Served.{h_get-answer}

module _ (o : Outside) where
  h_get-token :
      (n : Node) (t : Circumstances) (key : Bytes) (g : Got)
      → (h_get o n t key).1 ≡ ok g
      → g.token ≡ issue o.hmac o.itoa n.tokens t.now t.source
  unfolding answer issue_token
  h_get-token n t key g h = ap (λ (x : Got). x.token) (h_get-answer o n t key g h).0

  put_admitted-put_decoded :
      (n : Node) (t : Circumstances) (m : PutArgs)
      → n.passive ≡ false
      → t.allowed ≡ true
      → verify_token o.hmac o.itoa n.tokens t.now t.source m.token (ℤ.pos 1) ≡ true
      → put_admitted o n t m ≡ put_decoded o n t m
  unfolding put_admitted
  put_admitted-put_decoded n t m active allowed token = ground (arith, active, allowed, token)

  -- The token that a get returned lets the source put: with the same secret and rotation, from the same
  -- address, at a time in the same epoch or the next one, to a node that is not passive, within the
  -- limit, and by a sender that is not flagged, the put goes on to its envelope. This is for an HMAC of
  -- 32 bytes.
  pub h_get-h_put :
      (n n' : Node) (t t' : Circumstances) (key : Bytes) (g : Got) (m : PutArgs)
      → (h_get o n t key).1 ≡ ok g
      → m.token ≡ g.token
      → length g.token ≡ 32
      → n'.tokens ≡ n.tokens
      → t'.source ≡ t.source
      → epoch n.tokens t.now ≤ epoch n.tokens t'.now
      → epoch n.tokens t'.now ≤ epoch n.tokens t.now + 1
      → (flagged n'.black m.sender t'.instant).1 ≡ false
      → n'.passive ≡ false
      → t'.allowed ≡ true
      → h_put o n' t' m
        ≡ put_decoded o (record n' { black = (flagged n'.black m.sender t'.instant).0 }) t' m
  unfolding h_put
  h_get-h_put n n' t t' key g m h same size secret source order near trusted active allowed =
      let issued = h_get-token n t key g h in
      let accepted =
        verify_token-issue o.hmac o.itoa n.tokens t.source t.now t'.now 1
          (ap length (sym issued) ∙ size) order near in
      let token : verify_token o.hmac o.itoa n'.tokens t'.now t'.source m.token (ℤ.pos 1) ≡ true =
        rw (secret, source, same, issued) accepted in
      rw trusted (
        put_admitted-put_decoded (record n' { black = (flagged n'.black m.sender t'.instant).0 }) t'
          m active allowed token)
