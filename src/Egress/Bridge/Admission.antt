-- ===== src/Egress/Bridge/Admission.antt =====
-- What an outbound call that succeeds has passed, and what a denied one is answered.
use ember_edge.Prelude.{◌≤◌, ◌≡◌, true, false, some, arith, length}
use ember_edge.Text.Basic.{Str}
use ember_edge.Errors.Monad.{Result, ok, err}
use ember_edge.Sandbox.MemFs.{Bytes}
use ember_edge.Egress.Policy.{allows}
use ember_edge.Egress.Bridge.{
  Authority, OutboundRequest, WireRequest, WireResponse, HttpBridge, wire_request, egress_denied,
  send,
}

module _ (client : WireRequest → Result Str WireResponse) (bridge : HttpBridge)
    (req : OutboundRequest) where
  -- A call that succeeds named an authority whose host the policy allows, had a body within the
  -- limit, and its response is the client's to the request with that body.
  pub send-admitted :
      (res : WireResponse)
      → send client bridge req ≡ ok res
      → (a : Authority) × (bytes : Bytes) × (req.authority ≡ some a)
        × (allows bridge.policy a.host ≡ true)
        × (req.body ≡ ok bytes)
        × (length bytes ≤ bridge.max_body_bytes)
        × (client (wire_request bridge req bytes) ≡ ok res)
  unfolding send
  send-admitted res h = ground arith

  -- A host that the policy does not allow is answered 403, whatever the client would do.
  pub send-denied :
      (a : Authority)
      → req.authority ≡ some a
      → allows bridge.policy a.host ≡ false
      → send client bridge req ≡ err (egress_denied a.host)
  unfolding send
  send-denied a h k = ground arith
