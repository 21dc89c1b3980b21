-- ===== src/Ingress/Dispatch.antt =====
-- What reaches the dispatcher, and the statuses of errors.
use ember_edge.Prelude.{ℕ, ◌≤◌, ◌<◌, ◌≡◌, inl, inr, arith, length}
use ember_edge.Text.Basic.{Str}
use ember_edge.Errors
use ember_edge.Errors.{Error}
use ember_edge.Errors.Monad.{Result, ok, Result-cases}
use ember_edge.TenantId
use ember_edge.TenantId.{TenantId}
use ember_edge.TenantId.Grammar.{IsTenantName, new-grammar}
use ember_edge.Sandbox.MemFs.{Bytes}
use ember_edge.Config.Data.{HttpConfig}
use ember_edge.Component.Linker.{HttpRequest, HttpResponse}
use ember_edge.Ingress.{Incoming, dispatch, from_u16, into_response}

-- An error is answered with its own status, which is one of 4xx and 5xx, whatever the error.
pub into_response-status :
    (e : Error)
    → ((into_response e).status ≡ Errors.status e)
      × (400 ≤ (into_response e).status)
      × ((into_response e).status < 600)
unfolding into_response Errors.status from_u16
into_response-status e = ground arith

-- Collecting keeps to its limit.
abbrev pub IsLimited : {B : Type 0} → (ℕ → B → Result Str Bytes) → Type 0
IsLimited {B} collect =
    (limit : ℕ) (stream : B) (bytes : Bytes)
    → collect limit stream ≡ ok bytes
    → length bytes ≤ limit

-- Two dispatchers that agree on the requests with a valid tenant name and a body within the limit.
abbrev pub AgreeWithin :
    HttpConfig
    → (TenantId → HttpRequest → Result Error HttpResponse)
    → (TenantId → HttpRequest → Result Error HttpResponse)
    → Type 0
AgreeWithin config d e =
    (id : TenantId) (request : HttpRequest)
    → IsTenantName id.name
    → length request.body ≤ config.max_body_bytes
    → d id request ≡ e id request

module _ {B : Type 0} (collect : ℕ → B → Result Str Bytes)
    (d e : TenantId → HttpRequest → Result Error HttpResponse) (config : HttpConfig) where
  -- Where collecting a body keeps to its limit, only a request whose tenant has a valid name and
  -- whose body is within the configured limit has its answer from the dispatcher: on everything
  -- else, dispatchers cannot be told apart.
  pub dispatch-guards :
      (tenant : Str) (request : Incoming B)
      → IsLimited collect
      → AgreeWithin config d e
      → dispatch collect d config tenant request ≡ dispatch collect e config tenant request
  unfolding dispatch TenantId.parse
  dispatch-guards tenant request limited agree =
      elim (Result-cases (collect config.max_body_bytes request.stream)) [
        | inr (m, failed) ↦ rw failed
        | inl (bytes, c) ↦ elim (Result-cases (TenantId.new tenant)) [
          | inr (m, bad) ↦ rw (c, bad)
          | inl (id, good) ↦
              let (v, n) = (new-grammar tenant id).0 good in
              rw (c, good)
                (agree id (record request.parts { body = bytes }) (rw n v)
                  (limited config.max_body_bytes request.stream bytes c))
        ]
      ]
