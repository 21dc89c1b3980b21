-- ===== src/Ingress/Routes.antt =====
-- The ingress as a whole (src/http/ingress.rs): the routes, and the runtime as the dispatcher. `Route`
-- is what axum finds for a path and a method; the paths themselves are matched by axum. Of the layers,
-- what catches a panic is modelled.
pub mod Answers
pub mod Statuses
use ember_edge.Prelude.{ℕ, ◌≡◌, Option, none, some, List, [], ◌∷◌}
use ember_edge.Text.Basic.{Str, text}
use ember_edge.Errors.{Error}
use ember_edge.Errors.Monad
use ember_edge.Errors.Monad.{Result, ok, err, map_err}
use ember_edge.TenantId.{TenantId}
use ember_edge.Telemetry.{Sample}
use ember_edge.Telemetry.Recorder.{render_metrics}
use ember_edge.Sandbox.MemFs.{Bytes}
use ember_edge.Config.Data.{HttpConfig}
use ember_edge.Component.Linker.{HttpRequest, HttpResponse}
use ember_edge.Runtime.Tenants.{Tenants}
use ember_edge.Runtime.Invoke.{Machine, Reply, returned, panicked, invoke}
use ember_edge.Ingress.{Incoming, ErrorResponse, accept, into_response}

-- `unmatched` is axum's own answer, with its status.
pub data Route : Type 0 where
  healthz metrics : Route
  tenant : (name : Str) → Route
  unmatched : (status : ℕ) → Route

pub data Answer : Type 0 where
  plain : (status : ℕ) (body : Str) → Answer
  exposition : (content_type body : Str) → Answer
  guest : HttpResponse → Answer
  failure : ErrorResponse → Answer
  caught : Answer

-- A panic is caught by its layer and answered with 500.
unfoldable pub answer_status : Answer → ℕ
answer_status (plain status body) = status
answer_status (exposition content_type body) = 200
answer_status (guest r) = r.status
answer_status (failure e) = e.status
answer_status caught = 500

unfoldable pub answer_of : Reply → Answer
answer_of (returned (ok response)) = guest response
answer_of (returned (err e)) = failure (into_response e)
answer_of panicked = caught

-- What a request leaves: the tenants, the recorder's handle, what was recorded, and the answer.
pub record Handled (I H : Type 0) : Type 0 where
  pub tenants : Tenants I
  pub handle : Option H
  pub samples : List Sample
  pub answer : Answer

-- What the ingress relies on: collecting a body, the exporter of metrics, and wasmtime.
pub record Backend (I H B : Type 0) : Type 0 where
  pub collect : ℕ → B → Result Str Bytes
  pub render : H → Str
  pub exporter : Result Str H
  pub machine : Machine I

module _ {I H B : Type 0} (backend : Backend I H B) (duration : ℕ) (config : HttpConfig) where
  abbrev unchanged : Tenants I → Option H → Answer → Handled I H
  unchanged tenants handle answer = record {
    tenants = tenants;
    handle = handle;
    samples = [];
    answer = answer;
  }

  -- `dispatch` with the runtime as its dispatcher.
  unfoldable pub dispatched :
      Tenants I → Option H → Result Error (TenantId × HttpRequest) → Handled I H
  dispatched tenants handle (err e) = unchanged tenants handle (failure (into_response e))
  dispatched tenants handle (ok (id, request)) =
      let (after, samples, reply) = invoke backend.machine duration tenants id request in
      record { tenants = after; handle = handle; samples = samples; answer = answer_of reply }

  unfoldable pub handle_request : Route → Tenants I → Option H → Incoming B → Handled I H
  unfolding dispatched
  handle_request healthz tenants handle request = unchanged tenants handle (plain 200 (text "ok"))
  handle_request metrics tenants handle request =
      let (kept, body) = render_metrics backend.render backend.exporter handle in
      unchanged tenants kept (exposition (text "text/plain; version=0.0.4; charset=utf-8") body)
  handle_request (tenant name) tenants handle request =
      dispatched tenants handle (accept backend.collect config name request)
  handle_request (unmatched status) tenants handle request =
      unchanged tenants handle (plain status [])
