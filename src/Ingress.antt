-- ===== src/Ingress.antt =====
-- src/http/ingress.rs: from a routed request to the dispatcher, and from an error to a response.
-- The axum and tower stack around it is not modelled. `collect` is the collecting of a body under
-- a limit, of http-body-util.
pub mod Dispatch
pub mod Routes
pub mod Server
use ember_edge.Prelude.{ℕ, ◌≡◌, Bool, ◌&&◌, Option, none, some, List, [], arith, if◌then◌else◌, leb}
use ember_edge.Text.Basic.{Str}
use ember_edge.Errors
use ember_edge.Errors.{Error}
use ember_edge.Errors.Monad.{Result, ok, err, ◌>>=◌, map_err}
use ember_edge.TenantId
use ember_edge.TenantId.{TenantId}
use ember_edge.Sandbox.MemFs.{Bytes}
use ember_edge.Config.Data.{HttpConfig}
use ember_edge.Component.Linker.{HttpRequest, HttpResponse}

-- A request whose body, of type `B`, is not yet read.
pub record Incoming (B : Type 0) : Type 0 where
  pub parts : HttpRequest
  pub stream : B

module _ {B : Type 0} where
  -- The parts of a request that exists are valid, so that the builder has no error.
  abbrev with_body : Incoming B → Bytes → HttpRequest
  with_body request bytes = record request.parts { body = bytes }

  -- What comes before the dispatcher is called, and what it is called with.
  unfoldable pub accept :
      (ℕ → B → Result Str Bytes)
      → HttpConfig
      → Str
      → Incoming B
      → Result Error (TenantId × HttpRequest)
  accept collect config tenant request = do
    bytes ← map_err Error.http (collect config.max_body_bytes request.stream)
    tenant_id ← TenantId.parse tenant
    ok (tenant_id, with_body request bytes)

  unfoldable pub dispatch :
      (ℕ → B → Result Str Bytes)
      → (TenantId → HttpRequest → Result Error HttpResponse)
      → HttpConfig
      → Str
      → Incoming B
      → Result Error HttpResponse
  unfolding accept
  dispatch collect dispatcher config tenant request = do
    accepted ← accept collect config tenant request
    dispatcher accepted.0 accepted.1

pub record ErrorResponse : Type 0 where
  pub status : ℕ
  pub error : Str

-- `StatusCode::from_u16` takes 100 to 999.
unfoldable pub from_u16 : ℕ → Option ℕ
from_u16 code = if leb 100 code && leb code 999 then some code else none

unfoldable pub into_response : Error → ErrorResponse
into_response e = record {
  status = elim (from_u16 (Errors.status e)) [ some code ↦ code | none ↦ 500 ];
  error = Errors.display e;
}
