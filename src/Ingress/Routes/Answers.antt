-- ===== src/Ingress/Routes/Answers.antt =====
-- What a request for a tenant that is not there is answered with.
use ember_edge.Prelude.{ℕ, ◌≡◌, refl, Option, none, [], ◌++◌, lookup}
use ember_edge.Text.Basic.{Str, text, str_Eq}
use ember_edge.Errors
use ember_edge.Errors.{Error}
use ember_edge.Errors.Monad.{ok}
use ember_edge.TenantId
use ember_edge.TenantId.{TenantId}
use ember_edge.TenantId.Grammar.{IsTenantName, new-grammar}
use ember_edge.Sandbox.MemFs.{Bytes}
use ember_edge.Config.Data.{HttpConfig}
use ember_edge.Runtime.Tenants.{Tenants, find_tenant}
use ember_edge.Runtime.Invoke.{invoke}
use ember_edge.Ingress.{Incoming, ErrorResponse, accept, into_response}
use ember_edge.Ingress.Routes.{tenant, failure, answer_of, Backend, dispatched, handle_request}

module _ {I H B : Type 0} (backend : Backend I H B) (duration : ℕ) (config : HttpConfig) where
  -- A request with a body that is collected, for a valid name that no tenant has, is answered with
  -- 404 and the name, and changes and records nothing.
  handle_request-unknown :
      (name : Str) (tenants : Tenants I) (handle : Option H) (request : Incoming B) (bytes : Bytes)
      → backend.collect config.max_body_bytes request.stream ≡ ok bytes
      → IsTenantName name
      → lookup name tenants ≡ none
      → handle_request backend duration config (tenant name) tenants handle request ≡ record {
        tenants = tenants;
        handle = handle;
        samples = [];
        answer = failure (record { status = 404; error = text "tenant not found: " ++ name });
      }
  unfolding handle_request dispatched accept TenantId.parse invoke find_tenant answer_of
      into_response Errors.status Errors.display ember_edge.Ingress.from_u16
  handle_request-unknown name tenants handle request bytes c v absent =
      let good : TenantId.new name ≡ ok (record { name = name }) =
        (new-grammar name (record { name = name })).1 (v, refl) in
      rw (c, handle_request) (rw good (rw (absent, invoke) refl))
