-- ===== src/Tests/RuntimeTests.antt =====
-- Pools, invocations and the reload loop on concrete values.
use ember_edge.Prelude.{
  ℕ, ◌≡◌, ◌≢◌, refl, none, some, List, [], ◌∷◌, if◌then◌else◌, leb, arith, true, false, ap,
}
use ember_edge.Text.Basic.{text, str_eq}
use ember_edge.Errors.{Error}
use ember_edge.Errors.Monad.{ok, err}
use ember_edge.TenantId.{TenantId}
use ember_edge.Component.Linker.{HostCtx, Request, Response, HttpRequest, to_request, new_ctx}
use ember_edge.Runtime.Pool.{release, Prepared, InstancePool, new, acquire}
use ember_edge.Runtime.Pool.Generations.{Call, acquires, releases, IsBounded}
use ember_edge.Runtime.Tenants.{Tenant, Tenants}
use ember_edge.Runtime.Invoke.{Machine, responded, trapped, serve, instantiate}
use ember_edge.Runtime.Invoke.Serving.{IsServed, serve-IsServed}
use ember_edge.Tests.Fixtures.{acme, acme_tenant, acme_sandbox, acme_bridge, acme_wasi, files}

-- An instance is a number here.
abbrev calls : List (Call ℕ)
calls =
    acquires (text "d1") (ok 1)
    ∷ releases (record { digest = text "d1"; store = 1 })
    ∷ releases (record { digest = text "d1"; store = 2 })
    ∷ []

abbrev warm : InstancePool ℕ
warm = record {
  queue = record { digest = text "d1"; store = 1 } ∷ record { digest = text "d2"; store = 2 } ∷ [];
  cap = 2;
}

acquired :
    acquire warm (text "d2") (err Error.shutdown)
    ≡ (record { queue = []; cap = 2 }, ok (record { digest = text "d2"; store = 2 }))
unfolding acquire ember_edge.Runtime.Pool.scan str_eq text
acquired = refl

-- The first instance answers every request; a later one traps.
abbrev machine : Machine ℕ
machine = record {
  fs = files;
  header_ok = λ n v. true;
  instantiate = λ ctx epoch b. ok 2;
  scratch_after = λ i r fs. fs;
  call = λ i r fs.
      if leb i 1
      then responded i (record { status = 200; headers = []; body = [] })
      else trapped (text "trap");
}

abbrev http_request : HttpRequest
http_request = record {
  method = text "GET";
  path = text "/acme/x";
  query = none;
  headers = [];
  body = [];
}

abbrev guest_request : Request
guest_request = record {
  method = text "GET";
  path = text "/acme/x";
  query = none;
  headers = [];
  body = some [];
}

abbrev ctx : HostCtx
ctx = record {
  tenant = acme;
  sandbox = acme_sandbox;
  config = [];
  wasi = acme_wasi;
  egress = acme_bridge;
}

acme_pool-IsBounded : IsBounded acme_tenant.pool
acme_pool-IsBounded = record { room = omega arith; within = omega arith }

serve-IsServed_example : IsServed machine 10 acme_tenant (serve machine 10 acme_tenant http_request)
serve-IsServed_example =
    serve-IsServed machine 10 acme_tenant http_request (omega arith) acme_pool-IsBounded

served : (serve machine 10 acme_tenant http_request).tenant.invocations ≡ 42
unfolding serve to_request new_ctx ember_edge.Wasi.new ember_edge.Wasi.open_preopens
    ember_edge.Wasi.open_readonly_dir acquire ember_edge.Runtime.Pool.scan str_eq text
    ember_edge.Component.Linker.into_response
served = refl

converted : to_request http_request ≡ ok guest_request
unfolding to_request ember_edge.Component.Linker.text_headers
converted = refl

context : new_ctx files acme_sandbox acme_bridge ≡ ok ctx
unfolding new_ctx ember_edge.Wasi.new ember_edge.Wasi.open_preopens
    ember_edge.Wasi.open_readonly_dir
context = refl

-- With nothing pooled the request goes to a new instance, which traps.
abbrev cold_tenant : Tenant ℕ
cold_tenant = record acme_tenant { pool = record { queue = []; cap = 2 } }

built :
    acquire cold_tenant.pool (text "sha256:old") (instantiate machine cold_tenant ctx)
    ≡ (record { queue = []; cap = 2 }, ok (record { digest = text "sha256:old"; store = 2 }))
unfolding acquire ember_edge.Runtime.Pool.scan instantiate
built = refl

abbrev tenants : Tenants ℕ
tenants = (text "acme", acme_tenant) ∷ (text "zeta", cold_tenant) ∷ []

abbrev zeta : TenantId
zeta = record { name = text "zeta" }

names_differ : text "acme" ≢ text "zeta"
unfolding str_eq text
names_differ h = let e : false ≡ true = ap (λ s. str_eq s (text "zeta")) h in ground arith
