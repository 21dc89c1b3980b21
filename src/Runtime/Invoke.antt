-- ===== src/Runtime/Invoke.antt =====
-- `invoke` (src/runtime/invoke.rs). The steps of one invocation run here without another between
-- them; how the pool's two critical sections interleave with other requests is in Pool. What
-- wasmtime and the clock answer is a parameter.
pub mod Serving
use ember_edge.Prelude.{
  ℕ, ◌+◌, ◌/◌, ◌%◌, max, ◌≡◌, Bool, Option, none, some, List, [], ◌∷◌, ◌++◌, arith, Eq, lookup,
  insert,
}
use ember_edge.Text.Basic.{Str, text, str_Eq}
use ember_edge.Text.Decimal.{decimal}
use ember_edge.Numbers.{u64_mod}
use ember_edge.Errors.{Error}
use ember_edge.Errors.Monad.{Result, ok, err, ◌>>=◌, map_err}
use ember_edge.TenantId.{TenantId}
use ember_edge.Telemetry.{Sample, record_invoke}
use ember_edge.Sandbox.Limits.{SandboxLimits}
use ember_edge.Sandbox.MemFs.{MemFs}
use ember_edge.Registry.Digest.{Blob}
use ember_edge.Component.Linker.{
  HostCtx, new_ctx, HttpRequest, Request, Response, HttpResponse, to_request, into_response,
}
use ember_edge.Wasi.{FileSystem}
use ember_edge.Runtime.Pool
use ember_edge.Runtime.Pool.{Prepared, InstancePool, acquire, release}
use ember_edge.Runtime.Tenants.{Tenant, Tenants, find_tenant}

-- How the call of the guest ends under `timeout`: with a response, with an error of wasmtime (a
-- trap, or an export that is missing), or not within the budget.
pub data CallOutcome (I : Type 0) : Type 0 where
  responded : I → Response → CallOutcome I
  trapped : Str → CallOutcome I
  elapsed : CallOutcome I

-- The store is made of a context, with the epoch deadline that it is armed with. A call finds the
-- tenant's scratch, which all its instances share, and leaves it changed however it ends.
pub record Machine (I : Type 0) : Type 0 where
  pub fs : FileSystem
  pub header_ok : Str → Str → Bool
  pub instantiate : HostCtx → ℕ → Blob → Result Str I
  pub call : I → Request → MemFs → CallOutcome I
  pub scratch_after : I → Request → MemFs → MemFs

-- What the caller sees; `panicked` is the `expect` in the conversion of a response.
pub data Reply : Type 0 where
  returned : Result Error HttpResponse → Reply
  panicked : Reply

pub record Invoked (I : Type 0) : Type 0 where
  pub tenant : Tenant I
  pub samples : List Sample
  pub reply : Reply

-- The tenant with its scratch as a call left it.
abbrev pub rescratched : {I : Type 0} → Tenant I → MemFs → Tenant I
rescratched t fs = record t { sandbox = record t.sandbox { scratch = fs } }

unfoldable pub epoch_deadline : SandboxLimits → ℕ
epoch_deadline l = max l.max_epoch_delta 1

module _ {I : Type 0} (machine : Machine I) where
  unfoldable pub instantiate : Tenant I → HostCtx → Result Error I
  unfolding epoch_deadline
  instantiate t ctx =
      map_err Error.wasm
        (machine.instantiate ctx (epoch_deadline ctx.sandbox.limits) t.active.loaded.bytes)

-- `duration` is what `started.elapsed()` reads, in nanoseconds.
module _ {I : Type 0} (machine : Machine I) (duration : ℕ) where
  abbrev failed : Tenant I → Error → Invoked I
  failed t e = record { tenant = t; samples = []; reply = returned (err e) }

  -- The count wraps around, as `fetch_add` does.
  unfoldable pub responds : Tenant I → Option HttpResponse → Invoked I
  responds t none = record { tenant = t; samples = []; reply = panicked }
  responds t (some response) = record {
    tenant = record t { invocations = (t.invocations + 1) % u64_mod };
    samples = record_invoke t.active.digest duration response.status;
    reply = returned (ok response);
  }

  -- The instance goes back to the pool after a response only.
  unfoldable pub after_call : Tenant I → Prepared I → CallOutcome I → Invoked I
  unfolding responds
  after_call t p (responded store resp) =
      responds (record t { pool = release t.pool (record p { store = store }) })
        (into_response machine.header_ok resp)
  after_call t p (trapped e) = failed t (Error.wasm e)
  after_call t p elapsed = failed t (
      Error.limit_exceeded (
        text "tenant `"
        ++ (t.id.name
            ++ (text "` exceeded its "
                ++ (decimal (t.sandbox.limits.max_wall_duration / 1_000_000)
                    ++ text "ms wall-clock budget")))))

  unfoldable pub call_pooled : Tenant I → Request → Result Error (Prepared I) → Invoked I
  unfolding after_call
  call_pooled t request (err e) = failed t e
  call_pooled t request (ok p) =
      after_call (rescratched t (machine.scratch_after p.store request t.sandbox.scratch)) p
        (machine.call p.store request t.sandbox.scratch)

  -- The context is built before the pool is asked, also when a pooled instance is then used.
  unfoldable pub with_ctx : Tenant I → Request → Result Error HostCtx → Invoked I
  unfolding call_pooled instantiate
  with_ctx t request (err e) = failed t e
  with_ctx t request (ok ctx) =
      let (pool, prepared) = acquire t.pool t.active.loaded.digest (instantiate machine t ctx) in
      call_pooled (record t { pool = pool }) request prepared

  unfoldable pub serve : Tenant I → HttpRequest → Invoked I
  unfolding with_ctx
  serve t request = elim (to_request request) [
    | err e ↦ failed t e
    | ok guest_request ↦ with_ctx t guest_request (new_ctx machine.fs t.sandbox t.bridge)
  ]

  unfoldable pub invoke : Tenants I → TenantId → HttpRequest → Tenants I × List Sample × Reply
  unfolding serve
  invoke tenants id request = elim (find_tenant tenants id) [
    | none ↦ (tenants, [], returned (err (Error.tenant_not_found id.name)))
    | some t ↦ let r = serve t request in (insert id.name r.tenant tenants, r.samples, r.reply)
  ]
