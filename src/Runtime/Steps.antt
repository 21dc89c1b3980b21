-- ===== src/Runtime/Steps.antt =====
-- One tenant under concurrent invocations and reload passes. Each step is what stands under one
-- lock or is one atomic operation; a pass touches the active component, the failures and the time
-- of the last swap, an invocation the pool, the count and the scratch, so that a pass is one step here.
pub mod Serving
use ember_edge.Prelude.{ℕ, ◌+◌, ◌%◌, ◌≡◌}
use ember_edge.Text.Basic.{Str}
use ember_edge.Numbers.{u64_mod}
use ember_edge.Errors.{Error}
use ember_edge.Errors.Monad.{Result}
use ember_edge.Registry.Action.{Dir}
use ember_edge.Registry.Oci.{Environment}
use ember_edge.Registry.Reload.{HotReloadPolicy}
use ember_edge.Runtime.Pool.{Prepared, acquire, release}
use ember_edge.Runtime.Tenants.{Tenant, Host}
use ember_edge.Runtime.Reload.{poll_tenant}
use ember_edge.Runtime.Invoke.{rescratched}
use ember_edge.Sandbox.MemFs.{MemFs}

-- What a registry and the system answer at some time; SHA-256 is always the same.
abbrev pub answering : Host → Environment → Host
answering host env = record host { env = record env { sha256_hex = host.env.sha256_hex } }

-- The digest of an `acquires` is the active one when its request came in, and a swap may have been
-- made since; what is released may be of any digest.
pub data Step {I : Type 0} (host : Host) : Tenant I → Tenant I → Type 0 where
  polls :
      {t : Tenant I} (env : Environment) (policy : HotReloadPolicy) (now : ℕ) (later : ℕ × ℕ)
      (dir : Dir)
      → Step host t (poll_tenant (answering host env) policy now later t dir).tenant
  acquires :
      {t : Tenant I} (digest : Str) (build : Result Error I)
      → Step host t (record t { pool = (acquire t.pool digest build).0 })
  releases : {t : Tenant I} (p : Prepared I) → Step host t (record t { pool = release t.pool p })
  counts : {t : Tenant I} → Step host t (record t { invocations = (t.invocations + 1) % u64_mod })
  scratches : {t : Tenant I} (fs : MemFs) → Step host t (rescratched t fs)

pub data Reaches {I : Type 0} (host : Host) : Tenant I → Tenant I → Type 0 where
  here : {t : Tenant I} → Reaches host t t
  next : {t u v : Tenant I} → Step host t u → Reaches host u v → Reaches host t v
