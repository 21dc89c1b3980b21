-- ===== src/Sandbox/Assembly.antt =====
-- `Sandbox`: one tenant's limits, configuration, preopens and scratch storage. The scratch is the
-- one value behind the `Arc` that clones of a sandbox share.
use ember_edge.Prelude.{ℕ, List, [], ◌∷◌, ◌++◌, ltb}
use ember_edge.Text.Basic.{Str, text}
use ember_edge.Text.Decimal.{decimal}
use ember_edge.Errors.{Error}
use ember_edge.Errors.Monad.{Result, ok, ◌>>◌, refuse_if}
use ember_edge.TenantId.{TenantId}
use ember_edge.Sandbox.Limits
use ember_edge.Sandbox.Limits.{SandboxLimits, EgressPolicy, validate}
use ember_edge.Sandbox.MemFs
use ember_edge.Sandbox.MemFs.{MemFs}

pub record Sandbox : Type 0 where
  pub tenant : TenantId
  pub limits : SandboxLimits
  pub config : List (Str × Str)
  pub readonly_preopens : List (Str × Str)
  pub scratch : MemFs

unfoldable pub new : TenantId → SandboxLimits → List (Str × Str) → Result Error Sandbox
new tenant limits config = do
  validate limits
  ok (record {
    tenant = tenant;
    limits = limits;
    config = config;
    readonly_preopens = [];
    scratch = MemFs.new limits.memfs_quota_bytes;
  })

unfoldable pub with_preopen : Sandbox → Str → Str → Sandbox
with_preopen s guest_path root = record s {
  readonly_preopens = s.readonly_preopens ++ ((guest_path, root) ∷ []);
}

unfoldable pub egress_policy : Sandbox → EgressPolicy
egress_policy s = Limits.egress_policy s.limits

unfoldable pub charge_memory : Sandbox → ℕ → Result Error (Unit {0})
charge_memory s bytes = do
  refuse_if (ltb s.limits.max_memory_bytes bytes) (
      Error.limit_exceeded (
        text "instance memory "
        ++ (decimal bytes
            ++ (text " exceeds tenant ceiling " ++ decimal s.limits.max_memory_bytes))))
  ok tt

unfoldable pub scratch_bytes : Sandbox → ℕ
scratch_bytes s = MemFs.used_bytes s.scratch
