-- ===== src/Sandbox/Limits.antt =====
-- `SandboxLimits` and its methods, and `EgressPolicy`'s data, which a sandbox derives from them.
pub mod Clamping
use ember_edge.Prelude.{ℕ, ◌*◌, ◌≡◌, Bool, true, List, [], arith, min, max, ◌==◌, if◌then◌else◌}
use ember_edge.Text.Basic.{Str, text}
use ember_edge.Numbers.{from_secs}
use ember_edge.Errors.{Error}
use ember_edge.Errors.Monad.{Result, ok, err, ◌>>=◌, ◌>>◌, refuse_if}

-- `max_wall_duration` is a `Duration`, in nanoseconds.
pub record SandboxLimits : Type 0 where
  pub max_memory_bytes : ℕ
  pub max_instances : ℕ
  pub max_tables : ℕ
  pub max_epoch_delta : ℕ
  pub max_wall_duration : ℕ
  pub max_body_bytes : ℕ
  pub memfs_quota_bytes : ℕ
  pub cpus : ℕ
  pub egress_allow : List Str
  pub default_deny_egress : Bool

abbrev pub default_limits : SandboxLimits
default_limits = record {
  max_memory_bytes = 128 * 1024 * 1024;
  max_instances = 8;
  max_tables = 32;
  max_epoch_delta = 10_000_000;
  max_wall_duration = from_secs 10;
  max_body_bytes = 8 * 1024 * 1024;
  memfs_quota_bytes = 4 * 1024 * 1024;
  cpus = 1;
  egress_allow = [];
  default_deny_egress = true;
}

unfoldable pub validate : SandboxLimits → Result Error (Unit {0})
validate l = do
  refuse_if (l.max_memory_bytes == 0) (Error.limit_exceeded (text "max_memory_bytes must be > 0"))
  refuse_if (l.max_wall_duration == 0) (Error.limit_exceeded (text "max_wall_duration must be > 0"))
  refuse_if (l.max_instances == 0) (Error.limit_exceeded (text "max_instances must be > 0"))
  refuse_if (l.memfs_quota_bytes == 0) (Error.limit_exceeded (text "memfs_quota_bytes must be > 0"))
  ok tt

unfoldable pub clamp_to : SandboxLimits → ℕ → ℕ → SandboxLimits
clamp_to l engine_max_mem engine_max_instances = record l {
  max_memory_bytes = min l.max_memory_bytes engine_max_mem;
  max_instances = min l.max_instances engine_max_instances;
  max_epoch_delta = max l.max_epoch_delta 1;
}

pub record EgressPolicy : Type 0 where
  pub allow : List Str
  pub default_deny : Bool

unfoldable pub egress_policy : SandboxLimits → EgressPolicy
egress_policy l = record { allow = l.egress_allow; default_deny = l.default_deny_egress }
