-- ===== src/Sandbox/Limits/Clamping.antt =====
-- Validation and clamping of limits.
use ember_edge.Prelude.{ℕ, ◌≤◌, ◌<◌, ◌≡◌, ◌↔◌, arith}
use ember_edge.Errors.Monad.{ok}
use ember_edge.Sandbox.Limits.{SandboxLimits, validate, clamp_to}

-- What `validate` asks of limits.
pub record IsValid (l : SandboxLimits) : Type 0 where
  pub memory : 0 < l.max_memory_bytes
  pub wall_clock : 0 < l.max_wall_duration
  pub instances : 0 < l.max_instances
  pub quota : 0 < l.memfs_quota_bytes

-- The tenant's limits lie within the engine's budget.
pub record IsWithin (memory instances : ℕ) (l : SandboxLimits) : Type 0 where
  pub memory_within : l.max_memory_bytes ≤ memory
  pub instances_within : l.max_instances ≤ instances
  pub epoch : 0 < l.max_epoch_delta

pub validate-IsValid : (l : SandboxLimits) → (validate l ≡ ok tt) ↔ IsValid l
unfolding validate
validate-IsValid l = (
  λ h. record {
    memory = ground arith;
    wall_clock = ground arith;
    instances = ground arith;
    quota = ground arith;
  },
  λ v. ground (arith, v.memory, v.wall_clock, v.instances, v.quota),
)

module _ (l : SandboxLimits) (memory instances : ℕ) where
  pub clamp_to-IsWithin : IsWithin memory instances (clamp_to l memory instances)
  unfolding clamp_to
  clamp_to-IsWithin = omega arith

  pub clamp_to-IsValid :
      0 < memory → 0 < instances → IsValid l → IsValid (clamp_to l memory instances)
  unfolding clamp_to
  clamp_to-IsValid m i v = record {
    memory = omega (arith, v.memory);
    wall_clock = v.wall_clock;
    instances = omega (arith, v.instances);
    quota = v.quota;
  }

  -- Clamping gives limits within the engine's budget, never raises memory or instances, and changes
  -- nothing the second time.
  pub clamp_to_lem :
      IsWithin memory instances (clamp_to l memory instances)
      × ((clamp_to l memory instances).max_memory_bytes ≤ l.max_memory_bytes)
      × ((clamp_to l memory instances).max_instances ≤ l.max_instances)
      × (clamp_to (clamp_to l memory instances) memory instances ≡ clamp_to l memory instances)
  unfolding clamp_to
  clamp_to_lem = (clamp_to-IsWithin, omega arith, omega arith, ground arith)

  -- Limits that are within the budget already are left as they are.
  pub clamp_to-of_IsWithin : IsWithin memory instances l → clamp_to l memory instances ≡ l
  unfolding clamp_to
  clamp_to-of_IsWithin w = ground (arith, w.memory_within, w.instances_within, w.epoch)
