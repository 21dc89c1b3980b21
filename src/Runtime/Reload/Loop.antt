-- ===== src/Runtime/Reload/Loop.antt =====
-- The reload loop (`spawn_reload_loop`, src/runtime.rs): pass after pass; a pass that fails is logged,
-- and the loop goes on. What is modelled is its first turns, however many.
use ember_edge.Prelude.{ℕ, List, [], ◌∷◌, ◌++◌}
use ember_edge.Telemetry.{Sample}
use ember_edge.Registry.Action.{Dir}
use ember_edge.Registry.Reload.{HotReloadPolicy}
use ember_edge.Runtime.Tenants.{Tenant, Host}
use ember_edge.Runtime.Reload.{poll_once}

-- A turn: what the registries answer in it, and what the clock reads at its
-- start and at each swap.
pub record Turn (I : Type 0) : Type 0 where
  pub hosts : Tenant I → Host
  pub now : ℕ
  pub later : Tenant I → ℕ × ℕ

pub record Looped (I : Type 0) : Type 0 where
  pub tenants : List (Tenant I)
  pub dir : Dir
  pub samples : List Sample

module _ {I : Type 0} (policy : HotReloadPolicy) where
  unfoldable pub reload_loop : List (Turn I) → List (Tenant I) → Dir → Looped I
  reload_loop [] ts dir = record { tenants = ts; dir = dir; samples = [] }
  reload_loop (turn ∷ turns) ts dir =
      let p = poll_once turn.hosts policy turn.now turn.later ts dir in
      let rest = reload_loop turns p.tenants p.dir in
      record rest { samples = p.samples ++ rest.samples }
