-- ===== src/Runtime/Reload.antt =====
-- Hot reload (src/runtime.rs): `swap`, and `poll_once` over a snapshot of the tenants, in the
-- order of the snapshot. What the registry answers may differ from tenant to tenant.
pub mod Active
pub mod Budget
pub mod Refusals
pub mod Isolation
pub mod Frame
pub mod Converges
pub mod Passes
pub mod Loop
pub mod Kept
pub mod Recovers
pub mod Parks
use ember_edge.Prelude.{
  ℕ, ◌+◌, ◌-◌, ◌%◌, ◌≡◌, Bool, Option, none, some, List, [], ◌∷◌, ◌++◌, arith, if◌then◌else◌, ltb,
}
use ember_edge.Text.Basic.{Str}
use ember_edge.Numbers.{u64_mod}
use ember_edge.Errors.{Error}
use ember_edge.Errors.Monad
use ember_edge.Errors.Monad.{Result, ok, err, map_err}
use ember_edge.Telemetry.{Sample, record_reload, record_parked}
use ember_edge.Component.Loader.{Loaded, ensure_contract}
use ember_edge.Registry.Action.{Dir}
use ember_edge.Registry.Facade.{pull}
use ember_edge.Registry.Reload.{HotReloadPolicy, should_reload, exhausted}
use ember_edge.Config.Data.{ComponentSource}
use ember_edge.Runtime.Tenants.{Tenant, Host, activate}

-- A tenant after a step, what was recorded, and whether an error went up.
pub record Polled (I : Type 0) : Type 0 where
  pub tenant : Tenant I
  pub dir : Dir
  pub samples : List Sample
  pub outcome : Result Error (Unit {0})

-- `now` is the reading at the start of the pass, `later` the two readings at a swap.
module _ {I : Type 0} (host : Host) (policy : HotReloadPolicy) (now : ℕ) (later : ℕ × ℕ) where
  abbrev unchanged : Tenant I → Dir → Result Error (Unit {0}) → Polled I
  unchanged t dir r = record { tenant = t; dir = dir; samples = []; outcome = r }

  unfoldable pub swap : Tenant I → Loaded → Dir → Polled I
  swap t loaded dir = elim (map_err Error.wasm (host.compile loaded.bytes)) [
    | err e ↦ unchanged t dir (err e)
    | ok u ↦ record {
      tenant = record t { active = activate loaded later.0; last_swap = later.1; failures = 0 };
      dir = dir;
      samples = record_reload t.id.name (some t.active.digest) loaded.digest;
      outcome = ok tt;
    }
  ]

  -- A pull that succeeded. An error of the contract or of the swap leaves the pass.
  unfoldable pub pulled : Tenant I → Loaded → Dir → Polled I
  unfolding swap
  pulled t loaded dir = elim (ensure_contract loaded) [
    | err e ↦ unchanged t dir (err e)
    | ok u ↦
        if should_reload policy (some t.active.digest) loaded.digest
        then swap t loaded dir
        else record { tenant = record t { failures = 0 }; dir = dir; samples = []; outcome = ok tt }
  ]

  -- A pull that failed: counted, and recorded when the budget is spent.
  unfoldable pub pull_failed : Tenant I → Dir → Polled I
  pull_failed t dir =
      let failures = (t.failures + 1) % u64_mod in
      record {
        tenant = record t { failures = failures };
        dir = dir;
        samples = if exhausted policy failures then record_parked t.id.name failures else [];
        outcome = ok tt;
      }

  unfoldable pub after_pull : Tenant I → Dir × Result Error Loaded → Polled I
  unfolding pulled pull_failed
  after_pull t (dir, ok loaded) = pulled t loaded dir
  after_pull t (dir, err e) = pull_failed t dir

  unfoldable pub poll_source : Tenant I → ComponentSource → Dir → Polled I
  unfolding after_pull
  poll_source t (ComponentSource.file path) dir = unchanged t dir (ok tt)
  poll_source t (ComponentSource.oci reference pin) dir =
      if ltb (now - t.last_swap) policy.debounce
      then unchanged t dir (ok tt)
      else after_pull t (pull host.env host.client reference pin dir)

  unfoldable pub poll_tenant : Tenant I → Dir → Polled I
  unfolding poll_source
  poll_tenant t dir = poll_source t t.source dir

-- The tenants after a pass.
pub record Pass (I : Type 0) : Type 0 where
  pub tenants : List (Tenant I)
  pub dir : Dir
  pub samples : List Sample
  pub outcome : Result Error (Unit {0})

-- `hosts` gives what the registry answers for a tenant.
module _ {I : Type 0} (hosts : Tenant I → Host) (policy : HotReloadPolicy) (now : ℕ)
    (later : Tenant I → ℕ × ℕ) where
  unfoldable pub poll_once : List (Tenant I) → Dir → Pass I
  poll_once [] dir = record { tenants = []; dir = dir; samples = []; outcome = ok tt }
  poll_once (t ∷ ts) dir =
      let p = poll_tenant (hosts t) policy now (later t) t dir in
      elim p.outcome [
        | err e ↦ record {
          tenants = p.tenant ∷ ts;
          dir = p.dir;
          samples = p.samples;
          outcome = err e;
        }
        | ok u ↦
            let rest = poll_once ts p.dir in
            record rest { tenants = p.tenant ∷ rest.tenants; samples = p.samples ++ rest.samples }
      ]
