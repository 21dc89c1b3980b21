-- ===== src/Runtime/Reload/Budget.antt =====
-- When a tenant is swapped, and what failed pulls do.
use ember_edge.Prelude.{
  ℕ, ◌+◌, ◌-◌, ◌%◌, ◌≤◌, ◌≡◌, ◌≢◌, ◌⊎◌, inl, inr, refl, Option, [], arith, if◌then◌else◌, ltb, leb,
  Bool-cases,
}
use ember_edge.Text.Basic.{Str, str_eq, str_eq_iff}
use ember_edge.Numbers.{u64_mod}
use ember_edge.Errors.{Error}
use ember_edge.Errors.Monad.{Result, ok, err, Result-cases}
use ember_edge.Telemetry.{record_parked}
use ember_edge.Component.Loader.{Loaded, ensure_contract}
use ember_edge.Registry.Action.{Dir}
use ember_edge.Registry.Facade.{pull}
use ember_edge.Registry.Reload.{HotReloadPolicy, should_reload, exhausted}
use ember_edge.Config.Data.{ComponentSource}
use ember_edge.Runtime.Tenants.{Tenant, Host}
use ember_edge.Runtime.Reload.{swap, pulled, pull_failed, after_pull, poll_source, poll_tenant}

module _ {I : Type 0} (host : Host) (policy : HotReloadPolicy) (now : ℕ) (later : ℕ × ℕ) where
  -- Nothing was swapped, or a swap was made that the debounce allowed, at a digest that is new.
  abbrev pub SwappedOrNot : Tenant I → Tenant I → Type 0
  SwappedOrNot t t' =
      ((t'.active ≡ t.active) × (t'.last_swap ≡ t.last_swap))
      ⊎ ((t.last_swap + policy.debounce ≤ now)
          × (t'.last_swap ≡ later.1)
          × (t'.failures ≡ 0)
          × (t'.active.digest ≢ t.active.digest))

  pulled-Swapped :
      (t : Tenant I) (loaded : Loaded) (dir : Dir)
      → t.last_swap + policy.debounce ≤ now
      → SwappedOrNot t (pulled host policy now later t loaded dir).tenant
  unfolding pulled should_reload
  pulled-Swapped t loaded dir due = elim (Result-cases (ensure_contract loaded)) [
    | inr (f, e) ↦ rw (e, pulled) (inl (refl, refl))
    | inl (u, e) ↦ elim (Bool-cases (str_eq t.active.digest loaded.digest)) [
      | inl same ↦ rw (e, pulled) (rw same (inl (refl, refl)))
      | inr new ↦ elim (Result-cases (host.compile loaded.bytes)) [
        | inl (v, k) ↦
            rw (e, pulled)
              (rw new (
                rw (k, swap)
                  (inr (
                    due,
                    refl,
                    refl,
                    λ p. ground (arith, p, str_eq_iff t.active.digest loaded.digest),
                  ))))
        | inr (f, k) ↦ rw (e, pulled) (rw new (rw (k, swap) (inl (refl, refl))))
      ]
    ]
  ]

  after_pull-Swapped :
      (t : Tenant I) (r : Dir × Result Error Loaded)
      → t.last_swap + policy.debounce ≤ now
      → SwappedOrNot t (after_pull host policy now later t r).tenant
  unfolding after_pull
  after_pull-Swapped t (dir, ok loaded) due = pulled-Swapped t loaded dir due
  after_pull-Swapped t (dir, err e) due = unfold pull_failed in inl (refl, refl)

  poll_source-Swapped :
      (t : Tenant I) (c : ComponentSource) (dir : Dir)
      → t.last_swap ≤ now
      → SwappedOrNot t (poll_source host policy now later t c dir).tenant
  unfolding poll_source
  poll_source-Swapped t (ComponentSource.file path) dir past = inl (refl, refl)
  poll_source-Swapped t (ComponentSource.oci reference pin) dir past =
      elim (Bool-cases (ltb (now - t.last_swap) policy.debounce)) [
        | inl soon ↦ rw soon (inl (refl, refl))
        | inr due ↦
            rw due
              (after_pull-Swapped t (pull host.env host.client reference pin dir) (ground arith))
      ]

  -- Where the last swap is not in the future, a step of the reload loop swaps a tenant's component
  -- only if the debounce has passed since the last swap and the new digest is another one; the swap
  -- restarts the debounce and clears the failures. Otherwise the component and the time of the last
  -- swap stay as they were.
  pub poll_tenant-rate :
      (t : Tenant I) (dir : Dir)
      → t.last_swap ≤ now
      → SwappedOrNot t (poll_tenant host policy now later t dir).tenant
  unfolding poll_tenant
  poll_tenant-rate t dir past = poll_source-Swapped t t.source dir past

  -- For a tenant with an OCI source whose debounce has passed, a failed pull leaves the pass going
  -- and the active component alone: it is counted, and recorded as parked once the count has
  -- reached the budget.
  pub poll_tenant-failed :
      (t : Tenant I) (reference : Str) (pin : Option Str) (dir dir' : Dir) (e : Error)
      → t.source ≡ ComponentSource.oci reference pin
      → policy.debounce ≤ now - t.last_swap
      → pull host.env host.client reference pin dir ≡ (dir', err e)
      → poll_tenant host policy now later t dir ≡ record {
        tenant = record t { failures = (t.failures + 1) % u64_mod };
        dir = dir';
        samples =
            if leb policy.max_failed_polls ((t.failures + 1) % u64_mod)
            then record_parked t.id.name ((t.failures + 1) % u64_mod)
            else [];
        outcome = ok tt;
      }
  unfolding poll_tenant poll_source after_pull pull_failed exhausted
  poll_tenant-failed t reference pin dir dir' e s due h = rw (s, poll_tenant) (rw h (ground arith))

  pulled-parked :
      (t : Tenant I) (failures : ℕ) (loaded : Loaded) (dir : Dir)
      → (pulled host policy now later (record t { failures = failures }) loaded dir).tenant.active
        ≡ (pulled host policy now later t loaded dir).tenant.active
  unfolding pulled
  pulled-parked t failures loaded dir = ground arith

  after_pull-parked :
      (t : Tenant I) (failures : ℕ) (r : Dir × Result Error Loaded)
      → (after_pull host policy now later (record t { failures = failures }) r).tenant.active
        ≡ (after_pull host policy now later t r).tenant.active
  unfolding after_pull
  after_pull-parked t failures (dir, ok loaded) = pulled-parked t failures loaded dir
  after_pull-parked t failures (dir, err e) = unfold pull_failed in refl

  poll_source-parked :
      (t : Tenant I) (failures : ℕ) (c : ComponentSource) (dir : Dir)
      → (poll_source host policy now later (record t { failures = failures }) c dir).tenant.active
        ≡ (poll_source host policy now later t c dir).tenant.active
  unfolding poll_source
  poll_source-parked t failures (ComponentSource.file path) dir = refl
  poll_source-parked t failures (ComponentSource.oci reference pin) dir =
      elim (Bool-cases (ltb (now - t.last_swap) policy.debounce)) [
        | inl soon ↦ rw soon
        | inr due ↦
            rw due (after_pull-parked t failures (pull host.env host.client reference pin dir))
      ]

  -- The count of failures, also past the budget, has no say in what runs: a parked tenant is polled
  -- and swapped like any other.
  poll_tenant-parked :
      (t : Tenant I) (failures : ℕ) (dir : Dir)
      → (poll_tenant host policy now later (record t { failures = failures }) dir).tenant.active
        ≡ (poll_tenant host policy now later t dir).tenant.active
  unfolding poll_tenant
  poll_tenant-parked t failures dir = poll_source-parked t failures t.source dir
