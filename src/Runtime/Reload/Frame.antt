-- ===== src/Runtime/Reload/Frame.antt =====
-- What a reload step does not touch.
use ember_edge.Prelude.{ℕ, ◌-◌, ◌≡◌, refl, inl, inr, some, ltb, Bool-cases}
use ember_edge.Errors.{Error}
use ember_edge.Errors.Monad.{Result, ok, err, Result-cases}
use ember_edge.Component.Loader.{Loaded, ensure_contract}
use ember_edge.Registry.Action.{Dir}
use ember_edge.Registry.Facade.{pull}
use ember_edge.Registry.Reload.{HotReloadPolicy, should_reload}
use ember_edge.Config.Data.{ComponentSource}
use ember_edge.Runtime.Tenants.{Tenant, Host}
use ember_edge.Runtime.Reload.{swap, pulled, pull_failed, after_pull, poll_source, poll_tenant}

module _ {I : Type 0} (host : Host) (policy : HotReloadPolicy) (now : ℕ) (later : ℕ × ℕ) where
  abbrev pub IsFramed : Tenant I → Tenant I → Type 0
  IsFramed t t' =
      (t'.id ≡ t.id)
      × (t'.sandbox ≡ t.sandbox)
      × (t'.bridge ≡ t.bridge)
      × (t'.source ≡ t.source)
      × (t'.pool ≡ t.pool)
      × (t'.invocations ≡ t.invocations)

  abbrev same : (t : Tenant I) → IsFramed t t
  same t = (refl, refl, refl, refl, refl, refl)

  pulled-IsFramed :
      (t : Tenant I) (loaded : Loaded) (dir : Dir)
      → IsFramed t (pulled host policy now later t loaded dir).tenant
  unfolding pulled
  pulled-IsFramed t loaded dir = elim (Result-cases (ensure_contract loaded)) [
    | inr (f, e) ↦ rw (e, pulled) (same t)
    | inl (u, e) ↦ elim (Bool-cases (should_reload policy (some t.active.digest) loaded.digest)) [
      | inr old ↦ rw (e, pulled) (rw old (same t))
      | inl new ↦ elim (Result-cases (host.compile loaded.bytes)) [
        | inl (v, k) ↦ rw (e, pulled) (rw new (rw (k, swap) (same t)))
        | inr (f, k) ↦ rw (e, pulled) (rw new (rw (k, swap) (same t)))
      ]
    ]
  ]

  after_pull-IsFramed :
      (t : Tenant I) (r : Dir × Result Error Loaded)
      → IsFramed t (after_pull host policy now later t r).tenant
  unfolding after_pull
  after_pull-IsFramed t (dir, ok loaded) = pulled-IsFramed t loaded dir
  after_pull-IsFramed t (dir, err e) = unfold pull_failed in same t

  poll_source-IsFramed :
      (t : Tenant I) (c : ComponentSource) (dir : Dir)
      → IsFramed t (poll_source host policy now later t c dir).tenant
  unfolding poll_source
  poll_source-IsFramed t (ComponentSource.file path) dir = same t
  poll_source-IsFramed t (ComponentSource.oci reference pin) dir =
      elim (Bool-cases (ltb (now - t.last_swap) policy.debounce)) [
        | inl soon ↦ rw soon (same t)
        | inr due ↦ rw due (after_pull-IsFramed t (pull host.env host.client reference pin dir))
      ]

  pub poll_tenant-IsFramed :
      (t : Tenant I) (dir : Dir) → IsFramed t (poll_tenant host policy now later t dir).tenant
  unfolding poll_tenant
  poll_tenant-IsFramed t dir = poll_source-IsFramed t t.source dir
