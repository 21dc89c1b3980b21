-- ===== src/Runtime/Reload/Active.antt =====
-- What is known of the component that a tenant runs.
use ember_edge.Prelude.{ℕ, ◌≡◌, refl, ap, subst, Option, none, some, inl, inr, Bool-cases, ltb, ◌-◌}
use ember_edge.Text.Basic.{Str}
use ember_edge.Errors.{Error}
use ember_edge.Errors.Monad.{Result, ok, err, Result-cases}
use ember_edge.Component.Loader.{Loaded, ensure_contract}
use ember_edge.Registry.Digest.{Blob, digest}
use ember_edge.Registry.Action.{Dir}
use ember_edge.Registry.Facade.{pull}
use ember_edge.Registry.Facade.Pinned.{pull-pinned}
use ember_edge.Registry.Reload.{HotReloadPolicy, should_reload}
use ember_edge.Config.Data.{ComponentSource}
use ember_edge.Runtime.Tenants.{ActiveComponent, Tenant, Host, activate}
use ember_edge.Runtime.Reload.{swap, pulled, pull_failed, after_pull, poll_source, poll_tenant}

-- A pinned source runs bytes of the pinned digest.
abbrev pub PinHolds : (Blob → Str) → ComponentSource → ActiveComponent → Type 0
PinHolds sha256_hex (ComponentSource.oci reference (some pin)) a =
    (a.digest ≡ pin) × (digest sha256_hex a.loaded.bytes ≡ pin)
PinHolds sha256_hex (ComponentSource.oci reference none) a = Unit
PinHolds sha256_hex (ComponentSource.file path) a = Unit

-- A component that was admitted: it meets the contract, compiles, is recorded under its artifact's
-- digest, and is the pinned one where there is a pin.
pub record IsLive (host : Host) (source : ComponentSource) (a : ActiveComponent) : Type 0 where
  pub contract : ensure_contract a.loaded ≡ ok tt
  pub compiles : host.compile a.loaded.bytes ≡ ok tt
  pub recorded : a.digest ≡ a.loaded.digest
  pub pinned : PinHolds host.env.sha256_hex source a

pub pulled-pin :
    (host : Host) (reference : Str) (pin : Option Str) (now : ℕ) (dir dir' : Dir) (loaded : Loaded)
    → pull host.env host.client reference pin dir ≡ (dir', ok loaded)
    → PinHolds host.env.sha256_hex (ComponentSource.oci reference pin) (activate loaded now)
pulled-pin host reference none now dir dir' loaded h = tt
pulled-pin host reference (some pin) now dir dir' loaded h =
    pull-pinned host.env host.client reference pin dir dir' loaded h

module _ {I : Type 0} (host : Host) (policy : HotReloadPolicy) (now : ℕ) (later : ℕ × ℕ)
    (source : ComponentSource) where
  abbrev Live : Tenant I → Type 0
  Live t = IsLive host source t.active

  swap-IsLive :
      (t : Tenant I) (loaded : Loaded) (dir : Dir)
      → ensure_contract loaded ≡ ok tt
      → PinHolds host.env.sha256_hex source (activate loaded later.0)
      → Live t
      → Live (swap host policy now later t loaded dir).tenant
  unfolding swap
  swap-IsLive t loaded dir c p v = elim (Result-cases (host.compile loaded.bytes)) [
    | inl (u, e) ↦ rw (e, swap) (record { contract = c; compiles = e; recorded = refl; pinned = p })
    | inr (f, e) ↦ rw (e, swap) v
  ]

  pulled-IsLive :
      (t : Tenant I) (loaded : Loaded) (dir : Dir)
      → PinHolds host.env.sha256_hex source (activate loaded later.0)
      → Live t
      → Live (pulled host policy now later t loaded dir).tenant
  unfolding pulled
  pulled-IsLive t loaded dir p v = elim (Result-cases (ensure_contract loaded)) [
    | inr (f, e) ↦ rw (e, pulled) v
    | inl (u, e) ↦ elim (Bool-cases (should_reload policy (some t.active.digest) loaded.digest)) [
      | inl new ↦ rw (e, pulled) (rw new (swap-IsLive t loaded dir e p v))
      | inr same ↦ rw (e, pulled) (rw same v)
    ]
  ]

  after_pull-IsLive :
      (t : Tenant I) (r : Dir × Result Error Loaded)
      → ((loaded : Loaded)
          → r.1 ≡ ok loaded
          → PinHolds host.env.sha256_hex source (activate loaded later.0))
      → Live t
      → Live (after_pull host policy now later t r).tenant
  unfolding after_pull
  after_pull-IsLive t (dir, ok loaded) p v = pulled-IsLive t loaded dir (p loaded refl) v
  after_pull-IsLive t (dir, err e) p v = unfold pull_failed in v

  poll_source-IsLive :
      (t : Tenant I) (c : ComponentSource) (dir : Dir)
      → c ≡ source
      → Live t
      → Live (poll_source host policy now later t c dir).tenant
  unfolding poll_source
  poll_source-IsLive t (ComponentSource.file path) dir s v = v
  poll_source-IsLive t (ComponentSource.oci reference pin) dir s v =
      elim (Bool-cases (ltb (now - t.last_swap) policy.debounce)) [
        | inl soon ↦ rw soon v
        | inr due ↦ rw due (
            after_pull-IsLive t (pull host.env host.client reference pin dir)
              (λ loaded h.
                subst (λ d. PinHolds host.env.sha256_hex d (activate loaded later.0)) s
                  (pulled-pin host reference pin later.0 dir
                    (pull host.env host.client reference pin dir).0 loaded
                    (ap (λ r. ((pull host.env host.client reference pin dir).0, r)) h)))
              v)
      ]

module _ {I : Type 0} (host : Host) where
  -- A step of the reload loop on a tenant with an admitted component leaves it with one: whether it
  -- swaps or not, and however the pull ends, what runs meets the contract, compiles, is recorded
  -- under its artifact's digest, and has the pinned digest where the source has a pin.
  pub poll_tenant-IsLive :
      (policy : HotReloadPolicy) (now : ℕ) (later : ℕ × ℕ) (t : Tenant I) (dir : Dir)
      → IsLive host t.source t.active
      → IsLive host t.source (poll_tenant host policy now later t dir).tenant.active
  unfolding poll_tenant
  poll_tenant-IsLive policy now later t dir v =
      poll_source-IsLive host policy now later t.source t t.source dir refl v
