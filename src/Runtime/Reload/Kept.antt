-- ===== src/Runtime/Reload/Kept.antt =====
-- The reload loop leaves the store intact, however its passes end.
use ember_edge.Prelude.{
  ℕ, ◌-◌, ◌≡◌, refl, sym, subst, some, List, [], ◌∷◌, All, ltb, Bool-cases, inl, inr,
}
use ember_edge.Text.Basic.{Str}
use ember_edge.Errors.{Error}
use ember_edge.Errors.Monad.{Result, ok, err, Result-cases}
use ember_edge.Component.Loader.{Loaded, ensure_contract}
use ember_edge.Registry.Digest.{Blob}
use ember_edge.Registry.Action.{Dir}
use ember_edge.Registry.Store.Integrity.{IsIntact}
use ember_edge.Registry.Facade.{pull}
use ember_edge.Registry.Facade.Kept.{pull-IsIntact}
use ember_edge.Registry.Reload.{HotReloadPolicy, should_reload}
use ember_edge.Config.Data.{ComponentSource}
use ember_edge.Runtime.Tenants.{Tenant, Host}
use ember_edge.Runtime.Reload.{
  swap, pulled, pull_failed, after_pull, poll_source, poll_tenant, poll_once,
}
use ember_edge.Runtime.Reload.Loop.{Turn, reload_loop}

module _ {I : Type 0} (host : Host) (policy : HotReloadPolicy) (now : ℕ) (later : ℕ × ℕ) where
  -- Only the pull touches the store.
  after_pull-dir :
      (t : Tenant I) (r : Dir × Result Error Loaded)
      → (after_pull host policy now later t r).dir ≡ r.0
  unfolding after_pull pulled pull_failed
  after_pull-dir t (dir, err e) = refl
  after_pull-dir t (dir, ok loaded) = elim (Result-cases (ensure_contract loaded)) [
    | inr (f, e) ↦ rw (e, pulled) refl
    | inl (u, e) ↦ elim (Bool-cases (should_reload policy (some t.active.digest) loaded.digest)) [
      | inr old ↦ rw (e, pulled) (rw old refl)
      | inl new ↦ elim (Result-cases (host.compile loaded.bytes)) [
        | inl (v, k) ↦ rw (e, pulled) (rw new (rw (k, swap) refl))
        | inr (f, k) ↦ rw (e, pulled) (rw new (rw (k, swap) refl))
      ]
    ]
  ]

  poll_source-IsIntact :
      (t : Tenant I) (c : ComponentSource) (dir : Dir)
      → IsIntact host.env.sha256_hex dir
      → IsIntact host.env.sha256_hex (poll_source host policy now later t c dir).dir
  unfolding poll_source
  poll_source-IsIntact t (ComponentSource.file path) dir d = d
  poll_source-IsIntact t (ComponentSource.oci reference pin) dir d =
      elim (Bool-cases (ltb (now - t.last_swap) policy.debounce)) [
        | inl soon ↦ rw soon d
        | inr due ↦ rw due (
            rw (after_pull-dir t (pull host.env host.client reference pin dir))
              (pull-IsIntact host.env host.client reference pin dir d))
      ]

  poll_tenant-IsIntact :
      (t : Tenant I) (dir : Dir)
      → IsIntact host.env.sha256_hex dir
      → IsIntact host.env.sha256_hex (poll_tenant host policy now later t dir).dir
  unfolding poll_tenant
  poll_tenant-IsIntact t dir d = poll_source-IsIntact t t.source dir d

-- All registries are over the store of one hash function.
abbrev pub OneHash : {I : Type 0} → (Blob → Str) → (Tenant I → Host) → Type 0
OneHash {I} sha256_hex hosts = (t : Tenant I) → (hosts t).env.sha256_hex ≡ sha256_hex

-- So are they in every turn.
abbrev pub SameHash : {I : Type 0} → (Blob → Str) → List (Turn I) → Type 0
SameHash sha256_hex turns = All (λ turn. OneHash sha256_hex turn.hosts) turns

module _ {I : Type 0} (sha256_hex : Blob → Str) (policy : HotReloadPolicy) where
  poll_once-IsIntact :
      (hosts : Tenant I → Host) (now : ℕ) (later : Tenant I → ℕ × ℕ) (ts : List (Tenant I))
      (dir : Dir)
      → OneHash sha256_hex hosts
      → IsIntact sha256_hex dir
      → IsIntact sha256_hex (poll_once hosts policy now later ts dir).dir
  unfolding poll_once
  poll_once-IsIntact hosts now later [] dir one d = d
  poll_once-IsIntact hosts now later (t ∷ ts) dir one d =
      let p = poll_tenant (hosts t) policy now (later t) t dir in
      let kept : IsIntact sha256_hex p.dir =
        subst (λ h. IsIntact h p.dir) (one t)
          (poll_tenant-IsIntact (hosts t) policy now (later t) t dir
            (subst (λ h. IsIntact h dir) (sym (one t)) d)) in
      elim (Result-cases p.outcome) [
        | inr (e, failed) ↦ rw (failed, poll_once) kept
        | inl (u, fine) ↦
            rw (fine, poll_once) (poll_once-IsIntact hosts now later ts p.dir one kept)
      ]

  pub reload_loop-IsIntact :
      (turns : List (Turn I)) (ts : List (Tenant I)) (dir : Dir)
      → SameHash sha256_hex turns
      → IsIntact sha256_hex dir
      → IsIntact sha256_hex (reload_loop policy turns ts dir).dir
  unfolding reload_loop
  reload_loop-IsIntact [] ts dir one d = d
  reload_loop-IsIntact (turn ∷ turns) ts dir (one, ones) d =
      let p = poll_once turn.hosts policy turn.now turn.later ts dir in
      reload_loop-IsIntact turns p.tenants p.dir ones
        (poll_once-IsIntact turn.hosts turn.now turn.later ts dir one d)
