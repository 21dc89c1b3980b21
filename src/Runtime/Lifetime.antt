-- ===== src/Runtime/Lifetime.antt =====
-- A start of the runtime and the turns of its reload loop (src/runtime.rs), as one run over the
-- store.
use ember_edge.Prelude.{ℕ, ◌≡◌, sym, subst, List, [], ◌∷◌, map}
use ember_edge.Text.Basic.{Str}
use ember_edge.Errors.{Error}
use ember_edge.Errors.Monad.{Result, ok, err}
use ember_edge.Registry.Digest.{Blob}
use ember_edge.Registry.Action.{Dir, Action}
use ember_edge.Registry.Action.Yields.{
  Yields, Yields-bind, Yields-lift, Anything, Outcome, Outcome-any,
}
use ember_edge.Registry.Store.Integrity.{IsIntact}
use ember_edge.Registry.Facade.{pull}
use ember_edge.Registry.Facade.Kept.{pull-IsIntact}
use ember_edge.Config.Data.{ComponentSource, TenantConfig, Config}
use ember_edge.Runtime.Tenants.{Tenants, Host, fetch_source, build_tenant, load_tenant}
use ember_edge.Runtime.Build.{Runtime, Setup, load_tenants, with_client, build}
use ember_edge.Runtime.Reload.Loop.{Turn, reload_loop}
use ember_edge.Runtime.Reload.Kept.{SameHash, reload_loop-IsIntact}
use ember_edge.Telemetry.{Sample}

-- The store after a start and some turns of the loop; a start that failed has no loop.
abbrev pub lived : {I : Type 0} → List (Turn I) → Dir × Result Error (Runtime I × List Sample) → Dir
lived turns (dir, ok (runtime, samples)) =
    (reload_loop runtime.policy turns (map (λ e. e.1) runtime.tenants) dir).dir
lived turns (dir, err e) = dir

module _ (sha256_hex : Blob → Str) where
  abbrev Intact : Dir → Type 0
  Intact = IsIntact sha256_hex

  -- An action that leaves the store intact.
  abbrev Keeps : {A : Type 0} → Action A → Type 0
  Keeps m = Yields Intact Anything m

  Keeps-lift : {A : Type 0} (r : Result Error A) → Keeps (λ dir. (dir, r))
  Keeps-lift r = Yields-lift Intact r

  fetch_source-Keeps :
      (host : Host) (source : ComponentSource)
      → host.env.sha256_hex ≡ sha256_hex
      → Keeps (fetch_source host source)
  unfolding fetch_source
  fetch_source-Keeps host (ComponentSource.file path) one = Keeps-lift _
  fetch_source-Keeps host (ComponentSource.oci reference pin) one = record {
    at = λ dir d. Outcome-any Intact (pull host.env host.client reference pin dir) (
        subst (λ s. IsIntact s (pull host.env host.client reference pin dir).0) one
          (pull-IsIntact host.env host.client reference pin dir
            (subst (λ s. IsIntact s dir) (sym one) d)));
  }

  module _ {I : Type 0} where
    build_tenant-Keeps :
        (host : Host) (now : ℕ) (cfg : TenantConfig)
        → host.env.sha256_hex ≡ sha256_hex
        → Keeps (build_tenant {I = I} host now cfg)
    unfolding build_tenant
    build_tenant-Keeps host now cfg one =
        Yields-bind Intact Anything Anything _ _ (Keeps-lift _) λ id _.
          Yields-bind Intact Anything Anything _ _ (Keeps-lift _) λ sandbox _.
            Yields-bind Intact Anything Anything _ _ (Keeps-lift _) λ bridge _.
              Yields-bind Intact Anything Anything _ _ (fetch_source-Keeps host cfg.component one)
                λ loaded _. Yields-bind Intact Anything Anything _ _ (Keeps-lift _) λ c _.
                  Yields-bind Intact Anything Anything _ _ (Keeps-lift _) λ k _. Keeps-lift (ok _)

    load_tenant-Keeps :
        (host : Host) (now : ℕ) (cfg : TenantConfig) (tenants : Tenants I)
        → host.env.sha256_hex ≡ sha256_hex
        → Keeps (load_tenant host now cfg tenants)
    unfolding load_tenant
    load_tenant-Keeps host now cfg tenants one =
        Yields-bind Intact Anything Anything _ _ (build_tenant-Keeps host now cfg one)
          λ t _. Keeps-lift (ok _)

    module _ (hosts : TenantConfig → Host) (clock : TenantConfig → ℕ)
        (one : (cfg : TenantConfig) → (hosts cfg).env.sha256_hex ≡ sha256_hex) where
      load_tenants-Keeps :
          (cfgs : List TenantConfig) (tenants : Tenants I)
          → Keeps (load_tenants hosts clock cfgs tenants)
      unfolding load_tenants
      load_tenants-Keeps [] tenants = Keeps-lift (ok _)
      load_tenants-Keeps (cfg ∷ cfgs) tenants =
          Yields-bind Intact Anything Anything _ _
            (load_tenant-Keeps (hosts cfg) (clock cfg) cfg tenants (one cfg))
            λ first _.
              Yields-bind Intact Anything Anything _ _ (load_tenants-Keeps cfgs first.0)
                λ rest _. Keeps-lift (ok _)

    module _ (hosts : TenantConfig → Host) (clock : TenantConfig → ℕ) (setup : Setup)
        (one : (cfg : TenantConfig) → (hosts cfg).env.sha256_hex ≡ sha256_hex) where
      build-Keeps : (config : Config) → Keeps (build {I = I} hosts clock setup config)
      unfolding build
      build-Keeps config = Yields-bind Intact Anything Anything _ _ (Keeps-lift _) λ e _.
          Yields-bind Intact Anything Anything _ _ (Keeps-lift _) λ l _.
            Yields-bind Intact Anything Anything _ _ (Keeps-lift _) λ bridge _.
              Yields-bind Intact Anything Anything _ _ (Keeps-lift _) λ registry _.
                Yields-bind Intact Anything Anything _ _
                  (load_tenants-Keeps (with_client hosts config) clock one config.tenants [])
                  λ loaded _. Keeps-lift (ok _)

      turned-IsIntact :
          (turns : List (Turn I)) (r : Dir × Result Error (Runtime I × List Sample))
          → SameHash sha256_hex turns
          → Outcome Intact Anything r
          → Intact (lived turns r)
      turned-IsIntact turns (dir, err e) same d = d
      turned-IsIntact turns (dir, ok (runtime, samples)) same (d, _) =
          reload_loop-IsIntact sha256_hex runtime.policy turns (map (λ e. e.1) runtime.tenants) dir
            same d

      -- From an intact store, a start of the runtime, which may fail anywhere, and any number of
      -- turns of its reload loop after it, however their pulls, checks and swaps end and whatever the
      -- registries send and the disk answers, leave an intact store: a file of it that is named for a
      -- hash has bytes of that hash.
      pub lived-IsIntact :
          (config : Config) (dir : Dir) (turns : List (Turn I))
          → SameHash sha256_hex turns
          → IsIntact sha256_hex dir
          → IsIntact sha256_hex (lived turns (build hosts clock setup config dir))
      lived-IsIntact config dir turns same d =
          turned-IsIntact turns (build hosts clock setup config dir) same
            ((build-Keeps config).at dir d)
