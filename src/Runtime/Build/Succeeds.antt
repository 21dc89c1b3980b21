-- ===== src/Runtime/Build/Succeeds.antt =====
-- A start whose parts answer comes to its end with a runtime.
use ember_edge.Prelude.{ℕ, ◌≡◌, ◌≢◌, refl, sym, subst, List, [], ◌∷◌, All, arith}
use ember_edge.Text.Basic.{Str}
use ember_edge.Errors.{Error}
use ember_edge.Errors.Monad.{Result, ok, err, map_err}
use ember_edge.TenantId
use ember_edge.TenantId.{TenantId}
use ember_edge.TenantId.Grammar.{new-grammar}
use ember_edge.Telemetry.{Sample}
use ember_edge.Egress.Bridge
use ember_edge.Egress.Bridge.{ClientSettings, HttpBridge, client_settings}
use ember_edge.Egress.Policy.{default_policy}
use ember_edge.Sandbox.Assembly
use ember_edge.Sandbox.Assembly.{Sandbox}
use ember_edge.Sandbox.Limits.{SandboxLimits, EgressPolicy}
use ember_edge.Sandbox.Limits.Clamping.{IsValid, validate-IsValid}
use ember_edge.Component.Linker.{build_linker}
use ember_edge.Component.Loader.{Loaded, ensure_contract}
use ember_edge.Registry.Digest.{Blob}
use ember_edge.Registry.Action.{Dir}
use ember_edge.Registry.Action.Yields.{Anything}
use ember_edge.Registry.Action.Achieves.{Achieves, Achieves-bind, Achieves-ok, Achieves-lift}
use ember_edge.Registry.Store.Integrity.{IsIntact}
use ember_edge.Registry.Oci.{OciClientConfig}
use ember_edge.Registry.Reload.{HotReloadPolicy}
use ember_edge.Registry.Facade
use ember_edge.Registry.Oci
use ember_edge.Registry.Store
use ember_edge.Registry.Facade.Published.{pull-published}
use ember_edge.Config.Data.{ComponentSource, TenantConfig, Config}
use ember_edge.Config.Loading.Validation.{IsAcceptable}
use ember_edge.Runtime.Engine
use ember_edge.Runtime.Engine.{from_config, wasm_config, EngineBuilder, WasmConfig}
use ember_edge.Runtime.Tenants.{Tenants, Host, fetch_source, build_tenant, load_tenant}
use ember_edge.Runtime.Reload.Converges.{IsOffered}
use ember_edge.Runtime.Build.{
  Runtime, Setup, load_tenants, with_client, client_config, reload_policy, build,
}

new-fine :
    (id : TenantId) (limits : SandboxLimits) (config : List (Str × Str)) (e : Error)
    → IsValid limits
    → Assembly.new id limits config ≢ err e
unfolding Assembly.new
new-fine id limits config e v h = ground (arith, (validate-IsValid limits).1 v, h)

bridge-fine :
    (build_client : ClientSettings → Result Str (Unit {0})) (policy : EgressPolicy) (n : ℕ)
    (e : Error)
    → build_client client_settings ≡ ok tt
    → Bridge.new build_client policy n ≢ err e
unfolding Bridge.new
bridge-fine build_client policy n e b h = ground (arith, b, h)

-- wasmtime, reqwest and the system answer what a start asks of them.
pub record IsAnswering (setup : Setup) (config : Config) : Type 0 where
  pub engine : setup.compile_engine (wasm_config (from_config config.engine)) ≡ ok tt
  pub linked : build_linker setup.make_linker ≡ ok tt
  pub client : setup.build_client client_settings ≡ ok tt
  pub cache : setup.create_dir_all config.registry.cache_dir ≡ ok tt

engine-fine :
    (setup : Setup) (config : Config) (e : Error)
    → IsAnswering setup config
    → Engine.build setup.compile_engine (from_config config.engine) ≢ err e
unfolding Engine.build
engine-fine setup config e a h = ground (arith, a.engine, h)

registry-fine :
    (setup : Setup) (client : OciClientConfig) (policy : HotReloadPolicy) (e : Error)
    → setup.create_dir_all client.cache_dir ≡ ok tt
    → Facade.new setup.var setup.create_dir_all client policy ≢ err e
unfolding Facade.new Oci.new Store.open_store
registry-fine setup client policy e c h = ground (arith, c, h)

module _ (sha256_hex : Blob → Str) where
  abbrev Intact : Dir → Type 0
  Intact = IsIntact sha256_hex

  -- A tenant of the configuration that is valid, whose registry has an artifact for it, and for which
  -- the HTTP client can be built.
  pub record IsLoadable (host : Host) (cfg : TenantConfig) : Type 0 where
    pub acceptable : IsAcceptable cfg
    pub client : host.build_client client_settings ≡ ok tt
    pub artifact : Str
    pub offer : IsOffered sha256_hex host cfg.component artifact

  abbrev IsGood : Host → Loaded → Type 0
  IsGood host loaded = (ensure_contract loaded ≡ ok tt) × (host.compile loaded.bytes ≡ ok tt)

  fetch_source-Achieves :
      (host : Host) (source : ComponentSource) (d : Str)
      → IsOffered sha256_hex host source d
      → Achieves Intact (IsGood host) (fetch_source host source)
  unfolding fetch_source
  fetch_source-Achieves host source d o =
      subst (λ s. Achieves Intact (IsGood host) (fetch_source host s)) (sym o.same_source)
        (record {
          at = λ dir p.
              let (dir', loaded, got, same, hashed, c, kept) =
                pull-published host.env host.client o.reference d o.published o.pin dir o.permitted
                  (subst (λ h. IsIntact h dir) (sym o.same_hash) p) in
              (
                dir',
                loaded,
                got,
                subst (λ h. IsIntact h dir') o.same_hash kept,
                (c, o.compiles loaded.bytes hashed),
              );
        })

  module _ {I : Type 0} where
    build_tenant-Achieves :
        (host : Host) (now : ℕ) (cfg : TenantConfig)
        → IsLoadable host cfg
        → Achieves Intact Anything (build_tenant {I = I} host now cfg)
    unfolding build_tenant
    build_tenant-Achieves host now cfg v =
        Achieves-bind Intact Anything Anything _ _
          (Achieves-ok Intact Anything (TenantId.new cfg.name) (record { name = cfg.name })
            ((new-grammar cfg.name (record { name = cfg.name })).1 (v.acceptable.name, refl)) tt)
          λ id _.
            Achieves-bind Intact Anything Anything _ _
              (Achieves-lift Intact (Assembly.new id cfg.limits cfg.config)
                (λ e. new-fine id cfg.limits cfg.config e v.acceptable.limits))
              λ sandbox _.
                Achieves-bind Intact Anything Anything _ _
                  (Achieves-lift Intact
                    (Bridge.new host.build_client (Assembly.egress_policy sandbox)
                      cfg.limits.max_body_bytes)
                    (λ e.
                      bridge-fine host.build_client (Assembly.egress_policy sandbox)
                        cfg.limits.max_body_bytes e v.client))
                  λ bridge _.
                    Achieves-bind Intact (IsGood host) Anything _ _
                      (fetch_source-Achieves host cfg.component v.artifact v.offer)
                      λ loaded good.
                        Achieves-bind Intact Anything Anything _ _
                          (Achieves-ok Intact Anything (ensure_contract loaded) tt good.0 tt)
                          λ c _.
                            Achieves-bind Intact Anything Anything _ _
                              (Achieves-ok Intact Anything
                                (map_err Error.wasm (host.compile loaded.bytes)) tt
                                (rw (good.1) refl) tt)
                              λ k _. Achieves-ok Intact Anything (ok _) _ refl tt

    load_tenants-Achieves :
        (hosts : TenantConfig → Host) (clock : TenantConfig → ℕ) (cfgs : List TenantConfig)
        (tenants : Tenants I)
        → All (λ cfg. IsLoadable (hosts cfg) cfg) cfgs
        → Achieves Intact Anything (load_tenants hosts clock cfgs tenants)
    unfolding load_tenants load_tenant
    load_tenants-Achieves hosts clock [] tenants v = Achieves-ok Intact Anything (ok _) _ refl tt
    load_tenants-Achieves hosts clock (cfg ∷ cfgs) tenants (v, vs) =
        Achieves-bind Intact Anything Anything _ _
          (Achieves-bind Intact Anything Anything _ _
            (build_tenant-Achieves (hosts cfg) (clock cfg) cfg v)
            λ t _. Achieves-ok Intact Anything (ok _) _ refl tt)
          λ first _.
            Achieves-bind Intact Anything Anything _ _
              (load_tenants-Achieves hosts clock cfgs first.0 vs)
              λ rest _. Achieves-ok Intact Anything (ok _) _ refl tt

  build-Achieves :
      {I : Type 0} (hosts : TenantConfig → Host) (clock : TenantConfig → ℕ) (setup : Setup)
      (config : Config)
      → IsAnswering setup config
      → All (λ cfg. IsLoadable (with_client hosts config cfg) cfg) config.tenants
      → Achieves Intact Anything (build {I = I} hosts clock setup config)
  unfolding build client_config
  build-Achieves hosts clock setup config a v =
      Achieves-bind Intact Anything Anything _ _
        (Achieves-lift Intact _ (λ e. engine-fine setup config e a))
        λ engine _.
          Achieves-bind Intact Anything Anything _ _ (Achieves-ok Intact Anything _ tt a.linked tt)
            λ linker _.
              Achieves-bind Intact Anything Anything _ _
                (Achieves-lift Intact _ (λ e.
                  bridge-fine setup.build_client default_policy config.http.max_body_bytes e
                    a.client))
                λ bridge _.
                  Achieves-bind Intact Anything Anything _ _
                    (Achieves-lift Intact _ (λ e.
                      registry-fine setup (client_config config.registry)
                        (reload_policy config.registry) e a.cache))
                    λ registry _.
                      Achieves-bind Intact Anything Anything _ _
                        (load_tenants-Achieves (with_client hosts config) clock config.tenants [] v)
                        λ loaded _. Achieves-ok Intact Anything (ok _) _ refl tt

  -- Where wasmtime, reqwest and the system answer, each configured tenant is valid, and the HTTP
  -- client can be built for it; where the reference of its OCI source resolves, the manifest has a
  -- well-formed digest first, which its pin permits, the registry sends bytes of that digest, and all
  -- bytes of that digest validate, have the same exports, which meet the contract, and compile; and
  -- where the disk creates, writes, syncs and renames as it is asked to: a start from an intact store
  -- ends with a runtime, and leaves an intact store.
  pub build-succeeds :
      {I : Type 0} (hosts : TenantConfig → Host) (clock : TenantConfig → ℕ) (setup : Setup)
      (config : Config) (dir : Dir)
      → IsAnswering setup config
      → All (λ cfg. IsLoadable (with_client hosts config cfg) cfg) config.tenants
      → IsIntact sha256_hex dir
      → (dir' : Dir) × (runtime : Runtime I) × (samples : List Sample) × (build hosts clock setup
            config dir
          ≡ (dir', ok (runtime, samples)))
        × IsIntact sha256_hex dir'
  build-succeeds {I} hosts clock setup config dir a v intact =
      let (dir', (runtime, samples), e, kept, _) =
        (build-Achieves hosts clock setup config a v).at dir intact in
      (dir', runtime, samples, e, kept)
