-- ===== src/Runtime/Tenants/Built.antt =====
-- What a tenant is that was loaded (src/runtime.rs).
use ember_edge.Prelude.{ℕ, ◌≡◌, refl, List, arith}
use ember_edge.Text.Basic.{Str}
use ember_edge.Errors.{Error}
use ember_edge.Errors.Monad.{Result, ok, err, map_err}
use ember_edge.Component.Loader.{Loaded, ensure_contract}
use ember_edge.Registry.Action.{Dir}
use ember_edge.Registry.Action.Yields.{
  Yields-lift, Yields, Anything, Outcome, Yields-bind, Outcome-same, Outcome-ok,
}
use ember_edge.Registry.Facade.{pull}
use ember_edge.Sandbox.Assembly
use ember_edge.Sandbox.Assembly.{Sandbox}
use ember_edge.Sandbox.Limits.{SandboxLimits}
use ember_edge.TenantId
use ember_edge.TenantId.{TenantId}
use ember_edge.TenantId.Grammar.{new-grammar}
use ember_edge.Runtime.Pool
use ember_edge.Config.Data.{ComponentSource, TenantConfig}
use ember_edge.Runtime.Tenants.{Tenant, Host, activate, fetch_source, build_tenant}
use ember_edge.Runtime.Reload.Active.{PinHolds, IsLive, pulled-pin}

new-tenant :
    (id : TenantId) (limits : SandboxLimits) (config : List (Str × Str)) (s : Sandbox)
    → Assembly.new id limits config ≡ ok s
    → s.tenant ≡ id
unfolding Assembly.new
new-tenant id limits config s h = ground (arith, h)

-- Nothing is asked of the directory.
abbrev pub Always : Dir → Type 0
Always dir = Unit

module _ (host : Host) where
  fetch_source-Yields :
      (now : ℕ) (source : ComponentSource)
      → Yields Always
          (λ loaded. PinHolds host.env.sha256_hex source (activate loaded now))
          (fetch_source host source)
  unfolding fetch_source
  fetch_source-Yields now (ComponentSource.oci reference pin) = record {
    at = λ dir _. go dir (pull host.env host.client reference pin dir) refl;
  }
    where
      go :
          (dir : Dir) (r : Dir × Result Error Loaded)
          → pull host.env host.client reference pin dir ≡ r
          → Outcome Always
              (λ loaded.
                PinHolds host.env.sha256_hex
                  (ComponentSource.oci reference pin)
                  (activate loaded now))
              r
      go dir (dir', ok loaded) e = (tt, pulled-pin host reference pin now dir dir' loaded e)
      go dir (dir', err f) e = tt
  fetch_source-Yields now (ComponentSource.file path) = record {
    at = λ dir _. Outcome-same Always _ dir _ tt (λ loaded e. tt);
  }

module _ {I : Type 0} (host : Host) where
  -- Made for its configuration: an admitted component of the source, the name, a sandbox of its own,
  -- and a new pool.
  pub record IsBuilt (cfg : TenantConfig) (t : Tenant I) : Type 0 where
    pub live : IsLive host cfg.component t.active
    pub same_source : t.source ≡ cfg.component
    pub named : t.id.name ≡ cfg.name
    pub same_tenant : t.sandbox.tenant ≡ t.id
    pub fresh_pool : t.pool ≡ Pool.new cfg.limits.max_instances

  pub build_tenant-Yields :
      (now : ℕ) (cfg : TenantConfig) → Yields Always (IsBuilt cfg) (build_tenant host now cfg)
  unfolding build_tenant
  build_tenant-Yields now cfg =
      Yields-bind Always (λ (id : TenantId). id.name ≡ cfg.name) _ _ _
        (record {
          at = λ dir _.
              Outcome-same Always _ dir (TenantId.new cfg.name) tt
                (λ id e. ((new-grammar cfg.name id).0 e).1);
        })
        λ id n.
          Yields-bind Always (λ (s : Sandbox). s.tenant ≡ id) _ _ _
            (record {
              at = λ dir _.
                  Outcome-same Always _ dir (Assembly.new id cfg.limits cfg.config) tt
                    (λ s e. new-tenant id cfg.limits cfg.config s e);
            })
            λ sandbox own. Yields-bind Always Anything _ _ _ (Yields-lift Always _) λ bridge _.
              Yields-bind Always _ _ _ _ (fetch_source-Yields host now cfg.component) λ loaded p.
                Yields-bind Always (λ _. ensure_contract loaded ≡ ok tt) _ _ _
                  (record {
                    at = λ dir _. Outcome-same Always _ dir (ensure_contract loaded) tt (λ u e. e);
                  })
                  λ _ c.
                    Yields-bind Always (λ _. host.compile loaded.bytes ≡ ok tt) _ _ _
                      (record {
                        at = λ dir _.
                            Outcome-same Always _ dir
                              (map_err Error.wasm (host.compile loaded.bytes)) tt
                              (λ u e. ground (arith, e));
                      })
                      λ _ k. record {
                        at = λ dir _. (
                          tt,
                          record {
                            live = record {
                              contract = c;
                              compiles = k;
                              recorded = refl;
                              pinned = p;
                            };
                            same_source = refl;
                            named = n;
                            same_tenant = own;
                            fresh_pool = refl;
                          },
                        );
                      }

  -- A tenant that was loaded has its configured name and source and a new pool, and runs a component
  -- of that source that meets the contract, compiles, is recorded under its artifact's digest, and
  -- has the pinned digest where there is a pin.
  pub build_tenant-IsBuilt :
      (now : ℕ) (cfg : TenantConfig) (dir dir' : Dir) (t : Tenant I)
      → build_tenant host now cfg dir ≡ (dir', ok t)
      → IsBuilt cfg t
  build_tenant-IsBuilt now cfg dir dir' t h =
      (Outcome-ok Always _ _ dir' t ((build_tenant-Yields now cfg).at dir tt) h).1
