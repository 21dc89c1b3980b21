-- ===== src/Runtime/Steps/Serving.antt =====
-- What holds of a tenant at any time after it was loaded.
use ember_edge.Prelude.{ℕ, ◌≡◌, sym, subst, ◌∙◌, none, some}
use ember_edge.Registry.Action.{Dir}
use ember_edge.Registry.Oci.{Environment}
use ember_edge.Registry.Reload.{HotReloadPolicy}
use ember_edge.Config.Data.{ComponentSource, TenantConfig}
use ember_edge.Errors.Monad.{ok}
use ember_edge.Runtime.Pool.Generations.{
  IsBounded, acquire-IsBounded, release-IsBounded, new-IsBounded,
}
use ember_edge.Runtime.Tenants.{ActiveComponent, Tenant, Host, build_tenant}
use ember_edge.Runtime.Reload.{poll_tenant}
use ember_edge.Runtime.Reload.Frame.{poll_tenant-IsFramed}
use ember_edge.Runtime.Reload.Active.{IsLive, poll_tenant-IsLive}
use ember_edge.Runtime.Tenants.Built.{build_tenant-IsBuilt}
use ember_edge.Runtime.Steps.{
  answering, Step, Reaches, polls, acquires, releases, counts, scratches, here, next,
}

-- The tenant runs an admitted component of the source, and its pool keeps to its capacity.
pub record IsServing {I : Type 0} (host : Host) (source : ComponentSource) (t : Tenant I)
    : Type 0 where
  pub live : IsLive host source t.active
  pub bounded : IsBounded t.pool
  pub same_source : t.source ≡ source

-- What is admitted does not depend on the answers of a registry.
admitted-answering :
    (host : Host) (env : Environment) (source : ComponentSource) (a : ActiveComponent)
    → IsLive host source a
    → IsLive (answering host env) source a
admitted-answering host env (ComponentSource.oci reference none) a v = record {
  contract = v.contract;
  compiles = v.compiles;
  recorded = v.recorded;
  pinned = tt;
}
admitted-answering host env (ComponentSource.oci reference (some pin)) a v = record {
  contract = v.contract;
  compiles = v.compiles;
  recorded = v.recorded;
  pinned = v.pinned;
}
admitted-answering host env (ComponentSource.file path) a v = record {
  contract = v.contract;
  compiles = v.compiles;
  recorded = v.recorded;
  pinned = tt;
}

pub admitted-answered :
    (host : Host) (env : Environment) (source : ComponentSource) (a : ActiveComponent)
    → IsLive (answering host env) source a
    → IsLive host source a
admitted-answered host env (ComponentSource.oci reference none) a v = record {
  contract = v.contract;
  compiles = v.compiles;
  recorded = v.recorded;
  pinned = tt;
}
admitted-answered host env (ComponentSource.oci reference (some pin)) a v = record {
  contract = v.contract;
  compiles = v.compiles;
  recorded = v.recorded;
  pinned = v.pinned;
}
admitted-answered host env (ComponentSource.file path) a v = record {
  contract = v.contract;
  compiles = v.compiles;
  recorded = v.recorded;
  pinned = tt;
}

module _ {I : Type 0} (host : Host) (source : ComponentSource) where
  polled-IsLive :
      (t : Tenant I) (env : Environment) (policy : HotReloadPolicy) (now : ℕ) (later : ℕ × ℕ)
      (dir : Dir)
      → IsServing host source t
      → IsLive host source (poll_tenant (answering host env) policy now later t dir).tenant.active
  polled-IsLive t env policy now later dir v = admitted-answered host env source _ (
      subst
        (λ s.
          IsLive (answering host env) s
            (poll_tenant (answering host env) policy now later t dir).tenant.active)
        v.same_source
        (poll_tenant-IsLive (answering host env) policy now later t dir (
          subst (λ s. IsLive (answering host env) s t.active) (sym v.same_source)
            (admitted-answering host env source t.active v.live))))

  pub Step-IsServing :
      (t u : Tenant I) → Step host t u → IsServing host source t → IsServing host source u
  Step-IsServing t u (polls env policy now later dir) v =
      let (id, sandbox, bridge, src, pool, count) =
        poll_tenant-IsFramed (answering host env) policy now later t dir in
      record {
        live = polled-IsLive t env policy now later dir v;
        bounded = rw pool v.bounded;
        same_source = src ∙ v.same_source;
      }
  Step-IsServing t u (acquires digest build) v = record {
    live = v.live;
    bounded = acquire-IsBounded t.pool digest build v.bounded;
    same_source = v.same_source;
  }
  Step-IsServing t u (releases p) v = record {
    live = v.live;
    bounded = release-IsBounded t.pool p v.bounded;
    same_source = v.same_source;
  }
  Step-IsServing t u (scratches fs) v = record {
    live = v.live;
    bounded = v.bounded;
    same_source = v.same_source;
  }
  Step-IsServing t u counts v = record {
    live = v.live;
    bounded = v.bounded;
    same_source = v.same_source;
  }

  Reaches-IsServing :
      (t u : Tenant I) → Reaches host t u → IsServing host source t → IsServing host source u
  Reaches-IsServing t u here v = v
  Reaches-IsServing t u (next {u = w} s r) v = Reaches-IsServing w u r (Step-IsServing t w s v)

module _ {I : Type 0} (host : Host) (now : ℕ) (cfg : TenantConfig) (dir dir' : Dir) where
  -- However invocations and reload passes of a loaded tenant interleave, and whatever the registry
  -- answers each time, the tenant runs a component of its configured source that meets the contract,
  -- compiles, and has the pinned digest where there is a pin; and its pool keeps to its capacity.
  pub reached-IsServing :
      (t u : Tenant I)
      → build_tenant host now cfg dir ≡ (dir', ok t)
      → Reaches host t u
      → IsServing host cfg.component u
  reached-IsServing t u h r =
      let b = build_tenant-IsBuilt host now cfg dir dir' t h in
      Reaches-IsServing host cfg.component t u r (record {
        live = b.live;
        bounded = rw (b.fresh_pool) (new-IsBounded cfg.limits.max_instances);
        same_source = b.same_source;
      })
