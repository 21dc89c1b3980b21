-- ===== src/Runtime/World/Built.antt =====
-- A runtime that is built is a world that loads alone come to.
use ember_edge.Prelude.{
  ℕ, suc, ◌≤◌, ◌<◌, ◌≡◌, refl, ◌∙◌, sym, ap, subst, Option, none, some, List, [], ◌∷◌, lookup,
  insert, lookup-insert_hit, lookup-insert_miss, lookup-insert_self, Bool-cases, Option-cases, inl,
  inr, arith,
}
use ember_edge.Text.Basic.{Str, str_eq, str_Eq}
use ember_edge.Numbers.{address_Eq}
use ember_edge.Telemetry.{Sample}
use ember_edge.Errors.{Error}
use ember_edge.Errors.Monad.{Result, ok, err}
use ember_edge.Registry.Action.{Dir, Action, ◌>>=◌, lift}
use ember_edge.Registry.Action.Yields.{bind-ok}
use ember_edge.Registry.Oci.{Environment}
use ember_edge.Config.Data.{TenantConfig, Config}
use ember_edge.Config.Loading.{and_then}
use ember_edge.Runtime.Tenants.{Tenant, Tenants, Host, build_tenant, load_tenant}
use ember_edge.Runtime.Invoke.{Machine}
use ember_edge.Runtime.Steps.{answering}
use ember_edge.Runtime.Build.{Runtime, Setup, client_config, reload_policy, load_tenants, build}
use ember_edge.Runtime.Engine
use ember_edge.Runtime.Engine.{from_config}
use ember_edge.Component.Linker.{build_linker}
use ember_edge.Egress.Bridge
use ember_edge.Egress.Policy.{default_policy}
use ember_edge.Registry.Facade
use ember_edge.Runtime.World.{World, empty, register, Runs, here, next, loads}

module _ {I : Type 0} where
  -- What the world has under a name.
  abbrev pub found : World I → Str → Option (Tenant I)
  found w name = and_then (lookup name w.registry) (λ a. lookup a w.objects)

  -- The world has the tenants of the map, and no addresses from some number on.
  pub record Represents (tenants : Tenants I) (n : ℕ) (w : World I) : Type 0 where
    pub same : (name : Str) → lookup name tenants ≡ found w name
    pub free : (a : ℕ) → n ≤ a → lookup a w.objects ≡ none
    pub used : (name : Str) (a : ℕ) → lookup name w.registry ≡ some a → a < n

  empty-Represents : Represents [] 0 empty
  unfolding lookup
  empty-Represents = record {
    same = λ name. refl;
    free = λ a h. refl;
    used = λ name a h. absurd (ground (arith, h));
  }

  register-Represents :
      (tenants : Tenants I) (n : ℕ) (w : World I) (t : Tenant I)
      → Represents tenants n w
      → Represents (insert t.id.name t tenants) (suc n) (register w n t)
  unfolding register
  register-Represents tenants n w t v = record {
    same = λ name. elim (Bool-cases (str_eq t.id.name name)) [
      | inl hit ↦
          rw
            (
              lookup-insert_hit t.id.name name t tenants hit,
              lookup-insert_hit t.id.name name n w.registry hit,
            )
            (sym (lookup-insert_self n t w.objects))
      | inr miss ↦
          rw
            (
              lookup-insert_miss t.id.name name t tenants miss,
              lookup-insert_miss t.id.name name n w.registry miss,
            )
            (v.same name ∙ kept name)
    ];
    free = λ a h. lookup-insert_miss n a t w.objects (ground arith) ∙ v.free a (omega (arith, h));
    used = λ name a h. elim (Bool-cases (str_eq t.id.name name)) [
      | inl hit ↦
          let e : some n ≡ some a = sym (lookup-insert_hit t.id.name name n w.registry hit) ∙ h in
          let e' : n ≡ a = cc in omega (arith, e')
      | inr miss ↦
          let old = v.used name a (sym (lookup-insert_miss t.id.name name n w.registry miss) ∙ h) in
          omega (arith, old)
    ];
  }
    where
      kept :
          (name : Str)
          → found w name ≡ and_then (lookup name w.registry) (λ a. lookup a (insert n t w.objects))
      kept name = elim (Option-cases (lookup name w.registry)) [
        | inl absent ↦ rw absent refl
        | inr (a, there) ↦
            let below = v.used name a there in
            rw there (sym (lookup-insert_miss n a t w.objects (ground (arith, below))))
      ]

-- The answers of the registry and the system may differ from tenant to tenant.
module _ {I : Type 0} (host : Host) (envs : TenantConfig → Environment)
    (clock : TenantConfig → ℕ) where
  -- One tenant is loaded for each configuration, in their order and nothing else, from the directory
  -- that its predecessor left, and is registered at a new address.
  pub data Loads : List TenantConfig → Dir → Dir → World I → World I → Type 0 where
    all_loaded : {dir : Dir} {w : World I} → Loads [] dir dir w w
    loaded :
        {cfg : TenantConfig} {cfgs : List TenantConfig} {dir between dir' : Dir} {w u : World I}
        (a : ℕ) (t : Tenant I)
        → build_tenant (answering host (envs cfg)) (clock cfg) cfg dir ≡ (between, ok t)
        → lookup a w.objects ≡ none
        → Loads cfgs between dir' (register w a t) u
        → Loads (cfg ∷ cfgs) dir dir' w u

  -- Loads are moves of the world.
  Loads-Runs :
      (machine : Machine I) (cfgs : List TenantConfig) (dir dir' : Dir) (v w u : World I)
      → Runs host machine v w
      → Loads cfgs dir dir' w u
      → Runs host machine v u
  Loads-Runs machine [] dir dir' v w u r all_loaded = r
  Loads-Runs machine (cfg ∷ cfgs) dir dir' v w u r (loaded {between = between} a t b free more) =
      Loads-Runs machine cfgs between dir' v (register w a t) u
        (next r (loads (envs cfg) (clock cfg) cfg dir between a t b free)) more

  -- The world that the configurations are loaded into, and that has the tenants of the map.
  pub record LoadedWorld (machine : Machine I) (cfgs : List TenantConfig) (dir dir' : Dir)
      (tenants : Tenants I) : Type 0 where
    pub world : World I
    pub size : ℕ
    pub loads : Loads cfgs dir dir' empty world
    pub runs : Runs host machine empty world
    pub represents : Represents tenants size world

  load_tenants-Loads :
      (cfgs : List TenantConfig) (tenants tenants' : Tenants I) (samples : List Sample)
      (dir dir' : Dir) (n : ℕ) (w : World I)
      → Represents tenants n w
      → load_tenants (λ cfg. answering host (envs cfg)) clock cfgs tenants dir
        ≡ (dir', ok (tenants', samples))
      → (u : World I) × (m : ℕ) × Loads cfgs dir dir' w u × Represents tenants' m u
  unfolding load_tenants load_tenant
  load_tenants-Loads [] tenants tenants' samples dir dir' n w v h =
      let same : dir ≡ dir' = ground (arith, h) in
      let kept : tenants ≡ tenants' = ground (arith, h) in
      (w, n, subst (λ d. Loads [] dir d w w) same all_loaded, subst (λ m. Represents m n w) kept v)
  load_tenants-Loads (cfg ∷ cfgs) tenants tenants' samples dir dir' n w v h =
      let hosts : TenantConfig → Host = λ c. answering host (envs c) in
      let (d1, first, e1, h1) =
        bind-ok (load_tenant (hosts cfg) (clock cfg) cfg tenants) _ dir dir' (tenants', samples)
          h in
      let (d2, t, e2, h2) = bind-ok (build_tenant (hosts cfg) (clock cfg) cfg) _ dir d1 first e1 in
      let (d3, rest, e3, h3) =
        bind-ok (load_tenants hosts clock cfgs first.0) _ d1 dir' (tenants', samples) h1 in
      let at_d1 : d2 ≡ d1 = ap (λ (r : Dir × Result Error (Tenants I × List Sample)). r.0) h2 in
      let inserted : insert t.id.name t tenants ≡ first.0 = ground (arith, h2) in
      let at_end : d3 ≡ dir' = ap (λ (r : Dir × Result Error (Tenants I × List Sample)). r.0) h3 in
      let kept : rest.0 ≡ tenants' = ground (arith, h3) in
      let (u, m, more, rep) =
        load_tenants-Loads cfgs first.0 rest.0 rest.1 d1 d3 (suc n) (register w n t)
          (subst (λ x. Represents x (suc n) (register w n t)) inserted
            (register-Represents tenants n w t v))
          e3 in
      (
        u,
        m,
        loaded n t (e2 ∙ ap (λ d. (d, ok t)) at_d1) (v.free n (omega arith))
            (subst (λ d. Loads cfgs d1 d (register w n t) u) at_end more),
        subst (λ x. Represents x m u) kept rep,
      )

module _ {I : Type 0} (host : Host) (machine : Machine I) (envs : TenantConfig → Environment)
    (clock : TenantConfig → ℕ) (setup : Setup) (config : Config) where
  -- The host with the client of the configuration.
  abbrev pub configured_host : Host
  configured_host = record host { client = client_config config.registry }

  -- A lift leaves the directory.
  lifted :
      {A B : Type 0} (r : Result Error A) (f : A → Action B) (dir dir' : Dir) (b : B)
      → (lift r >>= f) dir ≡ (dir', ok b)
      → (a : A) × (f a dir ≡ (dir', ok b))
  unfolding ◌>>=◌
  lifted (ok a) f dir dir' b h = (a, h)
  lifted (err e) f dir dir' b h = absurd (ground (arith, h))

  -- A runtime that was built is a world to which the loads of the configured tenants come from the
  -- empty one, one load for each in their order, where each tenant may have found other answers of
  -- the registry, and which starts from the directory that the one before it left: under every name
  -- the world has the tenant that the runtime has, or none. The loads are a run of the moves.
  pub build-Represents :
      (dir dir' : Dir) (runtime : Runtime I) (samples : List Sample)
      → build (λ cfg. answering host (envs cfg)) clock setup config dir
        ≡ (dir', ok (runtime, samples))
      → LoadedWorld configured_host envs clock machine config.tenants dir dir' runtime.tenants
  unfolding build
  build-Represents dir dir' runtime samples h =
      let (e, h1) =
        lifted (Engine.build setup.compile_engine (from_config config.engine)) _ dir dir'
          (runtime, samples) h in
      let (l, h2) = lifted (build_linker setup.make_linker) _ dir dir' (runtime, samples) h1 in
      let (b, h3) =
        lifted (Bridge.new setup.build_client default_policy config.http.max_body_bytes) _ dir dir'
          (runtime, samples) h2 in
      let (r, h4) =
        lifted
          (Facade.new setup.var setup.create_dir_all (client_config config.registry)
            (reload_policy config.registry))
          _ dir dir' (runtime, samples) h3 in
      let (d, got, e5, h5) =
        bind-ok (load_tenants (λ cfg. answering configured_host (envs cfg)) clock config.tenants [])
          _ dir dir' (runtime, samples) h4 in
      let at_end : d ≡ dir' = ap (λ (x : Dir × Result Error (Runtime I × List Sample)). x.0) h5 in
      let kept : got.0 ≡ runtime.tenants = ground (arith, h5) in
      let (u, m, more, rep) =
        load_tenants-Loads configured_host envs clock config.tenants [] got.0 got.1 dir d 0 empty
          empty-Represents e5 in
      let all =
        subst (λ x. Loads configured_host envs clock config.tenants dir x empty u) at_end more in
      record {
        world = u;
        size = m;
        loads = all;
        runs =
            Loads-Runs configured_host envs clock machine config.tenants dir dir' empty empty u here
              all;
        represents = subst (λ x. Represents x m u) kept rep;
      }
