-- ===== src/Runtime/World/Changes.antt =====
-- Worlds in which all is in order, and the moves that change a tenant or the registry.
use ember_edge.Prelude.{
  ℕ, ◌≡◌, refl, sym, ap, subst, ◌∙◌, none, some, List, ◌∷◌, ◌++◌, All, All-middle, lookup, insert,
  lookup-insert_self,
}
use ember_edge.Text.Basic.{Str, str_Eq}
use ember_edge.Numbers.{address_Eq}
use ember_edge.Errors.{Error}
use ember_edge.Errors.Monad.{Result, ok, err}
use ember_edge.Sandbox.Assembly.{Sandbox}
use ember_edge.Registry.Action.{Dir}
use ember_edge.Registry.Oci.{Environment}
use ember_edge.Registry.Reload.{HotReloadPolicy}
use ember_edge.Config.Data.{ComponentSource, TenantConfig}
use ember_edge.Runtime.Pool
use ember_edge.Runtime.Pool.{Prepared, acquire, release}
use ember_edge.Runtime.Pool.Generations.{new-IsBounded}
use ember_edge.Runtime.Reload.{poll_tenant}
use ember_edge.Runtime.Reload.Active.{IsLive}
use ember_edge.Runtime.Tenants.Built.{IsBuilt}
use ember_edge.Runtime.Reload.Frame.{poll_tenant-IsFramed}
use ember_edge.Runtime.Steps.{answering, Step, polls}
use ember_edge.Runtime.Tenants.{Tenant, Host}
use ember_edge.Runtime.Steps.Serving.{IsServing, Step-IsServing, admitted-answered}
use ember_edge.Runtime.World.{
  Stage, looked_up, holding, answered, Invocation, World, empty, addresses, unless_failed, register,
  Move, Runs, here, next,
}
use ember_edge.Runtime.World
use ember_edge.Runtime.World.Objects.{
  IsSound, IsOwn, Every, update-Extends, new-Extends, insert-Every, Extends-All,
}
use ember_edge.Runtime.World.Names.{
  Names, Present, Extends-Names, Extends-Present, insert-Names, lookup-Names,
}

pub record IsSafe {I : Type 0} (owner : I → Str) (host : Host) (w : World I) : Type 0 where
  pub tenants : Every (IsSound owner host) w.objects
  pub names : All (Names w.objects) w.registry
  pub pending : All (Present w.objects) w.snapshot
  pub found : All (Names w.objects) w.lookups
  pub own : All (IsOwn owner host w.objects) w.invocations

module _ {I : Type 0} (owner : I → Str) (host : Host) where
  -- A tenant that serves some source serves its own.
  pub IsServing-own :
      (s : ComponentSource) (t : Tenant I) → IsServing host s t → IsServing host t.source t
  IsServing-own s t v = record {
    live = subst (λ c. IsLive host c t.active) (sym v.same_source) v.live;
    bounded = v.bounded;
    same_source = refl;
  }

  pub built-IsSound :
      (env : Environment) (cfg : TenantConfig) (t : Tenant I)
      → IsBuilt (answering host env) cfg t
      → IsSound owner host t
  unfolding Pool.new
  built-IsSound env cfg t b = record {
    serving = IsServing-own cfg.component t (record {
      live = admitted-answered host env cfg.component t.active b.live;
      bounded = rw (b.fresh_pool) (new-IsBounded cfg.limits.max_instances);
      same_source = b.same_source;
    });
    own_sandbox = b.same_tenant;
    own_pool = rw (b.fresh_pool) tt;
  }

  pub stepped-IsServing :
      (t u : Tenant I)
      → Step host t u
      → u.source ≡ t.source
      → IsServing host t.source t
      → IsServing host u.source u
  stepped-IsServing t u s same v = IsServing-own t.source u (Step-IsServing host t.source t u s v)

  -- A tenant that changes, and stays the same tenant, keeps a world safe.
  pub change-IsSafe :
      (w : World I) (a : ℕ) (t u : Tenant I)
      → lookup a w.objects ≡ some t
      → u.id ≡ t.id
      → u.source ≡ t.source
      → IsSound owner host u
      → IsSafe owner host w
      → IsSafe owner host (record w { objects = insert a u w.objects })
  change-IsSafe w a t u there id source s v =
      let x = update-Extends w.objects a t u there id source in
      record {
        tenants = insert-Every (IsSound owner host) w.objects a u s v.tenants;
        names = Extends-Names w.objects (insert a u w.objects) w.registry x v.names;
        pending = Extends-Present w.objects (insert a u w.objects) w.snapshot x v.pending;
        found = Extends-Names w.objects (insert a u w.objects) w.lookups x v.found;
        own = Extends-All owner host w.objects (insert a u w.objects) w.invocations x v.own;
      }

  pub register-IsSafe :
      (w : World I) (a : ℕ) (t : Tenant I)
      → lookup a w.objects ≡ none
      → IsSound owner host t
      → IsSafe owner host w
      → IsSafe owner host (register w a t)
  unfolding register
  register-IsSafe w a t free s v =
      let m = insert a t w.objects in
      let x = new-Extends w.objects a t free in
      record {
        tenants = insert-Every (IsSound owner host) w.objects a t s v.tenants;
        names =
            insert-Names m t.id.name a w.registry (t, lookup-insert_self a t w.objects, refl)
              (Extends-Names w.objects m w.registry x v.names);
        pending = Extends-Present w.objects m w.snapshot x v.pending;
        found = Extends-Names w.objects m w.lookups x v.found;
        own = Extends-All owner host w.objects m w.invocations x v.own;
      }

  unless_failed-All :
      (P : ℕ → Type 0) (r : Result Error (Unit {0})) (rest : List ℕ)
      → All P rest
      → All P (unless_failed r rest)
  unless_failed-All P (ok u) rest v = v
  unless_failed-All P (err e) rest v = tt

  pub polled-IsSafe :
      (w : World I) (env : Environment) (policy : HotReloadPolicy) (now : ℕ) (later : ℕ × ℕ)
      (dir : Dir) (a : ℕ) (rest : List ℕ) (t : Tenant I)
      → w.snapshot ≡ a ∷ rest
      → lookup a w.objects ≡ some t
      → IsSafe owner host w
      → IsSafe owner host
          (World.polled w a rest (poll_tenant (answering host env) policy now later t dir))
  unfolding World.polled
  polled-IsSafe w env policy now later dir a rest t head there v =
      let s = v.tenants.at a t there in
      let u = (poll_tenant (answering host env) policy now later t dir).tenant in
      let (id, sandbox, bridge, src, pool, count) =
        poll_tenant-IsFramed (answering host env) policy now later t dir in
      let changed =
        change-IsSafe w a t u there id src
          (record {
            serving = stepped-IsServing t u (polls env policy now later dir) src s.serving;
            own_sandbox = ap (λ (b : Sandbox). b.tenant) sandbox ∙ (s.own_sandbox ∙ sym id);
            own_pool = rw (pool, id) s.own_pool;
          })
          v in
      let later_ones : All (Present (insert a u w.objects)) (a ∷ rest) =
        subst (All (Present (insert a u w.objects))) head changed.pending in
      record {
        tenants = changed.tenants;
        names = changed.names;
        pending =
            unless_failed-All (Present (insert a u w.objects))
              (poll_tenant (answering host env) policy now later t dir).outcome rest later_ones.1;
        found = changed.found;
        own = changed.own;
      }

  pub find-IsSafe :
      (w : World I) (name : Str) (a : ℕ)
      → lookup name w.registry ≡ some a
      → IsSafe owner host w
      → IsSafe owner host (World.find w name a)
  unfolding World.find
  find-IsSafe w name a registered v = record {
    tenants = v.tenants;
    names = v.names;
    pending = v.pending;
    found = (lookup-Names w.objects name a w.registry registered v.names, v.found);
    own = v.own;
  }

  pub arrive-IsSafe :
      (w : World I) (before behind : List (Str × ℕ)) (name : Str) (a : ℕ) (t : Tenant I)
      → w.lookups ≡ before ++ ((name, a) ∷ behind)
      → lookup a w.objects ≡ some t
      → IsSafe owner host w
      → IsSafe owner host (World.arrive w before behind name a t)
  unfolding World.arrive
  arrive-IsSafe w before behind name a t asked there v =
      let ((u, same, named), rest) =
        All-middle (Names w.objects) before (name, a) behind (rw asked at v.found) in
      let e : some u ≡ some t = sym same ∙ there in
      let e' : u ≡ t = cc in
      record {
        tenants = v.tenants;
        names = v.names;
        pending = v.pending;
        found = rest;
        own = (
          record {
            object = t;
            present = there;
            named = ap (λ (x : Tenant I). x.id.name) (sym e') ∙ named;
            live = (v.tenants.at a t there).serving.live;
            held = tt;
          },
          v.own,
        );
      }
