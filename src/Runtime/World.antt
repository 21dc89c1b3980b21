-- ===== src/Runtime/World.antt =====
-- The runtime with all that runs in it at once (src/runtime.rs, src/runtime/invoke.rs): the
-- registry of tenants, the tenants themselves, which the registry, a reload pass and invocations
-- share by reference (`Arc<Tenant>`), the snapshot of the pass, and the invocations under way. Each
-- move is what stands under one lock, is one atomic operation, or touches what nothing else does.
-- A tenant that was replaced in the registry lives on for those that still refer to it.
pub mod Objects
pub mod Pools
pub mod Names
pub mod Changes
pub mod Stages
pub mod Invocations
pub mod Safety
pub mod Sequential
pub mod Built
pub mod Passes
pub mod Progress
use ember_edge.Prelude.{
  ℕ, ◌+◌, ◌%◌, ◌≡◌, Option, none, some, List, [], ◌∷◌, ◌++◌, map, lookup, insert,
}
use ember_edge.Text.Basic.{Str, str_Eq}
use ember_edge.Numbers.{u64_mod, address_Eq}
use ember_edge.Errors.{Error}
use ember_edge.Errors.Monad.{Result, ok, err}
use ember_edge.Sandbox.MemFs.{MemFs}
use ember_edge.Component.Linker.{HostCtx, Request, Response, new_ctx}
use ember_edge.Registry.Action.{Dir}
use ember_edge.Registry.Oci.{Environment}
use ember_edge.Registry.Reload.{HotReloadPolicy}
use ember_edge.Config.Data.{TenantConfig}
use ember_edge.Runtime.Pool.{Prepared, acquire, release}
use ember_edge.Runtime.Tenants.{ActiveComponent, Tenant, Host, build_tenant}
use ember_edge.Runtime.Reload.{Polled, poll_tenant}
use ember_edge.Runtime.Invoke.{Machine, responded, instantiate, rescratched}
use ember_edge.Runtime.Steps.{answering}

-- How far an invocation is: it has its tenant and the active component, an instance, or a response.
pub data Stage (I : Type 0) : Type 0 where
  looked_up : Stage I
  holding : Prepared I → Stage I
  answered : Stage I

-- `name` is what the request asked for, `tenant` the address of what the registry gave.
pub record Invocation (I : Type 0) : Type 0 where
  pub name : Str
  pub tenant : ℕ
  pub active : ActiveComponent
  pub stage : Stage I

-- `lookups` are those of the registry whose invocations have not read the active component yet.
pub record World (I : Type 0) : Type 0 where
  pub objects : List (ℕ × Tenant I)
  pub registry : List (Str × ℕ)
  pub snapshot : List ℕ
  pub lookups : List (Str × ℕ)
  pub invocations : List (Invocation I)

abbrev pub addresses : List (Str × ℕ) → List ℕ
addresses [] = []
addresses ((name, a) ∷ m) = a ∷ addresses m

abbrev pub unless_failed : Result Error (Unit {0}) → List ℕ → List ℕ
unless_failed (ok u) rest = rest
unless_failed (err e) rest = []

module _ {I : Type 0} where
  -- A runtime with no tenants yet.
  abbrev pub empty : World I
  empty = record { objects = []; registry = []; snapshot = []; lookups = []; invocations = [] }

  -- The registration of a tenant at a new address.
  unfoldable pub register : World I → ℕ → Tenant I → World I
  register w a t = record w {
    objects = insert a t w.objects;
    registry = insert t.id.name a w.registry;
  }

  -- The pass goes on to the rest of its snapshot, or has failed.
  unfoldable pub polled : World I → ℕ → List ℕ → Polled I → World I
  polled w a rest p = record w {
    objects = insert a p.tenant w.objects;
    snapshot = unless_failed p.outcome rest;
  }

  -- The registry is asked for a tenant.
  unfoldable pub find : World I → Str → ℕ → World I
  find w name a = record w { lookups = (name, a) ∷ w.lookups }

  -- An invocation reads the active component of the tenant that it found.
  unfoldable pub arrive : World I → List (Str × ℕ) → List (Str × ℕ) → Str → ℕ → Tenant I → World I
  arrive w before behind name a t = record w {
    lookups = before ++ behind;
    invocations =
        record { name = name; tenant = a; active = t.active; stage = looked_up } ∷ w.invocations;
  }

  -- An invocation whose `acquire` fails ends.
  abbrev pub holds : Invocation I → Result Error (Prepared I) → List (Invocation I)
  holds f (ok p) = record f { stage = holding p } ∷ []
  holds f (err e) = []

  unfoldable pub take_instance :
      World I
      → List (Invocation I)
      → Invocation I
      → List (Invocation I)
      → Tenant I
      → Result Error I
      → World I
  take_instance w before f behind t build =
      let (pool, prepared) = acquire t.pool f.active.loaded.digest build in
      record w {
        objects = insert f.tenant (record t { pool = pool }) w.objects;
        invocations = before ++ (holds f prepared ++ behind);
      }

  unfoldable pub give_back :
      World I
      → List (Invocation I)
      → Invocation I
      → List (Invocation I)
      → Tenant I
      → Prepared I
      → World I
  give_back w before f behind t p = record w {
    objects = insert f.tenant (record t { pool = release t.pool p }) w.objects;
    invocations = before ++ (record f { stage = answered } ∷ behind);
  }

  unfoldable pub count :
      World I → List (Invocation I) → Invocation I → List (Invocation I) → Tenant I → World I
  count w before f behind t = record w {
    objects = insert f.tenant (record t { invocations = (t.invocations + 1) % u64_mod }) w.objects;
    invocations = before ++ behind;
  }

  -- A request of a tenant that is not registered, or that cannot be converted, moves nothing. An
  -- invocation may end at any stage: on an error, a trap or a timeout, and when its client is gone.
  pub data Move (host : Host) (machine : Machine I) : World I → World I → Type 0 where
    loads :
        {w : World I} (env : Environment) (now : ℕ) (cfg : TenantConfig) (dir dir' : Dir) (a : ℕ)
        (t : Tenant I)
        → build_tenant (answering host env) now cfg dir ≡ (dir', ok t)
        → lookup a w.objects ≡ none
        → Move host machine w (register w a t)
    begins :
        {w : World I}
        → w.snapshot ≡ []
        → Move host machine w (record w { snapshot = addresses w.registry })
    polls :
        {w : World I} (env : Environment) (policy : HotReloadPolicy) (now : ℕ) (later : ℕ × ℕ)
        (dir : Dir) (a : ℕ) (rest : List ℕ) (t : Tenant I)
        → w.snapshot ≡ a ∷ rest
        → lookup a w.objects ≡ some t
        → Move host machine w
            (polled w a rest (poll_tenant (answering host env) policy now later t dir))
    finds :
        {w : World I} (name : Str) (a : ℕ)
        → lookup name w.registry ≡ some a
        → Move host machine w (find w name a)
    arrives :
        {w : World I} (before behind : List (Str × ℕ)) (name : Str) (a : ℕ) (t : Tenant I)
        → w.lookups ≡ before ++ ((name, a) ∷ behind)
        → lookup a w.objects ≡ some t
        → Move host machine w (arrive w before behind name a t)
    acquires :
        {w : World I} (before : List (Invocation I)) (f : Invocation I)
        (behind : List (Invocation I)) (t : Tenant I) (ctx : HostCtx)
        → w.invocations ≡ before ++ (f ∷ behind)
        → f.stage ≡ looked_up
        → lookup f.tenant w.objects ≡ some t
        → new_ctx machine.fs t.sandbox t.bridge ≡ ok ctx
        → Move host machine w (
            take_instance w before f behind t
              (instantiate machine (record t { active = f.active }) ctx))
    responds :
        {w : World I} (before : List (Invocation I)) (f : Invocation I)
        (behind : List (Invocation I)) (t : Tenant I) (p : Prepared I) (request : Request)
        (fs : MemFs) (store : I) (response : Response)
        → w.invocations ≡ before ++ (f ∷ behind)
        → f.stage ≡ holding p
        → lookup f.tenant w.objects ≡ some t
        → machine.call p.store request fs ≡ responded store response
        → Move host machine w (give_back w before f behind t (record p { store = store }))
    counts :
        {w : World I} (before : List (Invocation I)) (f : Invocation I)
        (behind : List (Invocation I)) (t : Tenant I)
        → w.invocations ≡ before ++ (f ∷ behind)
        → f.stage ≡ answered
        → lookup f.tenant w.objects ≡ some t
        → Move host machine w (count w before f behind t)
    leaves :
        {w : World I} (before : List (Invocation I)) (f : Invocation I)
        (behind : List (Invocation I))
        → w.invocations ≡ before ++ (f ∷ behind)
        → Move host machine w (record w { invocations = before ++ behind })
    scratches :
        {w : World I} (a : ℕ) (t : Tenant I) (fs : MemFs)
        → lookup a w.objects ≡ some t
        → Move host machine w (record w { objects = insert a (rescratched t fs) w.objects })

  pub data Runs (host : Host) (machine : Machine I) : World I → World I → Type 0 where
    here : {w : World I} → Runs host machine w w
    next : {w u v : World I} → Runs host machine w u → Move host machine u v → Runs host machine w v
