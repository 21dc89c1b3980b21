-- ===== src/Runtime/World/Invocations.antt =====
-- The moves of invocations keep a world in order.
use ember_edge.Prelude.{
  ◌+◌, ◌%◌, ◌≡◌, refl, sym, ap, ◌∙◌, some, List, ◌∷◌, ◌++◌, All-put, lookup, insert, arith,
}
use ember_edge.Text.Basic.{Str}
use ember_edge.Numbers.{u64_mod, address_Eq}
use ember_edge.Errors.{Error}
use ember_edge.Errors.Monad.{Result, ok}
use ember_edge.Component.Linker.{HostCtx, Request, Response, new_ctx}
use ember_edge.Sandbox.MemFs.{MemFs}
use ember_edge.Runtime.Pool.{Prepared, acquire, release}
use ember_edge.Runtime.Pool.Generations.{acquire-digest}
use ember_edge.Runtime.Steps
use ember_edge.Runtime.Steps.{answering, Step}
use ember_edge.Runtime.Tenants.{Tenant, Host}
use ember_edge.Runtime.Invoke.{Machine, responded, epoch_deadline, instantiate}
use ember_edge.Runtime.World.{
  Stage, looked_up, holding, answered, Invocation, World, empty, register, holds, Move, Runs, here,
  next, loads, begins, polls, arrives, acquires, responds, counts, leaves, scratches,
}
use ember_edge.Runtime.World
use ember_edge.Runtime.World.Objects.{IsTracking, IsSound, IsOwn, Owns, Holds}
use ember_edge.Runtime.World.Pools.{acquire-All, release-All}
use ember_edge.Runtime.World.Changes.{IsSafe, stepped-IsServing, change-IsSafe}
use ember_edge.Runtime.World.Stages.{picked, own_tenant, staged, holds-IsOwn}

module _ {I : Type 0} (owner : I → Str) (host : Host) (machine : Machine I)
    (track : IsTracking machine owner) where
  new_ctx-tenant :
      (t : Tenant I) (ctx : HostCtx)
      → new_ctx machine.fs t.sandbox t.bridge ≡ ok ctx
      → ctx.tenant ≡ t.sandbox.tenant
  unfolding new_ctx
  new_ctx-tenant t ctx h = ground (arith, h)

  instance_owner :
      (w : World I) (f : Invocation I) (t : Tenant I) (ctx : HostCtx) (i : I)
      → lookup f.tenant w.objects ≡ some t
      → new_ctx machine.fs t.sandbox t.bridge ≡ ok ctx
      → IsSafe owner host w
      → instantiate machine (record t { active = f.active }) ctx ≡ ok i
      → owner i ≡ t.id.name
  unfolding instantiate
  instance_owner w f t ctx i there c v h =
      track.builds ctx (epoch_deadline ctx.sandbox.limits) f.active.loaded.bytes i
        (ground (arith, h))
      ∙ ap (λ i. i.name) (new_ctx-tenant t ctx c ∙ (v.tenants.at f.tenant t there).own_sandbox)

  abbrev build_for : Tenant I → Invocation I → HostCtx → Result Error I
  build_for t f ctx = instantiate machine (record t { active = f.active }) ctx

  pub take_instance-IsSafe :
      (w : World I) (before : List (Invocation I)) (f : Invocation I) (behind : List (Invocation I))
      (t : Tenant I) (ctx : HostCtx)
      → w.invocations ≡ before ++ (f ∷ behind)
      → lookup f.tenant w.objects ≡ some t
      → new_ctx machine.fs t.sandbox t.bridge ≡ ok ctx
      → IsSafe owner host w
      → IsSafe owner host (World.take_instance w before f behind t (build_for t f ctx))
  unfolding World.take_instance
  take_instance-IsSafe w before f behind t ctx e there c v =
      let build = build_for t f ctx in
      let digest = f.active.loaded.digest in
      let s = v.tenants.at f.tenant t there in
      let (pool, prepared) = acquire t.pool digest build in
      let u = record t { pool = pool } in
      let (own, rest) = picked owner host w before f behind e v in
      let (pooled, handed) =
        acquire-All (Owns owner t.id.name) t.pool digest build s.own_pool
          (λ i b. instance_owner w f t ctx i there c v b) in
      let changed =
        change-IsSafe owner host w f.tenant t u there refl refl
          (record {
            serving = stepped-IsServing owner host t u (Steps.acquires digest build) refl s.serving;
            own_sandbox = s.own_sandbox;
            own_pool = pooled;
          })
          v in
      let (own', rest') =
        picked owner host (record w { objects = insert f.tenant u w.objects }) before f behind e
          changed in
      record {
        tenants = changed.tenants;
        names = changed.names;
        pending = changed.pending;
        found = changed.found;
        own =
            holds-IsOwn owner host (insert f.tenant u w.objects) before f behind prepared
              (λ p r. (
                acquire-digest t.pool pool digest build p (ap (λ x. (pool, x)) r),
                handed p r ∙ own_tenant owner host w f t there own,
              ))
              own' rest';
      }

  -- The world with the tenant of an invocation changed, and the invocation at its new stage.
  staged-IsSafe :
      (w : World I) (before : List (Invocation I)) (f : Invocation I) (behind : List (Invocation I))
      (t u : Tenant I) (s : Stage I)
      → w.invocations ≡ before ++ (f ∷ behind)
      → lookup f.tenant w.objects ≡ some t
      → u.id ≡ t.id
      → u.source ≡ t.source
      → IsSound owner host u
      → Holds owner f.active.loaded.digest f.name s
      → IsSafe owner host w
      → IsSafe owner host (record w {
        objects = insert f.tenant u w.objects;
        invocations = before ++ (record f { stage = s } ∷ behind);
      })
  staged-IsSafe w before f behind t u s e there id source sound h v =
      let m = insert f.tenant u w.objects in
      let changed = change-IsSafe owner host w f.tenant t u there id source sound v in
      let (own, rest) = picked owner host (record w { objects = m }) before f behind e changed in
      record {
        tenants = changed.tenants;
        names = changed.names;
        pending = changed.pending;
        found = changed.found;
        own =
            All-put (IsOwn owner host m) before (record f { stage = s }) behind
              (staged owner host m f s h own) rest;
      }

  pub left-IsSafe :
      (w : World I) (before : List (Invocation I)) (f : Invocation I) (behind : List (Invocation I))
      → w.invocations ≡ before ++ (f ∷ behind)
      → IsSafe owner host w
      → IsSafe owner host (record w { invocations = before ++ behind })
  left-IsSafe w before f behind e v = record {
    tenants = v.tenants;
    names = v.names;
    pending = v.pending;
    found = v.found;
    own = (picked owner host w before f behind e v).1;
  }

  pub give_back-IsSafe :
      (w : World I) (before : List (Invocation I)) (f : Invocation I) (behind : List (Invocation I))
      (t : Tenant I) (p : Prepared I) (request : Request) (fs : MemFs) (store : I)
      (response : Response)
      → w.invocations ≡ before ++ (f ∷ behind)
      → f.stage ≡ holding p
      → lookup f.tenant w.objects ≡ some t
      → machine.call p.store request fs ≡ responded store response
      → IsSafe owner host w
      → IsSafe owner host (World.give_back w before f behind t (record p { store = store }))
  unfolding World.give_back
  give_back-IsSafe w before f behind t p request fs store response e stage there called v =
      let s = v.tenants.at f.tenant t there in
      let q = record p { store = store } in
      let own = (picked owner host w before f behind e v).0 in
      let (digest, owned) = rw stage at own.held in
      staged-IsSafe w before f behind t (record t { pool = release t.pool q }) answered e there refl
        refl
        (record {
          serving =
              stepped-IsServing owner host t (record t { pool = release t.pool q })
                (Steps.releases q) refl s.serving;
          own_sandbox = s.own_sandbox;
          own_pool = release-All (Owns owner t.id.name) t.pool q s.own_pool (
              track.keeps p.store store request fs response called
              ∙ (owned ∙ sym (own_tenant owner host w f t there own)));
        })
        tt v

  pub count-IsSafe :
      (w : World I) (before : List (Invocation I)) (f : Invocation I) (behind : List (Invocation I))
      (t : Tenant I)
      → w.invocations ≡ before ++ (f ∷ behind)
      → lookup f.tenant w.objects ≡ some t
      → IsSafe owner host w
      → IsSafe owner host (World.count w before f behind t)
  unfolding World.count
  count-IsSafe w before f behind t e there v =
      let s = v.tenants.at f.tenant t there in
      let u = record t { invocations = (t.invocations + 1) % u64_mod } in
      left-IsSafe (record w { objects = insert f.tenant u w.objects }) before f behind e
        (change-IsSafe owner host w f.tenant t u there refl refl
          (record {
            serving = stepped-IsServing owner host t u Steps.counts refl s.serving;
            own_sandbox = s.own_sandbox;
            own_pool = s.own_pool;
          })
          v)
