-- ===== src/Runtime/World/Sequential.antt =====
-- An invocation by itself is a run of the world.
use ember_edge.Prelude.{
  ℕ, ◌+◌, ◌%◌, ◌≡◌, refl, subst, ◌++◌, Option, none, some, List, [], ◌∷◌, lookup, insert,
  lookup-insert_self, inl, inr,
}
use ember_edge.Text.Basic.{Str, str_Eq}
use ember_edge.Numbers.{u64_mod, address_Eq}
use ember_edge.Errors.{Error}
use ember_edge.Errors.Monad.{Result, ok, err, Result-cases}
use ember_edge.Component.Linker.{
  HttpRequest, HttpResponse, Request, new_ctx, to_request, into_response,
}
use ember_edge.Sandbox.MemFs.{MemFs}
use ember_edge.Runtime.Pool.{Prepared, acquire, release}
use ember_edge.Runtime.Tenants.{Tenant, Host}
use ember_edge.Runtime.Invoke.{
  Machine, CallOutcome, responded, trapped, elapsed, instantiate, rescratched, responds, after_call,
  call_pooled, with_ctx, serve,
}
use ember_edge.Runtime.World
use ember_edge.Runtime.World.{
  Stage, looked_up, holding, answered, Invocation, World, holds, Runs, here, next, finds, arrives,
  acquires, counts, leaves, scratches,
}

module _ {I : Type 0} (host : Host) (machine : Machine I) (duration : ℕ) where
  -- A run from `w` that ends with all invocations, the registry and the pass as they were, and the
  -- tenant at the address as given.
  pub record Turned (w : World I) (a : ℕ) (t : Tenant I) : Type 0 where
    pub after : World I
    pub runs : Runs host machine w after
    pub object : lookup a after.objects ≡ some t
    pub registry : after.registry ≡ w.registry
    pub snapshot : after.snapshot ≡ w.snapshot
    pub lookups : after.lookups ≡ w.lookups
    pub invocations : after.invocations ≡ w.invocations

  -- The world `w` on the way: the tenant at `a` is `t`, and `f` is in front of the invocations.
  abbrev at_work : World I → Invocation I → List (ℕ × Tenant I) → World I
  at_work w f m = record w { objects = m; invocations = f ∷ w.invocations }

  abbrev at_stage : Str → ℕ → Tenant I → Stage I → Invocation I
  at_stage name a t s = record { name = name; tenant = a; active = t.active; stage = s }

  unmoved : (w : World I) (a : ℕ) (t : Tenant I) → lookup a w.objects ≡ some t → Turned w a t
  unmoved w a t there = record {
    after = w;
    runs = here;
    object = there;
    registry = refl;
    snapshot = refl;
    lookups = refl;
    invocations = refl;
  }

  left-Turned :
      (w : World I) (name : Str) (a : ℕ) (t u : Tenant I) (m : List (ℕ × Tenant I)) (s : Stage I)
      → lookup a m ≡ some u
      → Runs host machine w (at_work w (at_stage name a t s) m)
      → Turned w a u
  left-Turned w name a t u m s there r = record {
    after = record w { objects = m };
    runs = next r (leaves [] (at_stage name a t s) w.invocations refl);
    object = there;
    registry = refl;
    snapshot = refl;
    lookups = refl;
    invocations = refl;
  }

  responds-Turned :
      (w : World I) (name : Str) (a : ℕ) (t u : Tenant I) (m : List (ℕ × Tenant I))
      (r : Option HttpResponse)
      → lookup a m ≡ some u
      → Runs host machine w (at_work w (at_stage name a t answered) m)
      → Turned w a (responds machine duration u r).tenant
  unfolding responds World.count
  responds-Turned w name a t u m none there r = left-Turned w name a t u m answered there r
  responds-Turned w name a t u m (some response) there r = record {
    after = record w {
      objects = insert a (record u { invocations = (u.invocations + 1) % u64_mod }) m;
    };
    runs = next r (counts [] (at_stage name a t answered) w.invocations u refl refl there);
    object = lookup-insert_self a (record u { invocations = (u.invocations + 1) % u64_mod }) m;
    registry = refl;
    snapshot = refl;
    lookups = refl;
    invocations = refl;
  }

  after_call-Turned :
      (w : World I) (name : Str) (a : ℕ) (t u : Tenant I) (m : List (ℕ × Tenant I)) (p : Prepared I)
      (request : Request) (fs : MemFs) (c : CallOutcome I)
      → machine.call p.store request fs ≡ c
      → lookup a m ≡ some u
      → Runs host machine w (at_work w (at_stage name a t (holding p)) m)
      → Turned w a (after_call machine duration u p c).tenant
  unfolding after_call World.give_back
  after_call-Turned w name a t u m p request fs (responded store response) called there r =
      let v = record u { pool = release u.pool (record p { store = store }) } in
      responds-Turned w name a t v (insert a v m) (into_response machine.header_ok response)
        (lookup-insert_self a v m)
        (next r (
          World.responds [] (at_stage name a t (holding p)) w.invocations u p request fs store
            response refl refl there called))
  after_call-Turned w name a t u m p request fs (trapped e) called there r =
      left-Turned w name a t u m (holding p) there r
  after_call-Turned w name a t u m p request fs elapsed called there r =
      left-Turned w name a t u m (holding p) there r

  call_pooled-Turned :
      (w : World I) (name : Str) (a : ℕ) (t u : Tenant I) (request : Request)
      (r : Result Error (Prepared I))
      → ((p : Prepared I)
          → r ≡ ok p
          → Runs host machine w (at_work w (at_stage name a t (holding p)) (insert a u w.objects)))
      → ((e : Error)
          → r ≡ err e
          → Runs host machine w (record w { objects = insert a u w.objects }))
      → Turned w a (call_pooled machine duration u request r).tenant
  unfolding call_pooled
  call_pooled-Turned w name a t u request (err e) held refused = record {
    after = record w { objects = insert a u w.objects };
    runs = refused e refl;
    object = lookup-insert_self a u w.objects;
    registry = refl;
    snapshot = refl;
    lookups = refl;
    invocations = refl;
  }
  call_pooled-Turned w name a t u request (ok p) held refused =
      let fs = machine.scratch_after p.store request u.sandbox.scratch in
      let m = insert a u w.objects in
      after_call-Turned w name a t (rescratched u fs) (insert a (rescratched u fs) m) p request
        u.sandbox.scratch (machine.call p.store request u.sandbox.scratch) refl
        (lookup-insert_self a (rescratched u fs) m)
        (next (held p refl) (scratches a u fs (lookup-insert_self a u w.objects)))

  -- The world in which an invocation was given an instance or an error.
  abbrev given : World I → ℕ → Tenant I → Invocation I → Result Error (Prepared I) → World I
  given w a u f r = record w {
    objects = insert a u w.objects;
    invocations = holds f r ++ w.invocations;
  }

  with_ctx-Turned :
      (w : World I) (name : Str) (a : ℕ) (t : Tenant I) (request : Request)
      → lookup name w.registry ≡ some a
      → lookup a w.objects ≡ some t
      → Turned w a
          (with_ctx machine duration t request (new_ctx machine.fs t.sandbox t.bridge)).tenant
  unfolding with_ctx World.find World.arrive World.take_instance
  with_ctx-Turned w name a t request registered there =
      elim (Result-cases (new_ctx machine.fs t.sandbox t.bridge)) [
        | inr (e, c) ↦ rw (c, with_ctx) (unmoved w a t there)
        | inl (ctx, c) ↦
            rw (c, with_ctx)
              (let build = instantiate machine t ctx in
                let f = at_stage name a t looked_up in
                let u = record t { pool = (acquire t.pool t.active.loaded.digest build).0 } in
                let taken : (λ (r : Result Error (Prepared I)).
                  Runs host machine w (given w a u f r))
                    (acquire t.pool t.active.loaded.digest build).1 =
                  next
                    (next (next here (finds {w = w} name a registered))
                      (arrives {w = World.find w name a} [] w.lookups name a t refl there))
                    (acquires {w = World.arrive (World.find w name a) [] w.lookups name a t} [] f
                      w.invocations t ctx refl refl there c) in
                call_pooled-Turned w name a t u request
                  (acquire t.pool t.active.loaded.digest build).1
                  (λ p e. subst (λ r. Runs host machine w (given w a u f r)) e taken)
                  (λ x e. subst (λ r. Runs host machine w (given w a u f r)) e taken))
      ]

  -- An invocation of a registered tenant, served by itself, is a run of the world, however it ends:
  -- afterwards the tenant is as the invocation leaves it, and the registry, the pass and the other
  -- invocations are as they were.
  pub serve-Turned :
      (w : World I) (name : Str) (a : ℕ) (t : Tenant I) (request : HttpRequest)
      → lookup name w.registry ≡ some a
      → lookup a w.objects ≡ some t
      → Turned w a (serve machine duration t request).tenant
  unfolding serve
  serve-Turned w name a t request registered there = elim (Result-cases (to_request request)) [
    | inr (e, c) ↦ rw (c, serve) (unmoved w a t there)
    | inl (guest, c) ↦ rw (c, serve) (with_ctx-Turned w name a t guest registered there)
  ]
