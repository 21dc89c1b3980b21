-- ===== src/Runtime/Invoke/Serving.antt =====
-- What an invocation answers, counts, and leaves in the pool.
use ember_edge.Prelude.{
  false, lookup, lookup-insert, Option-cases, ◌≢◌, ℕ, ◌+◌, ◌%◌, ◌<◌, ◌≡◌, refl, ◌⊎◌, inl, inr,
  Option, none, some, [], arith,
}
use ember_edge.Text.Basic.{Str, str_eq, str_eq_iff, str_Eq}
use ember_edge.Numbers.{u64_mod}
use ember_edge.Errors.{Error}
use ember_edge.Errors.Monad.{Result, ok, err}
use ember_edge.Component.Linker.{
  HostCtx, new_ctx, HttpRequest, Request, HttpResponse, to_request, into_response,
}
use ember_edge.TenantId.{TenantId}
use ember_edge.Sandbox.MemFs.{MemFs}
use ember_edge.Runtime.Pool.{Prepared, InstancePool, acquire, release}
use ember_edge.Runtime.Pool.Generations.{IsBounded, acquire-IsBounded, release-IsBounded}
use ember_edge.Runtime.Tenants.{Tenant, Tenants, find_tenant}
use ember_edge.Runtime.Invoke.{
  CallOutcome, responded, trapped, elapsed, Machine, Reply, returned, panicked, Invoked,
  rescratched, responds, after_call, call_pooled, with_ctx, serve, invoke, instantiate,
}

-- How many invocations a reply counts as.
abbrev pub counted : Reply → ℕ
counted (returned (ok response)) = 1
counted (returned (err e)) = 0
counted panicked = 0

module _ {I : Type 0} (machine : Machine I) (duration : ℕ) where
  -- What an invocation does to the count and the pool, and leaves of a tenant.
  pub record IsServed (before : Tenant I) (r : Invoked I) : Type 0 where
    pub count : r.tenant.invocations ≡ (before.invocations + counted r.reply) % u64_mod
    pub bounded : IsBounded r.tenant.pool
    pub same_active : r.tenant.active ≡ before.active

  responds-IsServed :
      (t : Tenant I) (r : Option HttpResponse)
      → t.invocations < u64_mod
      → IsBounded t.pool
      → IsServed t (responds machine duration t r)
  unfolding responds
  responds-IsServed t none h b = record { count = omega arith; bounded = b; same_active = refl }
  responds-IsServed t (some r) h b = record { count = refl; bounded = b; same_active = refl }

  failed-IsServed :
      (t : Tenant I) (e : Error)
      → t.invocations < u64_mod
      → IsBounded t.pool
      → IsServed t (record { tenant = t; samples = []; reply = returned (err e) })
  failed-IsServed t e h b = record { count = omega arith; bounded = b; same_active = refl }

  -- Serving a tenant whose pool is a step further on.
  abbrev repooled : Tenant I → InstancePool I → Tenant I
  repooled t pool = record t { pool = pool }

  repooled-IsServed :
      (t : Tenant I) (pool : InstancePool I) (r : Invoked I)
      → IsServed (repooled t pool) r
      → IsServed t r
  repooled-IsServed t pool r s = record {
    count = s.count;
    bounded = s.bounded;
    same_active = s.same_active;
  }

  rescratched-IsServed :
      (t : Tenant I) (fs : MemFs) (r : Invoked I) → IsServed (rescratched t fs) r → IsServed t r
  rescratched-IsServed t fs r s = record {
    count = s.count;
    bounded = s.bounded;
    same_active = s.same_active;
  }

  -- The tenant as the call of an instance leaves it, before the pool and the count are seen to.
  abbrev called : Tenant I → InstancePool I → Prepared I → Request → Tenant I
  called t pool p request =
      rescratched (repooled t pool) (machine.scratch_after p.store request t.sandbox.scratch)

  after_call-IsServed :
      (t : Tenant I) (p : Prepared I) (o : CallOutcome I)
      → t.invocations < u64_mod
      → IsBounded t.pool
      → IsServed t (after_call machine duration t p o)
  unfolding after_call
  after_call-IsServed t p (responded store resp) h b =
      let p' = record p { store = store } in
      let t' = repooled t (release t.pool p') in
      let r = into_response machine.header_ok resp in
      repooled-IsServed t (release t.pool p') (responds machine duration t' r)
        (responds-IsServed t' r h (release-IsBounded t.pool p' b))
  after_call-IsServed t p (trapped e) h b = failed-IsServed t (Error.wasm e) h b
  after_call-IsServed t p elapsed h b = failed-IsServed t _ h b

  call_pooled-IsServed :
      (t : Tenant I) (request : Request) (p : Result Error (Prepared I))
      → t.invocations < u64_mod
      → IsBounded t.pool
      → IsServed t (call_pooled machine duration t request p)
  unfolding call_pooled
  call_pooled-IsServed t request (err e) h b = failed-IsServed t e h b
  call_pooled-IsServed t request (ok p) h b =
      let fs = machine.scratch_after p.store request t.sandbox.scratch in
      let o = machine.call p.store request t.sandbox.scratch in
      rescratched-IsServed t fs (after_call machine duration (rescratched t fs) p o)
        (after_call-IsServed (rescratched t fs) p o h b)

  with_ctx-IsServed :
      (t : Tenant I) (request : Request) (c : Result Error HostCtx)
      → t.invocations < u64_mod
      → IsBounded t.pool
      → IsServed t (with_ctx machine duration t request c)
  unfolding with_ctx
  with_ctx-IsServed t request (err e) h b = failed-IsServed t e h b
  with_ctx-IsServed t request (ok ctx) h b =
      let build = instantiate machine t ctx in
      let a = acquire t.pool t.active.loaded.digest build in
      repooled-IsServed t a.0 (call_pooled machine duration (repooled t a.0) request a.1) (
        call_pooled-IsServed (repooled t a.0) request a.1 h
          (acquire-IsBounded t.pool t.active.loaded.digest build b))

  -- An invocation of a tenant whose count is a u64 and whose pool is within its capacity counts a
  -- response and nothing else, keeps the pool so, and leaves the active component alone, on every
  -- path: also when the context, the instantiation or the call fails, when the budget elapses, and
  -- when the conversion of the response panics.
  pub serve-IsServed :
      (t : Tenant I) (request : HttpRequest)
      → t.invocations < u64_mod
      → IsBounded t.pool
      → IsServed t (serve machine duration t request)
  unfolding serve to_request
  serve-IsServed t request h b = with_ctx-IsServed t _ (new_ctx machine.fs t.sandbox t.bridge) h b

  serve-with_ctx :
      (t : Tenant I) (request : HttpRequest) (guest_request : Request) (ctx : HostCtx)
      → to_request request ≡ ok guest_request
      → new_ctx machine.fs t.sandbox t.bridge ≡ ok ctx
      → serve machine duration t request ≡ with_ctx machine duration t guest_request (ok ctx)
  unfolding serve
  serve-with_ctx t request guest_request ctx g c = rw (serve, g) (rw c refl)

  -- Where the context is built, a call of an acquired instance that traps or runs out of its budget
  -- costs the tenant the instance that ran it: the instance does not go back to the pool, and nothing else but the scratch changes.
  pub serve-discards :
      (t : Tenant I) (request : HttpRequest) (guest_request : Request) (ctx : HostCtx)
      (p : Prepared I) (pool : InstancePool I) (e : Str)
      → to_request request ≡ ok guest_request
      → new_ctx machine.fs t.sandbox t.bridge ≡ ok ctx
      → acquire t.pool t.active.loaded.digest (instantiate machine t ctx) ≡ (pool, ok p)
      → (machine.call p.store guest_request t.sandbox.scratch ≡ trapped e)
        ⊎ (machine.call p.store guest_request t.sandbox.scratch ≡ elapsed)
      → (serve machine duration t request).tenant ≡ called t pool p guest_request
  unfolding with_ctx call_pooled after_call
  serve-discards t request guest_request ctx p pool e g c a (inl o) =
      rw (serve-with_ctx t request guest_request ctx g c, a, o)
  serve-discards t request guest_request ctx p pool e g c a (inr o) =
      rw (serve-with_ctx t request guest_request ctx g c, a, o)

  -- An invocation of one tenant leaves what is kept for every other tenant as it was.
  pub invoke-others :
      (tenants : Tenants I) (id other : TenantId) (request : HttpRequest)
      → id.name ≢ other.name
      → find_tenant (invoke machine duration tenants id request).0 other ≡ find_tenant tenants other
  unfolding invoke find_tenant
  invoke-others tenants id other request h = elim (Option-cases (lookup id.name tenants)) [
    | inl absent ↦ rw (absent, invoke)
    | inr (t, found) ↦
        let h' : str_eq id.name other.name ≡ false =
          ground (arith, str_eq_iff id.name other.name) in
        rw (
          found,
          invoke,
          lookup-insert id.name other.name (serve machine duration t request).tenant tenants,
          h',
        )
  ]
