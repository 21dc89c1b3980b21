-- ===== src/Runtime/World/Objects.antt =====
-- What holds of each tenant and each invocation of a world, and what keeps it.
use ember_edge.Prelude.{
  ℕ, ◌≡◌, refl, sym, ap, subst, ◌∙◌, none, some, List, [], ◌∷◌, All, lookup, insert, true,
  lookup-insert_hit, lookup-insert_miss, Bool-cases, inl, inr, arith, ◌==◌, ==_iff,
}
use ember_edge.Text.Basic.{Str}
use ember_edge.Numbers.{address_Eq}
use ember_edge.Errors.Monad.{ok}
use ember_edge.Registry.Digest.{Blob}
use ember_edge.Sandbox.MemFs.{MemFs}
use ember_edge.Component.Linker.{HostCtx, Request, Response}
use ember_edge.Runtime.Pool.{Prepared}
use ember_edge.Runtime.Tenants.{Tenant, Host}
use ember_edge.Runtime.Invoke.{Machine, responded}
use ember_edge.Runtime.Reload.Active.{IsLive}
use ember_edge.Runtime.Steps.Serving.{IsServing}
use ember_edge.Runtime.World.{Stage, looked_up, holding, answered, Invocation}

-- `owner` reads off an instance the tenant of its context, and a call does not change it.
pub record IsTracking {I : Type 0} (machine : Machine I) (owner : I → Str) : Type 0 where
  pub builds :
      (ctx : HostCtx) (deadline : ℕ) (b : Blob) (i : I)
      → machine.instantiate ctx deadline b ≡ ok i
      → owner i ≡ ctx.tenant.name
  pub keeps :
      (i j : I) (request : Request) (fs : MemFs) (response : Response)
      → machine.call i request fs ≡ responded j response
      → owner j ≡ owner i

module _ {I : Type 0} (owner : I → Str) where
  abbrev pub Owns : Str → Prepared I → Type 0
  Owns name p = owner p.store ≡ name

  -- The tenant serves, and its sandbox and its pooled instances are its own.
  pub record IsSound (host : Host) (t : Tenant I) : Type 0 where
    pub serving : IsServing host t.source t
    pub own_sandbox : t.sandbox.tenant ≡ t.id
    pub own_pool : All (Owns t.id.name) t.pool.queue

  -- What a request for `name` holds is of the digest that it goes by and was built for its tenant.
  abbrev pub Holds : (digest name : Str) → Stage I → Type 0
  Holds digest name looked_up = Unit
  Holds digest name (holding p) = (p.digest ≡ digest) × Owns name p
  Holds digest name answered = Unit

  -- The invocation is of the tenant that it asked for, runs a component that was admitted for that
  -- tenant, and holds no other tenant's instance.
  pub record IsOwn (host : Host) (objects : List (ℕ × Tenant I)) (f : Invocation I) : Type 0 where
    pub object : Tenant I
    pub present : lookup f.tenant objects ≡ some object
    pub named : object.id.name ≡ f.name
    pub live : IsLive host object.source f.active
    pub held : Holds f.active.loaded.digest f.name f.stage

-- Tenants stay, with their ids and sources.
pub record Extends {I : Type 0} (m m' : List (ℕ × Tenant I)) : Type 0 where
  pub at :
      (a : ℕ) (t : Tenant I)
      → lookup a m ≡ some t
      → (u : Tenant I) × (lookup a m' ≡ some u) × (u.id ≡ t.id) × (u.source ≡ t.source)

module _ {I : Type 0} where
  pub Extends-refl : (m : List (ℕ × Tenant I)) → Extends m m
  Extends-refl m = record { at = λ a t h. (t, h, refl, refl) }

  pub update-Extends :
      (m : List (ℕ × Tenant I)) (a : ℕ) (t u : Tenant I)
      → lookup a m ≡ some t
      → u.id ≡ t.id
      → u.source ≡ t.source
      → Extends m (insert a u m)
  update-Extends m a t u here id source = record {
    at = λ b v h. elim (Bool-cases (a == b)) [
      | inl same ↦
          let e : t ≡ v = same_entry b v same h in
          (
            u,
            lookup-insert_hit a b u m same,
            id ∙ ap (λ (x : Tenant I). x.id) e,
            source ∙ ap (λ (x : Tenant I). x.source) e,
          )
      | inr other ↦ (v, lookup-insert_miss a b u m other ∙ h, refl, refl)
    ];
  }
    where
      same_entry : (b : ℕ) (v : Tenant I) → (a == b) ≡ true → lookup b m ≡ some v → t ≡ v
      same_entry b v same h =
          let k : lookup a m ≡ some v = ap (λ x. lookup x m) ((==_iff a b).0 same) ∙ h in cc

  pub new-Extends :
      (m : List (ℕ × Tenant I)) (a : ℕ) (u : Tenant I)
      → lookup a m ≡ none
      → Extends m (insert a u m)
  new-Extends m a u free = record {
    at = λ b v h. elim (Bool-cases (a == b)) [
      | inl same ↦ absurd (taken b v same h)
      | inr other ↦ (v, lookup-insert_miss a b u m other ∙ h, refl, refl)
    ];
  }
    where
      taken : (b : ℕ) (v : Tenant I) → (a == b) ≡ true → lookup b m ≡ some v → ⊥
      taken b v same h =
          let k : lookup a m ≡ some v = ap (λ x. lookup x m) ((==_iff a b).0 same) ∙ h in
          ground (arith, k, free)

  -- All tenants of a map satisfy a predicate.
  pub record Every (P : Tenant I → Type 0) (m : List (ℕ × Tenant I)) : Type 0 where
    pub at : (a : ℕ) (t : Tenant I) → lookup a m ≡ some t → P t

  pub insert-Every :
      (P : Tenant I → Type 0) (m : List (ℕ × Tenant I)) (a : ℕ) (u : Tenant I)
      → P u
      → Every P m
      → Every P (insert a u m)
  insert-Every P m a u p v = record {
    at = λ b t h. elim (Bool-cases (a == b)) [
      | inl same ↦
          let e : some u ≡ some t = sym (lookup-insert_hit a b u m same) ∙ h in
          let q : u ≡ t = cc in rw q at p
      | inr other ↦ v.at b t (sym (lookup-insert_miss a b u m other) ∙ h)
    ];
  }

module _ {I : Type 0} (owner : I → Str) (host : Host) where
  -- An invocation stays its tenant's own when tenants stay.
  pub Extends-IsOwn :
      (m m' : List (ℕ × Tenant I)) (f : Invocation I)
      → Extends m m'
      → IsOwn owner host m f
      → IsOwn owner host m' f
  Extends-IsOwn m m' f x v =
      let (u, there, id, source) = x.at f.tenant v.object v.present in
      record {
        object = u;
        present = there;
        named = ap (λ i. i.name) id ∙ v.named;
        live = subst (λ s. IsLive host s f.active) (sym source) v.live;
        held = v.held;
      }

  pub Extends-All :
      (m m' : List (ℕ × Tenant I)) (fs : List (Invocation I))
      → Extends m m'
      → All (IsOwn owner host m) fs
      → All (IsOwn owner host m') fs
  Extends-All m m' [] x v = tt
  Extends-All m m' (f ∷ fs) x v = (Extends-IsOwn m m' f x v.0, Extends-All m m' fs x v.1)
