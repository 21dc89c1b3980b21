-- ===== src/Runtime/World/Names.antt =====
-- The registry of a world, whose names refer to tenants.
use ember_edge.Prelude.{
  ℕ, ◌≡◌, sym, ap, ◌∙◌, some, List, [], ◌∷◌, All, lookup, insert, Bool-cases, inl, inr, arith,
}
use ember_edge.Text.Basic.{Str, str_eq, str_eq_iff, str_Eq}
use ember_edge.Numbers.{address_Eq}
use ember_edge.Runtime.Tenants.{Tenant}
use ember_edge.Runtime.World.{addresses}
use ember_edge.Runtime.World.Objects.{Extends}

module _ {I : Type 0} (objects : List (ℕ × Tenant I)) where
  -- A name refers to the tenant of that name.
  abbrev pub Names : Str × ℕ → Type 0
  Names (name, a) = (t : Tenant I) × (lookup a objects ≡ some t) × (t.id.name ≡ name)

  -- An address that has a tenant.
  abbrev pub Present : ℕ → Type 0
  Present a = (t : Tenant I) × (lookup a objects ≡ some t)

module _ {I : Type 0} where
  pub Extends-Names :
      (m m' : List (ℕ × Tenant I)) (r : List (Str × ℕ))
      → Extends m m'
      → All (Names m) r
      → All (Names m') r
  Extends-Names m m' [] x v = tt
  Extends-Names m m' ((name, a) ∷ r) x ((t, there, named), v) =
      let (u, found, id, source) = x.at a t there in
      ((u, found, ap (λ i. i.name) id ∙ named), Extends-Names m m' r x v)

  pub Extends-Present :
      (m m' : List (ℕ × Tenant I)) (bs : List ℕ)
      → Extends m m'
      → All (Present m) bs
      → All (Present m') bs
  Extends-Present m m' [] x v = tt
  Extends-Present m m' (a ∷ bs) x ((t, there), v) =
      let (u, found, id, source) = x.at a t there in ((u, found), Extends-Present m m' bs x v)

  pub insert-Names :
      (m : List (ℕ × Tenant I)) (name : Str) (a : ℕ) (r : List (Str × ℕ))
      → Names m (name, a)
      → All (Names m) r
      → All (Names m) (insert name a r)
  unfolding insert
  insert-Names m name a [] p v = (p, tt)
  insert-Names m name a ((j, b) ∷ r) p v = elim (Bool-cases (str_eq j name)) [
    | inl same ↦ rw same (rw ((str_eq_iff j name).0 same) p, v.1)
    | inr other ↦ rw other (v.0, insert-Names m name a r p v.1)
  ]

  pub lookup-Names :
      (m : List (ℕ × Tenant I)) (name : Str) (a : ℕ) (r : List (Str × ℕ))
      → lookup name r ≡ some a
      → All (Names m) r
      → Names m (name, a)
  unfolding lookup
  lookup-Names m name a [] h v = absurd (ground (arith, h))
  lookup-Names m name a ((j, b) ∷ r) h v = elim (Bool-cases (str_eq j name)) [
    | inl same ↦
        let e : b ≡ a = ground (arith, h, same) in
        rw (sym e) (rw (sym ((str_eq_iff j name).0 same)) v.0)
    | inr other ↦ lookup-Names m name a r (ground (arith, h, other)) v.1
  ]

  pub addresses-Present :
      (m : List (ℕ × Tenant I)) (r : List (Str × ℕ))
      → All (Names m) r
      → All (Present m) (addresses r)
  addresses-Present m [] v = tt
  addresses-Present m ((name, a) ∷ r) ((t, there, named), v) = ((t, there), addresses-Present m r v)
