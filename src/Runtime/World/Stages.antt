-- ===== src/Runtime/World/Stages.antt =====
-- One invocation among those of a safe world, and its next stage.
use ember_edge.Prelude.{
  ℕ, ◌≡◌, refl, sym, ap, ◌∙◌, some, List, ◌∷◌, ◌++◌, All, All-middle, All-put, lookup,
}
use ember_edge.Text.Basic.{Str}
use ember_edge.Numbers.{address_Eq}
use ember_edge.Errors.{Error}
use ember_edge.Errors.Monad.{Result, ok, err}
use ember_edge.Runtime.Pool.{Prepared}
use ember_edge.Runtime.Tenants.{Tenant, Host}
use ember_edge.Runtime.World.{Stage, holding, Invocation, World, holds}
use ember_edge.Runtime.World.Objects.{IsOwn, Holds}
use ember_edge.Runtime.World.Changes.{IsSafe}

module _ {I : Type 0} (owner : I → Str) (host : Host) where
  -- The invocations of a safe world, one of them picked out.
  pub picked :
      (w : World I) (before : List (Invocation I)) (f : Invocation I) (behind : List (Invocation I))
      → w.invocations ≡ before ++ (f ∷ behind)
      → IsSafe owner host w
      → IsOwn owner host w.objects f × All (IsOwn owner host w.objects) (before ++ behind)
  picked w before f behind e v =
      All-middle (IsOwn owner host w.objects) before f behind (rw e at v.own)

  -- The tenant of an invocation has the name that it asked for.
  pub own_tenant :
      (w : World I) (f : Invocation I) (t : Tenant I)
      → lookup f.tenant w.objects ≡ some t
      → IsOwn owner host w.objects f
      → t.id.name ≡ f.name
  own_tenant w f t there o =
      let e : some o.object ≡ some t = sym o.present ∙ there in
      let e' : o.object ≡ t = cc in ap (λ (x : Tenant I). x.id.name) (sym e') ∙ o.named

  -- An invocation's new stage.
  pub staged :
      (m : List (ℕ × Tenant I)) (f : Invocation I) (s : Stage I)
      → Holds owner f.active.loaded.digest f.name s
      → IsOwn owner host m f
      → IsOwn owner host m (record f { stage = s })
  staged m f s h o = record {
    object = o.object;
    present = o.present;
    named = o.named;
    live = o.live;
    held = h;
  }

  pub holds-IsOwn :
      (m : List (ℕ × Tenant I)) (before : List (Invocation I)) (f : Invocation I)
      (behind : List (Invocation I)) (r : Result Error (Prepared I))
      → ((p : Prepared I) → r ≡ ok p → Holds owner f.active.loaded.digest f.name (holding p))
      → IsOwn owner host m f
      → All (IsOwn owner host m) (before ++ behind)
      → All (IsOwn owner host m) (before ++ (holds f r ++ behind))
  holds-IsOwn m before f behind (err e) h o rest = rest
  holds-IsOwn m before f behind (ok p) h o rest =
      All-put (IsOwn owner host m) before (record f { stage = holding p }) behind
        (staged m f (holding p) (h p refl) o) rest
