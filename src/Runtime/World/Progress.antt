-- ===== src/Runtime/World/Progress.antt =====
-- A reload pass comes to its end.
use ember_edge.Prelude.{ℕ, ◌≡◌, refl, List, [], ◌∷◌, All, lookup, some, subst, inl, inr}
use ember_edge.Numbers.{address_Eq}
use ember_edge.Text.Basic.{Str}
use ember_edge.Errors.Monad.{Result-cases}
use ember_edge.Registry.Action.{Dir}
use ember_edge.Registry.Oci.{Environment}
use ember_edge.Registry.Reload.{HotReloadPolicy}
use ember_edge.Runtime.Steps.{answering}
use ember_edge.Runtime.Tenants.{Tenant, Host}
use ember_edge.Runtime.Invoke.{Machine}
use ember_edge.Runtime.Reload.{poll_tenant}
use ember_edge.Runtime.World.{World, Runs, polled, empty}
use ember_edge.Runtime.World.Objects.{IsTracking}
use ember_edge.Runtime.World.Changes.{IsSafe, polled-IsSafe}
use ember_edge.Runtime.World.Names.{Present}
use ember_edge.Runtime.World.Safety.{reached-IsSafe}

module _ {I : Type 0} (host : Host) (env : ℕ → Environment) (dir : ℕ → Dir)
    (policy : HotReloadPolicy) (now : ℕ) (later : ℕ → ℕ × ℕ) where
  -- The polls of a pass up to its end, each with what the registry, the disk and the clock answer for
  -- the tenant whose turn it is.
  pub data PollsOut : World I → World I → Type 0 where
    over : {w : World I} → w.snapshot ≡ [] → PollsOut w w
    poll :
        {w u : World I} (a : ℕ) (rest : List ℕ) (t : Tenant I)
        → w.snapshot ≡ a ∷ rest
        → lookup a w.objects ≡ some t
        → PollsOut
            (polled w a rest (poll_tenant (answering host (env a)) policy now (later a) t (dir a)))
            u
        → PollsOut w u

  go_on :
      (owner : I → Str) (w : World I) (addresses : List ℕ)
      → w.snapshot ≡ addresses
      → IsSafe owner host w
      → (u : World I) × PollsOut w u
  unfolding polled
  go_on owner w [] e s = (w, over e)
  go_on owner w (a ∷ rest) e s =
      let pending : All (Present w.objects) (a ∷ rest) =
        subst (All (Present w.objects)) e s.pending in
      let (t, there) = pending.0 in
      let p = poll_tenant (answering host (env a)) policy now (later a) t (dir a) in
      let v = polled w a rest p in
      let s' = polled-IsSafe owner host w (env a) policy now (later a) (dir a) a rest t e there s in
      elim (Result-cases p.outcome) [
        | inl (x, fine) ↦
            let (u, more) = go_on owner v rest (rw fine refl) s' in (u, poll a rest t e there more)
        | inr (f, failed) ↦ (v, poll a rest t e there (over (rw failed refl)))
      ]

  -- In every world that a runtime comes to, where a call leaves an instance its owner, the reload
  -- pass under way can be brought to its end by finitely many polls and nothing else: each tenant
  -- of the snapshot is there when its turn comes, whatever the registry, the disk and the clock
  -- answer for it, until the snapshot is empty or a poll has failed.
  pub pass_ends :
      (owner : I → Str) (machine : Machine I)
      → IsTracking machine owner
      → (w : World I) → Runs host machine empty w
      → (u : World I) × PollsOut w u
  pass_ends owner machine track w r =
      go_on owner w w.snapshot refl (reached-IsSafe owner host machine track w r)
