-- ===== src/Runtime/World/Safety.antt =====
-- What holds in every world that a runtime comes to.
use ember_edge.Prelude.{refl, lookup, arith}
use ember_edge.Text.Basic.{Str}
use ember_edge.Numbers.{address_Eq}
use ember_edge.Runtime.Tenants.Built.{build_tenant-IsBuilt}
use ember_edge.Runtime.Steps
use ember_edge.Runtime.Steps.{answering, Step}
use ember_edge.Runtime.Tenants.{Host}
use ember_edge.Runtime.Invoke.{Machine, rescratched}
use ember_edge.Runtime.World.{
  World, empty, Move, Runs, here, next, loads, begins, polls, finds, arrives, acquires, responds,
  counts, leaves, scratches,
}
use ember_edge.Runtime.World.Objects.{IsTracking}
use ember_edge.Runtime.World.Changes.{
  IsSafe, built-IsSound, stepped-IsServing, change-IsSafe, register-IsSafe, polled-IsSafe,
  find-IsSafe, arrive-IsSafe,
}
use ember_edge.Runtime.World.Names.{addresses-Present}
use ember_edge.Runtime.World.Invocations.{
  take_instance-IsSafe, give_back-IsSafe, count-IsSafe, left-IsSafe,
}

module _ {I : Type 0} (owner : I → Str) (host : Host) (machine : Machine I)
    (track : IsTracking machine owner) where
  -- Each move keeps a world safe.
  Move-IsSafe : (w u : World I) → Move host machine w u → IsSafe owner host w → IsSafe owner host u
  Move-IsSafe w u (loads env now cfg dir dir' a t built free) v =
      register-IsSafe owner host w a t free
        (built-IsSound owner host env cfg t
          (build_tenant-IsBuilt (answering host env) now cfg dir dir' t built))
        v
  Move-IsSafe w u (begins none_left) v = record {
    tenants = v.tenants;
    names = v.names;
    pending = addresses-Present w.objects w.registry v.names;
    found = v.found;
    own = v.own;
  }
  Move-IsSafe w u (polls env policy now later dir a rest t head there) v =
      polled-IsSafe owner host w env policy now later dir a rest t head there v
  Move-IsSafe w u (finds name a registered) v = find-IsSafe owner host w name a registered v
  Move-IsSafe w u (arrives before behind name a t asked there) v =
      arrive-IsSafe owner host w before behind name a t asked there v
  Move-IsSafe w u (acquires before f behind t ctx e stage there c) v =
      take_instance-IsSafe owner host machine track w before f behind t ctx e there c v
  Move-IsSafe w u (responds before f behind t p request fs store response e stage there called) v =
      give_back-IsSafe owner host machine track w before f behind t p request fs store response e
        stage there called v
  Move-IsSafe w u (counts before f behind t e stage there) v =
      count-IsSafe owner host machine track w before f behind t e there v
  Move-IsSafe w u (leaves before f behind e) v =
      left-IsSafe owner host machine track w before f behind e v
  Move-IsSafe w u (scratches a t fs there) v =
      let s = v.tenants.at a t there in
      change-IsSafe owner host w a t (rescratched t fs) there refl refl
        (record {
          serving =
              stepped-IsServing owner host t (rescratched t fs) (Steps.scratches fs) refl s.serving;
          own_sandbox = s.own_sandbox;
          own_pool = s.own_pool;
        })
        v

  Runs-IsSafe : (w u : World I) → Runs host machine w u → IsSafe owner host w → IsSafe owner host u
  Runs-IsSafe w u here v = v
  Runs-IsSafe w u (next {u = x} r m) v = Move-IsSafe x u m (Runs-IsSafe w x r v)

  -- Where a call leaves an instance its owner, the following holds however loads, reload passes and
  -- invocations of a runtime interleave and whatever the registry and the system answer. Each tenant
  -- runs a component admitted for its source and has a bounded pool of its own instances. A
  -- registered name refers to the tenant of that name. And each invocation under way, also of a
  -- tenant that was replaced or reloaded meanwhile, is of the tenant that it asked for, goes by a
  -- component admitted for that tenant's source, and holds, if any, an instance that was built for
  -- that tenant and is of that component's digest.
  pub reached-IsSafe : (w : World I) → Runs host machine empty w → IsSafe owner host w
  unfolding lookup
  reached-IsSafe w r = Runs-IsSafe empty w r (record {
    tenants = record { at = λ a t h. absurd (ground (arith, h)) };
    names = tt;
    pending = tt;
    found = tt;
    own = tt;
  })
