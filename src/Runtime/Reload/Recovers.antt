-- ===== src/Runtime/Reload/Recovers.antt =====
-- The loop goes on after failures.
use ember_edge.Prelude.{◌≡◌, refl, List, [], ◌∷◌, ◌++◌, All}
use ember_edge.Text.Basic.{Str}
use ember_edge.Registry.Digest.{Blob}
use ember_edge.Registry.Action.{Dir}
use ember_edge.Registry.Store.Integrity.{IsIntact}
use ember_edge.Registry.Reload.{HotReloadPolicy}
use ember_edge.Runtime.Tenants.{Tenant}
use ember_edge.Runtime.Reload.{poll_once}
use ember_edge.Runtime.Reload.Loop.{Turn, reload_loop}
use ember_edge.Runtime.Reload.Passes.{IsReady, AllFollow, poll_once-converges}
use ember_edge.Runtime.Reload.Kept.{SameHash, reload_loop-IsIntact}

module _ {I : Type 0} (sha256_hex : Blob → Str) (policy : HotReloadPolicy) where
  reload_loop-append :
      (turns : List (Turn I)) (last : Turn I) (ts : List (Tenant I)) (dir : Dir)
      → (reload_loop policy (turns ++ (last ∷ [])) ts dir).tenants
        ≡ (poll_once last.hosts policy last.now last.later
            (reload_loop policy turns ts dir).tenants
            (reload_loop policy turns ts dir).dir).tenants
  unfolding reload_loop
  reload_loop-append [] last ts dir = refl
  reload_loop-append (turn ∷ turns) last ts dir =
      let p = poll_once turn.hosts policy turn.now turn.later ts dir in
      reload_loop-append turns last p.tenants p.dir

  -- From an intact store, and however the turns of the loop before have ended: when a turn comes that
  -- finds each tenant with a file for its source, with a debounce that has not passed, or with an
  -- offer, then after that turn the tenants of the first two kinds are as they were before it, and
  -- all others run the digest of their offer, with no failures. An offer is an artifact for the tenant's
  -- reference: the reference resolves, its manifest has a well-formed digest first, which the pin
  -- permits, the registry sends bytes of that digest, all bytes of that digest validate, have the
  -- same exports, which meet the contract, and compile, and the disk creates, writes, syncs and
  -- renames as it is asked to.
  pub reload_loop-recovers :
      (turns : List (Turn I)) (last : Turn I) (ts : List (Tenant I)) (dir : Dir)
      → SameHash sha256_hex turns
      → IsIntact sha256_hex dir
      → (ready : All
          (IsReady sha256_hex last.hosts policy last.now last.later)
          (reload_loop policy turns ts dir).tenants)
      → AllFollow sha256_hex last.hosts policy last.now last.later
          (reload_loop policy turns ts dir).tenants
          (reload_loop policy (turns ++ (last ∷ [])) ts dir).tenants
          ready
  reload_loop-recovers turns last ts dir one d ready =
      rw (reload_loop-append turns last ts dir)
        (poll_once-converges sha256_hex last.hosts policy last.now last.later
          (reload_loop policy turns ts dir).tenants ready (reload_loop policy turns ts dir).dir
          (reload_loop-IsIntact sha256_hex policy turns ts dir one d)).0
