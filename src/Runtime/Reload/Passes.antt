-- ===== src/Runtime/Reload/Passes.antt =====
-- A whole pass over tenants whose registries answer.
use ember_edge.Prelude.{ℕ, ◌-◌, ◌≤◌, ◌≡◌, refl, List, [], ◌∷◌, All}
use ember_edge.Text.Basic.{Str}
use ember_edge.Errors.Monad.{ok}
use ember_edge.Registry.Digest.{Blob}
use ember_edge.Registry.Action.{Dir}
use ember_edge.Registry.Store.Integrity.{IsIntact}
use ember_edge.Registry.Reload.{HotReloadPolicy}
use ember_edge.Runtime.Tenants.{Tenant, Host}
use ember_edge.Runtime.Reload.{poll_tenant, poll_once}
use ember_edge.Runtime.Reload.Converges.{IsOffered, Rests, poll_tenant-Rests, poll_tenant-converges}

module _ {I : Type 0} (sha256_hex : Blob → Str) (hosts : Tenant I → Host) (policy : HotReloadPolicy)
    (now : ℕ) (later : Tenant I → ℕ × ℕ) where
  -- A tenant that a pass leaves alone, or that its registry has an artifact for.
  pub data IsReady (t : Tenant I) : Type 0 where
    rests : Rests policy now t t.source → IsReady t
    offered :
        (d : Str)
        → policy.debounce ≤ now - t.last_swap
        → IsOffered sha256_hex (hosts t) t.source d
        → IsReady t

  abbrev pub Follows : (t t' : Tenant I) → IsReady t → Type 0
  Follows t t' (rests r) = t' ≡ t
  Follows t t' (offered d due o) = (t'.active.digest ≡ d) × (t'.failures ≡ 0)

  -- Each tenant behind its predecessor of before the pass.
  abbrev pub AllFollow : (ts ts' : List (Tenant I)) → All IsReady ts → Type 0
  AllFollow [] [] v = Unit
  AllFollow [] (t' ∷ ts') v = ⊥
  AllFollow (t ∷ ts) [] v = ⊥
  AllFollow (t ∷ ts) (t' ∷ ts') (r, v) = Follows t t' r × AllFollow ts ts' v

  -- A step on a ready tenant ends well.
  poll_tenant-ready :
      (t : Tenant I) (r : IsReady t) (dir : Dir)
      → IsIntact sha256_hex dir
      → Follows t (poll_tenant (hosts t) policy now (later t) t dir).tenant r
        × ((poll_tenant (hosts t) policy now (later t) t dir).outcome ≡ ok tt)
        × IsIntact sha256_hex (poll_tenant (hosts t) policy now (later t) t dir).dir
  poll_tenant-ready t (rests r) dir intact =
      rw (poll_tenant-Rests (hosts t) policy now (later t) t dir r) (refl, refl, intact)
  poll_tenant-ready t (offered d due o) dir intact =
      let (runs, cleared, fine, kept) =
        poll_tenant-converges (hosts t) policy now (later t) sha256_hex t d dir due o intact in
      ((runs, cleared), fine, kept)

  -- From an intact store, a pass over tenants that each have a file for their source, or a debounce
  -- that has not passed, or an offer, comes to its end: it reports no error, tenants of the first two
  -- kinds are as they were, all others run the digest of their offer, with no failures, and the store
  -- is intact. The order of the tenants is any. An offer is an artifact for the tenant's
  -- reference: the reference resolves, its manifest has a well-formed digest first, which the pin
  -- permits, the registry sends bytes of that digest, all bytes of that digest validate, have the
  -- same exports, which meet the contract, and compile, and the disk creates, writes, syncs and
  -- renames as it is asked to.
  pub poll_once-converges :
      (ts : List (Tenant I)) (v : All IsReady ts) (dir : Dir)
      → IsIntact sha256_hex dir
      → AllFollow ts (poll_once hosts policy now later ts dir).tenants v
        × ((poll_once hosts policy now later ts dir).outcome ≡ ok tt)
        × IsIntact sha256_hex (poll_once hosts policy now later ts dir).dir
  unfolding poll_once
  poll_once-converges [] v dir intact = (tt, refl, intact)
  poll_once-converges (t ∷ ts) (r, v) dir intact =
      let (followed, fine, kept) = poll_tenant-ready t r dir intact in
      let (rest, ended, left) =
        poll_once-converges ts v (poll_tenant (hosts t) policy now (later t) t dir).dir kept in
      rw (fine, poll_once) ((followed, rest), ended, left)
