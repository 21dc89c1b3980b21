-- ===== src/Runtime/Reload/Converges.antt =====
-- The progress of reloading: what a pass makes of tenants whose registries answer.
use ember_edge.Prelude.{
  ℕ, ◌-◌, ◌≤◌, ◌<◌, ◌≡◌, ◌∙◌, refl, sym, subst, false, true, Option, [], arith, ltb, Bool-cases,
  inl, inr,
}
use ember_edge.Text.Basic.{Str, str_eq, str_eq_iff}
use ember_edge.Errors.Monad.{ok}
use ember_edge.Component.Loader.{Loaded, ensure_contract}
use ember_edge.Registry.Digest.{Blob, digest}
use ember_edge.Registry.Action.{Dir}
use ember_edge.Registry.Store.Integrity.{IsIntact}
use ember_edge.Registry.Facade.{pull}
use ember_edge.Registry.Oci.Published.{IsPublished}
use ember_edge.Registry.Facade.Published.{Permits, pull-published}
use ember_edge.Registry.Reload.{HotReloadPolicy, should_reload}
use ember_edge.Config.Data.{ComponentSource}
use ember_edge.Runtime.Tenants.{Tenant, Host}
use ember_edge.Runtime.Reload.{swap, pulled, after_pull, poll_source, poll_tenant}

-- The registry has an artifact of digest `d` for a tenant's source, which its pin permits; all bytes
-- of that digest are admissible and compile; and the disk writes what it is asked to. All registries are over the store of one hash function.
pub record IsOffered (sha256_hex : Blob → Str) (host : Host) (source : ComponentSource) (d : Str)
    : Type 0 where
  pub reference : Str
  pub pin : Option Str
  pub same_source : source ≡ ComponentSource.oci reference pin
  pub published : IsPublished host.env host.client reference d
  pub permitted : Permits pin d
  pub same_hash : host.env.sha256_hex ≡ sha256_hex
  pub compiles : (b : Blob) → digest host.env.sha256_hex b ≡ d → host.compile b ≡ ok tt

module _ {I : Type 0} (policy : HotReloadPolicy) (now : ℕ) where
  -- Nothing is done for a tenant of a file, or of a registry before the debounce has passed.
  abbrev pub Rests : Tenant I → ComponentSource → Type 0
  Rests t (ComponentSource.file path) = Unit
  Rests t (ComponentSource.oci reference pin) = now - t.last_swap < policy.debounce

module _ {I : Type 0} (host : Host) (policy : HotReloadPolicy) (now : ℕ) (later : ℕ × ℕ) where
  -- What a pull of a good artifact leaves, whether it is new or not.
  pulled-runs :
      (t : Tenant I) (loaded : Loaded) (dir : Dir)
      → ensure_contract loaded ≡ ok tt
      → host.compile loaded.bytes ≡ ok tt
      → ((pulled host policy now later t loaded dir).tenant.active.digest ≡ loaded.digest)
        × ((pulled host policy now later t loaded dir).tenant.failures ≡ 0)
        × ((pulled host policy now later t loaded dir).outcome ≡ ok tt)
        × ((pulled host policy now later t loaded dir).dir ≡ dir)
  unfolding pulled should_reload
  pulled-runs t loaded dir c k = elim (Bool-cases (str_eq t.active.digest loaded.digest)) [
    | inl same ↦
        rw (c, pulled)
          (rw same ((str_eq_iff t.active.digest loaded.digest).0 same, refl, refl, refl))
    | inr new ↦ rw (c, pulled) (rw new (rw (k, swap) (refl, refl, refl, refl)))
  ]

  poll_tenant-pulls :
      (t : Tenant I) (reference : Str) (pin : Option Str) (dir dir' : Dir) (loaded : Loaded)
      → policy.debounce ≤ now - t.last_swap
      → t.source ≡ ComponentSource.oci reference pin
      → pull host.env host.client reference pin dir ≡ (dir', ok loaded)
      → poll_tenant host policy now later t dir ≡ pulled host policy now later t loaded dir'
  unfolding poll_tenant poll_source after_pull
  poll_tenant-pulls t reference pin dir dir' loaded due s got =
      let passed : ltb (now - t.last_swap) policy.debounce ≡ false = ground (arith, due) in
      rw (s, poll_tenant) (rw passed (rw got refl))

  -- From an intact store, a step of the reload loop on a tenant whose debounce has passed and whose
  -- registry has an artifact for it ends well: whatever the tenant ran before, it runs the digest
  -- of that artifact afterwards, its failures are forgotten, and the store is intact.
  pub poll_tenant-converges :
      (sha256_hex : Blob → Str) (t : Tenant I) (d : Str) (dir : Dir)
      → policy.debounce ≤ now - t.last_swap
      → IsOffered sha256_hex host t.source d
      → IsIntact sha256_hex dir
      → ((poll_tenant host policy now later t dir).tenant.active.digest ≡ d)
        × ((poll_tenant host policy now later t dir).tenant.failures ≡ 0)
        × ((poll_tenant host policy now later t dir).outcome ≡ ok tt)
        × IsIntact sha256_hex (poll_tenant host policy now later t dir).dir
  poll_tenant-converges sha256_hex t d dir due o intact =
      let (dir', loaded, got, same, hashed, c, kept) =
        pull-published host.env host.client o.reference d o.published o.pin dir o.permitted
          (subst (λ h. IsIntact h dir) (sym o.same_hash) intact) in
      let (runs, cleared, fine, left) =
        pulled-runs t loaded dir' c (o.compiles loaded.bytes hashed) in
      rw (poll_tenant-pulls t o.reference o.pin dir dir' loaded due o.same_source got)
        (runs ∙ same, cleared, fine, rw left (subst (λ h. IsIntact h dir') o.same_hash kept))

  poll_source-Rests :
      (t : Tenant I) (c : ComponentSource) (dir : Dir)
      → Rests policy now t c
      → poll_source host policy now later t c dir
        ≡ record { tenant = t; dir = dir; samples = []; outcome = ok tt }
  unfolding poll_source
  poll_source-Rests t (ComponentSource.file path) dir r = refl
  poll_source-Rests t (ComponentSource.oci reference pin) dir r =
      let soon : ltb (now - t.last_swap) policy.debounce ≡ true = ground (arith, r) in rw soon refl

  pub poll_tenant-Rests :
      (t : Tenant I) (dir : Dir)
      → Rests policy now t t.source
      → poll_tenant host policy now later t dir
        ≡ record { tenant = t; dir = dir; samples = []; outcome = ok tt }
  unfolding poll_tenant
  poll_tenant-Rests t dir r = poll_source-Rests t t.source dir r
