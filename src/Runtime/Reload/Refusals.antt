-- ===== src/Runtime/Reload/Refusals.antt =====
-- What makes a step of the reload loop fail, and what it leaves of the tenant.
use ember_edge.Prelude.{
  ℕ, ◌-◌, ◌≤◌, ◌≡◌, ◌⊎◌, refl, sym, ap, ◌∙◌, true, Option, some, [], arith, ltb, Bool-cases, inl,
  inr,
}
use ember_edge.Text.Basic.{Str}
use ember_edge.Errors.{Error}
use ember_edge.Errors.Monad.{Result, ok, err, Result-cases}
use ember_edge.Component.Loader.{Loaded, ensure_contract}
use ember_edge.Registry.Action.{Dir}
use ember_edge.Registry.Facade.{pull}
use ember_edge.Registry.Reload.{HotReloadPolicy, should_reload}
use ember_edge.Config.Data.{ComponentSource}
use ember_edge.Runtime.Tenants.{Tenant, Host}
use ember_edge.Runtime.Reload.{
  Polled, swap, pulled, pull_failed, after_pull, poll_source, poll_tenant,
}

module _ {I : Type 0} (host : Host) (policy : HotReloadPolicy) (now : ℕ) (later : ℕ × ℕ) where
  -- The artifact breaks the contract, or is new and does not compile.
  abbrev pub Refuses : Tenant I → Loaded → Error → Type 0
  Refuses t loaded e =
      (ensure_contract loaded ≡ err e)
      ⊎ ((ensure_contract loaded ≡ ok tt)
          × (should_reload policy (some t.active.digest) loaded.digest ≡ true)
          × (m : Str) × (host.compile loaded.bytes ≡ err m)
          × (e ≡ Error.wasm m))

  -- An OCI source whose debounce has passed was pulled in vain: the pull succeeded, with an artifact
  -- that is refused.
  pub record IsRefused (t : Tenant I) (dir dir' : Dir) (e : Error) : Type 0 where
    pub reference : Str
    pub pin : Option Str
    pub source : t.source ≡ ComponentSource.oci reference pin
    pub due : policy.debounce ≤ now - t.last_swap
    pub loaded : Loaded
    pub got : pull host.env host.client reference pin dir ≡ (dir', ok loaded)
    pub refused : Refuses t loaded e

  pulled-fails :
      (t : Tenant I) (loaded : Loaded) (dir : Dir) (e : Error)
      → (pulled host policy now later t loaded dir).outcome ≡ err e
      → Refuses t loaded e
        × (pulled host policy now later t loaded dir
            ≡ record { tenant = t; dir = dir; samples = []; outcome = err e })
  unfolding pulled
  pulled-fails t loaded dir e h = elim (Result-cases (ensure_contract loaded)) [
    | inr (f, c) ↦
        let h' : err f ≡ err e = rw (c, pulled) at h in
        let same : f ≡ e = ground (arith, h') in
        (
          inl (c ∙ ap err same),
          rw (c, pulled)
              (ap (λ x. record { tenant = t; dir = dir; samples = []; outcome = err x }) same),
        )
    | inl (u, c) ↦ elim (Bool-cases (should_reload policy (some t.active.digest) loaded.digest)) [
      | inr old ↦
          let h' : ok tt ≡ err e = rw old at (rw (c, pulled) at h) in absurd (ground (arith, h'))
      | inl new ↦ elim (Result-cases (host.compile loaded.bytes)) [
        | inl (v, k) ↦
            let h' : ok tt ≡ err e = rw (k, swap) at (rw new at (rw (c, pulled) at h)) in
            absurd (ground (arith, h'))
        | inr (m, k) ↦
            let h' : err (Error.wasm m) ≡ err e =
              rw (k, swap) at (rw new at (rw (c, pulled) at h)) in
            let same : Error.wasm m ≡ e = ground (arith, h') in
            (
              inr (c, new, m, k, sym same),
              rw (c, pulled)
                  (rw new (
                    rw (k, swap)
                      (ap (λ x. record { tenant = t; dir = dir; samples = []; outcome = err x })
                        same))),
            )
      ]
    ]
  ]

  -- A step that fails leaves its tenant alone.
  abbrev pub Refused : Tenant I → Dir → Error → Polled I → Type 0
  Refused t dir e p =
      IsRefused t dir p.dir e
      × (p ≡ record { tenant = t; dir = p.dir; samples = []; outcome = err e })

  after_pull-fails :
      (t : Tenant I) (reference : Str) (pin : Option Str) (dir : Dir) (e : Error)
      (r : Dir × Result Error Loaded)
      → t.source ≡ ComponentSource.oci reference pin
      → policy.debounce ≤ now - t.last_swap
      → pull host.env host.client reference pin dir ≡ r
      → (after_pull host policy now later t r).outcome ≡ err e
      → Refused t dir e (after_pull host policy now later t r)
  unfolding after_pull
  after_pull-fails t reference pin dir e (dir', err f) s due g h =
      absurd (unfold pull_failed in ground (arith, h))
  after_pull-fails t reference pin dir e (dir', ok loaded) s due g h =
      let (refused, left) = pulled-fails t loaded dir' e h in
      rw left (
        record {
          reference = reference;
          pin = pin;
          source = s;
          due = due;
          loaded = loaded;
          got = g;
          refused = refused;
        },
        refl,
      )

  poll_source-fails :
      (t : Tenant I) (c : ComponentSource) (dir : Dir) (e : Error)
      → t.source ≡ c
      → (poll_source host policy now later t c dir).outcome ≡ err e
      → Refused t dir e (poll_source host policy now later t c dir)
  unfolding poll_source
  poll_source-fails t (ComponentSource.file path) dir e s h = absurd (ground (arith, h))
  poll_source-fails t (ComponentSource.oci reference pin) dir e s h =
      elim (Bool-cases (ltb (now - t.last_swap) policy.debounce)) [
        | inl soon ↦ let h' : ok tt ≡ err e = rw soon at h in absurd (ground (arith, h'))
        | inr due ↦ rw due (
            after_pull-fails t reference pin dir e (pull host.env host.client reference pin dir) s
              (ground (arith, due)) refl (rw due at h))
      ]

  pub poll_tenant-fails :
      (t : Tenant I) (dir : Dir) (e : Error)
      → (poll_tenant host policy now later t dir).outcome ≡ err e
      → Refused t dir e (poll_tenant host policy now later t dir)
  unfolding poll_tenant
  poll_tenant-fails t dir e h = poll_source-fails t t.source dir e refl h
