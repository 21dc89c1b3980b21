-- ===== src/Runtime/Reload/Isolation.antt =====
-- Where a pass fails, and what it leaves of the tenants.
use ember_edge.Prelude.{ℕ, ◌≡◌, refl, sym, ap, subst, ◌∙◌, List, [], ◌∷◌, ◌++◌, arith, inl, inr}
use ember_edge.Errors.{Error}
use ember_edge.Errors.Monad.{ok, err, Result-cases}
use ember_edge.Registry.Action.{Dir}
use ember_edge.Registry.Reload.{HotReloadPolicy}
use ember_edge.Runtime.Tenants.{Tenant, Host}
use ember_edge.Runtime.Reload.{Polled, Pass, poll_tenant, poll_once}
use ember_edge.Runtime.Reload.Refusals.{IsRefused, poll_tenant-fails}

module _ {I : Type 0} (hosts : Tenant I → Host) (policy : HotReloadPolicy) (now : ℕ)
    (later : Tenant I → ℕ × ℕ) where
  -- A pass whose first step ends well, and one whose first step fails.
  poll_once-ok :
      (t : Tenant I) (ts : List (Tenant I)) (dir : Dir)
      → (poll_tenant (hosts t) policy now (later t) t dir).outcome ≡ ok tt
      → poll_once hosts policy now later (t ∷ ts) dir ≡ (
          let p = poll_tenant (hosts t) policy now (later t) t dir in
          let rest = poll_once hosts policy now later ts p.dir in
          record rest { tenants = p.tenant ∷ rest.tenants; samples = p.samples ++ rest.samples })
  unfolding poll_once
  poll_once-ok t ts dir h = rw (h, poll_once) refl

  poll_once-err :
      (t : Tenant I) (ts : List (Tenant I)) (dir : Dir) (e : Error)
      → (poll_tenant (hosts t) policy now (later t) t dir).outcome ≡ err e
      → poll_once hosts policy now later (t ∷ ts) dir ≡ (
          let p = poll_tenant (hosts t) policy now (later t) t dir in
          record { tenants = p.tenant ∷ ts; dir = p.dir; samples = p.samples; outcome = err e })
  unfolding poll_once
  poll_once-err t ts dir e h = rw (h, poll_once) refl

  -- Where a pass failed: the tenants before, whose pass ended well, the one that was refused, and
  -- those behind it, which were not reached.
  pub record IsStopped (ts : List (Tenant I)) (dir : Dir) (e : Error) : Type 0 where
    pub before : List (Tenant I)
    pub culprit : Tenant I
    pub behind : List (Tenant I)
    pub cut : ts ≡ before ++ (culprit ∷ behind)
    pub fine : (poll_once hosts policy now later before dir).outcome ≡ ok tt
    pub dir' : Dir
    pub refused :
        IsRefused
          (hosts culprit)
          policy
          now
          (later culprit)
          culprit
          (poll_once hosts policy now later before dir).dir
          dir'
          e
    pub left : poll_once hosts policy now later ts dir ≡ record {
      tenants = (poll_once hosts policy now later before dir).tenants ++ (culprit ∷ behind);
      dir = dir';
      samples = (poll_once hosts policy now later before dir).samples;
      outcome = err e;
    }

  -- A pass that fails has pulled, for a tenant with an OCI source whose debounce had passed, an
  -- artifact that breaks the contract, or that is new and does not compile, and reports that error.
  -- It has stopped there: the tenants before that one are as their own pass leaves them, and that
  -- tenant, whose failures are not counted up, and all behind it are as they were, whatever their
  -- registries would have answered.
  pub poll_once-stops :
      (ts : List (Tenant I)) (dir : Dir) (e : Error)
      → (poll_once hosts policy now later ts dir).outcome ≡ err e
      → IsStopped ts dir e
  unfolding poll_once
  poll_once-stops [] dir e h = absurd (ground (arith, h))
  poll_once-stops (t ∷ ts) dir e h =
      let p = poll_tenant (hosts t) policy now (later t) t dir in
      elim (Result-cases p.outcome) [
        | inr (f, failed) ↦
            let h' : err f ≡ err e =
              sym (ap (λ (x : Pass I). x.outcome) (poll_once-err t ts dir f failed)) ∙ h in
            let (refused, left) =
              poll_tenant-fails (hosts t) policy now (later t) t dir e (failed ∙ h') in
            record {
              before = [];
              culprit = t;
              behind = ts;
              cut = refl;
              fine = refl;
              dir' = p.dir;
              refused = refused;
              left =
                  poll_once-err t ts dir e (failed ∙ h')
                  ∙ ap
                      (λ (x : Polled I). record {
                        tenants = x.tenant ∷ ts;
                        dir = p.dir;
                        samples = x.samples;
                        outcome = err e;
                      })
                      left;
            }
        | inl (u, fine) ↦
            let s =
              poll_once-stops ts p.dir e
                (sym (ap (λ (x : Pass I). x.outcome) (poll_once-ok t ts dir fine)) ∙ h) in
            let first = poll_once-ok t s.before dir fine in
            record {
              before = t ∷ s.before;
              culprit = s.culprit;
              behind = s.behind;
              cut = ap (λ l. t ∷ l) s.cut;
              fine = ap (λ (x : Pass I). x.outcome) first ∙ s.fine;
              dir' = s.dir';
              refused =
                  subst
                    (λ d.
                      IsRefused (hosts s.culprit) policy now (later s.culprit) s.culprit d s.dir' e)
                    (sym (ap (λ (x : Pass I). x.dir) first)) s.refused;
              left =
                  poll_once-ok t ts dir fine
                  ∙ (ap
                        (λ (x : Pass I). record x {
                          tenants = p.tenant ∷ x.tenants;
                          samples = p.samples ++ x.samples;
                        })
                        s.left
                      ∙ sym (
                          ap
                            (λ (x : Pass I). record {
                              tenants = x.tenants ++ (s.culprit ∷ s.behind);
                              dir = s.dir';
                              samples = x.samples;
                              outcome = err e;
                            })
                            first));
            }
      ]
