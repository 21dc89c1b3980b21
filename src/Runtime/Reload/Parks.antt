-- ===== src/Runtime/Reload/Parks.antt =====
-- A registry that stays away.
use ember_edge.Prelude.{
  ℕ, zero, suc, ◌+◌, ◌-◌, ◌%◌, ◌≤◌, ◌<◌, ◌≡◌, refl, ap, ◌∙◌, Option, List, [], ◌∷◌, ◌++◌, All,
  arith, length, leb, append-nil, if◌then◌else◌,
}
use ember_edge.Text.Basic.{Str}
use ember_edge.Numbers.{u64_mod}
use ember_edge.Errors.{Error}
use ember_edge.Errors.Monad.{ok, err}
use ember_edge.Telemetry.{Sample, record_parked}
use ember_edge.Registry.Action.{Dir}
use ember_edge.Registry.Facade.{pull}
use ember_edge.Registry.Reload.{HotReloadPolicy}
use ember_edge.Config.Data.{ComponentSource}
use ember_edge.Runtime.Tenants.{Tenant}
use ember_edge.Runtime.Reload.{poll_once}
use ember_edge.Runtime.Reload.Budget.{poll_tenant-failed}
use ember_edge.Runtime.Reload.Loop.{Turn, reload_loop}

-- The tenant with a count of failures.
abbrev pub failing : {I : Type 0} → Tenant I → ℕ → Tenant I
failing t n = record t { failures = n }

-- A turn in which a tenant of a registry is due and cannot be pulled.
pub record IsDown {I : Type 0} (policy : HotReloadPolicy) (t : Tenant I) (turn : Turn I)
    : Type 0 where
  pub reference : Str
  pub pin : Option Str
  pub same_source : t.source ≡ ComponentSource.oci reference pin
  pub due : policy.debounce ≤ turn.now - t.last_swap
  pub fails :
      (n : ℕ) (dir : Dir)
      → (dir' : Dir) × (e : Error) × (pull
            (turn.hosts (failing t n)).env
            (turn.hosts (failing t n)).client
            reference
            pin
            dir
          ≡ (dir', err e))

module _ (policy : HotReloadPolicy) where
  -- What the `n` failures after the first `k` are recorded with: those from the budget on are parked.
  unfoldable pub parkings : Str → ℕ → ℕ → List Sample
  parkings name k zero = []
  parkings name k (suc n) =
      (if leb policy.max_failed_polls (k + 1) then record_parked name (k + 1) else [])
      ++ parkings name (k + 1) n

  module _ {I : Type 0} (t : Tenant I) where
    poll_once-down :
        (turn : Turn I) (k : ℕ) (dir : Dir)
        → k + 1 < u64_mod
        → IsDown policy t turn
        → (dir' : Dir) × (poll_once turn.hosts policy turn.now turn.later (failing t k ∷ []) dir
            ≡ record {
              tenants = failing t (k + 1) ∷ [];
              dir = dir';
              samples =
                  (if leb policy.max_failed_polls (k + 1)
                    then record_parked t.id.name (k + 1)
                    else [])
                  ++ [];
              outcome = ok tt;
            })
    unfolding poll_once
    poll_once-down turn k dir room d =
        let (dir', e, h) = d.fails k dir in
        let step =
          poll_tenant-failed (turn.hosts (failing t k)) policy turn.now (turn.later (failing t k))
            (failing t k) d.reference d.pin dir dir' e d.same_source d.due h in
        let same : (k + 1) % u64_mod ≡ k + 1 = omega (arith, room) in
        (dir', rw (step, poll_once) (rw step (rw same refl)))

    loop_down :
        (turns : List (Turn I)) (k : ℕ) (dir : Dir)
        → k + length turns < u64_mod
        → All (IsDown policy t) turns
        → ((reload_loop policy turns (failing t k ∷ []) dir).tenants
            ≡ failing t (k + length turns) ∷ [])
          × ((reload_loop policy turns (failing t k ∷ []) dir).samples
              ≡ parkings t.id.name k (length turns))
    unfolding reload_loop parkings
    loop_down [] k dir room d = (ap (λ n. failing t n ∷ []) (omega arith), refl)
    loop_down (turn ∷ turns) k dir room (d, ds) =
        let (dir', once) = poll_once-down turn k dir (omega (arith, room)) d in
        let (tenants, samples) = loop_down turns (k + 1) dir' (omega (arith, room)) ds in
        rw once (
          tenants ∙ ap (λ n. failing t n ∷ []) (omega arith),
          rw
              (
                append-nil (
                    if leb policy.max_failed_polls (k + 1)
                    then record_parked t.id.name (k + 1)
                    else []),
                samples,
              )
              refl,
        )

    -- For a tenant that is alone, due, and whose registry does not answer in any of some turns, and
    -- while the count of failures does not wrap around: after those turns the tenant is as it was, with
    -- the active component, but for the count, which is higher by the number of turns; and each turn
    -- that brings the count to the budget or beyond, and no other, is recorded as parked.
    pub reload_loop-parks :
        (turns : List (Turn I)) (dir : Dir)
        → t.failures + length turns < u64_mod
        → All (IsDown policy t) turns
        → ((reload_loop policy turns (t ∷ []) dir).tenants
            ≡ record t { failures = t.failures + length turns } ∷ [])
          × ((reload_loop policy turns (t ∷ []) dir).samples
              ≡ parkings t.id.name t.failures (length turns))
    reload_loop-parks turns dir room d = loop_down turns t.failures dir room d
