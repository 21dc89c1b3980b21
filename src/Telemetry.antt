-- ===== src/Telemetry.antt =====
-- Metrics (src/telemetry.rs): the samples that each recording function emits. The recorder keeps
-- counters as sums and gauges as last values. Setting up logging is not modelled.
pub mod Gauges
pub mod Recorder
pub mod Logging
use ember_edge.Prelude.{
  ℕ, ◌+◌, ◌/◌, ◌≡◌, ◌↔◌, refl, Bool, true, false, ◌&&◌, Option, none, some, List, [], ◌∷◌, ◌++◌,
  arith, if◌then◌else◌, leb,
}
use ember_edge.Text.Basic.{Str, text, str_eq, str_eq_iff}
use ember_edge.Text.Decimal.{decimal}

abbrev pub Labels : Type 0
Labels = List (Str × Str)

pub data Sample : Type 0 where
  histogram counter gauge : (metric : Str) (value : ℕ) (labels : Labels) → Sample

-- `duration` in nanoseconds; the histogram takes microseconds.
unfoldable pub record_invoke : Str → ℕ → ℕ → List Sample
record_invoke digest duration status =
    Sample.histogram (text "ember.invoke.duration_us") (duration / 1000)
      ((text "digest", digest) ∷ [])
    ∷ Sample.counter (text "ember.invoke.total") 1
        ((text "digest", digest) ∷ (text "status", decimal status) ∷ [])
    ∷ (if leb 500 status
        then Sample.counter (text "ember.invoke.errors") 1 ((text "digest", digest) ∷ []) ∷ []
        else [])

unfoldable pub record_parked : Str → ℕ → List Sample
record_parked tenant failures =
    Sample.counter (text "ember.reload.parked") 1
      ((text "tenant", tenant) ∷ (text "failures", decimal failures) ∷ [])
    ∷ []

abbrev pub or_none : Option Str → Str
or_none none = text "none"
or_none (some s) = s

unfoldable pub record_reload : Str → Option Str → Str → List Sample
record_reload tenant from to =
    Sample.counter (text "ember.reload.total") 1
      ((text "tenant", tenant) ∷ (text "from", or_none from) ∷ (text "to", to) ∷ [])
    ∷ Sample.gauge (text "ember.tenant.active_digests") 1
        ((text "tenant", tenant) ∷ (text "digest", to) ∷ [])
    ∷ []
