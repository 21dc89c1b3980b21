-- ===== src/Telemetry/Gauges.antt =====
-- The gauges that a recorder shows.
use ember_edge.Prelude.{
  ℕ, ◌≡◌, Bool, true, false, ◌&&◌, Option, none, some, List, [], ◌∷◌, ◌++◌, arith, if◌then◌else◌,
}
use ember_edge.Text.Basic.{Str, text, str_eq, str_eq_iff}
use ember_edge.Telemetry.{Labels, Sample, record_reload}

pub labels_eq : Labels → Labels → Bool
labels_eq [] [] = true
labels_eq [] (y ∷ ys) = false
labels_eq (x ∷ xs) [] = false
labels_eq ((k, v) ∷ xs) ((l, w) ∷ ys) = str_eq k l && (str_eq v w && labels_eq xs ys)

-- The value of a gauge after some samples, the oldest first.
unfoldable pub gauge_value : Str → Labels → Option ℕ → List Sample → Option ℕ
unfolding labels_eq
gauge_value metric labels now [] = now
gauge_value metric labels now (Sample.histogram m v l ∷ rest) = gauge_value metric labels now rest
gauge_value metric labels now (Sample.counter m v l ∷ rest) = gauge_value metric labels now rest
gauge_value metric labels now (Sample.gauge m v l ∷ rest) =
    gauge_value metric labels (if str_eq m metric && labels_eq l labels then some v else now) rest

abbrev pub active_digest : Str → Str → List Sample → Option ℕ
active_digest tenant digest =
    gauge_value (text "ember.tenant.active_digests")
      ((text "tenant", tenant) ∷ (text "digest", digest) ∷ []) none

-- After a tenant went over from one digest to another, the gauge of active digests is 1 for both.
pub gauge_keeps_old :
    (tenant old new : Str) (from : Option Str)
    → (active_digest tenant old
          (record_reload tenant from old ++ record_reload tenant (some old) new)
        ≡ some 1)
      × (active_digest tenant new
            (record_reload tenant from old ++ record_reload tenant (some old) new)
          ≡ some 1)
unfolding gauge_value record_reload
gauge_keeps_old tenant old new from = (
  ground (
    arith,
    str_eq_iff (text "ember.tenant.active_digests") (text "ember.tenant.active_digests"),
    str_eq_iff (text "tenant") (text "tenant"),
    str_eq_iff (text "digest") (text "digest"),
    str_eq_iff tenant tenant,
    str_eq_iff old old,
  ),
  ground (
    arith,
    str_eq_iff (text "ember.tenant.active_digests") (text "ember.tenant.active_digests"),
    str_eq_iff (text "tenant") (text "tenant"),
    str_eq_iff (text "digest") (text "digest"),
    str_eq_iff tenant tenant,
    str_eq_iff new new,
  ),
)
