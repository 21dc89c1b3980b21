-- ===== src/Telemetry/Recorder.antt =====
-- The recorder of metrics (src/telemetry.rs): its installation, the descriptions, and rendering. `H`
-- is what a handle of the exporter is.
use ember_edge.Prelude.{◌≡◌, Option, none, some, List, [], ◌∷◌, ◌++◌, arith}
use ember_edge.Text.Basic.{Str, text}
use ember_edge.Errors.{Error}
use ember_edge.Errors.Monad.{Result, ok, err}

module _ {H : Type 0} where
  -- `PROMETHEUS`, a `OnceLock`: the handle, once there is one. `built` is what the exporter answers
  -- to an installation.
  unfoldable pub install_recorder : Result Str H → Option H → Option H × Result Error H
  install_recorder built (some handle) = (some handle, ok handle)
  install_recorder (ok handle) none = (some handle, ok handle)
  install_recorder (err e) none = (none, err (Error.config (text "metrics recorder: " ++ e)))

  abbrev pub rendered : (H → Str) → Result Error H → Str
  rendered render (ok handle) = render handle
  rendered render (err e) = text "# ember metrics unavailable\n"

  -- `render` is the exporter's text of a handle.
  unfoldable pub render_metrics : (H → Str) → Result Str H → Option H → Option H × Str
  unfolding install_recorder
  render_metrics render built handle =
      let (kept, r) = install_recorder built handle in (kept, rendered render r)

  -- Once the recorder is installed it stays the same one, and rendering is of it, whatever later
  -- installations would answer; and a rendering that has no recorder installs the one that it can.
  pub render_metrics-stable :
      (render : H → Str) (built later : Result Str H) (before : Option H) (handle : H)
      → (render_metrics render built before).0 ≡ some handle
      → ((render_metrics render built before).1 ≡ render handle)
        × (render_metrics render later (render_metrics render built before).0
            ≡ (some handle, render handle))
  unfolding render_metrics
  render_metrics-stable render built later (some h) handle e = ground (arith, e)
  render_metrics-stable render (ok h) later none handle e = ground (arith, e)
  render_metrics-stable render (err m) later none handle e = absurd (ground (arith, e))

-- The metrics that have a description.
unfoldable pub describe : List Str
describe =
    text "ember.invoke.duration_us"
    ∷ text "ember.invoke.total"
    ∷ text "ember.invoke.errors"
    ∷ text "ember.reload.parked"
    ∷ text "ember.tenant.active_digests"
    ∷ []
