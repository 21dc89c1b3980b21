-- ===== src/Telemetry/Logging.antt =====
-- `init` (src/telemetry.rs): logging and the recorder, at start-up.
use ember_edge.Prelude.{Bool, Option, none, some, ◌++◌}
use ember_edge.Text.Basic.{Str, text}
use ember_edge.Errors.{Error}
use ember_edge.Errors.Monad.{Result, ok, err, ◌>>◌, map_err}
use ember_edge.Telemetry.Recorder.{install_recorder}

abbrev or_else : Option Str → Option Str → Option Str
or_else none other = other
or_else (some s) other = some s

abbrev unwrap_or : Option Str → Str → Str
unwrap_or none s = s
unwrap_or (some s) other = s

-- The argument, or a variable, or the default.
unfoldable pub chosen_filter : (Str → Option Str) → Option Str → Str
chosen_filter var env_filter =
    unwrap_or (or_else (or_else env_filter (var (text "EMBER_LOG"))) (var (text "RUST_LOG")))
      (text "ember=info,tower_http=info")

-- What tracing-subscriber answers: to a filter, and to the installation of a subscriber with a
-- filter, which writes JSON or not.
pub record Subscriber : Type 0 where
  pub parse_filter : Str → Result Str (Unit {0})
  pub try_init : Str → (json : Bool) → Result Str (Unit {0})

unfoldable pub install_subscriber : Subscriber → Str → Bool → Result Error (Unit {0})
install_subscriber sub filter json = do
  map_err (λ e. Error.config (text "invalid log filter `" ++ (filter ++ (text "`: " ++ e))))
      (sub.parse_filter filter)
  map_err (λ e. Error.config (text "tracing: " ++ e)) (sub.try_init filter json)

module _ {H : Type 0} where
  abbrev unit_of : Option H × Result Error H → Option H × Result Error (Unit {0})
  unit_of (kept, ok h) = (kept, ok tt)
  unit_of (kept, err e) = (kept, err e)

  -- The recorder is not touched where logging fails.
  abbrev pub then_install :
      Result Str H → Option H → Result Error (Unit {0}) → Option H × Result Error (Unit {0})
  then_install built handle (ok u) = unit_of (install_recorder built handle)
  then_install built handle (err e) = (handle, err e)

  unfoldable pub init :
      (Str → Option Str)
      → Subscriber
      → Result Str H
      → Option Str
      → Bool
      → Option H
      → Option H × Result Error (Unit {0})
  unfolding install_subscriber chosen_filter
  init var sub built env_filter json handle =
      then_install built handle (install_subscriber sub (chosen_filter var env_filter) json)
