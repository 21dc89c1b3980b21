-- ===== src/Ingress/Server.antt =====
-- `serve` (src/http/ingress.rs): the layers of the router by their settings, the listener, and its run
-- until a shutdown signal arrives.
use ember_edge.Prelude.{ℕ, List, [], ◌∷◌}
use ember_edge.Text.Basic.{Str, text}
use ember_edge.Errors.{Error}
use ember_edge.Errors.Monad.{Result, ◌>>=◌, ◌>>◌, map_err}
use ember_edge.Egress.Bridge.{HttpBridge}
use ember_edge.Config.Data.{HttpConfig, timeout}
use ember_edge.Runtime.Build.{Runtime}

-- What the router is served with: the runtime, which dispatches, the shared bridge, and the settings.
pub record RuntimeState (I : Type 0) : Type 0 where
  pub dispatcher : Runtime I
  pub bridge : HttpBridge
  pub config : HttpConfig

abbrev pub runtime_state : {I : Type 0} → Runtime I → RuntimeState I
runtime_state runtime = record {
  dispatcher = runtime;
  bridge = runtime.bridge;
  config = runtime.http;
}

-- The layers around the routes, with their settings.
pub data Layer : Type 0 where
  set_request_id propagate_request_id : (header : Str) → Layer
  trace catch_panic : Layer
  request_timeout : (duration : ℕ) → Layer
  concurrency_limit : (max : ℕ) → Layer

-- The outermost layer is the first.
unfoldable pub layers : HttpConfig → List Layer
layers config =
    set_request_id (text "x-request-id")
    ∷ propagate_request_id (text "x-request-id")
    ∷ trace
    ∷ catch_panic
    ∷ request_timeout (timeout config)
    ∷ concurrency_limit config.concurrency
    ∷ []

-- What the system and axum answer: to binding an address, to asking for the local one, and at the
-- end of serving.
pub record Network : Type 0 where
  pub listen : Str → Result Str (Unit {0})
  pub local_addr : Str → Result Str Str
  pub run : List Layer → Str → Result Str (Unit {0})

unfoldable pub serve : {I : Type 0} → Network → RuntimeState I → Str → Result Error (Unit {0})
serve net state bind = do
  map_err Error.io (net.listen bind)
  local ← map_err Error.io (net.local_addr bind)
  map_err Error.io (net.run (layers state.config) local)
