-- ===== src/CommandLine.antt =====
-- The binary (src/main.rs): logging, the configuration, and then a check of it or the runtime.
pub mod Start
use ember_edge.Prelude.{ℕ, ◌≡◌, Bool, Option, List, if◌then◌else◌, length}
use ember_edge.Text.Basic.{Str}
use ember_edge.Errors.{Error}
use ember_edge.Errors.Monad.{Result, ok, err, ◌>>=◌}
use ember_edge.Telemetry.{Sample}
use ember_edge.Telemetry.Logging.{Subscriber, init}
use ember_edge.Registry.Action.{Dir}
use ember_edge.Config.Data.{TenantConfig, Config}
use ember_edge.Config.Loading.{load}
use ember_edge.Runtime.Tenants.{Host}
use ember_edge.Runtime.Build.{Runtime, Setup, build}
use ember_edge.Ingress.Server.{Network, runtime_state, serve}

-- The arguments, as the parser of the command line gives them.
pub record Cli : Type 0 where
  pub config : Option Str
  pub json : Bool
  pub log_level : Option Str
  pub check : Bool

-- What logging and the configuration rely on. `H` is a handle of the exporter.
pub record Surroundings (H : Type 0) : Type 0 where
  pub var : Str → Option Str
  pub subscriber : Subscriber
  pub exporter : Result Str H
  pub parse_addr : Str → Option Str
  pub read : Str → Result Str Str
  pub parse_toml : Str → Result Str Config

-- What a runtime relies on.
pub record Platform : Type 0 where
  pub hosts : TenantConfig → Host
  pub clock : TenantConfig → ℕ
  pub setup : Setup
  pub network : Network

-- What the line of a check shows, or the runtime that has served.
pub data Outcome (I : Type 0) : Type 0 where
  config_ok : (tenants memory instances : ℕ) (bind : Str) → Outcome I
  served : Runtime I → List Sample → Outcome I

module _ {I : Type 0} (platform : Platform) where
  abbrev pub run_built :
      Dir × Result Error (Runtime I × List Sample) → Dir × Result Error (Outcome I)
  run_built (dir, err e) = (dir, err e)
  run_built (dir, ok (runtime, samples)) = (
    dir,
    serve platform.network (runtime_state runtime) runtime.bind >>= λ u.
        ok (served runtime samples),
  )

  unfoldable pub configured : Cli → Result Error Config → Dir → Dir × Result Error (Outcome I)
  configured cli (err e) dir = (dir, err e)
  configured cli (ok config) dir =
      if cli.check
      then (
        dir,
        ok (
            config_ok (length config.tenants) config.engine.max_memory_bytes
              config.engine.max_instances config.bind),
      )
      else run_built (build platform.hosts platform.clock platform.setup config dir)

module _ {I H : Type 0} (around : Surroundings H) (platform : Platform) where
  abbrev pub logged :
      Cli → Dir → Option H × Result Error (Unit {0}) → Option H × Dir × Result Error (Outcome I)
  logged cli dir (handle, err e) = (handle, dir, err e)
  logged cli dir (handle, ok u) =
      let (after, outcome) =
        configured platform cli
          (load around.var around.parse_addr around.read around.parse_toml cli.config) dir in
      (handle, after, outcome)

  unfoldable pub main : Cli → Option H → Dir → Option H × Dir × Result Error (Outcome I)
  unfolding configured
  main cli handle dir =
      logged cli dir
        (init around.var around.subscriber around.exporter cli.log_level cli.json handle)
