-- ===== src/Runtime/Engine.antt =====
-- src/runtime/engine.rs: the capacity of the shared engine, what is derived from it, what wasmtime is
-- configured with, and the ticker of epochs.
use ember_edge.Prelude.{ℕ, ◌*◌, ◌/◌, min, max, Bool, true, ◌==◌, if◌then◌else◌}
use ember_edge.Text.Basic.{Str}
use ember_edge.Errors.{Error}
use ember_edge.Errors.Monad.{Result, map_err}
use ember_edge.Numbers.{from_millis}
use ember_edge.Config.Data.{EngineConfig}
use ember_edge.Sandbox.Limits.{SandboxLimits}

pub record EngineCap : Type 0 where
  pub max_memory_bytes : ℕ
  pub max_instances : ℕ
  pub threads : ℕ

pub record EngineBuilder : Type 0 where
  pub cap : EngineCap
  pub epoch_interval : ℕ

unfoldable pub new : EngineCap → EngineBuilder
new cap = record { cap = cap; epoch_interval = from_millis 100 }

unfoldable pub with_epoch_interval : EngineBuilder → ℕ → EngineBuilder
with_epoch_interval builder interval = record builder { epoch_interval = interval }

unfoldable pub from_config : EngineConfig → EngineBuilder
unfolding new with_epoch_interval
from_config config =
    with_epoch_interval
      (new (record {
        max_memory_bytes = config.max_memory_bytes;
        max_instances = config.max_instances;
        threads = config.threads;
      }))
      (from_millis config.epoch_interval_ms)

-- The pooling allocator's numbers.
pub record PoolingConfig : Type 0 where
  pub total_memory_pages : ℕ
  pub instance_memory_limit : ℕ
  pub total_instances : ℕ
  pub max_tables_per_instance : ℕ

unfoldable pub pooling_config : EngineBuilder → PoolingConfig
pooling_config builder = record {
  total_memory_pages = max (builder.cap.max_memory_bytes / (64 * 1024)) 1;
  instance_memory_limit = builder.cap.max_memory_bytes;
  total_instances = builder.cap.max_instances;
  max_tables_per_instance = 32;
}

pub data OptLevel : Type 0 where
  opt_none speed speed_and_size : OptLevel

pub data BacktraceDetails : Type 0 where
  enable disable environment : BacktraceDetails

-- What wasmtime's configuration is set to.
pub record WasmConfig : Type 0 where
  pub opt_level : OptLevel
  pub parallel_compilation : Bool
  pub component_model : Bool
  pub function_references : Bool
  pub backtrace_details : BacktraceDetails
  pub async_support : Bool
  pub epoch_interruption : Bool
  pub pooling : PoolingConfig
  pub cache_config_load_default : Bool

unfoldable pub wasm_config : EngineBuilder → WasmConfig
unfolding pooling_config
wasm_config builder = record {
  opt_level = speed_and_size;
  parallel_compilation = true;
  component_model = true;
  function_references = true;
  backtrace_details = disable;
  async_support = true;
  epoch_interruption = true;
  pooling = pooling_config builder;
  cache_config_load_default = true;
}

-- `compile_engine` is what wasmtime says of a configuration.
unfoldable pub build :
    (WasmConfig → Result Str (Unit {0})) → EngineBuilder → Result Error (Unit {0})
unfolding wasm_config
build compile_engine builder = map_err Error.wasm (compile_engine (wasm_config builder))

unfoldable pub build_default_engine : (WasmConfig → Result Str (Unit {0})) → Result Error (Unit {0})
unfolding build new
build_default_engine compile_engine =
    build compile_engine
      (new (record { max_memory_bytes = 256 * 1024 * 1024; max_instances = 8; threads = 2 }))

-- A task in the background: one that does nothing for ever, or one that does its work at each tick
-- of an interval, over and over.
pub data Task : Type 0 where
  pending : Task
  increments_epoch polls_once : (interval : ℕ) → Task

unfoldable pub spawn_epoch_ticker : EngineBuilder → Task
spawn_epoch_ticker builder =
    if builder.epoch_interval == 0 then pending else increments_epoch builder.epoch_interval

unfoldable pub engine_limits : SandboxLimits → ℕ × ℕ
engine_limits limits = (limits.max_memory_bytes, limits.max_instances)

-- src/runtime/invoke.rs.
unfoldable pub pool_capacity : SandboxLimits → EngineCap → ℕ
pool_capacity limits cap = min limits.max_instances cap.max_instances
