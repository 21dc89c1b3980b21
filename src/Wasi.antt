-- ===== src/Wasi.antt =====
-- The WASI context of a tenant (src/wasi.rs): its environment and its read-only preopens. The file
-- system is a parameter: whether a path is a directory, and whether it opens.
pub mod Preopens
use ember_edge.Prelude.{ℕ, Bool, true, false, not, List, [], ◌∷◌, ◌++◌, arith}
use ember_edge.Text.Basic.{Str, text}
use ember_edge.Text.Decimal.{decimal}
use ember_edge.Errors.{Error}
use ember_edge.Errors.Monad.{Result, ok, err, ◌>>=◌, ◌>>◌, refuse_if, map_err}
use ember_edge.Sandbox.Assembly.{Sandbox}

pub record FileSystem : Type 0 where
  pub is_dir : Str → Result Str Bool
  pub open_file : Str → Result Str (Unit {0})
  pub preopen : Str → Str → Result Str (Unit {0})

pub record WasiCtx : Type 0 where
  pub env : List (Str × Str)
  pub preopens : List (Str × Str)

unfoldable pub open_readonly_dir : FileSystem → Str → Result Error (Unit {0})
open_readonly_dir fs root = do
  dir ←
      map_err (λ e. Error.config (text "preopen `" ++ (root ++ (text "` unreadable: " ++ e))))
        (fs.is_dir root)
  refuse_if (not dir) (Error.config (text "preopen `" ++ (root ++ text "` is not a directory")))
  map_err (λ e. Error.config (text "preopen `" ++ (root ++ (text "` open failed: " ++ e))))
      (fs.open_file root)

unfoldable pub open_preopens : FileSystem → List (Str × Str) → Result Error (Unit {0})
open_preopens fs [] = ok tt
open_preopens fs ((guest_path, host_root) ∷ rest) =
    open_readonly_dir fs host_root
    >> (map_err (λ e. Error.config (text "preopen `" ++ (guest_path ++ (text "` failed: " ++ e))))
          (fs.preopen host_root guest_path)
        >> open_preopens fs rest)

unfoldable pub new : FileSystem → Sandbox → Result Error WasiCtx
new fs sandbox = do
  open_preopens fs sandbox.readonly_preopens
  ok (record {
    env =
        (text "EMBER_TENANT", sandbox.tenant.name)
        ∷ (text "EMBER_SCRATCH_QUOTA", decimal sandbox.limits.memfs_quota_bytes)
        ∷ [];
    preopens = sandbox.readonly_preopens;
  })
