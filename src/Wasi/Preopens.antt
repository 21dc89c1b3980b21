-- ===== src/Wasi/Preopens.antt =====
-- What a guest's preopens are.
use ember_edge.Prelude.{◌≡◌, true, List, [], ◌∷◌, arith, All}
use ember_edge.Text.Basic.{Str, text}
use ember_edge.Text.Decimal.{decimal}
use ember_edge.Errors.Monad.{ok}
use ember_edge.Sandbox.Assembly.{Sandbox}
use ember_edge.Wasi.{FileSystem, WasiCtx, open_readonly_dir, open_preopens, new}

-- A host directory that can be opened and mounted.
pub record IsMountable (fs : FileSystem) (preopen : Str × Str) : Type 0 where
  pub directory : fs.is_dir preopen.1 ≡ ok true
  pub opens : fs.open_file preopen.1 ≡ ok tt
  pub mounts : fs.preopen preopen.1 preopen.0 ≡ ok tt

open_preopens_lem :
    (fs : FileSystem) (ps : List (Str × Str))
    → open_preopens fs ps ≡ ok tt
    → All (IsMountable fs) ps
unfolding open_preopens open_readonly_dir
open_preopens_lem fs [] h = tt
open_preopens_lem fs ((guest, root) ∷ ps) h = (
  record { directory = ground arith; opens = ground arith; mounts = ground arith },
  open_preopens_lem fs ps (ground arith),
)

-- A context that is built has exactly the sandbox's preopens, each of them a directory that opened,
-- and shows the guest its tenant's name and scratch quota.
pub new-preopens :
    (fs : FileSystem) (sandbox : Sandbox) (ctx : WasiCtx)
    → new fs sandbox ≡ ok ctx
    → (ctx.preopens ≡ sandbox.readonly_preopens)
      × All (IsMountable fs) ctx.preopens
      × (ctx.env
          ≡ (text "EMBER_TENANT", sandbox.tenant.name)
            ∷ (text "EMBER_SCRATCH_QUOTA", decimal sandbox.limits.memfs_quota_bytes)
            ∷ [])
unfolding new
new-preopens fs sandbox ctx h =
    let opened : open_preopens fs sandbox.readonly_preopens ≡ ok tt = ground arith in
    let same : ctx.preopens ≡ sandbox.readonly_preopens = ground arith in
    (same, rw same (open_preopens_lem fs sandbox.readonly_preopens opened), ground arith)
