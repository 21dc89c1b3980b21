-- ===== src/Component/Linker/Scratch.antt =====
-- What a guest sees of its scratch storage.
use ember_edge.Prelude.{◌≡◌, some, arith, if◌then◌else◌, inl, inr, ◌∙◌}
use ember_edge.Text.Basic.{Str}
use ember_edge.Errors.Monad.{ok, err, Result-cases}
use ember_edge.Sandbox.ScratchPath.{components, components_eq}
use ember_edge.Sandbox.MemFs
use ember_edge.Sandbox.MemFs.{Bytes, MemFs, invalid_path}
use ember_edge.Sandbox.MemFs.Contents.{read-write}
use ember_edge.Component.Linker.{
  HostCtx, ScratchError, quota_exceeded, scratch_error, scratch_write, scratch_read,
}

module _ (ctx : HostCtx) (path : Str) (bytes : Bytes) where
  -- A scratch write that fails is reported as `quota-exceeded`, whatever is wrong with it, and
  -- leaves the context as it was: `invalid-path` is never reported, also for an invalid path.
  scratch_write_errors :
      (e : ScratchError)
      → (scratch_write ctx path bytes).1 ≡ err e
      → (e ≡ quota_exceeded) × ((scratch_write ctx path bytes).0 ≡ ctx)
  unfolding scratch_write scratch_error MemFs.write
  scratch_write_errors e h = ground arith

  scratch_after :
      (other : Str) (fs : MemFs)
      → MemFs.write ctx.sandbox.scratch path bytes ≡ ok fs
      → scratch_read (scratch_write ctx path bytes).0 other ≡ MemFs.read fs other
  unfolding scratch_write scratch_read
  scratch_after other fs e = rw (e, scratch_write)

  -- After a scratch write that succeeds, the guest reads the new bytes at every path that names the
  -- written file, and what it read before at every other path.
  pub scratch_read-write :
      (other : Str)
      → (scratch_write ctx path bytes).1 ≡ ok tt
      → scratch_read (scratch_write ctx path bytes).0 other ≡ (
          if components_eq (components path) (components other)
          then some bytes
          else scratch_read ctx other)
  scratch_read-write other h = elim (Result-cases (MemFs.write ctx.sandbox.scratch path bytes)) [
    | inl (fs, e) ↦
        scratch_after other fs e
        ∙ unfold scratch_read in read-write ctx.sandbox.scratch fs path other bytes e
    | inr (f, e) ↦ absurd (unfold scratch_write in ground (arith, e, h))
  ]
