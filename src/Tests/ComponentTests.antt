-- ===== src/Tests/ComponentTests.antt =====
-- The contract, the scratch imports and the gauges on concrete values.
use ember_edge.Prelude.{
  ℕ, ◌≡◌, ◌↔◌, refl, Option, none, some, List, [], ◌∷◌, ◌++◌, if◌then◌else◌, All,
}
use ember_edge.Text.Basic.{text}
use ember_edge.Errors.Monad.{ok, err}
use ember_edge.Sandbox.MemFs
use ember_edge.Component.Loader.{ensure_contract}
use ember_edge.Component.Loader.Contract.{HasEntry, contract_iff}
use ember_edge.Component.Linker.{HostCtx, scratch_write, scratch_read, quota_exceeded}
use ember_edge.Component.Linker.Scratch.{scratch_read-write}
use ember_edge.Sandbox.ScratchPath.{components, components_eq}
use ember_edge.Wasi.{FileSystem, WasiCtx}
use ember_edge.Wasi
use ember_edge.Tests.Fixtures.{guest, acme_sandbox, acme_bridge, files, acme_wasi}

contract_iff_example : (ensure_contract guest ≡ ok tt) ↔ HasEntry guest.exports
contract_iff_example = contract_iff guest

abbrev ctx : HostCtx
ctx = record {
  tenant = acme_sandbox.tenant;
  sandbox = acme_sandbox;
  config = [];
  wasi = acme_wasi;
  egress = acme_bridge;
}

-- An absolute path is no scratch path.
absolute_refused : (scratch_write ctx (text "/etc") (1 ∷ [])).1 ≡ err quota_exceeded
unfolding scratch_write MemFs.write MemFs.invalid_path ember_edge.Component.Linker.scratch_error
absolute_refused = refl

write_admitted : (scratch_write ctx (text "a") (1 ∷ [])).1 ≡ ok tt
unfolding scratch_write MemFs.write MemFs.invalid_path MemFs.over_quota ember_edge.Prelude.lookup
write_admitted = refl

-- Another path of the same file reads what was written.
scratch_read-write_example : scratch_read (scratch_write ctx (text "a") (1 ∷ [])).0 (text "./a") ≡ (
    if components_eq (components (text "a")) (components (text "./a"))
    then some (1 ∷ [])
    else scratch_read ctx (text "./a"))
scratch_read-write_example = scratch_read-write ctx (text "a") (1 ∷ []) (text "./a") write_admitted

context_built : Wasi.new files acme_sandbox ≡ ok acme_wasi
unfolding Wasi.new Wasi.open_preopens Wasi.open_readonly_dir
context_built = refl
