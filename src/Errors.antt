-- ===== src/Errors.antt =====
-- The error taxonomy of the runtime (src/error.rs). The errors of wasmtime, of `http` and of
-- `std::io` are known by the text that they display.
pub mod Monad
use ember_edge.Prelude.{ℕ, String, List, ◌++◌}
use ember_edge.Text.Basic.{Str, text}

pub data Error : Type 0 where
  config : Str → Error
  invalid_component : (path reason : Str) → Error
  contract : Str → Error
  component_not_found : Str → Error
  tenant_not_found : Str → Error
  registry : Str → Error
  oci : Str → Error
  wasm : Str → Error
  validation : Str → Error
  http : Str → Error
  io : Str → Error
  digest_mismatch : (expected computed : Str) → Error
  limit_exceeded : Str → Error
  shutdown : Error

unfoldable pub display : Error → Str
display (Error.config m) = text "configuration error: " ++ m
display (Error.invalid_component p r) =
    text "invalid component artifact `" ++ (p ++ (text "`: " ++ r))
display (Error.contract m) = text "component contract violated: " ++ m
display (Error.component_not_found m) = text "component not found: " ++ m
display (Error.tenant_not_found m) = text "tenant not found: " ++ m
display (Error.registry m) = text "registry error: " ++ m
display (Error.oci m) = text "oci distribution error: " ++ m
display (Error.wasm m) = text "wasmtime error: " ++ m
display (Error.validation m) = text "validation error: " ++ m
display (Error.http m) = text "http error: " ++ m
display (Error.io m) = text "i/o error: " ++ m
display (Error.digest_mismatch e c) =
    text "digest mismatch: expected " ++ (e ++ (text ", computed " ++ c))
display (Error.limit_exceeded m) = text "sandbox limit exceeded: " ++ m
display Error.shutdown = text "shutdown requested"

-- The HTTP status that an error is surfaced as.
unfoldable pub status : Error → ℕ
status (Error.config m) = 500
status (Error.invalid_component p r) = 400
status (Error.contract m) = 400
status (Error.component_not_found m) = 404
status (Error.tenant_not_found m) = 404
status (Error.registry m) = 500
status (Error.oci m) = 500
status (Error.wasm m) = 500
status (Error.validation m) = 500
status (Error.http m) = 400
status (Error.io m) = 500
status (Error.digest_mismatch e c) = 409
status (Error.limit_exceeded m) = 429
status Error.shutdown = 503
