-- ===== src/Component/Loader.antt =====
-- src/component/loader.rs. What the `wasm-tools` crate says of some bytes is a parameter: the
-- validator's verdict, and the export names of the parsed component.
pub mod Contract
use ember_edge.Prelude.{ℕ, Bool, ◌||◌, Option, none, some, List, [], ◌∷◌, ◌++◌, arith, length, any}
use ember_edge.Text.Basic.{Str, text, str_eq, strip_prefix, contains, join, is_empty}
use ember_edge.Errors.{Error}
use ember_edge.Errors.Monad.{Result, ok, err, ◌>>=◌, ◌>>◌, map_err}
use ember_edge.Registry.Digest.{Blob, digest}

abbrev pub ember_world : Str
unfolding text
ember_world = text "ember-guest"

abbrev pub handler_interface : Str
unfolding text
handler_interface = text "ember-handler"

pub record Loaded : Type 0 where
  pub source : Str
  pub bytes : Blob
  pub digest : Str
  pub size : ℕ
  pub world_id : Option Str
  pub exports : List Str

-- `wasm-tools`, with its errors as texts.
pub record WasmTools : Type 0 where
  pub validate_all : Blob → Result Str (Unit {0})
  pub component_exports : Blob → Result Str (List Str)

-- The first export that begins with `#`, without it.
unfoldable pub find_world : List Str → Option Str
unfolding strip_prefix text
find_world [] = none
find_world (e ∷ es) = elim (strip_prefix (text "#") e) [
  | some world ↦ some world
  | none ↦ find_world es
]

unfoldable pub from_bytes : WasmTools → (Blob → Str) → Str → Blob → Result Error Loaded
from_bytes tools sha256_hex source bytes = do
  map_err Error.validation (tools.validate_all bytes)
  exports ← map_err (Error.invalid_component source) (tools.component_exports bytes)
  ok (record {
    source = source;
    bytes = bytes;
    digest = digest sha256_hex bytes;
    size = length bytes;
    world_id = find_world exports;
    exports = exports;
  })

-- `read` is `std::fs::read`.
unfoldable pub from_path :
    WasmTools → (Blob → Str) → (Str → Result Str Blob) → Str → Result Error Loaded
from_path tools sha256_hex read path = do
  bytes ← map_err (Error.invalid_component path) (read path)
  from_bytes tools sha256_hex path bytes

unfoldable pub exports_interface : Loaded → Str → Bool
exports_interface loaded name = any (λ e. str_eq e name) loaded.exports

unfoldable pub has_world : Loaded → Str → Bool
has_world loaded world = elim loaded.world_id [ none ↦ Bool.false | some w ↦ str_eq w world ]

abbrev pub names_world : Str → Bool
names_world e = str_eq e ember_world || str_eq e (text "#" ++ ember_world)

abbrev pub names_handler : Str → Bool
names_handler e =
    str_eq e handler_interface
    || (str_eq e (text "handler") || contains (text ":runtime/handler") e)

unfoldable pub seen_exports : List Str → Str
seen_exports [] = text "no exports at all"
seen_exports (e ∷ es) = text "only: " ++ join (text ", ") (e ∷ es)

unfoldable pub contract_violations : List Str → Option Str
contract_violations exports = elim (any names_world exports || any names_handler exports) [
  | Bool.true ↦ none
  | Bool.false ↦ some (
      text "artifact exports "
      ++ (seen_exports exports
          ++ (text "; expected interface `"
              ++ (handler_interface ++ (text "` or world `" ++ (ember_world ++ text "`"))))))
]

unfoldable pub ensure_contract : Loaded → Result Error (Unit {0})
ensure_contract loaded = elim (contract_violations loaded.exports) [
  | none ↦ ok tt
  | some reason ↦ err (Error.contract reason)
]
