-- ===== src/Component/Linker.antt =====
-- src/component/linker.rs: the context of a store, the imports that the host implements for a
-- guest, and the conversion of requests and responses. An import that changes the scratch returns
-- the context after it.
pub mod Scratch
pub mod Conversion
use ember_edge.Prelude.{
  ℕ, ◌≡◌, Bool, ◌&&◌, Option, none, some, List, [], ◌∷◌, ◌++◌, arith, lookup, leb, if◌then◌else◌,
}
use ember_edge.Text.Basic.{Str, str_Eq, text}
use ember_edge.Errors.{Error}
use ember_edge.Errors.Monad.{Result, ok, err, ◌>>=◌, ◌>>◌, map_err}
use ember_edge.TenantId.{TenantId}
use ember_edge.Sandbox.Assembly.{Sandbox}
use ember_edge.Sandbox.MemFs
use ember_edge.Sandbox.MemFs.{MemFs, Bytes}
use ember_edge.Egress.Bridge.{HttpBridge}
use ember_edge.Wasi
use ember_edge.Wasi.{FileSystem, WasiCtx}

pub record HostCtx : Type 0 where
  pub tenant : TenantId
  pub sandbox : Sandbox
  pub config : List (Str × Str)
  pub wasi : WasiCtx
  pub egress : HttpBridge

unfoldable pub new_ctx : FileSystem → Sandbox → HttpBridge → Result Error HostCtx
new_ctx fs sandbox egress = do
  wasi ← Wasi.new fs sandbox
  ok (record {
    tenant = sandbox.tenant;
    sandbox = sandbox;
    config = sandbox.config;
    wasi = wasi;
    egress = egress;
  })

-- What wasmtime answers to the imports being added to a linker: WASI's, those of `wasi:http`, and the
-- runtime's own.
pub record LinkerAnswers : Type 0 where
  pub add_wasi : Result Str (Unit {0})
  pub add_http : Result Str (Unit {0})
  pub add_guest : Result Str (Unit {0})

unfoldable pub build_linker : LinkerAnswers → Result Error (Unit {0})
build_linker answers = do
  map_err Error.wasm answers.add_wasi
  map_err Error.wasm answers.add_http
  map_err Error.wasm answers.add_guest

unfoldable pub tenant_id : HostCtx → Str
tenant_id ctx = ctx.tenant.name

unfoldable pub get_config : HostCtx → Str → Option Str
get_config ctx key = lookup key ctx.config

pub data ScratchError : Type 0 where
  quota_exceeded invalid_path : ScratchError

-- How an error of `MemFs` is shown to the guest.
unfoldable pub scratch_error : Error → ScratchError
scratch_error (Error.limit_exceeded m) = quota_exceeded
scratch_error e = invalid_path

abbrev pub set_scratch : HostCtx → MemFs → HostCtx
set_scratch ctx fs = record ctx { sandbox = record ctx.sandbox { scratch = fs } }

unfoldable pub scratch_write : HostCtx → Str → Bytes → HostCtx × Result ScratchError (Unit {0})
scratch_write ctx path bytes = elim (MemFs.write ctx.sandbox.scratch path bytes) [
  | ok fs ↦ (set_scratch ctx fs, ok tt)
  | err e ↦ (ctx, err (scratch_error e))
]

unfoldable pub scratch_read : HostCtx → Str → Option Bytes
scratch_read ctx path = MemFs.read ctx.sandbox.scratch path

unfoldable pub scratch_bytes : HostCtx → ℕ
scratch_bytes ctx = MemFs.used_bytes ctx.sandbox.scratch

pub data LogLevel : Type 0 where
  debug info warn error : LogLevel

-- One event for the log: its level, its target and its text.
unfoldable pub emit : HostCtx → LogLevel → Str → LogLevel × Str × Str
emit ctx level message = (level, text "ember::guest::" ++ ctx.tenant.name, message)

-- An HTTP request of the `http` crate; a header's value is what `to_str` gives of it.
pub record HttpRequest : Type 0 where
  pub method : Str
  pub path : Str
  pub query : Option Str
  pub headers : List (Str × Option Str)
  pub body : Bytes

-- The records of the guest interface.
pub record Request : Type 0 where
  pub method : Str
  pub path : Str
  pub query : Option Str
  pub headers : List (Str × Str)
  pub body : Option Bytes

pub record Response : Type 0 where
  pub status : ℕ
  pub headers : List (Str × Str)
  pub body : Bytes

pub record HttpResponse : Type 0 where
  pub status : ℕ
  pub headers : List (Str × Str)
  pub body : Bytes

-- Headers whose values are not text are left out.
unfoldable pub text_headers : List (Str × Option Str) → List (Str × Str)
text_headers [] = []
text_headers ((name, none) ∷ hs) = text_headers hs
text_headers ((name, some value) ∷ hs) = (name, value) ∷ text_headers hs

-- The conversion has an error type and never fails.
unfoldable pub to_request : HttpRequest → Result Error Request
to_request req = ok (record {
  method = req.method;
  path = req.path;
  query = req.query;
  headers = text_headers req.headers;
  body = some req.body;
})

-- Headers that are no valid HTTP headers are left out.
unfoldable pub valid_headers : (Str → Str → Bool) → List (Str × Str) → List (Str × Str)
valid_headers header_ok [] = []
valid_headers header_ok ((name, value) ∷ hs) =
    let rest = valid_headers header_ok hs in
    if header_ok name value then (name, value) ∷ rest else rest

-- `StatusCode` takes 100 to 999. `none` is the panic of `expect`.
unfoldable pub into_response : (Str → Str → Bool) → Response → Option HttpResponse
into_response header_ok resp =
    if leb 100 resp.status && leb resp.status 999
    then some (record {
      status = resp.status;
      headers = valid_headers header_ok resp.headers;
      body = resp.body;
    })
    else none
