-- ===== src/Egress/Bridge.antt =====
-- `HttpBridge`: the egress path of a tenant. The HTTP client is a parameter, a function from the
-- request that goes out to its response or the text of its error.
pub mod Admission
pub mod Ports
use ember_edge.Prelude.{
  ℕ, ◌+◌, ◌≡◌, Bool, true, false, not, Option, none, some, List, [], ◌∷◌, ◌++◌, map, arith, ltb,
  if◌then◌else◌, length,
}
use ember_edge.Text.Basic.{Str, text}
use ember_edge.Text.Decimal.{decimal}
use ember_edge.Numbers.{from_secs}
use ember_edge.Errors.{Error}
use ember_edge.Errors.Monad.{Result, ok, err, ◌>>=◌, ◌>>◌, refuse_if, ok_or, map_err}
use ember_edge.Sandbox.Limits.{EgressPolicy}
use ember_edge.Sandbox.MemFs.{Bytes}
use ember_edge.Egress.Policy.{allows}

pub data Method : Type 0 where
  get post put delete patch head options : Method
  other : Str → Method

-- A method that the bridge does not know goes out as GET.
unfoldable pub method_to_reqwest : Method → Method
method_to_reqwest (Method.other m) = Method.get
method_to_reqwest m = m

pub record Authority : Type 0 where
  pub host : Str
  pub port : Option Str

-- A guest's request. A header's value is what `to_str` gives of it; the body is what collecting it
-- gives.
pub record OutboundRequest : Type 0 where
  pub method : Method
  pub uri : Str
  pub authority : Option Authority
  pub headers : List (Str × Option Str)
  pub body : Result Str Bytes

-- What the client is given.
pub record WireRequest : Type 0 where
  pub method : Method
  pub uri : Str
  pub timeout : ℕ
  pub headers : List (Str × Str)
  pub body : Bytes

-- What the client returns; its body is still to be read.
pub record WireResponse : Type 0 where
  pub status : ℕ
  pub headers : List (Str × Option Str)
  pub body : Result Str Bytes

pub record IncomingResponse : Type 0 where
  pub status : ℕ
  pub headers : List (Str × Str)
  pub body : Bytes

pub record HttpError : Type 0 where
  pub status : ℕ
  pub message : Str

pub record HttpBridge : Type 0 where
  pub policy : EgressPolicy
  pub connect_timeout : ℕ
  pub max_body_bytes : ℕ

-- What the HTTP client is built with.
pub record ClientSettings : Type 0 where
  pub redirects : ℕ
  pub pool_max_idle_per_host : ℕ
  pub pool_idle_timeout : ℕ
  pub tcp_keepalive : ℕ

unfoldable pub client_settings : ClientSettings
client_settings = record {
  redirects = 5;
  pool_max_idle_per_host = 16;
  pool_idle_timeout = from_secs 60;
  tcp_keepalive = from_secs 30;
}

-- `build_client` is what reqwest says of the settings.
unfoldable pub new :
    (ClientSettings → Result Str (Unit {0})) → EgressPolicy → ℕ → Result Error HttpBridge
new build_client policy max_body_bytes = do
  map_err (λ e. Error.config (text "egress client: " ++ e)) (build_client client_settings)
  ok (record { policy = policy; connect_timeout = from_secs 3; max_body_bytes = max_body_bytes })

unfoldable pub with_connect_timeout : HttpBridge → ℕ → HttpBridge
with_connect_timeout bridge timeout = record bridge { connect_timeout = timeout }

abbrev pub http_error : ℕ → Str → HttpError
http_error status message = record { status = status; message = message }

-- `value.to_str().unwrap_or("")`.
abbrev pub header_text : Str × Option Str → Str × Str
header_text (name, none) = (name, [])
header_text (name, some value) = (name, value)

unfoldable pub egress_denied : Str → HttpError
egress_denied host = http_error 403 (text "egress denied for `" ++ (host ++ text "`"))

unfoldable pub body_too_large : ℕ → HttpError
body_too_large limit =
    http_error 413 (text "outbound request body exceeds " ++ (decimal limit ++ text " bytes"))

unfoldable pub wire_request : HttpBridge → OutboundRequest → Bytes → WireRequest
wire_request bridge req bytes = record {
  method = method_to_reqwest req.method;
  uri = req.uri;
  timeout = bridge.connect_timeout + from_secs 25;
  headers = map header_text req.headers;
  body = bytes;
}

module _ (client : WireRequest → Result Str WireResponse) where
  unfoldable pub send : HttpBridge → OutboundRequest → Result HttpError WireResponse
  send bridge req = do
    authority ← ok_or req.authority (http_error 500 (text "outbound request missing authority"))
    refuse_if (not (allows bridge.policy authority.host)) (egress_denied authority.host)
    bytes ← map_err (λ e. http_error 500 (text "failed to read outbound body")) req.body
    refuse_if (ltb bridge.max_body_bytes (length bytes)) (body_too_large bridge.max_body_bytes)
    map_err (λ e. http_error 502 (text "outbound request failed: " ++ e))
        (client (wire_request bridge req bytes))

-- The headers that the response builder takes.
unfoldable pub accepted_headers : (Str → Str → Bool) → List (Str × Str) → List (Str × Str)
accepted_headers header_ok [] = []
accepted_headers header_ok ((n, v) ∷ hs) =
    let rest = accepted_headers header_ok hs in if header_ok n v then (n, v) ∷ rest else rest

-- `finish` is what `http::Response::builder` says when the response is complete.
module _ (client : WireRequest → Result Str WireResponse) (header_ok : Str → Str → Bool)
    (finish : IncomingResponse → Result Str IncomingResponse) where
  unfoldable pub send_request : HttpBridge → OutboundRequest → Result HttpError IncomingResponse
  send_request bridge req = do
    res ← send client bridge req
    body ← map_err (λ e. http_error 502 (text "failed to read outbound response: " ++ e)) res.body
    map_err (http_error 500) (
        finish (record {
          status = res.status;
          headers = accepted_headers header_ok (map header_text res.headers);
          body = body;
        }))
