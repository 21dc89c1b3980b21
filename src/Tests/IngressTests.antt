-- ===== src/Tests/IngressTests.antt =====
-- The dispatch of requests on concrete values.
use ember_edge.Prelude.{
  ℕ, ◌≢◌, refl, true, lookup, ◌≡◌, none, [], ◌∷◌, arith, leb, length, if◌then◌else◌,
}
use ember_edge.Text.Basic.{Str, text, str_eq, str_eq_iff, str_Eq}
use ember_edge.Errors.{Error}
use ember_edge.Errors.Monad.{Result, ok, err}
use ember_edge.TenantId.{TenantId}
use ember_edge.Sandbox.MemFs.{Bytes}
use ember_edge.Config.Data.{HttpConfig, default_http}
use ember_edge.Component.Linker.{HttpRequest, HttpResponse}
use ember_edge.TenantId
use ember_edge.TenantId.Grammar.{IsTenantName, new-grammar}
use ember_edge.Runtime.Tenants.{Tenants}
use ember_edge.Runtime.Invoke.{Machine, responded}
use ember_edge.Ingress.{Incoming, dispatch}
use ember_edge.Ingress.Routes.{Backend}
use ember_edge.Runtime.Invoke.{invoke}
use ember_edge.Tests.Fixtures.{acme, acme_tenant, files}
use ember_edge.Ingress.Dispatch.{IsLimited, AgreeWithin, dispatch-guards}

-- A stream that is its bytes.
abbrev collect : ℕ → Bytes → Result Str Bytes
collect limit bytes =
    if leb (length bytes) limit then ok bytes else err (text "length limit exceeded")

collect-IsLimited : IsLimited collect
collect-IsLimited limit stream bytes h = ground arith

abbrev answer : HttpResponse
answer = record { status = 200; headers = []; body = [] }

abbrev answers : TenantId → HttpRequest → Result Error HttpResponse
answers id request = ok answer

-- Differs from the other one behind the limit only.
abbrev strict : TenantId → HttpRequest → Result Error HttpResponse
strict id request = if leb (length request.body) 4 then ok answer else err Error.shutdown

abbrev config : HttpConfig
config = record default_http { max_body_bytes = 4 }

agree : AgreeWithin config answers strict
agree id request v h = ground arith

abbrev incoming : Incoming Bytes
incoming = record {
  parts = record {
    method = text "GET";
    path = text "/acme/x";
    query = none;
    headers = [];
    body = [];
  };
  stream = 1 ∷ 2 ∷ [];
}

dispatch-guards_example :
    dispatch collect answers config (text "acme") incoming
    ≡ dispatch collect strict config (text "acme") incoming
dispatch-guards_example =
    dispatch-guards collect answers strict config (text "acme") incoming collect-IsLimited agree

-- The runtime as the dispatcher: an instance is a number, and answers with a status that does not
-- exist. A handle of the exporter is a text.
abbrev machine : Machine ℕ
machine = record {
  fs = files;
  header_ok = λ n v. true;
  instantiate = λ ctx epoch b. ok 1;
  call = λ i r fs. responded i (record { status = 42; headers = []; body = [] });
  scratch_after = λ i r fs. fs;
}

abbrev backend : Backend ℕ Str Bytes
backend = record {
  collect = collect;
  render = λ h. h;
  exporter = ok (text "up 1");
  machine = machine;
}

abbrev tenants : Tenants ℕ
tenants = (text "acme", acme_tenant) ∷ []

abbrev other : TenantId
other = record { name = text "beta" }

not_beta : text "acme" ≢ text "beta"
unfolding text str_eq
not_beta h = ground (arith, str_eq_iff (text "acme") (text "beta"), h)

accepted : TenantId.new (text "beta") ≡ ok other
unfolding TenantId.new ember_edge.Text.Basic.is_empty text ember_edge.Text.Basic.bytes
    ember_edge.Text.Basic.encode_char TenantId.is_id_byte
accepted = refl

not_there : lookup (text "beta") tenants ≡ none
unfolding lookup ember_edge.Text.Basic.str_eq text
not_there = refl

beta_valid : IsTenantName (text "beta")
beta_valid = (((new-grammar (text "beta") other).0 accepted)).0

abbrev both : Tenants ℕ
both = (text "acme", acme_tenant) ∷ (text "beta", acme_tenant) ∷ []

abbrev request : HttpRequest
request = record { method = text "GET"; path = text "/x"; query = none; headers = []; body = [] }

abbrev first : Tenants ℕ
first = (invoke machine 10 both acme request).0

abbrev second : Tenants ℕ
second = (invoke machine 20 both other request).0
