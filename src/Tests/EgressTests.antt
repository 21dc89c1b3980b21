-- ===== src/Tests/EgressTests.antt =====
-- Allow rules and outbound calls on concrete values.
use ember_edge.Prelude.{ℕ, ◌≤◌, ◌≡◌, ◌↔◌, refl, true, false, some, List, [], ◌∷◌, ◌++◌, length}
use ember_edge.Text.Basic.{Str, text}
use ember_edge.Text.Ascii.{to_lowercase}
use ember_edge.Errors.Monad.{Result, ok}
use ember_edge.Sandbox.Limits.{EgressPolicy}
use ember_edge.Egress.Pattern.{host_matches}
use ember_edge.Egress.Pattern.Wildcards.{IsUnder, host_matches-wildcard}
use ember_edge.Egress.Policy.{allows}
use ember_edge.Egress.Bridge.{
  Method, Authority, OutboundRequest, WireRequest, WireResponse, HttpBridge, wire_request, send,
}
use ember_edge.Egress.Bridge.Admission.{send-admitted}
use ember_edge.Egress.Bridge.Ports.{IsHost, IsPort, send_ignores_port}

abbrev host : Str
host = text "API.example.com"

host_matches-wildcard_example :
    (host_matches (b'*' ∷ b'.' ∷ text "example.com") host ≡ true)
    ↔ IsUnder (text "example.com") host
host_matches-wildcard_example = host_matches-wildcard (text "example.com") host

matches_subdomain : host_matches (b'*' ∷ b'.' ∷ text "example.com") host ≡ true
unfolding host_matches ember_edge.Text.Basic.split ember_edge.Text.Basic.str_eq text
    ember_edge.Text.Ascii.eq_ignore_case
matches_subdomain = refl

matches_no_other : host_matches (b'*' ∷ b'.' ∷ text "example.com") (text "badexample.com") ≡ false
unfolding host_matches ember_edge.Text.Basic.split ember_edge.Text.Basic.str_eq text
    ember_edge.Text.Ascii.eq_ignore_case
matches_no_other = refl

abbrev policy : EgressPolicy
policy = record { allow = text "*.internal" ∷ text "api.example.com:443" ∷ []; default_deny = true }

abbrev other_policy : EgressPolicy
other_policy = record { allow = text "*.internal" ∷ []; default_deny = true }

abbrev answer : WireResponse
answer = record { status = 200; headers = []; body = ok [] }

abbrev client : WireRequest → Result Str WireResponse
client r = ok answer

abbrev bridge : HttpBridge
bridge = record { policy = policy; connect_timeout = 3_000_000_000; max_body_bytes = 8 }

-- A request to port 80, where the rule names port 443.
abbrev request : OutboundRequest
request = record {
  method = Method.get;
  uri = text "http://api.example.com:80/";
  authority = some (record { host = text "api.example.com"; port = some (text "80") });
  headers = [];
  body = ok (1 ∷ []);
}

request_sent : send client bridge request ≡ ok answer
unfolding send allows ember_edge.Egress.Pattern.pattern_matches
    ember_edge.Egress.Pattern.split_scheme ember_edge.Text.Basic.split_at_first text
    ember_edge.Text.Basic.strip_prefix ember_edge.Egress.Pattern.split_authority
    ember_edge.Text.Basic.rsplit_once ember_edge.Text.Basic.contains_char host_matches
    ember_edge.Text.Basic.split ember_edge.Text.Basic.str_eq ember_edge.Text.Ascii.eq_ignore_case
request_sent = refl

send-admitted_example :
    (a : Authority) × (bytes : List ℕ) × (request.authority ≡ some a)
    × (allows bridge.policy a.host ≡ true)
    × (request.body ≡ ok bytes)
    × (length bytes ≤ bridge.max_body_bytes)
    × (client (wire_request bridge request bytes) ≡ ok answer)
send-admitted_example = send-admitted client bridge request answer request_sent

is_host : IsHost (text "api.example.com")
unfolding ember_edge.Text.Basic.contains_char text
is_host = record { no_colon = refl; no_slash = refl; no_bracket = refl }

is_port : IsPort (text "443")
unfolding ember_edge.Text.Basic.contains_char text
is_port = record { no_colon = refl; no_slash = refl }

rule_spelled :
    policy.allow
    ≡ (text "*.internal" ∷ []) ++ ((text "api.example.com" ++ (b':' ∷ text "443")) ∷ [])
unfolding text
rule_spelled = refl

send_ignores_port_example :
    send client bridge request
    ≡ send client (record bridge { policy = record { allow = []; default_deny = false } }) request
send_ignores_port_example =
    send_ignores_port client bridge request (text "api.example.com") (text "443") (some (text "80"))
      (text "*.internal" ∷ []) [] is_host is_port rule_spelled refl
