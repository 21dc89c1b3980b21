-- ===== src/Component/Linker/Conversion.antt =====
-- The conversions at the guest boundary.
use ember_edge.Prelude.{ℕ, ◌≡◌, refl, ap, Option, some, List, [], ◌∷◌, map}
use ember_edge.Text.Basic.{Str}
use ember_edge.Errors.Monad.{ok}
use ember_edge.Component.Linker.{text_headers, to_request}

abbrev pub as_sent : Str × Str → Str × Option Str
as_sent (name, value) = (name, some value)

text_headers-map : (hs : List (Str × Str)) → text_headers (map as_sent hs) ≡ hs
unfolding text_headers
text_headers-map [] = refl
text_headers-map ((name, value) ∷ hs) = ap (λ l. (name, value) ∷ l) (text_headers-map hs)

-- A request whose header values are texts reaches the guest whole: its method, path and query, its
-- headers in order with those that repeat, and its body.
pub to_request_lem :
    (method path : Str) (query : Option Str) (headers : List (Str × Str)) (body : List ℕ)
    → to_request (record {
      method = method;
      path = path;
      query = query;
      headers = map as_sent headers;
      body = body;
    })
      ≡ ok (record {
        method = method;
        path = path;
        query = query;
        headers = headers;
        body = some body;
      })
unfolding to_request
to_request_lem method path query headers body = rw (text_headers-map headers)
