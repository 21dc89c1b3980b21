-- ===== src/Component/Loader/Contract.antt =====
-- Which artifacts the contract admits.
use ember_edge.Prelude.{
  ◌≡◌, ◌↔◌, inl, inr, refl, true, ◌||◌, some, List, [], ◌∷◌, ◌++◌, arith, any, any-append, ap,
  Bool-cases, Option-cases,
}
use ember_edge.Text.Basic.{Str, text, str_eq, str_eq_iff, strip_prefix, contains}
use ember_edge.Errors.Monad.{ok}
use ember_edge.Text.Containing.{contains_iff}
use ember_edge.Text.Prefixes.{strip_prefix-some}
use ember_edge.Registry.Digest.{Blob, digest}
use ember_edge.Component.Loader.{
  Loaded, WasmTools, ember_world, handler_interface, find_world, from_bytes, has_world, names_world,
  names_handler, contract_violations, ensure_contract,
}

-- An export that makes an artifact a guest.
pub data IsEntry : Str → Type 0 where
  world : {e : Str} → e ≡ text "ember-guest" → IsEntry e
  tagged_world : {e : Str} → e ≡ text "#ember-guest" → IsEntry e
  interface : {e : Str} → e ≡ text "ember-handler" → IsEntry e
  bare : {e : Str} → e ≡ text "handler" → IsEntry e
  qualified :
      {e : Str} (before after : Str) → e ≡ before ++ (text ":runtime/handler" ++ after) → IsEntry e

names-IsEntry : (e : Str) → (names_world e || names_handler e) ≡ true → IsEntry e
unfolding text
names-IsEntry e h = elim (Bool-cases (str_eq e ember_world)) [
  | inl a ↦ world ((str_eq_iff e ember_world).0 a)
  | inr a ↦ elim (Bool-cases (str_eq e (text "#" ++ ember_world))) [
    | inl b ↦ tagged_world ((str_eq_iff e (text "#" ++ ember_world)).0 b)
    | inr b ↦ elim (Bool-cases (str_eq e handler_interface)) [
      | inl c ↦ interface ((str_eq_iff e handler_interface).0 c)
      | inr c ↦ elim (Bool-cases (str_eq e (text "handler"))) [
        | inl d ↦ bare ((str_eq_iff e (text "handler")).0 d)
        | inr d ↦
            let somewhere : contains (text ":runtime/handler") e ≡ true = ground arith in
            let (before, after, cut) = (contains_iff (text ":runtime/handler") e).0 somewhere in
            qualified before after cut
      ]
    ]
  ]
]

IsEntry-names : (e : Str) → IsEntry e → (names_world e || names_handler e) ≡ true
unfolding text
IsEntry-names e (world p) =
    let p' : e ≡ ember_world = p in ground (arith, str_eq_iff e ember_world, p')
IsEntry-names e (tagged_world p) =
    let p' : e ≡ text "#" ++ ember_world = p in
    ground (arith, str_eq_iff e (text "#" ++ ember_world), p')
IsEntry-names e (interface p) =
    let p' : e ≡ handler_interface = p in ground (arith, str_eq_iff e handler_interface, p')
IsEntry-names e (bare p) = ground (arith, str_eq_iff e (text "handler"))
IsEntry-names e (qualified before after p) =
    let somewhere = (contains_iff (text ":runtime/handler") e).1 (before, after, p) in
    ground (arith, somewhere)

-- The list is split at an export that is an entry.
abbrev pub HasEntry : List Str → Type 0
HasEntry exports =
    (front : List Str) × (e : Str) × (back : List Str) × (exports ≡ front ++ (e ∷ back)) × IsEntry e

any-entry :
    (exports : List Str)
    → (any names_world exports || any names_handler exports) ≡ true
    → HasEntry exports
any-entry [] h = cc
any-entry (e ∷ es) h = elim (Bool-cases (names_world e || names_handler e)) [
  | inl hit ↦ ([], e, es, refl, names-IsEntry e hit)
  | inr miss ↦
      let (front, x, back, cut, v) = any-entry es (ground arith) in
      (e ∷ front, x, back, ap (λ l. e ∷ l) cut, v)
]

entry-any :
    (front back : List Str) (e : Str)
    → IsEntry e
    → (any names_world (front ++ (e ∷ back)) || any names_handler (front ++ (e ∷ back))) ≡ true
entry-any front back e v = ground (
  arith,
  IsEntry-names e v,
  any-append names_world front (e ∷ back),
  any-append names_handler front (e ∷ back),
)

-- The contract admits an artifact exactly when one of its exports is `ember-handler`, `handler`, the
-- world `ember-guest` or `#ember-guest`, or has `:runtime/handler` somewhere in it, be it in the name
-- of another package or in front of a longer name.
pub contract_iff : (loaded : Loaded) → (ensure_contract loaded ≡ ok tt) ↔ HasEntry loaded.exports
unfolding ensure_contract contract_violations
contract_iff loaded = (
  λ h. any-entry loaded.exports (ground arith),
  λ (front, e, back, cut, v).
      let entry : (any names_world loaded.exports || any names_handler loaded.exports) ≡ true =
        rw cut (entry-any front back e v) in
      ground (arith, entry),
)

find_world-some :
    (es : List Str) (w : Str)
    → find_world es ≡ some w
    → (front back : List Str) × (es ≡ front ++ ((text "#" ++ w) ∷ back))
unfolding find_world
find_world-some [] w h = cc
find_world-some (e ∷ es) w h = elim (Option-cases (strip_prefix (text "#") e)) [
  | inl miss ↦
      let (front, back, cut) = find_world-some es w (ground (arith, miss)) in
      (e ∷ front, back, ap (λ l. e ∷ l) cut)
  | inr (v, hit) ↦ ([], es, ground (arith, hit, strip_prefix-some (text "#") e v hit))
]

pub from_bytes_inversion :
    (tools : WasmTools) (sha256_hex : Blob → Str) (source : Str) (bytes : Blob) (loaded : Loaded)
    → from_bytes tools sha256_hex source bytes ≡ ok loaded
    → (loaded.bytes ≡ bytes)
      × (loaded.digest ≡ digest sha256_hex bytes)
      × (loaded.source ≡ source)
      × (loaded.world_id ≡ find_world loaded.exports)
unfolding from_bytes
from_bytes_inversion tools sha256_hex source bytes loaded h = ground arith

-- An artifact that was loaded from bytes and targets the guest world satisfies the contract.
pub world_satisfies :
    (tools : WasmTools) (sha256_hex : Blob → Str) (source : Str) (bytes : Blob) (loaded : Loaded)
    → from_bytes tools sha256_hex source bytes ≡ ok loaded
    → has_world loaded ember_world ≡ true
    → ensure_contract loaded ≡ ok tt
unfolding has_world text
world_satisfies tools sha256_hex source bytes loaded l w = elim (Option-cases loaded.world_id) [
  | inl e ↦ ground (arith, e)
  | inr (v, e) ↦
      let named : find_world loaded.exports ≡ some ember_world = ground (
        arith,
        e,
        str_eq_iff v ember_world,
        from_bytes_inversion tools sha256_hex source bytes loaded l,
      ) in
      let (front, back, cut) = find_world-some loaded.exports ember_world named in
      (contract_iff loaded).1 (front, text "#" ++ ember_world, back, cut, tagged_world refl)
]
