-- ===== src/Registry/Oci/Published.antt =====
-- A registry with an admissible artifact: a fetch succeeds, whatever intact store it starts from.
use ember_edge.Prelude.{
  ◌≡◌, ◌∙◌, refl, ap, true, none, List, ◌∷◌, arith, length, lookup, Bool-cases, inl, inr,
  Option-cases,
}
use ember_edge.Text.Basic.{Str, str_Eq, str_eq_iff}
use ember_edge.Errors.Monad.{ok}
use ember_edge.Component.Loader.{Loaded, WasmTools, find_world, from_bytes, contract_violations}
use ember_edge.Registry.Digest.{Blob, digest, verify_digest}
use ember_edge.Registry.Action.{Dir}
use ember_edge.Registry.Action.Yields.{Outcome-ok}
use ember_edge.Registry.Store.{put, blob_path, file_exists, get, contains}
use ember_edge.Registry.Store.Integrity.{IsIntact}
use ember_edge.Registry.Store.Contents.{get-found}
use ember_edge.Registry.Store.Writes.{IsWriting, put-stores}
use ember_edge.Registry.Oci.{
  OciClientConfig, Environment, resolve, pull_manifest, pull_layer, fetch_layer, fetch_component,
}
use ember_edge.Registry.Oci.Verified.{fetch_layer-Yields}

-- An artifact that validates, with exports that meet the contract.
pub record IsAdmissible (tools : WasmTools) (exports : List Str) (blob : Blob) : Type 0 where
  pub validates : tools.validate_all blob ≡ ok tt
  pub parses : tools.component_exports blob ≡ ok exports
  pub meets : contract_violations exports ≡ none

-- The registry has an artifact of digest `d` under the reference, all bytes of that digest are
-- admissible, and the system writes what it is asked to.
pub record IsPublished (env : Environment) (config : OciClientConfig) (reference d : Str)
    : Type 0 where
  pub resolved : Str
  pub resolves : resolve env config reference ≡ ok resolved
  pub others : List Str
  pub lists : env.pull_manifest resolved ≡ ok (d ∷ others)
  pub blob : Blob
  pub sends : env.pull_blob resolved d ≡ ok blob
  pub hashes : digest env.sha256_hex blob ≡ d
  pub name : Str
  pub well_formed : blob_path d ≡ ok name
  pub writing : IsWriting env.system
  pub exports : List Str
  pub admissible : (b : Blob) → digest env.sha256_hex b ≡ d → IsAdmissible env.tools exports b

module _ (env : Environment) (config : OciClientConfig) (reference d : Str)
    (s : IsPublished env config reference d) where
  there-get : (dir : Dir) → file_exists s.name dir ≡ true → (b : Blob) × (get d dir ≡ ok b)
  unfolding file_exists
  there-get dir there = elim (Option-cases (lookup s.name dir)) [
    | inl e ↦ absurd (ground (arith, e, there))
    | inr (b, e) ↦ (b, get-found d s.name b dir s.well_formed e)
  ]

  pull_layer-stores :
      (dir : Dir)
      → ((pull_layer env config s.resolved d dir).1 ≡ ok tt)
        × (file_exists s.name (pull_layer env config s.resolved d dir).0 ≡ true)
  unfolding pull_layer verify_digest ember_edge.Registry.Action.◌>>=◌
  pull_layer-stores dir =
      let (runs, there) =
        put-stores env.sha256_hex env.system s.writing s.blob dir s.name
          (ap blob_path s.hashes ∙ s.well_formed) in
      let all_right : put env.sha256_hex env.system s.blob dir
          ≡ ((put env.sha256_hex env.system s.blob dir).0, ok (digest env.sha256_hex s.blob)) =
        ap (λ r. ((put env.sha256_hex env.system s.blob dir).0, r)) runs in
      rw (s.sends, pull_layer)
        (rw (s.hashes) (rw ((str_eq_iff d d).1 refl) (rw all_right (refl, there))))

  fetch_layer-runs : (dir : Dir) → (b : Blob) × ((fetch_layer env config s.resolved d dir).1 ≡ ok b)
  unfolding fetch_layer ember_edge.Registry.Action.◌>>=◌
  fetch_layer-runs dir = elim (Bool-cases (contains d dir)) [
    | inl held ↦
        let (b, e) = there-get dir (unfold contains in ground (arith, s.well_formed, held)) in
        (b, rw held e)
    | inr missing ↦
        let (runs, there) = pull_layer-stores dir in
        let (b, e) = there-get (pull_layer env config s.resolved d dir).0 there in
        let all_right : pull_layer env config s.resolved d dir
            ≡ ((pull_layer env config s.resolved d dir).0, ok tt) =
          ap (λ r. ((pull_layer env config s.resolved d dir).0, r)) runs in
        (b, rw missing (rw all_right e))
  ]

  abbrev pub as_loaded : Blob → Loaded
  as_loaded b = record {
    source = reference;
    bytes = b;
    digest = d;
    size = length b;
    world_id = find_world s.exports;
    exports = s.exports;
  }

  -- From an intact store a published reference is fetched, and leaves an intact
  -- store: the result is made of bytes of the digest that the registry names, held before or pulled now.
  pub fetch_component-published :
      (dir : Dir)
      → IsIntact env.sha256_hex dir
      → (dir' : Dir) × (b : Blob) × (fetch_component env config reference dir
          ≡ (dir', ok (as_loaded b)))
        × (digest env.sha256_hex b ≡ d)
        × IsIntact env.sha256_hex dir'
  unfolding fetch_component ember_edge.Registry.Action.◌>>=◌ from_bytes pull_manifest
  fetch_component-published dir intact =
      let (b, runs) = fetch_layer-runs dir in
      let dir' = (fetch_layer env config s.resolved d dir).0 in
      let all_right : fetch_layer env config s.resolved d dir ≡ (dir', ok b) =
        ap (λ r. (dir', r)) runs in
      let (kept, hashed) =
        Outcome-ok (IsIntact env.sha256_hex) _ _ dir' b
          ((fetch_layer-Yields env config s.resolved d).at dir intact) all_right in
      let good = s.admissible b hashed in
      (
        dir',
        b,
        rw (s.resolves, fetch_component)
            (rw (s.lists) (rw all_right (rw (good.validates) (rw (good.parses) refl)))),
        hashed,
        kept,
      )
