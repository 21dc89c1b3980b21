-- ===== src/Registry/Oci/Verified.antt =====
-- What a fetch leaves in the store, and what it returns.
use ember_edge.Prelude.{◌≡◌, sym, ap, ◌∙◌, true, false, Bool, if◌then◌else◌}
use ember_edge.Text.Basic.{Str}
use ember_edge.Errors.Monad.{ok}
use ember_edge.Component.Loader.{Loaded, from_bytes}
use ember_edge.Component.Loader.Contract.{from_bytes_inversion}
use ember_edge.Registry.Digest.{digest}
use ember_edge.Registry.Action.{Dir, pure}
use ember_edge.Registry.Action.Yields.{
  Yields-lift, Yields, Anything, Yields-bind, Outcome-any, Outcome-same, Outcome-ok, Outcome-kept,
}
use ember_edge.Registry.Store.{put, get}
use ember_edge.Registry.Store.Integrity.{IsIntact}
use ember_edge.Registry.Store.Crash.{put-IsIntact}
use ember_edge.Registry.Store.Contents.{get-IsIntact}
use ember_edge.Registry.Oci.{OciClientConfig, Environment, pull_layer, fetch_layer, fetch_component}

module _ (env : Environment) (config : OciClientConfig) where
  abbrev Intact : Dir → Type 0
  Intact = IsIntact env.sha256_hex

  pull_layer-Yields : (resolved d : Str) → Yields Intact Anything (pull_layer env config resolved d)
  unfolding pull_layer
  pull_layer-Yields resolved d =
      Yields-bind Intact Anything Anything _ _ (Yields-lift Intact _) λ blob _.
        Yields-bind Intact Anything Anything _ _ (Yields-lift Intact _) λ u _.
          Yields-bind Intact Anything Anything _ _
            (record {
              at = λ dir p.
                  Outcome-any Intact (put env.sha256_hex env.system blob dir)
                    (put-IsIntact env.sha256_hex env.system blob dir p);
            })
            λ stored _. Yields-lift Intact (ok tt)

  held-Yields :
      (held : Bool) (resolved d : Str)
      → Yields Intact Anything (if held then pure tt else pull_layer env config resolved d)
  held-Yields true resolved d = Yields-lift Intact (ok tt)
  held-Yields false resolved d = pull_layer-Yields resolved d

  pub fetch_layer-Yields :
      (resolved d : Str)
      → Yields Intact (λ bytes. digest env.sha256_hex bytes ≡ d) (fetch_layer env config resolved d)
  unfolding fetch_layer
  fetch_layer-Yields resolved d =
      Yields-bind Intact Anything _ _ _ (record { at = λ dir p. (p, tt) })
        λ held _. Yields-bind Intact Anything _ _ _ (held-Yields held resolved d) λ u _. record {
          at = λ dir p.
              Outcome-same Intact _ dir (get d dir) p
                (λ b h. get-IsIntact env.sha256_hex d b dir p h);
        }

  -- The recorded digest is that of the bytes.
  abbrev pub IsTrue : Loaded → Type 0
  IsTrue loaded = loaded.digest ≡ digest env.sha256_hex loaded.bytes

  pub fetch_component-Yields :
      (reference : Str) → Yields Intact IsTrue (fetch_component env config reference)
  unfolding fetch_component
  fetch_component-Yields reference =
      Yields-bind Intact Anything IsTrue _ _ (Yields-lift Intact _) λ resolved _.
        Yields-bind Intact Anything IsTrue _ _ (Yields-lift Intact _) λ layers _.
          Yields-bind Intact Anything IsTrue _ _ (Yields-lift Intact _) λ d _.
            Yields-bind Intact (λ bytes. digest env.sha256_hex bytes ≡ d) IsTrue _ _
              (fetch_layer-Yields resolved d)
              λ bytes e.
                Yields-bind Intact (λ (l : Loaded). l.bytes ≡ bytes) IsTrue _ _
                  (record {
                    at = λ dir p.
                        Outcome-same Intact _ dir
                          (from_bytes env.tools env.sha256_hex reference bytes) p
                          (λ l h.
                            (from_bytes_inversion env.tools env.sha256_hex reference bytes l h).0);
                  })
                  λ loaded same. record {
                    at = λ dir p. (p, sym (ap (digest env.sha256_hex) same ∙ e));
                  }

  -- From an intact store a fetch, successful or not, leaves an intact store.
  pub fetch_component-IsIntact :
      (reference : Str) (dir : Dir)
      → IsIntact env.sha256_hex dir
      → IsIntact env.sha256_hex (fetch_component env config reference dir).0
  fetch_component-IsIntact reference dir d =
      Outcome-kept Intact IsTrue _ ((fetch_component-Yields reference).at dir d)

  -- From an intact store a fetched component is recorded under the digest of its own bytes, also
  -- when they came from the store and were not verified again.
  pub fetch_component-digest :
      (reference : Str) (dir dir' : Dir) (loaded : Loaded)
      → IsIntact env.sha256_hex dir
      → fetch_component env config reference dir ≡ (dir', ok loaded)
      → loaded.digest ≡ digest env.sha256_hex loaded.bytes
  fetch_component-digest reference dir dir' loaded d h =
      (Outcome-ok Intact IsTrue _ dir' loaded ((fetch_component-Yields reference).at dir d) h).1
