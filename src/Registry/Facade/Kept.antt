-- ===== src/Registry/Facade/Kept.antt =====
-- What a pull leaves of the store, however it ends.
use ember_edge.Prelude.{Option, none, some}
use ember_edge.Text.Basic.{Str}
use ember_edge.Errors.Monad.{ok}
use ember_edge.Component.Loader.{Loaded}
use ember_edge.Registry.Action.{Dir}
use ember_edge.Registry.Action.Yields.{
  Yields, Yields-lift, Yields-bind, Anything, Outcome-kept, Outcome-any,
}
use ember_edge.Registry.Store.Integrity.{IsIntact}
use ember_edge.Registry.Oci.{OciClientConfig, Environment, fetch_component}
use ember_edge.Registry.Oci.Verified.{fetch_component-IsIntact}
use ember_edge.Registry.Facade.{apply_pin, pull}

module _ (env : Environment) (config : OciClientConfig) where
  apply_pin-Yields :
      (pin : Option Str) (loaded : Loaded)
      → Yields (IsIntact env.sha256_hex) Anything (apply_pin env pin loaded)
  unfolding apply_pin
  apply_pin-Yields none loaded = Yields-lift (IsIntact env.sha256_hex) (ok loaded)
  apply_pin-Yields (some pin) loaded =
      Yields-bind (IsIntact env.sha256_hex) Anything Anything _ _
        (Yields-lift (IsIntact env.sha256_hex) _)
        λ u _. Yields-lift (IsIntact env.sha256_hex) (ok (record loaded { digest = pin }))

  -- A pull, successful or not, leaves an intact store.
  pub pull-IsIntact :
      (reference : Str) (pin : Option Str) (dir : Dir)
      → IsIntact env.sha256_hex dir
      → IsIntact env.sha256_hex (pull env config reference pin dir).0
  unfolding pull
  pull-IsIntact reference pin dir d = Outcome-kept (IsIntact env.sha256_hex) Anything _ (
      (Yields-bind (IsIntact env.sha256_hex) Anything Anything
          (fetch_component env config reference) (apply_pin env pin)
          (record {
            at = λ dir d.
                Outcome-any (IsIntact env.sha256_hex) (fetch_component env config reference dir)
                  (fetch_component-IsIntact env config reference dir d);
          })
          (λ loaded _. apply_pin-Yields pin loaded)).at
        dir d)
