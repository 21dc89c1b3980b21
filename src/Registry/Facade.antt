-- ===== src/Registry/Facade.antt =====
-- `Registry` (src/registry.rs): the client with its store and the reload policy, and the pull of a component, with an optional pin.
pub mod Pinned
pub mod Published
pub mod Kept
use ember_edge.Prelude.{Option, none, some}
use ember_edge.Text.Basic.{Str}
use ember_edge.Component.Loader.{Loaded}
use ember_edge.Registry.Digest.{verify_digest}
use ember_edge.Registry.Action.{Action, ◌>>=◌, ◌>>◌, pure, lift}
use ember_edge.Errors.{Error}
use ember_edge.Errors.Monad
use ember_edge.Errors.Monad.{Result, ok}
use ember_edge.Registry.Reload.{HotReloadPolicy}
use ember_edge.Registry.Store.{ContentStore}
use ember_edge.Registry.Oci
use ember_edge.Registry.Oci.{OciClient, OciClientConfig, Environment, fetch_component}

pub record Registry : Type 0 where
  pub oci : OciClient
  pub store : ContentStore
  pub policy : HotReloadPolicy

unfoldable pub new :
    (Str → Option Str)
    → (Str → Result Str (Unit {0}))
    → OciClientConfig
    → HotReloadPolicy
    → Result Error Registry
new var create_dir_all config policy =
    Monad.◌>>=◌ (Oci.new var create_dir_all config)
      λ oci. ok (record { oci = oci; store = oci.store; policy = policy })

unfoldable pub apply_pin : Environment → Option Str → Loaded → Action Loaded
unfolding ◌>>=◌
apply_pin env none loaded = pure loaded
apply_pin env (some pin) loaded = do
  lift (verify_digest env.sha256_hex loaded.bytes pin)
  pure (record loaded { digest = pin })

unfoldable pub pull : Environment → OciClientConfig → Str → Option Str → Action Loaded
unfolding ◌>>=◌
pull env config reference pin = do
  loaded ← fetch_component env config reference
  apply_pin env pin loaded
