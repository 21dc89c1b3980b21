-- ===== src/Registry/Oci.antt =====
-- `OciClient` (src/registry/oci.rs) over its content store. The distribution client is a parameter:
-- the parser of references, the layers' digests of a manifest, and the blob of a digest.
pub mod Verified
pub mod Published
use ember_edge.Prelude.{
  ℕ, Bool, true, false, not, Option, none, some, List, [], ◌∷◌, ◌++◌, arith, if◌then◌else◌,
}
use ember_edge.Text.Basic.{Str, text, contains_char}
use ember_edge.Numbers.{from_secs}
use ember_edge.Errors.{Error}
use ember_edge.Errors.Monad
use ember_edge.Errors.Monad.{Result, ok, err, map_err, ok_or}
use ember_edge.Component.Loader.{Loaded, WasmTools, from_bytes}
use ember_edge.Registry.Digest.{Blob, verify_digest}
use ember_edge.Registry.Action.{Action, ◌>>=◌, ◌>>◌, pure, lift, reads}
use ember_edge.Registry.Store
use ember_edge.Registry.Store.{ContentStore, SystemAnswers, put, get, contains}

pub record OciClientConfig : Type 0 where
  pub endpoint : Str
  pub insecure : Bool
  pub cache_dir : Str
  pub manifest_cache_ttl : ℕ

abbrev pub default_client_config : OciClientConfig
default_client_config = record {
  endpoint = text "ghcr.io";
  insecure = false;
  cache_dir = text "registry-cache";
  manifest_cache_ttl = from_secs 60;
}

pub data ClientProtocol : Type 0 where
  plain https : ClientProtocol

pub data RegistryAuth : Type 0 where
  anonymous : RegistryAuth
  basic : (user password : Str) → RegistryAuth

pub record OciClient : Type 0 where
  pub protocol : ClientProtocol
  pub auth : RegistryAuth
  pub store : ContentStore
  pub config : OciClientConfig

unfoldable pub protocol : OciClientConfig → ClientProtocol
protocol config = if config.insecure then plain else https

-- Credentials are used where both variables are set.
unfoldable pub credentials : Option Str → Option Str → RegistryAuth
credentials (some user) (some password) = basic user password
credentials (some user) none = anonymous
credentials none password = anonymous

unfoldable pub new :
    (Str → Option Str) → (Str → Result Str (Unit {0})) → OciClientConfig → Result Error OciClient
unfolding protocol credentials
new var create_dir_all config =
    Monad.◌>>=◌ (Store.open_store create_dir_all config.cache_dir) λ store. ok (record {
      protocol = protocol config;
      auth = credentials (var (text "EMBER_REGISTRY_USER")) (var (text "EMBER_REGISTRY_PASSWORD"));
      store = store;
      config = config;
    })

-- What the client relies on: the `oci-distribution` crate, SHA-256, `wasm-tools` and the system.
pub record Environment : Type 0 where
  pub parse_reference : Str → Result Str Str
  pub pull_manifest : Str → Result Str (List Str)
  pub pull_blob : Str → Str → Result Str Blob
  pub sha256_hex : Blob → Str
  pub tools : WasmTools
  pub system : SystemAnswers

-- A reference with no `/` is taken to be in the configured registry.
unfoldable pub qualify : OciClientConfig → Str → Str
qualify config reference =
    if contains_char b'/' reference then reference else config.endpoint ++ (text "/" ++ reference)

abbrev pub first {ℓ} : {A : Type ℓ} → List A → Option A
first [] = none
first (x ∷ xs) = some x

module _ (env : Environment) (config : OciClientConfig) where
  unfoldable pub resolve : Str → Result Error Str
  resolve reference =
      map_err (λ e. Error.oci (text "invalid reference `" ++ (reference ++ (text "`: " ++ e))))
        (env.parse_reference (qualify config reference))

  unfoldable pub pull_manifest : Str → Result Error (List Str)
  pull_manifest resolved =
      map_err (λ e. Error.oci (text "pull manifest `" ++ (resolved ++ (text "`: " ++ e))))
        (env.pull_manifest resolved)

  -- A layer that the store does not hold: pulled, verified, and put into the store.
  unfoldable pub pull_layer : Str → Str → Action (Unit {0})
  pull_layer resolved digest = do
    blob ← lift (
        map_err (λ e. Error.oci (text "pull blob " ++ (digest ++ (text ": " ++ e))))
          (env.pull_blob resolved digest))
    lift (verify_digest env.sha256_hex blob digest)
    stored ← put env.sha256_hex env.system blob
    pure tt

  unfoldable pub fetch_layer : Str → Str → Action Blob
  fetch_layer resolved digest = do
    held ← reads (λ dir. ok (contains digest dir))
    if held then pure tt else pull_layer resolved digest
    reads (get digest)

  unfoldable pub fetch_component : Str → Action Loaded
  fetch_component reference = do
    resolved ← lift (resolve reference)
    layers ← lift (pull_manifest resolved)
    digest ← lift (
        ok_or (first layers)
          (Error.oci (text "manifest for `" ++ (reference ++ text "` has no layers"))))
    bytes ← fetch_layer resolved digest
    loaded ← lift (from_bytes env.tools env.sha256_hex reference bytes)
    pure (record loaded { digest = digest })
