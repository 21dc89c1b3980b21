-- ===== src/Runtime/Build/Started.antt =====
-- What runs in the background of a runtime that was built, and what the runtime is wired to.
use ember_edge.Prelude.{ℕ, ◌<◌, ◌≡◌, ◌↔◌, refl, false, Option, List, [], ◌∷◌, All, arith, inl, inr}
use ember_edge.Text.Basic.{Str}
use ember_edge.Numbers.{from_secs, from_millis}
use ember_edge.Telemetry.{Sample}
use ember_edge.Errors.Monad.{Result, ok, Result-cases}
use ember_edge.Egress.Policy.{default_policy, allows}
use ember_edge.Egress.Bridge
use ember_edge.Egress.Bridge.{HttpBridge, ClientSettings}
use ember_edge.Registry.Action.{Dir}
use ember_edge.Registry.Action.Yields.{
  Yields-lift, Yields, Anything, Yields-bind, Outcome-ok, Outcome-same, Outcome-any,
}
use ember_edge.Registry.Oci
use ember_edge.Registry.Oci.{OciClient, OciClientConfig}
use ember_edge.Registry.Facade
use ember_edge.Registry.Facade.{Registry}
use ember_edge.Registry.Reload.{HotReloadPolicy}
use ember_edge.Config.Data.{TenantConfig, EngineConfig, RegistryConfig, Config, pull_interval}
use ember_edge.Runtime.Engine.{
  Task, pending, increments_epoch, polls_once, from_config, spawn_epoch_ticker,
}
use ember_edge.Runtime.Tenants.{Host}
use ember_edge.Runtime.Tenants.Built.{Always}
use ember_edge.Runtime.Build.{
  Runtime, Setup, client_config, reload_policy, load_tenants, with_client, build,
}

-- The interval of a task is not zero, where it has one. (A ticker with interval zero panics.)
abbrev pub Ticks : Task → Type 0
Ticks pending = Unit
Ticks (increments_epoch n) = 0 < n
Ticks (polls_once n) = 0 < n

-- The tasks, with their intervals; the configured address; a registry whose store is the client's
-- and whose policy is the runtime's; and a bridge that admits no host.
pub record IsStarted {I : Type 0} (config : Config) (runtime : Runtime I) : Type 0 where
  pub ticker : Task
  pub interval : ℕ
  pub tasks : runtime.background ≡ ticker ∷ polls_once interval ∷ []
  pub ticking : All Ticks runtime.background
  pub no_epochs : (ticker ≡ pending) ↔ (config.engine.epoch_interval_ms ≡ 0)
  pub bound : runtime.bind ≡ config.bind
  pub paced : runtime.policy.poll_interval ≡ interval
  pub same_store : runtime.registry.store ≡ runtime.registry.oci.store
  pub same_policy : runtime.registry.policy ≡ runtime.policy
  pub denies : (host : Str) → allows runtime.bridge.policy host ≡ false

bridge_denies :
    (build_client : ClientSettings → Result Str (Unit {0})) (n : ℕ) (b : HttpBridge) (host : Str)
    → Bridge.new build_client default_policy n ≡ ok b
    → allows b.policy host ≡ false
unfolding Bridge.new allows
bridge_denies build_client n b host h = ground (arith, h)

registry_parts :
    (var : Str → Option Str) (create_dir_all : Str → Result Str (Unit {0})) (c : OciClientConfig)
    (p : HotReloadPolicy) (r : Registry)
    → Facade.new var create_dir_all c p ≡ ok r
    → (r.store ≡ r.oci.store) × (r.policy ≡ p)
unfolding Facade.new
registry_parts var create_dir_all c p r h = elim (Result-cases (Oci.new var create_dir_all c)) [
  | inl (o, e) ↦ ground (arith, h, e)
  | inr (f, e) ↦ absurd (ground (arith, h, e))
]

interval_positive : (r : RegistryConfig) → 0 < pull_interval r
unfolding pull_interval from_secs
interval_positive r = omega arith

ticker_Ticks : (e : EngineConfig) → Ticks (spawn_epoch_ticker (from_config e))
unfolding spawn_epoch_ticker from_config from_millis
ticker_Ticks e = ground arith

ticker_pending :
    (e : EngineConfig) → (spawn_epoch_ticker (from_config e) ≡ pending) ↔ (e.epoch_interval_ms ≡ 0)
unfolding spawn_epoch_ticker from_config from_millis
ticker_pending e = (λ h. ground (arith, h), λ h. ground (arith, h))

module _ {I : Type 0} (hosts : TenantConfig → Host) (clock : TenantConfig → ℕ) (setup : Setup)
    (config : Config) where
  abbrev Started : Runtime I × List Sample → Type 0
  Started (runtime, samples) = IsStarted config runtime

  build-Yields-Started : Yields Always Started (build hosts clock setup config)
  unfolding build reload_policy
  build-Yields-Started = Yields-bind Always Anything Started _ _ (Yields-lift Always _) λ a _.
      Yields-bind Always Anything Started _ _ (Yields-lift Always _) λ b _.
        Yields-bind Always (λ (b : HttpBridge). (host : Str) → allows b.policy host ≡ false) Started
          _ _
          (record {
            at = λ dir _.
                Outcome-same Always _ dir
                  (Bridge.new setup.build_client default_policy config.http.max_body_bytes) tt
                  (λ b e host.
                    bridge_denies setup.build_client config.http.max_body_bytes b host e);
          })
          λ bridge denied.
            Yields-bind Always
              (λ (r : Registry).
                (r.store ≡ r.oci.store) × (r.policy ≡ reload_policy config.registry))
              Started _ _
              (record {
                at = λ dir _.
                    Outcome-same Always _ dir
                      (Facade.new setup.var setup.create_dir_all (client_config config.registry)
                        (reload_policy config.registry))
                      tt
                      (λ r e.
                        registry_parts setup.var setup.create_dir_all
                          (client_config config.registry) (reload_policy config.registry) r e);
              })
              λ registry (stored, governed).
                Yields-bind Always Anything Started _ _
                  (record {
                    at = λ dir _.
                        Outcome-any Always
                          (load_tenants (with_client hosts config) clock config.tenants [] dir) tt;
                  })
                  λ loaded _. record {
                    at = λ dir _. (
                      tt,
                      record {
                        ticker = spawn_epoch_ticker (from_config config.engine);
                        interval = pull_interval config.registry;
                        tasks = refl;
                        ticking =
                            (ticker_Ticks config.engine, (interval_positive config.registry, tt));
                        no_epochs = ticker_pending config.engine;
                        bound = refl;
                        paced = refl;
                        same_store = stored;
                        same_policy = governed;
                        denies = denied;
                      },
                    );
                  }

  -- A runtime that was built has two tasks in the background, and no interval of theirs is zero: the
  -- ticker of epochs, which does nothing exactly where the configured interval is 0, and the reload
  -- loop, at the interval of the reload policy. Its registry works on the client's store and under
  -- the runtime's policy. Its shared bridge admits no host.
  pub build-IsStarted :
      (dir dir' : Dir) (runtime : Runtime I) (samples : List Sample)
      → build hosts clock setup config dir ≡ (dir', ok (runtime, samples))
      → IsStarted config runtime
  build-IsStarted dir dir' runtime samples h =
      (Outcome-ok Always Started _ dir' (runtime, samples) (build-Yields-Started.at dir tt) h).1
