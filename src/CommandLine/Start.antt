-- ===== src/CommandLine/Start.antt =====
-- What a start of the binary does.
use ember_edge.Prelude.{
  ◌≡◌, refl, ap, sym, ◌∙◌, true, Bool-cases, Option, List, All, inl, inr, arith, length,
}
use ember_edge.Errors.{Error}
use ember_edge.Errors.Monad.{Result, ok, err, Result-cases}
use ember_edge.Telemetry.{Sample}
use ember_edge.Telemetry.Logging.{init}
use ember_edge.Registry.Action.{Dir}
use ember_edge.Config.Data.{Config}
use ember_edge.Config.Loading.{from_file, load, apply_env}
use ember_edge.Config.Loading.Validation.{IsProvisioned, validate-IsProvisioned}
use ember_edge.Runtime.Build.{Runtime, build, with_client}
use ember_edge.Runtime.Build.Loaded.{IsEntry, build-IsEntry}
use ember_edge.Runtime.Build.Started.{IsStarted, build-IsStarted}
use ember_edge.Ingress.Server.{runtime_state, serve}
use ember_edge.CommandLine.{
  Cli, Surroundings, Platform, Outcome, config_ok, served, configured, run_built, logged, main,
}

module _ {I : Type 0} where
  -- What a check ends with.
  abbrev checked : Result Error Config → Result Error (Outcome I)
  checked (ok config) = ok (
      config_ok (length config.tenants) config.engine.max_memory_bytes config.engine.max_instances
        config.bind)
  checked (err e) = err e

  configured-check :
      (p : Platform) (cli : Cli) (r : Result Error Config) (dir : Dir)
      → cli.check ≡ true
      → configured p cli r dir ≡ (dir, checked r)
  unfolding configured
  configured-check p cli (err e) dir c = refl
  configured-check p cli (ok config) dir c = rw c refl

module _ {H : Type 0} (around : Surroundings H) where
  abbrev loaded : Cli → Result Error Config
  loaded cli = load around.var around.parse_addr around.read around.parse_toml cli.config

  load-IsProvisioned :
      (cli : Cli) (config : Config)
      → loaded cli ≡ ok config
      → All (IsProvisioned config.engine) config.tenants
  unfolding load
  load-IsProvisioned cli config h =
      elim (Result-cases
        (from_file around.var around.parse_addr around.read around.parse_toml cli.config)) [
          | inl (c, e) ↦
              validate-IsProvisioned (apply_env around.var around.parse_addr c) config
                (ground (arith, h, e))
          | inr (f, e) ↦ absurd (ground (arith, h, e))
        ]

module _ {I H : Type 0} (around : Surroundings H) where
  abbrev check_logged : Cli → Result Error (Unit {0}) → Result Error (Outcome I)
  check_logged cli (ok u) = checked (loaded around cli)
  check_logged cli (err e) = err e

  logged-check :
      (p : Platform) (cli : Cli) (dir : Dir) (x : Option H × Result Error (Unit {0}))
      → cli.check ≡ true
      → logged around p cli dir x ≡ (x.0, dir, check_logged cli x.1)
  logged-check p cli dir (handle, err e) c = refl
  logged-check p cli dir (handle, ok u) c =
      rw (configured-check p cli (loaded around cli) dir c) refl

  -- With `--check`, a start asks nothing of wasmtime, the registry, the HTTP client or the network:
  -- it ends the same whatever they would answer, and leaves the store's directory as it was.
  pub main-check :
      (p q : Platform) (cli : Cli) (handle : Option H) (dir : Dir)
      → cli.check ≡ true
      → (main {I = I} around p cli handle dir ≡ main around q cli handle dir)
        × ((main {I = I} around p cli handle dir).1 ≡ dir)
  unfolding main
  main-check p q cli handle dir c =
      let x = init around.var around.subscriber around.exporter cli.log_level cli.json handle in
      (
        logged-check p cli dir x c ∙ sym (logged-check q cli dir x c),
        ap (λ (r : Option H × Dir × Result Error (Outcome I)). r.1) (logged-check p cli dir x c),
      )

  -- The configuration that a runtime was built of, and what follows from that.
  pub record IsUp (platform : Platform) (cli : Cli) (runtime : Runtime I) : Type 0 where
    pub config : Config
    pub read : loaded around cli ≡ ok config
    pub provisioned : All (IsProvisioned config.engine) config.tenants
    pub started : IsStarted config runtime
    pub entries : All (IsEntry (with_client platform.hosts config) config.tenants) runtime.tenants
    pub listened : serve platform.network (runtime_state runtime) config.bind ≡ ok tt

  module _ (platform : Platform) (cli : Cli) where
    built-IsUp :
        (config : Config) (dir dir' : Dir) (runtime : Runtime I) (samples : List Sample)
        (r : Dir × Result Error (Runtime I × List Sample))
        → build platform.hosts platform.clock platform.setup config dir ≡ r
        → loaded around cli ≡ ok config
        → run_built platform r ≡ (dir', ok (served runtime samples))
        → IsUp platform cli runtime
    built-IsUp config dir dir' runtime samples (d, err e) b l h = absurd (ground (arith, h))
    built-IsUp config dir dir' runtime samples (d, ok (rt, ss)) b l h =
        elim (Result-cases (serve platform.network (runtime_state rt) rt.bind)) [
          | inr (f, s) ↦ absurd (ground (arith, h, s))
          | inl (u, s) ↦
              let same : rt ≡ runtime = ground (arith, h, s) in
              let recorded : ss ≡ samples = ground (arith, h, s) in
              let built : build platform.hosts platform.clock platform.setup config dir
                  ≡ (d, ok (runtime, samples)) =
                b ∙ (ap (λ x. (d, ok (x, ss))) same ∙ ap (λ x. (d, ok (runtime, x))) recorded) in
              let started =
                build-IsStarted platform.hosts platform.clock platform.setup config dir d runtime
                  samples built in
              record {
                config = config;
                read = l;
                provisioned = load-IsProvisioned around cli config l;
                started = started;
                entries =
                    build-IsEntry platform.hosts platform.clock platform.setup config dir d runtime
                      samples built;
                listened =
                    ap (serve platform.network (runtime_state runtime)) (sym started.bound)
                    ∙ (ap (λ (x : Runtime I). serve platform.network (runtime_state x) x.bind)
                          (sym same)
                        ∙ s);
              }
        ]

    configured-IsUp :
        (r : Result Error Config) (dir dir' : Dir) (runtime : Runtime I) (samples : List Sample)
        → loaded around cli ≡ r
        → configured platform cli r dir ≡ (dir', ok (served runtime samples))
        → IsUp platform cli runtime
    unfolding configured
    configured-IsUp (err e) dir dir' runtime samples l h = absurd (ground (arith, h))
    configured-IsUp (ok config) dir dir' runtime samples l h = elim (Bool-cases cli.check) [
      | inl checks ↦ absurd (ground (arith, h, checks))
      | inr runs ↦
          built-IsUp config dir dir' runtime samples
            (build platform.hosts platform.clock platform.setup config dir) refl l (rw runs at h)
    ]

    logged-IsUp :
        (x : Option H × Result Error (Unit {0})) (handle : Option H) (dir dir' : Dir)
        (runtime : Runtime I) (samples : List Sample)
        → logged around platform cli dir x ≡ (handle, dir', ok (served runtime samples))
        → IsUp platform cli runtime
    logged-IsUp (kept, err e) handle dir dir' runtime samples h = absurd (ground (arith, h))
    logged-IsUp (kept, ok u) handle dir dir' runtime samples h =
        configured-IsUp (loaded around cli) dir dir' runtime samples refl
          (ap (λ (r : Option H × Dir × Result Error (Outcome I)). (r.1, r.2)) h)

    -- A start that ends with a runtime that has served read a configuration that validates, whose
    -- tenants are within the engine's budget; the runtime was built of it, with tenants of that
    -- configuration only and its tasks in the background; and it listened on the configured address.
    pub main-IsUp :
        (handle handle' : Option H) (dir dir' : Dir) (runtime : Runtime I) (samples : List Sample)
        → main around platform cli handle dir ≡ (handle', dir', ok (served runtime samples))
        → IsUp platform cli runtime
    unfolding main
    main-IsUp handle handle' dir dir' runtime samples h =
        logged-IsUp
          (init around.var around.subscriber around.exporter cli.log_level cli.json handle) handle'
          dir dir' runtime samples h
