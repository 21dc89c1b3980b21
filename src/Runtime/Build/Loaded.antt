-- ===== src/Runtime/Build/Loaded.antt =====
-- The tenants of a runtime that was built.
use ember_edge.Prelude.{
  ℕ, append_assoc, ◌∙◌, sym, ◌≡◌, refl, List, [], ◌∷◌, ◌++◌, All, insert, Bool-cases, inl, inr,
}
use ember_edge.Text.Basic.{Str, str_eq, str_Eq, str_eq_iff}
use ember_edge.Telemetry.{Sample}
use ember_edge.Errors.Monad.{ok}
use ember_edge.Registry.Action.{Dir}
use ember_edge.Registry.Action.Yields.{Yields-lift, Yields, Anything, Yields-bind, Outcome-ok}
use ember_edge.Config.Data.{TenantConfig, Config}
use ember_edge.Runtime.Tenants.{Tenant, Tenants, Host, load_tenant}
use ember_edge.Runtime.Tenants.Built.{IsBuilt, Always, build_tenant-Yields}
use ember_edge.Runtime.Build.{Runtime, Setup, load_tenants, with_client, build}

-- An entry of the registry of tenants is for one of the configured tenants, under its name.
pub record IsEntry {I : Type 0} (hosts : TenantConfig → Host) (cfgs : List TenantConfig)
    (e : Str × Tenant I) : Type 0 where
  pub cfg : TenantConfig
  pub before : List TenantConfig
  pub behind : List TenantConfig
  pub configured : cfgs ≡ before ++ (cfg ∷ behind)
  pub key : e.0 ≡ cfg.name
  pub made : IsBuilt (hosts cfg) cfg e.1

All-insert :
    {I : Type 0} (P : Str × Tenant I → Type 0) (k : Str) (v : Tenant I) (m : Tenants I)
    → P (k, v)
    → All P m
    → All P (insert k v m)
unfolding insert
All-insert P k v [] p ps = (p, tt)
All-insert P k v ((j, w) ∷ m) p ps = elim (Bool-cases (str_eq j k)) [
  | inl same ↦ rw same (rw ((str_eq_iff j k).0 same) p, ps.1)
  | inr other ↦ rw other (ps.0, All-insert P k v m p ps.1)
]

module _ {I : Type 0} (hosts : TenantConfig → Host) (clock : TenantConfig → ℕ)
    (all : List TenantConfig) where
  abbrev Entries : Tenants I × List Sample → Type 0
  Entries (tenants, samples) = All (IsEntry hosts all) tenants

  load_tenant-Yields :
      (cfg : TenantConfig) (before behind : List TenantConfig) (tenants : Tenants I)
      → all ≡ before ++ (cfg ∷ behind)
      → All (IsEntry hosts all) tenants
      → Yields Always Entries (load_tenant (hosts cfg) (clock cfg) cfg tenants)
  unfolding load_tenant
  load_tenant-Yields cfg before behind tenants c v =
      Yields-bind Always (IsBuilt (hosts cfg) cfg) Entries _ _
        (build_tenant-Yields (hosts cfg) (clock cfg) cfg)
        λ t b. record {
          at = λ dir _. (
            tt,
            All-insert (IsEntry hosts all) t.id.name t tenants
                (record {
                  cfg = cfg;
                  before = before;
                  behind = behind;
                  configured = c;
                  key = b.named;
                  made = b;
                })
                v,
          );
        }

  load_tenants-Yields :
      (before cfgs : List TenantConfig) (tenants : Tenants I)
      → all ≡ before ++ cfgs
      → All (IsEntry hosts all) tenants
      → Yields Always Entries (load_tenants hosts clock cfgs tenants)
  unfolding load_tenants
  load_tenants-Yields before [] tenants c v = record { at = λ dir _. (tt, v) }
  load_tenants-Yields before (cfg ∷ cfgs) tenants c v =
      Yields-bind Always Entries Entries _ _ (load_tenant-Yields cfg before cfgs tenants c v)
        λ first w.
          Yields-bind Always Entries Entries _ _
            (load_tenants-Yields (before ++ (cfg ∷ [])) cfgs first.0
              (c ∙ sym (append_assoc before (cfg ∷ []) cfgs)) w)
            λ rest z. record { at = λ dir _. (tt, z) }

module _ {I : Type 0} (hosts : TenantConfig → Host) (clock : TenantConfig → ℕ) (setup : Setup)
    (config : Config) where
  abbrev Registered : Runtime I × List Sample → Type 0
  Registered (runtime, samples) =
      All (IsEntry (with_client hosts config) config.tenants) runtime.tenants

  build-Yields : Yields Always Registered (build hosts clock setup config)
  unfolding build
  build-Yields = Yields-bind Always Anything Registered _ _ (Yields-lift Always _) λ a _.
      Yields-bind Always Anything Registered _ _ (Yields-lift Always _) λ b _.
        Yields-bind Always Anything Registered _ _ (Yields-lift Always _) λ c _.
          Yields-bind Always Anything Registered _ _ (Yields-lift Always _) λ registry _.
            Yields-bind Always (Entries (with_client hosts config) clock config.tenants) Registered
              _ _
              (load_tenants-Yields (with_client hosts config) clock config.tenants [] config.tenants
                [] refl tt)
              λ loaded v. record { at = λ dir _. (tt, v) }

  -- A runtime that was built keeps tenants of its configuration only, each under its configured
  -- name, with its configured source, a new pool, and a component of that source that meets the
  -- contract, compiles, and has the pinned digest where there is a pin.
  pub build-IsEntry :
      (dir dir' : Dir) (runtime : Runtime I) (samples : List Sample)
      → build hosts clock setup config dir ≡ (dir', ok (runtime, samples))
      → All (IsEntry (with_client hosts config) config.tenants) runtime.tenants
  build-IsEntry dir dir' runtime samples h =
      (Outcome-ok Always Registered _ dir' (runtime, samples) (build-Yields.at dir tt) h).1
