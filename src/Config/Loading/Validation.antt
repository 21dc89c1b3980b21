-- ===== src/Config/Loading/Validation.antt =====
-- What `Config::validate` accepts, and what it establishes.
use ember_edge.Prelude.{
  ◌<◌, ◌≡◌, ◌↔◌, refl, false, Option, none, some, List, [], ◌∷◌, arith, All, inl, inr,
}
use ember_edge.Text.Basic.{Str, is_empty}
use ember_edge.Errors.Monad.{ok, Result-cases}
use ember_edge.TenantId
use ember_edge.TenantId.Grammar.{IsTenantName, new-grammar}
use ember_edge.Sandbox.Limits.Clamping.{
  IsValid, IsWithin, validate-IsValid, clamp_to-IsWithin, clamp_to-IsValid, clamp_to-of_IsWithin,
}
use ember_edge.Registry.Digest.Form.{IsDigest, parse_digest_iff}
use ember_edge.Config.Data.{
  ComponentSource, TenantConfig, EngineConfig, Config, clamp_tenant, clamp_tenants,
}
use ember_edge.Config.Loading.{check_source, check_tenant, check_tenants, validate}

abbrev pub IsPin : Option Str → Type 0
IsPin none = Unit
IsPin (some pin) = IsDigest pin

-- A source that names something, with a pin of the right form if it has one.
abbrev pub IsSource : ComponentSource → Type 0
IsSource (ComponentSource.oci reference pin) = (is_empty reference ≡ false) × IsPin pin
IsSource (ComponentSource.file path) = is_empty path ≡ false

pub record IsAcceptable (t : TenantConfig) : Type 0 where
  pub limits : IsValid t.limits
  pub name : IsTenantName t.name
  pub source : IsSource t.component

check_source_iff : (name : Str) (s : ComponentSource) → (check_source name s ≡ ok tt) ↔ IsSource s
unfolding check_source
check_source_iff name (ComponentSource.oci reference none) =
    (λ h. (ground arith, tt), λ (e, _). ground (arith, e))
check_source_iff name (ComponentSource.oci reference (some pin)) = (
  λ h. (ground arith, (parse_digest_iff pin).0 (ground arith)),
  λ (e, d). ground (arith, e, (parse_digest_iff pin).1 d),
)
check_source_iff name (ComponentSource.file path) = (λ h. ground arith, λ e. ground (arith, e))

check_tenant_iff : (t : TenantConfig) → (check_tenant t ≡ ok tt) ↔ IsAcceptable t
unfolding check_tenant
check_tenant_iff t = (
  λ h. elim (Result-cases (TenantId.new t.name)) [
    | inl (id, e) ↦ record {
      limits = (validate-IsValid t.limits).0 (ground arith);
      name = ((new-grammar t.name id).0 e).0;
      source = (check_source_iff t.name t.component).0 (ground (arith, e));
    }
    | inr (f, e) ↦ absurd (ground (arith, e))
  ],
  λ v. ground (
    arith,
    (validate-IsValid t.limits).1 v.limits,
    (new-grammar t.name (record { name = t.name })).1 (v.name, refl),
    (check_source_iff t.name t.component).1 v.source,
  ),
)

check_tenants_iff : (ts : List TenantConfig) → (check_tenants ts ≡ ok tt) ↔ All IsAcceptable ts
unfolding check_tenants
check_tenants_iff [] = (λ h. tt, λ v. refl)
check_tenants_iff (t ∷ ts) = (
  λ h. ((check_tenant_iff t).0 (ground arith), (check_tenants_iff ts).0 (ground arith)),
  λ (v, vs). ground (arith, (check_tenant_iff t).1 v, (check_tenants_iff ts).1 vs),
)

-- The engine has a budget.
pub record HasBudget (e : EngineConfig) : Type 0 where
  pub memory : 0 < e.max_memory_bytes
  pub instances : 0 < e.max_instances

-- Validation succeeds exactly when the engine has a budget and each tenant has valid limits, a
-- tenant name, and a source that names something and whose pin, if any, is a digest; it then
-- changes nothing but the tenants' limits, which it clamps.
pub validate_iff :
    (c c' : Config)
    → (validate c ≡ ok c') ↔ (
        HasBudget c.engine
        × All IsAcceptable c.tenants
        × (c' ≡ record c { tenants = clamp_tenants c.engine c.tenants }))
unfolding validate
validate_iff c c' = (
  λ h. (
    record { memory = ground arith; instances = ground arith },
    (check_tenants_iff c.tenants).0 (ground arith),
    ground arith,
  ),
  λ (b, v, e). ground (arith, b.memory, b.instances, (check_tenants_iff c.tenants).1 v, e),
)

-- A tenant that can be activated: acceptable, and within the engine's budget.
pub record IsProvisioned (e : EngineConfig) (t : TenantConfig) : Type 0 where
  pub acceptable : IsAcceptable t
  pub within : IsWithin e.max_memory_bytes e.max_instances t.limits

clamp_tenant-IsProvisioned :
    (e : EngineConfig) (t : TenantConfig)
    → HasBudget e
    → IsAcceptable t
    → IsProvisioned e (clamp_tenant e t)
unfolding clamp_tenant
clamp_tenant-IsProvisioned e t b v = record {
  acceptable = record {
    limits =
        clamp_to-IsValid t.limits e.max_memory_bytes e.max_instances b.memory b.instances v.limits;
    name = v.name;
    source = v.source;
  };
  within = clamp_to-IsWithin t.limits e.max_memory_bytes e.max_instances;
}

clamp_tenants-IsProvisioned :
    (e : EngineConfig) (ts : List TenantConfig)
    → HasBudget e
    → All IsAcceptable ts
    → All (IsProvisioned e) (clamp_tenants e ts)
unfolding clamp_tenants
clamp_tenants-IsProvisioned e [] b v = tt
clamp_tenants-IsProvisioned e (t ∷ ts) b v =
    (clamp_tenant-IsProvisioned e t b v.0, clamp_tenants-IsProvisioned e ts b v.1)

-- After a successful validation every tenant is acceptable and its limits lie within the engine's
-- budget.
pub validate-IsProvisioned :
    (c c' : Config) → validate c ≡ ok c' → All (IsProvisioned c'.engine) c'.tenants
validate-IsProvisioned c c' h =
    let (b, v, e) = (validate_iff c c').0 h in
    rw e (clamp_tenants-IsProvisioned c.engine c.tenants b v)

clamp_tenants-of_IsProvisioned :
    (e : EngineConfig) (ts : List TenantConfig)
    → All (IsProvisioned e) ts
    → (All IsAcceptable ts) × (clamp_tenants e ts ≡ ts)
unfolding clamp_tenants clamp_tenant
clamp_tenants-of_IsProvisioned e [] v = (tt, refl)
clamp_tenants-of_IsProvisioned e (t ∷ ts) (v, vs) =
    let (acceptable, same) = clamp_tenants-of_IsProvisioned e ts vs in
    let fixed = clamp_to-of_IsWithin t.limits e.max_memory_bytes e.max_instances v.within in
    ((v.acceptable, acceptable), ground (arith, same, fixed))

-- A validated configuration is valid, and validating it again changes nothing.
pub validate_idem : (c c' : Config) → validate c ≡ ok c' → validate c' ≡ ok c'
validate_idem c c' h =
    let (b, v, e) = (validate_iff c c').0 h in
    let (acceptable, same) =
      clamp_tenants-of_IsProvisioned c'.engine c'.tenants (validate-IsProvisioned c c' h) in
    (validate_iff c' c').1 (rw e b, acceptable, rw same)
