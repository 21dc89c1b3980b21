-- ===== src/Egress/Policy.antt =====
-- `EgressPolicy`: the default, `allows` and `extend`.
pub mod Union
use ember_edge.Prelude.{◌≡◌, Bool, true, not, ◌||◌, List, [], ◌++◌, if◌then◌else◌, any}
use ember_edge.Text.Basic.{Str}
use ember_edge.Sandbox.Limits.{EgressPolicy}
use ember_edge.Egress.Pattern.{pattern_matches}

abbrev pub default_policy : EgressPolicy
default_policy = record { allow = []; default_deny = true }

unfoldable pub allows : EgressPolicy → Str → Bool
allows policy authority =
    if any (λ rule. pattern_matches rule authority) policy.allow
    then true
    else not policy.default_deny

unfoldable pub extend : EgressPolicy → EgressPolicy → EgressPolicy
extend policy other = record {
  allow = policy.allow ++ other.allow;
  default_deny = policy.default_deny || other.default_deny;
}
