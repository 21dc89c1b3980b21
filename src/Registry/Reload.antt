-- ===== src/Registry/Reload.antt =====
-- `HotReloadPolicy` (src/registry/store.rs): when a digest is worth swapping in, and when the
-- failure budget is spent. Durations are in nanoseconds.
use ember_edge.Prelude.{ℕ, Bool, true, false, not, Option, none, some, leb}
use ember_edge.Text.Basic.{Str, str_eq}
use ember_edge.Numbers.{from_secs}

pub record HotReloadPolicy : Type 0 where
  pub poll_interval : ℕ
  pub debounce : ℕ
  pub require_pinned : Bool
  pub max_failed_polls : ℕ

abbrev pub default_policy : HotReloadPolicy
default_policy = record {
  poll_interval = from_secs 30;
  debounce = from_secs 5;
  require_pinned = false;
  max_failed_polls = 3;
}

unfoldable pub should_reload : HotReloadPolicy → Option Str → Str → Bool
should_reload policy (some prev) next = not (str_eq prev next)
should_reload policy none next = true

unfoldable pub exhausted : HotReloadPolicy → ℕ → Bool
exhausted policy failures = leb policy.max_failed_polls failures
