-- ===== src/Tests/LifetimeTests.antt =====
-- The store over a start and two turns of the loop, on concrete values.
use ember_edge.Prelude.{ℕ, refl, [], ◌∷◌}
use ember_edge.Registry.Store.Integrity.{IsIntact, empty-IsIntact}
use ember_edge.Runtime.Build.{build}
use ember_edge.Runtime.Lifetime.{lived, lived-IsIntact}
use ember_edge.Runtime.Reload.Loop.{Turn}
use ember_edge.Tests.Fixtures.{host, gone_host, hex_of}
use ember_edge.Tests.BuildTests.{configuration, setup}

abbrev gone_turn : Turn ℕ
gone_turn = record {
  hosts = λ t. gone_host;
  now = 40_000_000_000;
  later = λ t. (40_000_000_001, 40_000_000_002);
}

abbrev host_turn : Turn ℕ
host_turn = record {
  hosts = λ t. host;
  now = 80_000_000_000;
  later = λ t. (80_000_000_001, 80_000_000_002);
}

lived-IsIntact_example : IsIntact hex_of (
    lived
      (gone_turn ∷ host_turn ∷ [])
      (build {I = ℕ} (λ cfg. host) (λ cfg. 5) setup configuration []))
lived-IsIntact_example =
    lived-IsIntact hex_of (λ cfg. host) (λ cfg. 5) setup (λ cfg. refl) configuration []
      (gone_turn ∷ host_turn ∷ []) (λ t. refl, (λ t. refl, tt)) (empty-IsIntact hex_of)
