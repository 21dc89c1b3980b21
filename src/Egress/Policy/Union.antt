-- ===== src/Egress/Policy/Union.antt =====
-- `extend` against `allows`.
use ember_edge.Prelude.{◌≡◌, ◌⊎◌, true, ◌||◌, arith, any-append}
use ember_edge.Text.Basic.{Str}
use ember_edge.Sandbox.Limits.{EgressPolicy}
use ember_edge.Egress.Pattern.{pattern_matches}
use ember_edge.Egress.Policy.{allows, extend}

module _ (p q : EgressPolicy) (authority : Str) where
  -- Merging never admits an authority that neither policy admits.
  pub allows-extend-or :
      allows (extend p q) authority ≡ true
      → (allows p authority ≡ true) ⊎ (allows q authority ≡ true)
  unfolding allows extend
  allows-extend-or h =
      ground (arith, any-append (λ rule. pattern_matches rule authority) p.allow q.allow)

  -- Merging two policies that deny by default admits exactly what one of them admits.
  pub allows-extend :
      p.default_deny ≡ true
      → q.default_deny ≡ true
      → allows (extend p q) authority ≡ (allows p authority || allows q authority)
  unfolding allows extend
  allows-extend h k =
      ground (arith, any-append (λ rule. pattern_matches rule authority) p.allow q.allow)
