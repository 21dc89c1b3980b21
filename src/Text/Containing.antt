-- ===== src/Text/Containing.antt =====
-- Where a text stands within another.
use ember_edge.Prelude.{◌≡◌, ◌↔◌, ◌∙◌, refl, ap, true, [], ◌∷◌, ◌++◌, arith, Bool-cases, inl, inr}
use ember_edge.Text.Basic.{Str, starts_with, contains}

starts_with_iff : (p s : Str) → (starts_with p s ≡ true) ↔ ((rest : Str) × (s ≡ p ++ rest))
unfolding starts_with
starts_with_iff [] s = (λ h. (s, refl), λ x. refl)
starts_with_iff (p ∷ ps) [] = (λ h. cc, λ (rest, e). cc)
starts_with_iff (p ∷ ps) (c ∷ s) = (
  λ h.
      let more : starts_with ps s ≡ true = ground (arith, h) in
      let (rest, e) = (starts_with_iff ps s).0 more in (rest, ground (arith, h, e)),
  λ (rest, e).
      let tail : s ≡ ps ++ rest = ground (arith, e) in
      let more = (starts_with_iff ps s).1 (rest, tail) in ground (arith, e, more),
)

contains-prefix : (p s : Str) → starts_with p s ≡ true → contains p s ≡ true
unfolding contains
contains-prefix p [] h = h
contains-prefix p (c ∷ s) h = ground (arith, h)

contains-append : (p before after : Str) → contains p (before ++ (p ++ after)) ≡ true
unfolding contains
contains-append p [] after =
    contains-prefix p (p ++ after) ((starts_with_iff p (p ++ after)).1 (after, refl))
contains-append p (c ∷ before) after = ground (arith, contains-append p before after)

contains-some :
    (p s : Str)
    → contains p s ≡ true
    → (before : Str) × (after : Str) × (s ≡ before ++ (p ++ after))
unfolding contains
contains-some p [] h = let (rest, e) = (starts_with_iff p []).0 h in ([], rest, e)
contains-some p (c ∷ s) h = elim (Bool-cases (starts_with p (c ∷ s))) [
  | inl first ↦ let (rest, e) = (starts_with_iff p (c ∷ s)).0 first in ([], rest, e)
  | inr not_first ↦
      let (before, after, e) = contains-some p s (ground (arith, h, not_first)) in
      (c ∷ before, after, ap (λ t. c ∷ t) e)
]

pub contains_iff :
    (p s : Str)
    → (contains p s ≡ true) ↔ ((before : Str) × (after : Str) × (s ≡ before ++ (p ++ after)))
contains_iff p s =
    (contains-some p s, λ (before, after, e). ap (contains p) e ∙ contains-append p before after)
