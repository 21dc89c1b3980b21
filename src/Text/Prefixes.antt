-- ===== src/Text/Prefixes.antt =====
-- A prefix that is stripped, and one that was put in front.
use ember_edge.Prelude.{◌≡◌, refl, some, [], ◌∷◌, ◌++◌, arith, ==_self}
use ember_edge.Text.Basic.{Str, strip_prefix}

pub strip_prefix-append : (p s : Str) → strip_prefix p (p ++ s) ≡ some s
unfolding strip_prefix
strip_prefix-append [] s = refl
strip_prefix-append (c ∷ p) s = rw (==_self c) (strip_prefix-append p s)

pub strip_prefix-some : (p s rest : Str) → strip_prefix p s ≡ some rest → s ≡ p ++ rest
unfolding strip_prefix
strip_prefix-some [] s rest h = cc
strip_prefix-some (c ∷ p) [] rest h = cc
strip_prefix-some (c ∷ p) (x ∷ s) rest h = ground (arith, strip_prefix-some p s rest)
