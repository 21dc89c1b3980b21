-- ===== src/Text/Splitting.antt =====
-- Splitting at a character and joining again, and both against lower case.
use ember_edge.Prelude.{
  ℕ, ◌≡◌, refl, sym, ap, ◌∙◌, List, [], ◌∷◌, ◌++◌, map, arith, ◌==◌, Bool-cases, inl, inr,
  append_assoc,
}
use ember_edge.Text.Basic.{Str, split, push_front, join}
use ember_edge.Text.Ascii.{to_lower, to_lowercase}

-- The pieces of a text, seen from its end: a first piece and the others.
pub split-cons : (c : ℕ) (s : Str) → (p : Str) × (ps : List Str) × (split c s ≡ p ∷ ps)
unfolding split
split-cons c [] = ([], [], refl)
split-cons c (x ∷ s) = elim (Bool-cases (x == c)) [
  | inl e ↦ ([], split c s, rw (e, split))
  | inr e ↦ let (p, ps, h) = split-cons c s in (x ∷ p, ps, rw (e, split) (rw (h, push_front)))
]

join-push_front : (c x : ℕ) (ps : List Str) → join (c ∷ []) (push_front x ps) ≡ x ∷ join (c ∷ []) ps
unfolding join push_front
join-push_front c x [] = refl
join-push_front c x (p ∷ []) = refl
join-push_front c x (p ∷ q ∷ qs) = refl

join-nil_cons : (c : ℕ) (s : Str) → join (c ∷ []) ([] ∷ split c s) ≡ c ∷ join (c ∷ []) (split c s)
unfolding join
join-nil_cons c s = let (p, ps, h) = split-cons c s in rw h

pub join-split : (c : ℕ) (s : Str) → join (c ∷ []) (split c s) ≡ s
unfolding split
join-split c [] = unfold join in refl
join-split c (x ∷ s) =
    ground (arith, join-split c s, join-push_front c x (split c s), join-nil_cons c s)

push_front-append :
    (x : ℕ) (p : Str) (ps qs : List Str)
    → push_front x ((p ∷ ps) ++ qs) ≡ push_front x (p ∷ ps) ++ qs
unfolding push_front
push_front-append x p ps qs = refl

pub split-append : (c : ℕ) (a b : Str) → split c (a ++ (c ∷ b)) ≡ split c a ++ split c b
unfolding split
split-append c [] b = ground arith
split-append c (x ∷ a) b =
    let (p, ps, h) = split-cons c a in
    ground (arith, split-append c a b, h, push_front-append x p ps (split c b))

pub join-append :
    (sep p q : Str) (ps qs : List Str)
    → join sep ((p ∷ ps) ++ (q ∷ qs)) ≡ join sep (p ∷ ps) ++ (sep ++ join sep (q ∷ qs))
unfolding join
join-append sep p q [] qs = refl
join-append sep p q (r ∷ ps) qs = rw (join-append sep r q ps qs) (simp append_assoc)

-- A separator that is no upper-case letter, nor the lower case of one, splits alike in lower case.
map-push_front :
    (x : ℕ) (ps : List Str)
    → map to_lowercase (push_front x ps) ≡ push_front (to_lower x) (map to_lowercase ps)
unfolding push_front to_lowercase
map-push_front x [] = refl
map-push_front x (p ∷ ps) = refl

to_lower_dot : (x : ℕ) → (to_lower x == b'.') ≡ (x == b'.')
unfolding to_lower
to_lower_dot x = ground arith

pub split-to_lowercase : (s : Str) → split b'.' (to_lowercase s) ≡ map to_lowercase (split b'.' s)
unfolding split to_lowercase
split-to_lowercase [] = refl
split-to_lowercase (x ∷ s) = elim (Bool-cases (x == b'.')) [
  | inl e ↦ rw (to_lower_dot x, e) (ap (λ ps. [] ∷ ps) (split-to_lowercase s))
  | inr e ↦
      rw (to_lower_dot x, e) (rw (split-to_lowercase s) (sym (map-push_front x (split b'.' s))))
]

-- Texts with the same pieces are the same.
pub split-injective : (c : ℕ) (a b : Str) → split c a ≡ split c b → a ≡ b
split-injective c a b h = sym (join-split c a) ∙ (ap (join (c ∷ [])) h ∙ join-split c b)
