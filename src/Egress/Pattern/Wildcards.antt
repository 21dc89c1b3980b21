-- ===== src/Egress/Pattern/Wildcards.antt =====
-- What `host_matches` accepts, in terms of the two texts, for an exact pattern and for `*.rest`.
use ember_edge.Prelude.{
  suc, ◌-◌, ◌≡◌, ◌↔◌, ◌⊎◌, inl, inr, refl, sym, ap, ◌∙◌, true, false, List, [], ◌∷◌, ◌++◌, map,
  arith, length, drop, take, take-append-drop, length-drop, length-append, drop-append,
}
use mathlib.Core.List.{map-append}
use ember_edge.Text.Basic.{Str, text, str_eq, split, join}
use ember_edge.Text.Ascii.{to_lowercase, eq_ignore_case, eq_ignore_case_iff}
use ember_edge.Text.Splitting.{
  split-append, join-append, join-split, split-to_lowercase, split-cons, split-injective,
}
use ember_edge.Egress.Pattern.{
  zip_all, is_star, label_matches, suffix_matches, labels_match, host_matches,
}

abbrev lowered : List Str → List Str
lowered = map to_lowercase

zip_all-eq_ignore_case :
    (a b : List Str)
    → length a ≡ length b
    → (zip_all eq_ignore_case a b ≡ true) ↔ (lowered a ≡ lowered b)
unfolding zip_all
zip_all-eq_ignore_case [] [] h = ground arith
zip_all-eq_ignore_case [] (y ∷ b) h = absurd (omega arith)
zip_all-eq_ignore_case (x ∷ a) [] h = absurd (omega arith)
zip_all-eq_ignore_case (x ∷ a) (y ∷ b) h =
    ground (arith, eq_ignore_case_iff x y, zip_all-eq_ignore_case a b)

length-lowered : (a : List Str) → length (lowered a) ≡ length a
length-lowered [] = refl
length-lowered (x ∷ a) = ap suc (length-lowered a)

-- The suffix test, on the labels.
suffix_matches_sound :
    (suffix h : List Str)
    → suffix_matches suffix h ≡ true
    → (front back : List Str) × (h ≡ front ++ back) × (lowered back ≡ lowered suffix)
unfolding suffix_matches
suffix_matches_sound suffix h m =
    let k = length h - length suffix in
    (
      take k h,
      drop k h,
      sym (take-append-drop k h),
      ground (arith, zip_all-eq_ignore_case (drop k h) suffix, length-drop k h),
    )

pub suffix_matches_complete :
    (suffix front back : List Str)
    → lowered back ≡ lowered suffix
    → suffix_matches suffix (front ++ back) ≡ true
unfolding suffix_matches
suffix_matches_complete suffix front back e =
    let same : length back ≡ length suffix =
      omega (arith, ap length e, length-lowered back, length-lowered suffix) in
    let skipped : length (front ++ back) - length suffix ≡ length front =
      omega (arith, length-append front back) in
    rw (skipped, drop-append front back)
      (ground (arith, zip_all-eq_ignore_case back suffix same, length-append front back))

-- `host` is `rest` or a subdomain of it, in any case of letters.
abbrev pub IsUnder : Str → Str → Type 0
IsUnder rest host =
    (to_lowercase host ≡ to_lowercase rest)
    ⊎ ((front : Str) × (to_lowercase host ≡ front ++ (b'.' ∷ to_lowercase rest)))

host_matches-star :
    (rest host : Str)
    → host_matches (b'*' ∷ b'.' ∷ rest) host ≡ suffix_matches (split b'.' rest) (split b'.' host)
unfolding host_matches split str_eq text
host_matches-star rest host = let (p, ps, e) = split-cons b'.' rest in rw e

-- The two texts, from their labels.
IsUnder-of_labels :
    (rest host : Str) (front back : List Str)
    → split b'.' host ≡ front ++ back
    → lowered back ≡ lowered (split b'.' rest)
    → IsUnder rest host
IsUnder-of_labels rest host [] back h e = inl (
    split-injective b'.' _ _
      (split-to_lowercase host ∙ (ap lowered h ∙ (e ∙ sym (split-to_lowercase rest)))))
IsUnder-of_labels rest host (f ∷ fs) back h e =
    let (q, qs, cut) = split-cons b'.' (to_lowercase rest) in
    let labels : split b'.' (to_lowercase host) ≡ lowered (f ∷ fs) ++ (q ∷ qs) =
      split-to_lowercase host
      ∙ (ap lowered h
          ∙ (map-append to_lowercase (f ∷ fs) back
              ∙ ap (λ l. lowered (f ∷ fs) ++ l) (e ∙ (sym (split-to_lowercase rest) ∙ cut)))) in
    let joined : join (b'.' ∷ []) (q ∷ qs) ≡ to_lowercase rest =
      ap (join (b'.' ∷ [])) (sym cut) ∙ join-split b'.' (to_lowercase rest) in
    inr (
      join (b'.' ∷ []) (lowered (f ∷ fs)),
      sym (join-split b'.' (to_lowercase host))
          ∙ (ap (join (b'.' ∷ [])) labels
              ∙ (join-append (b'.' ∷ []) (to_lowercase f) q (lowered fs) qs
                  ∙ ap (λ s. join (b'.' ∷ []) (lowered (f ∷ fs)) ++ (b'.' ∷ s)) joined)),
    )

lowered-eq-append :
    (h front back : List Str)
    → lowered h ≡ front ++ back
    → (f : List Str) × (b : List Str) × (h ≡ f ++ b) × (lowered b ≡ back)
lowered-eq-append h [] back e = ([], h, refl, e)
lowered-eq-append [] (p ∷ front) back e = cc
lowered-eq-append (x ∷ h) (p ∷ front) back e =
    let (f, b, cut, low) = lowered-eq-append h front back (cc) in
    (x ∷ f, b, ap (λ l. x ∷ l) cut, low)

labels-of_IsUnder :
    (rest host : Str)
    → IsUnder rest host
    → (f : List Str) × (b : List Str) × (split b'.' host ≡ f ++ b)
      × (lowered b ≡ lowered (split b'.' rest))
labels-of_IsUnder rest host (inl e) = (
  [],
  split b'.' host,
  refl,
  sym (split-to_lowercase host) ∙ (ap (split b'.') e ∙ split-to_lowercase rest),
)
labels-of_IsUnder rest host (inr (front, e)) =
    lowered-eq-append (split b'.' host) (split b'.' front) (lowered (split b'.' rest)) (
      sym (split-to_lowercase host)
      ∙ (ap (split b'.') e
          ∙ (split-append b'.' front (to_lowercase rest)
              ∙ ap (λ l. split b'.' front ++ l) (split-to_lowercase rest))))

-- The pattern `*.rest` matches a host exactly when the host is `rest` or ends in `.rest`, letters
-- compared without case.
pub host_matches-wildcard :
    (rest host : Str) → (host_matches (b'*' ∷ b'.' ∷ rest) host ≡ true) ↔ IsUnder rest host
host_matches-wildcard rest host = (
  λ m.
      let (front, back, h, e) =
        suffix_matches_sound (split b'.' rest) (split b'.' host)
          (sym (host_matches-star rest host) ∙ m) in
      IsUnder-of_labels rest host front back h e,
  λ u.
      let (f, b, h, e) = labels-of_IsUnder rest host u in
      host_matches-star rest host
      ∙ (ap (suffix_matches (split b'.' rest)) h ∙ suffix_matches_complete (split b'.' rest) f b e),
)

-- No label is a wildcard.
abbrev pub IsPlain : List Str → Type 0
IsPlain [] = Unit
IsPlain (p ∷ ps) = (is_star p ≡ false) × IsPlain ps

zip_all-label_matches :
    (ps h : List Str) → IsPlain ps → zip_all label_matches ps h ≡ zip_all eq_ignore_case ps h
unfolding zip_all label_matches
zip_all-label_matches [] h plain = refl
zip_all-label_matches (p ∷ ps) [] plain = refl
zip_all-label_matches (p ∷ ps) (x ∷ h) plain = ground (arith, zip_all-label_matches ps h plain.1)

labels_match-plain :
    (ps h : List Str) → IsPlain ps → (labels_match ps h ≡ true) ↔ (lowered ps ≡ lowered h)
unfolding labels_match
labels_match-plain [] [] plain = ground arith
labels_match-plain [] (y ∷ h) plain = ground arith
labels_match-plain (p ∷ ps) h plain = (
  λ m. ground (arith, zip_all-label_matches (p ∷ ps) h plain, zip_all-eq_ignore_case (p ∷ ps) h),
  λ e.
      let same : length (p ∷ ps) ≡ length h =
        omega (arith, ap length e, length-lowered (p ∷ ps), length-lowered h) in
      ground
        (arith, zip_all-label_matches (p ∷ ps) h plain, zip_all-eq_ignore_case (p ∷ ps) h same),
)

-- A pattern with no `*` label matches a host exactly when the two are equal without case.
pub host_matches-exact :
    (pattern host : Str)
    → IsPlain (split b'.' pattern)
    → (host_matches pattern host ≡ true) ↔ (to_lowercase pattern ≡ to_lowercase host)
unfolding host_matches
host_matches-exact pattern host plain =
    let m = labels_match-plain (split b'.' pattern) (split b'.' host) plain in
    (
      λ h.
          split-injective b'.' _ _
            (split-to_lowercase pattern ∙ (m.0 h ∙ sym (split-to_lowercase host))),
      λ e. m.1 (sym (split-to_lowercase pattern) ∙ (ap (split b'.') e ∙ split-to_lowercase host)),
    )
