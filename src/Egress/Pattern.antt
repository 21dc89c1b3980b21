-- ===== src/Egress/Pattern.antt =====
-- `pattern_matches` and its helpers: an allow rule against a requested authority.
pub mod Wildcards
use ember_edge.Prelude.{
  ℕ, zero, suc, ◌-◌, ◌≡◌, refl, Bool, true, false, not, ◌&&◌, ◌||◌, Option, none, some, List, [],
  ◌∷◌, arith, if◌then◌else◌, length, leb, ◌==◌, drop,
}
use ember_edge.Text.Basic.{Str, text, str_eq, split_at_first, rsplit_once, contains_char, split}
use ember_edge.Text.Ascii.{eq_ignore_case}

-- The scheme before `://`, if there is one, and the rest.
unfoldable pub split_scheme : Str → Option Str × Str
split_scheme s = elim (split_at_first (text "://") s) [
  | some (scheme, rest) ↦ (some scheme, rest)
  | none ↦ (none, s)
]

-- The host and the port, unless the part before the last `:` holds a `]`.
unfoldable pub split_authority : Str → Str × Option Str
split_authority s = elim (rsplit_once b':' s) [
  | some (host, port) ↦ if not (contains_char b']' host) then (host, some port) else (s, none)
  | none ↦ (s, none)
]

-- `a.iter().zip(b).all(f)`: the shorter list ends it.
unfoldable pub zip_all : (Str → Str → Bool) → List Str → List Str → Bool
zip_all f [] bs = true
zip_all f (a ∷ as') [] = true
zip_all f (a ∷ as') (b ∷ bs) = f a b && zip_all f as' bs

abbrev pub is_star : Str → Bool
is_star s = str_eq s (text "*")

-- One label of an exact pattern; `*` stands for any label.
unfoldable pub label_matches : Str → Str → Bool
label_matches a b = is_star a || eq_ignore_case a b

unfoldable pub suffix_matches : List Str → List Str → Bool
unfolding zip_all
suffix_matches suffix h =
    leb (length suffix) (length h)
    && zip_all eq_ignore_case (drop (length h - length suffix) h) suffix

-- A pattern that begins with `*`: alone it matches all hosts, else its other labels are a suffix.
unfoldable pub star_match : List Str → List Str → Bool
unfolding suffix_matches
star_match [] h = true
star_match (q ∷ qs) h = suffix_matches (q ∷ qs) h

unfoldable pub labels_match : List Str → List Str → Bool
unfolding star_match label_matches zip_all
labels_match [] h = length h == 0
labels_match (p ∷ ps) h =
    if is_star p
    then star_match ps h
    else (length (p ∷ ps) == length h) && zip_all label_matches (p ∷ ps) h

unfoldable pub host_matches : Str → Str → Bool
unfolding labels_match
host_matches pattern host = labels_match (split b'.' pattern) (split b'.' host)

-- Two optional parts that are both there and differ.
abbrev pub clash : (Str → Str → Bool) → Option Str → Option Str → Bool
clash same (some a) (some b) = not (same a b)
clash same (some a) none = false
clash same none b = false

unfoldable pub pattern_matches : Str → Str → Bool
pattern_matches rule authority =
    let (rule_scheme, rule_rest) = split_scheme rule in
    let (target_scheme, target) = split_scheme authority in
    let (rule_host, rule_port) = split_authority rule_rest in
    let (target_host, target_port) = split_authority target in
    if clash eq_ignore_case rule_scheme target_scheme
    then false
    else if clash str_eq rule_port target_port
    then false
    else host_matches rule_host target_host
