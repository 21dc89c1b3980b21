-- ===== src/Text/Basic.antt =====
-- Texts as lists of code points: equality, UTF-8 length, prefixes, searching and splitting.
use Prim.Native.Char.{code}
use ember_edge.Prelude.{
  ℕ, ◌+◌, ◌/◌, ◌%◌, String, ◌≡◌, refl, ◌↔◌, Bool, true, false, ◌&&◌, ◌||◌, Option, none, some, List,
  [], ◌∷◌, ◌++◌, arith, ltb, ◌==◌, if◌then◌else◌, Eq,
}

abbrev pub Str : Type 0
Str = List ℕ

-- A literal of the source. It stays shut, so that messages do not spell themselves out in proofs.
unfoldable pub text : String → Str
text String.[] = []
text (String.◌∷◌ c s) = code c ∷ text s

unfoldable pub str_eq : Str → Str → Bool
str_eq [] [] = true
str_eq [] (y ∷ ys) = false
str_eq (x ∷ xs) [] = false
str_eq (x ∷ xs) (y ∷ ys) = x == y && str_eq xs ys

pub str_eq_iff : (s t : Str) → (str_eq s t ≡ true) ↔ (s ≡ t)
unfolding str_eq
str_eq_iff [] [] = ground arith
str_eq_iff [] (y ∷ ys) = ground arith
str_eq_iff (x ∷ xs) [] = ground arith
str_eq_iff (x ∷ xs) (y ∷ ys) = ground (arith, str_eq_iff xs ys)

instance abbrev pub str_Eq : Eq Str
str_Eq = record { beq = str_eq; beq_iff = str_eq_iff }

unfoldable pub is_empty {ℓ} : {A : Type ℓ} → List A → Bool
is_empty [] = true
is_empty (x ∷ xs) = false

-- The UTF-8 bytes of a code point: `str::bytes` and `str::len` go by these.
unfoldable pub encode_char : ℕ → List ℕ
encode_char c =
    if ltb c 0x80
    then c ∷ []
    else if ltb c 0x800
    then (0xC0 + c / 64) ∷ (0x80 + c % 64) ∷ []
    else if ltb c 0x1_0000
    then (0xE0 + c / 4096) ∷ (0x80 + c / 64 % 64) ∷ (0x80 + c % 64) ∷ []
    else (0xF0 + c / 262144) ∷ (0x80 + c / 4096 % 64) ∷ (0x80 + c / 64 % 64) ∷ (0x80 + c % 64) ∷ []

unfoldable pub bytes : Str → List ℕ
bytes [] = []
bytes (c ∷ s) = encode_char c ++ bytes s

unfoldable pub strip_prefix : Str → Str → Option Str
strip_prefix [] s = some s
strip_prefix (p ∷ ps) [] = none
strip_prefix (p ∷ ps) (c ∷ s) = if p == c then strip_prefix ps s else none

unfoldable pub starts_with : Str → Str → Bool
starts_with [] s = true
starts_with (p ∷ ps) [] = false
starts_with (p ∷ ps) (c ∷ s) = p == c && starts_with ps s

-- `str::find` of a text: what stands before its first occurrence, and what stands behind it.
unfoldable pub split_at_first : Str → Str → Option (Str × Str)
split_at_first pat [] = elim (strip_prefix pat []) [ none ↦ none | some rest ↦ some ([], rest) ]
split_at_first pat (c ∷ s) = elim (strip_prefix pat (c ∷ s)) [
  | some rest ↦ some ([], rest)
  | none ↦ elim (split_at_first pat s) [ none ↦ none | some (b, a) ↦ some (c ∷ b, a) ]
]

-- `str::contains` of a text, and of a character.
unfoldable pub contains : Str → Str → Bool
contains pat [] = starts_with pat []
contains pat (c ∷ s) = starts_with pat (c ∷ s) || contains pat s

unfoldable pub contains_char : ℕ → Str → Bool
contains_char c [] = false
contains_char c (x ∷ s) = x == c || contains_char c s

-- `str::rsplit_once` at a character.
unfoldable pub rsplit_once : ℕ → Str → Option (Str × Str)
rsplit_once c [] = none
rsplit_once c (x ∷ s) = elim (rsplit_once c s) [
  | some (b, a) ↦ some (x ∷ b, a)
  | none ↦ if x == c then some ([], s) else none
]

-- `str::split` at a character: one piece more than there are separators.
unfoldable pub push_front : ℕ → List Str → List Str
push_front x [] = (x ∷ []) ∷ []
push_front x (p ∷ ps) = (x ∷ p) ∷ ps

unfoldable pub split : ℕ → Str → List Str
unfolding push_front
split c [] = [] ∷ []
split c (x ∷ s) = if x == c then [] ∷ split c s else push_front x (split c s)

-- `[String]::join`.
unfoldable pub join : Str → List Str → Str
join sep [] = []
join sep (s ∷ []) = s
join sep (s ∷ t ∷ ts) = s ++ (sep ++ join sep (t ∷ ts))

split_example : split b'.' (text "a..b") ≡ text "a" ∷ [] ∷ text "b" ∷ []
unfolding split text
split_example = refl

split_at_first_example :
    split_at_first (text "://") (text "https://a://b") ≡ some (text "https", text "a://b")
unfolding split_at_first strip_prefix text
split_at_first_example = refl

rsplit_once_example : rsplit_once b':' (text "a:b:80") ≡ some (text "a:b", text "80")
unfolding rsplit_once text
rsplit_once_example = refl
