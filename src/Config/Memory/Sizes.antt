-- ===== src/Config/Memory/Sizes.antt =====
-- What `parse_memory` makes of a decimal number with a unit.
use ember_edge.Prelude.{
  ℕ, ◌*◌, ◌^◌, ◌⊎◌, ◌<◌, ◌≤◌, ◌≡◌, refl, ap, ◌∙◌, true, false, not, Option, none, some, [], ◌∷◌,
  ◌++◌, arith, all, ltb, reverse, if◌then◌else◌, inl, inr,
}
use mathlib.Core.List.{reverse-reverse, reverse-cons}
use ember_edge.Text.Basic.{Str, text, str_eq, is_empty}
use ember_edge.Text.Ascii.{
  is_digit, is_lower, to_lower, is_whitespace, trim_start, trim, to_lowercase,
}
use ember_edge.Text.Decimal.{
  decimal, digits_value, digits_value-decimal, all_digits-decimal, is_empty-decimal,
}
use ember_edge.Numbers.{u64_mod, checked_mul}
use ember_edge.Errors.Monad.{value_of}
use ember_edge.Config.Memory.{cut_digits, unit_multiplier, parse_usize, parse_memory}

-- A text that holds no white space.
abbrev pub IsSolid : Str → Type 0
IsSolid s = all (λ c. not (is_whitespace c)) s ≡ true

trim_start-solid : (s : Str) → IsSolid s → trim_start s ≡ s
unfolding trim_start
trim_start-solid [] h = refl
trim_start-solid (c ∷ s) h = ground arith

IsSolid-append : (xs ys : Str) → IsSolid xs → IsSolid ys → IsSolid (xs ++ ys)
IsSolid-append [] ys h k = k
IsSolid-append (x ∷ xs) ys h k = ground (arith, IsSolid-append xs ys)

IsSolid-reverse : (s : Str) → IsSolid s → IsSolid (reverse s)
IsSolid-reverse [] h = refl
IsSolid-reverse (c ∷ s) h =
    rw (reverse-cons c s)
      (IsSolid-append (reverse s) (c ∷ []) (IsSolid-reverse s (ground arith)) (ground arith))

trim-solid : (s : Str) → IsSolid s → trim s ≡ s
unfolding trim
trim-solid s h =
    rw (trim_start-solid s h, trim_start-solid (reverse s) (IsSolid-reverse s h))
      (reverse-reverse s)

digit-solid : (c : ℕ) → is_digit c ≡ true → is_whitespace c ≡ false
unfolding is_digit is_whitespace
digit-solid c h = ground arith

digits-IsSolid : (s : Str) → all is_digit s ≡ true → IsSolid s
digits-IsSolid [] h = refl
digits-IsSolid (c ∷ s) h = ground (arith, digit-solid c, digits-IsSolid s)

letter_facts :
    (c : ℕ) → is_lower (to_lower c) ≡ true → (is_digit c ≡ false) × (is_whitespace c ≡ false)
unfolding is_lower to_lower is_digit is_whitespace
letter_facts c h = ground arith

letters-IsSolid : (s : Str) → all is_lower (to_lowercase s) ≡ true → IsSolid s
unfolding to_lowercase
letters-IsSolid [] h = refl
letters-IsSolid (c ∷ s) h = ground (arith, letter_facts c, letters-IsSolid s)

cut_digits-letters : (s : Str) → all is_lower (to_lowercase s) ≡ true → cut_digits s ≡ ([], s)
unfolding to_lowercase cut_digits
cut_digits-letters [] h = refl
cut_digits-letters (c ∷ s) h = ground (arith, letter_facts c)

cut_digits-append :
    (digits unit : Str)
    → all is_digit digits ≡ true
    → cut_digits unit ≡ ([], unit)
    → cut_digits (digits ++ unit) ≡ (digits, unit)
unfolding cut_digits
cut_digits-append [] unit h u = u
cut_digits-append (c ∷ s) unit h u = ground (arith, cut_digits-append s unit)

is_empty-append : (a b : Str) → is_empty a ≡ false → is_empty (a ++ b) ≡ false
unfolding is_empty
is_empty-append [] b h = cc
is_empty-append (c ∷ a) b h = refl

-- The units of a size, and how they are spelled, in any case of letters.
pub data Scale : Type 0 where
  plain kilo mega giga : Scale

abbrev pub factor : Scale → ℕ
factor plain = 1
factor kilo = 1024
factor mega = 1024 ^ 2
factor giga = 1024 ^ 3

abbrev pub Spells : Scale → Str → Type 0
Spells plain unit = unit ≡ []
Spells kilo unit =
    (to_lowercase unit ≡ text "k")
    ⊎ ((to_lowercase unit ≡ text "kb") ⊎ (to_lowercase unit ≡ text "kib"))
Spells mega unit =
    (to_lowercase unit ≡ text "m")
    ⊎ ((to_lowercase unit ≡ text "mb") ⊎ (to_lowercase unit ≡ text "mib"))
Spells giga unit =
    (to_lowercase unit ≡ text "g")
    ⊎ ((to_lowercase unit ≡ text "gb") ⊎ (to_lowercase unit ≡ text "gib"))

-- What a spelling gives the parser: a multiplier, and letters only.
abbrev Reads : Scale → Str → Type 0
Reads s lower = (unit_multiplier lower ≡ some (factor s)) × (all is_lower lower ≡ true)

spelling-Reads : (s : Scale) (unit : Str) → Spells s unit → Reads s (to_lowercase unit)
unfolding unit_multiplier is_lower is_empty str_eq text
spelling-Reads plain unit e = rw e (unfold to_lowercase in (refl, refl))
spelling-Reads kilo unit (inl e) = rw e (refl, refl)
spelling-Reads kilo unit (inr (inl e)) = rw e (refl, refl)
spelling-Reads kilo unit (inr (inr e)) = rw e (refl, refl)
spelling-Reads mega unit (inl e) = rw e (refl, refl)
spelling-Reads mega unit (inr (inl e)) = rw e (refl, refl)
spelling-Reads mega unit (inr (inr e)) = rw e (refl, refl)
spelling-Reads giga unit (inl e) = rw e (refl, refl)
spelling-Reads giga unit (inr (inl e)) = rw e (refl, refl)
spelling-Reads giga unit (inr (inr e)) = rw e (refl, refl)

factor_pos : (s : Scale) → 0 < factor s
factor_pos plain = omega arith
factor_pos kilo = omega arith
factor_pos mega = omega arith
factor_pos giga = omega arith

le-mul : (v m : ℕ) → 0 < m → v ≤ v * m
le-mul v m h = grind arith

-- `n * m`, where it is below 2^64.
abbrev pub in_range : ℕ → Option ℕ
in_range n = if ltb n u64_mod then some n else none

parse_memory-cut :
    (size digits unit : Str) (m : ℕ)
    → cut_digits (trim size) ≡ (digits, unit)
    → is_empty (trim size) ≡ false
    → is_empty digits ≡ false
    → unit_multiplier (to_lowercase unit) ≡ some m
    → 0 < m
    → value_of (parse_memory size) ≡ in_range (digits_value digits * m)
unfolding parse_memory parse_usize checked_mul
parse_memory-cut size digits unit m c e d u p =
    rw (c, parse_memory) (rw (e, d, u) (ground (arith, le-mul (digits_value digits) m p)))

-- A decimal number with a unit after it, letters in any case, is read as the number times the
-- unit's power of 1024, and is refused exactly when that product is not below 2^64.
pub parse_memory-decimal :
    (n : ℕ) (s : Scale) (unit : Str)
    → Spells s unit
    → value_of (parse_memory (decimal n ++ unit)) ≡ in_range (n * factor s)
parse_memory-decimal n s unit u =
    let (multiplier, letters) = spelling-Reads s unit u in
    let whole = trim-solid (decimal n ++ unit) (
      IsSolid-append (decimal n) unit (digits-IsSolid (decimal n) (all_digits-decimal n))
        (letters-IsSolid unit letters)) in
    parse_memory-cut (decimal n ++ unit) (decimal n) unit (factor s)
      (rw whole (
        cut_digits-append (decimal n) unit (all_digits-decimal n)
          (cut_digits-letters unit letters)))
      (rw whole (is_empty-append (decimal n) unit (is_empty-decimal n))) (is_empty-decimal n)
      multiplier (factor_pos s)
    ∙ ap (λ v. in_range (v * factor s)) (digits_value-decimal n)
