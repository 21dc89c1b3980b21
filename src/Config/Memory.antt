-- ===== src/Config/Memory.antt =====
-- `parse_memory`: human-readable byte counts.
pub mod Sizes
use ember_edge.Prelude.{
  ℕ, ◌*◌, ◌≡◌, refl, Bool, ◌||◌, Option, none, some, List, [], ◌∷◌, ◌++◌, arith, ltb, if◌then◌else◌,
}
use ember_edge.Text.Basic.{Str, text, str_eq, is_empty}
use ember_edge.Text.Ascii.{is_digit, to_lowercase, trim}
use ember_edge.Text.Decimal.{digits_value}
use ember_edge.Numbers.{u64_mod, checked_mul}
use ember_edge.Errors.{Error, display}
use ember_edge.Errors.Monad.{Result, ok, err, ◌>>=◌, ◌>>◌, refuse_if, ok_or, map_err}

-- The text is cut before its first character that is no ASCII digit.
unfoldable pub cut_digits : Str → Str × Str
unfolding is_digit
cut_digits [] = ([], [])
cut_digits (c ∷ s) =
    let (digits, unit) = cut_digits s in if is_digit c then (c ∷ digits, unit) else ([], c ∷ s)

abbrev pub kib : ℕ
kib = 1024

abbrev pub mib : ℕ
mib = 1024 * 1024

abbrev pub gib : ℕ
gib = 1024 * 1024 * 1024

abbrev pub is_one_of : Str → Str → Str → Str → Bool
is_one_of a b c s = str_eq s a || (str_eq s b || str_eq s c)

-- The multiplier of a unit in lower case.
unfoldable pub unit_multiplier : Str → Option ℕ
unit_multiplier unit =
    if is_empty unit
    then some 1
    else if is_one_of (text "k") (text "kb") (text "kib") unit
    then some kib
    else if is_one_of (text "m") (text "mb") (text "mib") unit
    then some mib
    else if is_one_of (text "g") (text "gb") (text "gib") unit
    then some gib
    else none

abbrev pub invalid_size : Str → Error
invalid_size size = Error.config (text "invalid memory size `" ++ (size ++ text "`"))

-- `digits.parse::<usize>()` of a run of digits fails only on overflow.
unfoldable pub parse_usize : Str → Option ℕ
parse_usize digits = if ltb (digits_value digits) u64_mod then some (digits_value digits) else none

unfoldable pub parse_memory : Str → Result Error ℕ
parse_memory size =
    let (digits, unit) = cut_digits (trim size) in
    let lower = to_lowercase unit in
    do
      refuse_if (is_empty (trim size)) (Error.config (text "empty memory size"))
      refuse_if (is_empty digits) (invalid_size size)
      value ← ok_or (parse_usize digits) (invalid_size size)
      multiplier ←
          ok_or (unit_multiplier lower)
            (Error.config (text "unknown memory unit `" ++ (lower ++ text "`")))
      ok_or (checked_mul value multiplier)
          (Error.config (text "memory size `" ++ (size ++ text "` overflows")))

-- A memory budget in a configuration file: a number (a u64) or a text.
pub data MemSize : Type 0 where
  count : ℕ → MemSize
  human : Str → MemSize

-- `usize` has 64 bits here, so `try_from` does not fail.
unfoldable pub deserialize_memory : MemSize → Result Str ℕ
deserialize_memory (count b) = ok b
deserialize_memory (human t) = map_err display (parse_memory t)

sixty_four_k : parse_memory (text " 64K ") ≡ ok 65536
unfolding parse_memory cut_digits trim to_lowercase unit_multiplier is_empty str_eq parse_usize
    digits_value checked_mul text
sixty_four_k = refl

unknown_unit : parse_memory (text "12z") ≡ err (Error.config (text "unknown memory unit `z`"))
unfolding parse_memory cut_digits trim to_lowercase unit_multiplier is_empty str_eq parse_usize
    digits_value text
unknown_unit = refl
