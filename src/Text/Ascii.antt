-- ===== src/Text/Ascii.antt =====
-- ASCII classes and case, on bytes and on characters, and white space.
use ember_edge.Prelude.{
  ℕ, ◌+◌, ◌≡◌, refl, ◌↔◌, Bool, true, false, ◌&&◌, ◌||◌, [], ◌∷◌, reverse, map, arith, leb, ◌==◌,
  if◌then◌else◌,
}
use ember_edge.Text.Basic.{Str, text}

unfoldable pub is_digit : ℕ → Bool
is_digit c = leb b'0' c && leb c b'9'

unfoldable pub is_upper : ℕ → Bool
is_upper c = leb b'A' c && leb c b'Z'

unfoldable pub is_lower : ℕ → Bool
is_lower c = leb b'a' c && leb c b'z'

unfoldable pub is_alphanumeric : ℕ → Bool
unfolding is_digit is_upper is_lower
is_alphanumeric c = is_digit c || (is_upper c || is_lower c)

unfoldable pub is_hexdigit : ℕ → Bool
unfolding is_digit
is_hexdigit c = is_digit c || ((leb b'a' c && leb c b'f') || (leb b'A' c && leb c b'F'))

unfoldable pub to_lower : ℕ → ℕ
unfolding is_upper
to_lower c = if is_upper c then c + 32 else c

unfoldable pub to_lowercase : Str → Str
unfolding to_lower
to_lowercase s = map to_lower s

-- `eq_ignore_ascii_case`.
unfoldable pub eq_ignore_case : Str → Str → Bool
unfolding to_lower
eq_ignore_case [] [] = true
eq_ignore_case [] (y ∷ ys) = false
eq_ignore_case (x ∷ xs) [] = false
eq_ignore_case (x ∷ xs) (y ∷ ys) = to_lower x == to_lower y && eq_ignore_case xs ys

pub eq_ignore_case_iff :
    (s t : Str) → (eq_ignore_case s t ≡ true) ↔ (to_lowercase s ≡ to_lowercase t)
unfolding eq_ignore_case to_lowercase
eq_ignore_case_iff [] [] = ground arith
eq_ignore_case_iff [] (y ∷ ys) = ground arith
eq_ignore_case_iff (x ∷ xs) [] = ground arith
eq_ignore_case_iff (x ∷ xs) (y ∷ ys) = ground (arith, eq_ignore_case_iff xs ys)

-- Unicode's White_Space, which `str::trim` strips.
unfoldable pub is_whitespace : ℕ → Bool
is_whitespace c =
    (leb 9 c && leb c 13)
    || (c == 0x20
        || (c == 0x85
            || (c == 0xA0
                || (c == 0x1680
                    || ((leb 0x2000 c && leb c 0x200A)
                        || (c == 0x2028
                            || (c == 0x2029 || (c == 0x202F || (c == 0x205F || c == 0x3000)))))))))

unfoldable pub trim_start : Str → Str
unfolding is_whitespace
trim_start [] = []
trim_start (c ∷ s) = if is_whitespace c then trim_start s else c ∷ s

unfoldable pub trim : Str → Str
unfolding trim_start
trim s = reverse (trim_start (reverse (trim_start s)))

trim_example : trim (text " 6 4k ") ≡ text "6 4k"
unfolding trim text
trim_example = refl
