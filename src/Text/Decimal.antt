-- ===== src/Text/Decimal.antt =====
-- Decimal numbers: `to_string` of an unsigned integer, and `str::parse` of a run of digits.
use ember_edge.Prelude.{
  ℕ, zero, suc, ◌+◌, ◌-◌, ◌*◌, ◌/◌, ◌%◌, ◌≤◌, ◌<◌, ◌≡◌, refl, ap, ◌∙◌, true, false, [], ◌∷◌, arith,
  ltb, if◌then◌else◌, all, length, Bool-cases, inl, inr,
}
use ember_edge.Text.Basic.{Str, text, is_empty}
use ember_edge.Text.Ascii.{is_digit}

-- The digits of `n` before those of `rest`; the fuel is above `n`.
unfoldable pub digits_before : ℕ → ℕ → Str → Str
digits_before zero n rest = rest
digits_before (suc fuel) n rest =
    let more = digits_before fuel (n / 10) ((b'0' + n % 10) ∷ rest) in
    if ltb n 10 then (b'0' + n) ∷ rest else more

unfoldable pub decimal : ℕ → Str
unfolding digits_before
decimal n = digits_before (suc n) n []

-- The value of a run of digits that follows a number `acc`.
unfoldable pub value_after : ℕ → Str → ℕ
value_after acc [] = acc
value_after acc (c ∷ s) = value_after (acc * 10 + (c - b'0')) s

unfoldable pub digits_value : Str → ℕ
unfolding value_after
digits_value s = value_after 0 s

-- What `n / 10` and the last digit stand for together.
regroup_digit : (n : ℕ) → n / 10 * 10 + (b'0' + n % 10 - b'0') ≡ n
regroup_digit n = omega arith

value_after-digits_before :
    (fuel n : ℕ) (rest : Str)
    → n < fuel
    → value_after 0 (digits_before fuel n rest) ≡ value_after n rest
unfolding digits_before value_after
value_after-digits_before zero n rest h = elim h [ ]
value_after-digits_before (suc fuel) n rest h = elim (Bool-cases (ltb n 10)) [
  | inl small ↦ rw small (ap (λ k. value_after k rest) (omega arith))
  | inr large ↦ rw large (
      value_after-digits_before fuel (n / 10) ((b'0' + n % 10) ∷ rest) (ground arith)
      ∙ ap (λ k. value_after k rest) (regroup_digit n))
]

all_digits-digits_before :
    (fuel n : ℕ) (rest : Str)
    → all is_digit rest ≡ true
    → all is_digit (digits_before fuel n rest) ≡ true
unfolding digits_before is_digit
all_digits-digits_before zero n rest h = h
all_digits-digits_before (suc fuel) n rest h =
    ground (arith, all_digits-digits_before fuel (n / 10) ((b'0' + n % 10) ∷ rest))

-- Printing gives digits only, and the value of what is printed is the number.
pub digits_value-decimal : (n : ℕ) → digits_value (decimal n) ≡ n
unfolding digits_value decimal value_after
digits_value-decimal n = value_after-digits_before (suc n) n [] (omega arith)

pub all_digits-decimal : (n : ℕ) → all is_digit (decimal n) ≡ true
unfolding decimal
all_digits-decimal n = all_digits-digits_before (suc n) n [] refl

length-digits_before : (fuel n : ℕ) (rest : Str) → length rest ≤ length (digits_before fuel n rest)
unfolding digits_before
length-digits_before zero n rest = omega arith
length-digits_before (suc fuel) n rest =
    ground (arith, length-digits_before fuel (n / 10) ((b'0' + n % 10) ∷ rest))

decimal-length : (n : ℕ) → 0 < length (decimal n)
unfolding decimal digits_before
decimal-length n = ground (arith, length-digits_before n (n / 10) ((b'0' + n % 10) ∷ []))

is_empty-of_length : (s : Str) → 0 < length s → is_empty s ≡ false
unfolding is_empty
is_empty-of_length [] h = absurd (omega arith)
is_empty-of_length (c ∷ s) h = refl

pub is_empty-decimal : (n : ℕ) → is_empty (decimal n) ≡ false
is_empty-decimal n = is_empty-of_length (decimal n) (decimal-length n)

decimal_example : decimal 1024 ≡ text "1024"
unfolding decimal text
decimal_example = refl
