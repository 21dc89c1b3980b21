-- ===== src/Text/Utf8.antt =====
-- Tests on the bytes of a text, for tests that only ASCII bytes pass.
use ember_edge.Prelude.{
  ℕ, ◌+◌, ◌/◌, ◌≤◌, ◌≡◌, refl, Bool, true, false, ◌&&◌, List, [], ◌∷◌, ◌++◌, arith, all,
}
use ember_edge.Text.Basic.{Str, bytes, encode_char}

all-append : (p : ℕ → Bool) (xs ys : List ℕ) → all p (xs ++ ys) ≡ (all p xs && all p ys)
all-append p [] ys = refl
all-append p (x ∷ xs) ys = ground (arith, all-append p xs ys)

module _ (p : ℕ → Bool) (ascii : (c : ℕ) → 128 ≤ c → p c ≡ false) where
  all-encode_char : (c : ℕ) → all p (encode_char c) ≡ p c
  unfolding encode_char
  all-encode_char c =
      ground
        (arith, ascii c, ascii (0xC0 + c / 64), ascii (0xE0 + c / 4096), ascii (0xF0 + c / 262144))

  pub all-bytes : (s : Str) → all p (bytes s) ≡ all p s
  unfolding bytes
  all-bytes [] = refl
  all-bytes (c ∷ s) =
      ground (arith, all-append p (encode_char c) (bytes s), all-encode_char c, all-bytes s)

  encode_char-ascii : (c : ℕ) → p c ≡ true → encode_char c ≡ c ∷ []
  unfolding encode_char
  encode_char-ascii c h = ground (arith, ascii c)

  pub bytes-ascii : (s : Str) → all p s ≡ true → bytes s ≡ s
  unfolding bytes
  bytes-ascii [] h = refl
  bytes-ascii (c ∷ s) h = ground (arith, encode_char-ascii c, bytes-ascii s)
