-- ===== src/Registry/Digest/Form.antt =====
-- The digests that the two tests accept.
use ember_edge.Prelude.{
  ℕ, ◌≤◌, ◌≡◌, ◌↔◌, refl, true, false, [], ◌++◌, arith, length, all, Option-cases, inl, inr,
}
use ember_edge.Text.Basic.{Str, text, strip_prefix}
use ember_edge.Text.Ascii.{is_hexdigit}
use ember_edge.Text.Prefixes.{strip_prefix-append, strip_prefix-some}
use ember_edge.Text.Utf8.{all-bytes, bytes-ascii}
use ember_edge.Errors.{Error}
use ember_edge.Errors.Monad.{Result, ok, err, is_ok, Result-cases}
use ember_edge.Registry.Digest.{is_hex64, parse_digest, sanitize_digest}

is_hexdigit-ascii : (c : ℕ) → 128 ≤ c → is_hexdigit c ≡ false
unfolding is_hexdigit
is_hexdigit-ascii c h = ground arith

-- 64 hexadecimal digits.
pub record IsHex64 (hex : Str) : Type 0 where
  pub count : length hex ≡ 64
  pub digits : all is_hexdigit hex ≡ true

is_hex64_iff : (hex : Str) → (is_hex64 hex ≡ true) ↔ IsHex64 hex
unfolding is_hex64
is_hex64_iff hex =
    let same = all-bytes is_hexdigit is_hexdigit-ascii hex in
    let whole = bytes-ascii is_hexdigit is_hexdigit-ascii hex in
    (
      λ h.
          let chars : all is_hexdigit hex ≡ true = ground (arith, same) in
          record { count = ground (arith, whole chars); digits = chars },
      λ v. ground (arith, same, whole v.digits, v.count, v.digits),
    )

-- The file name of a digest is its 64 hexadecimal digits, and only a digest `sha256:` with 64
-- hexadecimal digits has one; configuration accepts exactly the digests that have one.
pub digest_forms :
    (s hex : Str)
    → ((sanitize_digest s ≡ ok hex) ↔ ((s ≡ text "sha256:" ++ hex) × IsHex64 hex))
      × (is_ok (parse_digest s) ≡ is_ok (sanitize_digest s))
unfolding sanitize_digest parse_digest
digest_forms s hex = (
  (
    λ h. sanitized h,
    λ (e, v). ground (arith, e, (is_hex64_iff hex).1 v, strip_prefix-append (text "sha256:") hex),
  ),
  ground arith,
)
  where
    sanitized : sanitize_digest s ≡ ok hex → (s ≡ text "sha256:" ++ hex) × IsHex64 hex
    sanitized h = elim (Option-cases (strip_prefix (text "sha256:") s)) [
      | inl e ↦ ground (arith, e)
      | inr (rest, e) ↦
          ground (arith, e, is_hex64_iff rest, strip_prefix-some (text "sha256:") s rest e)
    ]

-- `sha256:` and 64 hexadecimal digits.
abbrev pub IsDigest : Str → Type 0
IsDigest s = (hex : Str) × (s ≡ text "sha256:" ++ hex) × IsHex64 hex

pub parse_digest_iff : (s : Str) → (parse_digest s ≡ ok tt) ↔ IsDigest s
parse_digest_iff s = (
  λ h. elim (Result-cases (sanitize_digest s)) [
    | inl (hex, e) ↦ let (cut, v) = (digest_forms s hex).0.0 e in (hex, cut, v)
    | inr (f, e) ↦ ground (arith, h, e, (digest_forms s []).1)
  ],
  λ (hex, e, v).
      unit_of_ok (parse_digest s)
        (ground (arith, (digest_forms s hex).0.1 (e, v), (digest_forms s hex).1)),
)
  where
    unit_of_ok : (r : Result Error (Unit {0})) → is_ok r ≡ true → r ≡ ok tt
    unit_of_ok (ok u) h = refl
    unit_of_ok (err e) h = cc
