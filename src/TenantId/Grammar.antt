-- ===== src/TenantId/Grammar.antt =====
-- The names that `TenantId::new` takes, by characters.
use ember_edge.Prelude.{
  ℕ, ◌≤◌, ◌<◌, ◌≡◌, ◌↔◌, ◌⊎◌, refl, false, true, [], ◌∷◌, arith, length, all, All,
}
use ember_edge.Text.Basic.{Str, is_empty}
use ember_edge.Text.Utf8.{all-bytes, bytes-ascii}
use ember_edge.Errors.Monad.{ok}
use ember_edge.TenantId.{TenantId, is_id_byte, new}

is_id_byte-ascii : (c : ℕ) → 128 ≤ c → is_id_byte c ≡ false
unfolding is_id_byte
is_id_byte-ascii c h = ground arith

-- A letter or digit of ASCII, `-` or `_`.
abbrev pub IsTenantChar : ℕ → Type 0
IsTenantChar c =
    ((b'a' ≤ c) × (c ≤ b'z'))
    ⊎ (((b'A' ≤ c) × (c ≤ b'Z')) ⊎ (((b'0' ≤ c) × (c ≤ b'9')) ⊎ ((c ≡ b'-') ⊎ (c ≡ b'_'))))

is_id_byte_iff : (c : ℕ) → (is_id_byte c ≡ true) ↔ IsTenantChar c
unfolding is_id_byte
is_id_byte_iff c = (λ h. ground (arith, h), λ h. ground (arith, h))

all_id_bytes_iff : (s : Str) → (all is_id_byte s ≡ true) ↔ All IsTenantChar s
all_id_bytes_iff [] = (λ h. tt, λ v. refl)
all_id_bytes_iff (c ∷ s) = (
  λ h.
      let first : is_id_byte c ≡ true = ground (arith, h) in
      let rest : all is_id_byte s ≡ true = ground (arith, h) in
      ((is_id_byte_iff c).0 first, (all_id_bytes_iff s).0 rest),
  λ (v, w).
      let first = (is_id_byte_iff c).1 v in
      let rest = (all_id_bytes_iff s).1 w in ground (arith, first, rest),
)

pub record IsTenantName (name : Str) : Type 0 where
  pub nonempty : 0 < length name
  pub short : length name ≤ 64
  pub characters : All IsTenantChar name

-- A name becomes a tenant id exactly when it has 1 to 64 characters, each an ASCII letter or digit,
-- `-` or `_`, and the id is that name.
pub new-grammar :
    (name : Str) (id : TenantId) → (new name ≡ ok id) ↔ (IsTenantName name × (id.name ≡ name))
unfolding new is_empty
new-grammar [] id = (λ h. cc, λ (v, e). absurd (omega (arith, v.nonempty)))
new-grammar (c ∷ s) id = (
  λ h.
      let chars : all is_id_byte (c ∷ s) ≡ true =
        ground (arith, all-bytes is_id_byte is_id_byte-ascii (c ∷ s)) in
      let whole = bytes-ascii is_id_byte is_id_byte-ascii (c ∷ s) chars in
      (
        record {
          nonempty = omega arith;
          short = ground (arith, whole);
          characters = (all_id_bytes_iff (c ∷ s)).0 chars;
        },
        ground arith,
      ),
  λ (v, e).
      let chars : all is_id_byte (c ∷ s) ≡ true = (all_id_bytes_iff (c ∷ s)).1 v.characters in
      ground (
        arith,
        v.short,
        chars,
        all-bytes is_id_byte is_id_byte-ascii (c ∷ s),
        bytes-ascii is_id_byte is_id_byte-ascii (c ∷ s) chars,
      ),
)
