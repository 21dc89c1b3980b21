-- ===== src/Registry/Store/Integrity.antt =====
-- A directory is intact when each file that is named like a digest holds a blob of that digest.
use ember_edge.Prelude.{
  ℕ, ◌≡◌, false, some, [], ◌∷◌, arith, lookup, insert, remove, lookup-insert, lookup-remove,
  Bool-cases, inl, inr,
}
use ember_edge.Text.Basic.{Str, text, str_eq, str_eq_iff, str_Eq}
use ember_edge.Text.Ascii.{is_hexdigit}
use ember_edge.Registry.Digest.{Blob}
use ember_edge.Registry.Digest.Form.{IsHex64}
use ember_edge.Registry.Action.{Dir}
use ember_edge.Registry.Store.{temp_name, move_file}

module _ (sha256_hex : Blob → Str) where
  pub record IsIntact (dir : Dir) : Type 0 where
    pub at : (name : Str) (b : Blob) → IsHex64 name → lookup name dir ≡ some b → sha256_hex b ≡ name

pub hex_ne_temp : (pid : ℕ) (name : Str) → IsHex64 name → str_eq (temp_name pid) name ≡ false
unfolding temp_name str_eq text is_hexdigit
hex_ne_temp pid [] v = absurd (omega (arith, v.count))
hex_ne_temp pid (c ∷ name) v = ground (arith, v.digits)

module _ (sha256_hex : Blob → Str) where
  pub empty-IsIntact : IsIntact sha256_hex []
  unfolding lookup
  empty-IsIntact = record { at = λ name b v h. cc }

  pub temp-IsIntact :
      (pid : ℕ) (b : Blob) (dir : Dir)
      → IsIntact sha256_hex dir
      → IsIntact sha256_hex (insert (temp_name pid) b dir)
  temp-IsIntact pid b dir d = record {
    at = λ name c v h.
        d.at name c v
          (ground (arith, h, lookup-insert (temp_name pid) name b dir, hex_ne_temp pid name v));
  }

  pub move_file-IsIntact :
      (pid : ℕ) (b : Blob) (dir : Dir)
      → lookup (temp_name pid) dir ≡ some b
      → IsIntact sha256_hex dir
      → IsIntact sha256_hex (move_file (temp_name pid) (sha256_hex b) dir)
  unfolding move_file
  move_file-IsIntact pid b dir here d =
      rw (here, move_file)
        (record {
          at = λ name c v h. elim (Bool-cases (str_eq (sha256_hex b) name)) [
            | inl same ↦ ground (
              arith,
              h,
              same,
              str_eq_iff (sha256_hex b) name,
              lookup-insert (sha256_hex b) name b (remove (temp_name pid) dir),
            )
            | inr other ↦ d.at name c v (
                ground (
                  arith,
                  h,
                  other,
                  lookup-insert (sha256_hex b) name b (remove (temp_name pid) dir),
                  lookup-remove (temp_name pid) name dir,
                  hex_ne_temp pid name v,
                ))
          ];
        })
