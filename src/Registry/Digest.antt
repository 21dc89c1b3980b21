-- ===== src/Registry/Digest.antt =====
-- Content digests: `digest` (the same code stands in store.rs, oci.rs and loader.rs), the check of
-- bytes against a digest, and the two tests of a digest's form. The hexadecimal text of SHA-256 is
-- a parameter.
pub mod Form
use ember_edge.Prelude.{
  ℕ, Bool, not, ◌&&◌, ◌||◌, Option, none, some, List, ◌++◌, arith, ◌==◌, length, all,
}
use ember_edge.Text.Basic.{Str, text, bytes, str_eq, strip_prefix}
use ember_edge.Text.Ascii.{is_hexdigit}
use ember_edge.Errors.{Error}
use ember_edge.Errors.Monad.{Result, ok, err, ◌>>=◌, ◌>>◌, refuse_if, ok_or}

abbrev pub Blob : Type 0
Blob = List ℕ

-- `sha256_hex blob` is `hex::encode(Sha256::digest(blob))`.
unfoldable pub digest : (Blob → Str) → Blob → Str
digest sha256_hex blob = text "sha256:" ++ sha256_hex blob

unfoldable pub verify_digest : (Blob → Str) → Blob → Str → Result Error (Unit {0})
verify_digest sha256_hex blob expected =
    let computed = digest sha256_hex blob in
    refuse_if (not (str_eq computed expected)) (Error.digest_mismatch expected computed)

-- 64 bytes, all of them hexadecimal digits.
unfoldable pub is_hex64 : Str → Bool
is_hex64 hex = (length (bytes hex) == 64) && all is_hexdigit (bytes hex)

-- oci.rs: the form that configuration accepts.
unfoldable pub parse_digest : Str → Result Error (Unit {0})
parse_digest s = do
  hex ←
      ok_or (strip_prefix (text "sha256:") s)
        (Error.config (text "digest `" ++ (s ++ text "` must use the sha256 scheme")))
  refuse_if (not (is_hex64 hex))
      (Error.config (text "malformed sha256 digest `" ++ (s ++ text "`")))
  ok tt

-- store.rs: the file name of a digest.
unfoldable pub sanitize_digest : Str → Result Error Str
sanitize_digest s = do
  hex ←
      ok_or (strip_prefix (text "sha256:") s)
        (Error.component_not_found (text "unsupported digest scheme in `" ++ (s ++ text "`")))
  refuse_if (not (is_hex64 hex))
      (Error.component_not_found (text "malformed sha256 digest `" ++ (s ++ text "`")))
  ok hex
