-- ===== src/TenantId.antt =====
-- `TenantId` (src/runtime.rs): the grammar of tenant names.
pub mod Grammar
use ember_edge.Prelude.{ℕ, Bool, not, ◌||◌, ◌++◌, arith, ltb, ◌==◌, length, all}
use ember_edge.Text.Basic.{Str, text, bytes, is_empty}
use ember_edge.Text.Ascii.{is_alphanumeric}
use ember_edge.Text.Decimal.{decimal}
use ember_edge.Errors.{Error}
use ember_edge.Errors.Monad.{Result, ok, ◌>>=◌, ◌>>◌, refuse_if}

-- The constant of src/lib.rs.
abbrev pub max_tenant_id_len : ℕ
max_tenant_id_len = 64

pub record TenantId : Type 0 where
  pub name : Str

unfoldable pub is_id_byte : ℕ → Bool
unfolding is_alphanumeric
is_id_byte b = is_alphanumeric b || (b == b'-' || b == b'_')

unfoldable pub new : Str → Result Error TenantId
new name = do
  refuse_if (is_empty name) (Error.config (text "tenant id must not be empty"))
  refuse_if (ltb max_tenant_id_len (length (bytes name))) (
      Error.config (
        text "tenant id `"
        ++ (name ++ (text "` exceeds " ++ (decimal max_tenant_id_len ++ text " characters")))))
  refuse_if (not (all is_id_byte (bytes name)))
      (Error.config (text "tenant id `" ++ (name ++ text "` may only contain [a-zA-Z0-9-_]")))
  ok (record { name = name })

unfoldable pub parse : Str → Result Error TenantId
parse s = new s
