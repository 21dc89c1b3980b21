-- ===== src/Sandbox/MemFs.antt =====
-- `MemFs`: a byte-quota'd map of files. Each method holds the lock on the map to its end, so it is
-- one step. `used` is a u64 counter; the test against the quota is made in i64.
pub mod Accounting
pub mod Quota
pub mod Contents
pub mod Refinement
use ember_edge.Prelude.{
  ℕ, ◌+◌, ◌-◌, ◌%◌, ◌≡◌, Bool, ◌&&◌, ◌||◌, Option, none, some, List, [], ◌∷◌, ◌++◌, arith,
  if◌then◌else◌, length, lookup, insert, remove, leb,
}
use ember_edge.Text.Basic.{Str, text, is_empty}
use ember_edge.Text.Decimal.{decimal}
use ember_edge.Numbers.{u64_mod, as_i64, add_i64}
use ember_edge.Numbers.Int.{ℤ, pos, sub_ℕ, pos_part, neg_part, ltb_ℤ}
use ember_edge.Errors.{Error}
use ember_edge.Errors.Monad.{Result, ok, err}
use ember_edge.Sandbox.ScratchPath.{Components, components, components_Eq, is_absolute}

abbrev pub Bytes : Type 0
Bytes = List ℕ

abbrev pub Files : Type 0
Files = List (Components × Bytes)

pub record MemFs : Type 0 where
  pub files : Files
  pub quota_bytes : ℕ
  pub used : ℕ

unfoldable pub new : ℕ → MemFs
new quota_bytes = record { files = []; quota_bytes = quota_bytes; used = 0 }

unfoldable pub used_bytes : MemFs → ℕ
used_bytes fs = fs.used

unfoldable pub read : MemFs → Str → Option Bytes
read fs path = lookup (components path) fs.files

unfoldable pub exists : MemFs → Str → Bool
unfolding read
exists fs path = elim (read fs path) [ none ↦ Bool.false | some b ↦ Bool.true ]

abbrev pub held_length : Option Bytes → ℕ
held_length none = 0
held_length (some b) = length b

-- `fetch_add` of a growth, or `fetch_sub` of a shrinkage.
unfoldable pub account : ℕ → ℤ → ℕ
account used delta = (used + pos_part delta + (u64_mod - neg_part delta % u64_mod)) % u64_mod

unfoldable pub over_quota : MemFs → ℤ → Bool
unfolding as_i64 add_i64
over_quota fs delta =
    ltb_ℤ (pos 0) delta && ltb_ℤ (as_i64 fs.quota_bytes) (add_i64 (as_i64 fs.used) delta)

unfoldable pub invalid_path : Str → Bool
unfolding is_empty is_absolute
invalid_path path = is_empty path || is_absolute path

-- A failing write returns before it changes anything.
unfoldable pub write : MemFs → Str → Bytes → Result Error MemFs
write fs path bytes =
    let delta = sub_ℕ (length bytes) (held_length (lookup (components path) fs.files)) in
    if invalid_path path
    then err (Error.limit_exceeded (text "invalid scratch path `" ++ (path ++ text "`")))
    else if over_quota fs delta
    then err (
        Error.limit_exceeded (
          text "memfs quota of "
          ++ (decimal fs.quota_bytes ++ (text " bytes exceeded writing `" ++ (path ++ text "`")))))
    else ok (record fs {
      used = account fs.used delta;
      files = insert (components path) bytes fs.files;
    })

-- `remove` of the map, then `fetch_sub` of what was removed.
unfoldable pub remove_file : MemFs → Str → MemFs × Option Bytes
remove_file fs path = elim (lookup (components path) fs.files) [
  | none ↦ (fs, none)
  | some removed ↦ (
    record fs {
      files = remove (components path) fs.files;
      used = (fs.used + (u64_mod - length removed % u64_mod)) % u64_mod;
    },
    some removed,
  )
]
