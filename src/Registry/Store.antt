-- ===== src/Registry/Store.antt =====
-- `ContentStore` (src/registry/store.rs): blobs in files named for their digests. The operating
-- system's answers to one `put` are an argument of it.
pub mod Integrity
pub mod Calls
pub mod Crash
pub mod Contents
pub mod Writes
use ember_edge.Prelude.{
  ℕ, ◌+◌, ◌%◌, ◌≡◌, Bool, true, false, not, ◌&&◌, ◌||◌, Option, none, some, List, [], ◌∷◌, ◌++◌,
  arith, if◌then◌else◌, length, lookup, insert, remove, take,
}
use ember_edge.Text.Basic.{Str, str_eq, str_Eq, text, starts_with}
use ember_edge.Text.Decimal.{decimal}
use ember_edge.Numbers.{u64_mod}
use ember_edge.Errors.{Error}
use ember_edge.Errors.Monad
use ember_edge.Errors.Monad.{Result, ok, err, map_err}
use ember_edge.Registry.Digest.{Blob, digest, sanitize_digest}
use ember_edge.Registry.Action.{Dir, Action, Stateful, ◌>>=◌, ◌>>◌, pure, lift, reads, changes}

-- A store is known by its root; its files are the directory that actions change.
pub record ContentStore : Type 0 where
  pub root : Str

-- `create_dir_all` is the system's answer to the making of a directory.
unfoldable pub open_store : (Str → Result Str (Unit {0})) → Str → Result Error ContentStore
open_store create_dir_all root =
    Monad.◌>>=◌ (map_err Error.io (create_dir_all root)) λ u. ok (record { root = root })

-- The file of a digest within the root directory.
unfoldable pub blob_path : Str → Result Error Str
blob_path digest = sanitize_digest digest

abbrev pub present : Option Blob → Bool
present none = false
present (some b) = true

unfoldable pub file_exists : Str → Dir → Bool
file_exists name dir = present (lookup name dir)

pub data Renamed : Type 0 where
  moved already_exists : Renamed
  failed : Str → Renamed

-- What the system answers; a failing write has written some bytes.
pub record SystemAnswers : Type 0 where
  pub pid : ℕ
  pub create : Result Str (Unit {0})
  pub written : ℕ
  pub write_all : Result Str (Unit {0})
  pub sync_all : Result Str (Unit {0})
  pub rename : Renamed

unfoldable pub temp_name : ℕ → Str
temp_name pid = text ".tmp-" ++ decimal pid

-- The disk during a `put`: the files as programs see them, and the names of those of whose data not
-- all is known to be on the medium.
pub record Disk : Type 0 where
  pub files : Dir
  pub unsynced : Str → Bool

-- The temporary file holds these bytes, and not all of them are known to be on the medium.
abbrev pub touched : SystemAnswers → Blob → Disk → Disk
touched sys b disk = record {
  files = insert (temp_name sys.pid) b disk.files;
  unsynced = λ name. str_eq (temp_name sys.pid) name || disk.unsynced name;
}

-- The system calls of `put`, each a change of the disk with its answer.
unfoldable pub create_file : SystemAnswers → Stateful Disk (Unit {0})
create_file sys disk = elim sys.create [
  | ok u ↦ (touched sys [] disk, ok tt)
  | err e ↦ (disk, err (Error.io e))
]

unfoldable pub write_file : SystemAnswers → Blob → Stateful Disk (Unit {0})
write_file sys blob disk = elim sys.write_all [
  | ok u ↦ (touched sys blob disk, ok tt)
  | err e ↦ (touched sys (take sys.written blob) disk, err (Error.io e))
]

unfoldable pub sync_file : SystemAnswers → Stateful Disk (Unit {0})
sync_file sys disk = elim sys.sync_all [
  | ok u ↦ (
    record disk { unsynced = λ name. not (str_eq (temp_name sys.pid) name) && disk.unsynced name },
    ok tt,
  )
  | err e ↦ (disk, err (Error.io e))
]

unfoldable pub move_file : Str → Str → Dir → Dir
move_file from to dir = elim (lookup from dir) [
  | none ↦ dir
  | some b ↦ insert to b (remove from dir)
]

-- The file keeps its data under the new name, also what is not synced.
unfoldable pub rename_file : SystemAnswers → Str → Stateful Disk (Unit {0})
unfolding move_file
rename_file sys to disk = elim sys.rename [
  | moved ↦ (
    record {
      files = move_file (temp_name sys.pid) to disk.files;
      unsynced = λ name. disk.unsynced (if str_eq to name then temp_name sys.pid else name);
    },
    ok tt,
  )
  | already_exists ↦ (disk, ok tt)
  | failed e ↦ (disk, err (Error.io e))
]

-- On a disk whose data is synced.
abbrev pub opened : Dir → Disk
opened dir = record { files = dir; unsynced = λ name. false }

abbrev pub on_disk : {A : Type 0} → Stateful Disk A → Action A
on_disk m dir = let (disk, r) = m (opened dir) in (disk.files, r)

unfoldable pub write_out : SystemAnswers → Blob → Str → Stateful Disk (Unit {0})
unfolding create_file write_file sync_file rename_file ◌>>=◌
write_out sys blob name = do
  create_file sys
  write_file sys blob
  sync_file sys
  rename_file sys name

module _ (sha256_hex : Blob → Str) where
  -- The part of `put` behind the test for a file that is there.
  unfoldable pub put_new : SystemAnswers → Blob → Str → Action Str
  unfolding write_out ◌>>=◌
  put_new sys blob name = do on_disk (write_out sys blob name); pure (digest sha256_hex blob)

  unfoldable pub put : SystemAnswers → Blob → Action Str
  unfolding ◌>>=◌
  put sys blob = do
    name ← lift (blob_path (digest sha256_hex blob))
    there ← reads (λ dir. ok (file_exists name dir))
    if there then pure (digest sha256_hex blob) else put_new sys blob name

unfoldable pub get : Str → Dir → Result Error Blob
unfolding blob_path
get digest dir = Monad.◌>>=◌ (blob_path digest) λ name. elim (lookup name dir) [
  | none ↦ err (Error.component_not_found digest)
  | some blob ↦ ok blob
]

unfoldable pub contains : Str → Dir → Bool
contains digest dir = elim (blob_path digest) [ ok name ↦ file_exists name dir | err e ↦ false ]

-- What the listing of the root directory says of an entry: its name, and the answer to the query of
-- its metadata.
pub record Entry : Type 0 where
  pub file_name : Str
  pub metadata : Result Str ℕ

unfoldable pub total_usage : ℕ → List (Result Str Entry) → Result Error ℕ
total_usage total [] = ok total
total_usage total (err e ∷ entries) = err (Error.io e)
total_usage total (ok entry ∷ entries) =
    if starts_with (text ".tmp") entry.file_name
    then total_usage total entries
    else Monad.◌>>=◌ (map_err Error.io entry.metadata)
        λ size. total_usage ((total + size) % u64_mod) entries

-- `read_dir` is the system's answer to the listing.
unfoldable pub disk_usage : Result Str (List (Result Str Entry)) → Result Error ℕ
unfolding total_usage
disk_usage read_dir = Monad.◌>>=◌ (map_err Error.io read_dir) (total_usage 0)
