-- ===== src/Registry/Store/Crash.antt =====
-- What is left when the machine stops between or within the system calls of `put`.
use ember_edge.Prelude.{◌≡◌, ◌⊎◌, refl, true, some, arith, lookup, Bool-cases, inl, inr}
use ember_edge.Text.Basic.{Str, str_Eq, text}
use ember_edge.Text.Prefixes.{strip_prefix-append}
use ember_edge.Errors.{Error}
use ember_edge.Errors.Monad.{Result, ok, err, Result-cases}
use ember_edge.Registry.Digest.{Blob, digest, sanitize_digest}
use ember_edge.Registry.Action.{Dir, ◌>>=◌, pure, continue}
use ember_edge.Registry.Store.{
  SystemAnswers, Disk, opened, write_out, put_new, put, blob_path, file_exists,
}
use ember_edge.Registry.Store.Integrity.{IsIntact}
use ember_edge.Registry.Store.Calls.{run_calls, put_calls, calls-IsSound, opened-IsSound}

-- What a stop of the machine leaves: a file whose data was synced is as it was or is lost, one whose
-- data was not may hold anything.
pub record Survives (disk : Disk) (dir : Dir) : Type 0 where
  pub at :
      (name : Str) (b : Blob)
      → lookup name dir ≡ some b
      → (disk.unsynced name ≡ true) ⊎ (lookup name disk.files ≡ some b)

module _ (sha256_hex : Blob → Str) (sys : SystemAnswers) (blob : Blob) where
  -- `write_out` is these calls.
  write_out-calls :
      (name : Str) (disk : Disk)
      → (write_out sys blob name disk).0 ≡ (run_calls (put_calls sys blob name) disk).0
  unfolding write_out run_calls
  write_out-calls name disk = ground arith

  put_new-files :
      (name : Str) (dir : Dir)
      → (put_new sha256_hex sys blob name dir).0 ≡ (write_out sys blob name (opened dir)).0.files
  unfolding put_new ◌>>=◌
  put_new-files name dir = go (write_out sys blob name (opened dir)) refl
    where
      go :
          (r : Disk × Result Error (Unit {0}))
          → write_out sys blob name (opened dir) ≡ r
          → (continue (r.0.files, r.1) (λ _. pure (digest sha256_hex blob))).0 ≡ r.0.files
      go (disk, ok u) e = refl
      go (disk, err f) e = refl

  put_new-IsIntact :
      (dir : Dir)
      → IsIntact sha256_hex dir
      → IsIntact sha256_hex (put_new sha256_hex sys blob (sha256_hex blob) dir).0
  put_new-IsIntact dir d =
      rw (put_new-files (sha256_hex blob) dir, write_out-calls (sha256_hex blob) (opened dir))
        (calls-IsSound sha256_hex sys blob 4 (opened dir)
          (opened-IsSound sha256_hex sys blob dir d)).intact

  -- The file of a blob's digest is named by its hash.
  pub blob_path-digest :
      (name : Str) → blob_path (digest sha256_hex blob) ≡ ok name → name ≡ sha256_hex blob
  unfolding blob_path sanitize_digest digest
  blob_path-digest name h = ground (arith, strip_prefix-append (text "sha256:") (sha256_hex blob))

  -- `put` keeps the directory intact, whatever the system answers.
  pub put-IsIntact :
      (dir : Dir) → IsIntact sha256_hex dir → IsIntact sha256_hex (put sha256_hex sys blob dir).0
  unfolding put
  put-IsIntact dir d = elim (Result-cases (blob_path (digest sha256_hex blob))) [
    | inr (f, e) ↦ rw (e, put) d
    | inl (name, e) ↦ elim (Bool-cases (file_exists name dir)) [
      | inl there ↦ rw (e, put) (rw there d)
      | inr missing ↦
          rw (e, put) (rw missing (rw (blob_path-digest name e) (put_new-IsIntact dir d)))
    ]
  ]
