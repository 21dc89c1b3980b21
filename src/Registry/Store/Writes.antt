-- ===== src/Registry/Store/Writes.antt =====
-- `put` on a system that does what it is asked to.
use ember_edge.Prelude.{◌≡◌, ◌≢◌, refl, ap, true, arith, Bool-cases, inl, inr}
use ember_edge.Text.Basic.{Str, str_Eq}
use ember_edge.Errors.Monad.{ok}
use ember_edge.Registry.Digest.{Blob, digest}
use ember_edge.Registry.Action.{Dir}
use ember_edge.Registry.Store.{
  SystemAnswers, moved, already_exists, put_new, put, blob_path, file_exists,
}
use ember_edge.Registry.Store.Contents.{put-fresh, put_new-lookup}

pub record IsWriting (sys : SystemAnswers) : Type 0 where
  pub creates : sys.create ≡ ok tt
  pub writes : sys.write_all ≡ ok tt
  pub syncs : sys.sync_all ≡ ok tt
  pub renames : sys.rename ≡ moved

module _ (sha256_hex : Blob → Str) (sys : SystemAnswers) (w : IsWriting sys) (blob : Blob) where
  put_new-runs :
      (dir : Dir) (name : Str)
      → (put_new sha256_hex sys blob name dir).1 ≡ ok (digest sha256_hex blob)
  unfolding put_new
  put_new-runs dir name = ground (arith, w.creates, w.writes, w.syncs, w.renames)

  moved_not_there : sys.rename ≢ already_exists
  moved_not_there = ground (arith, w.renames)

  -- The file of the blob's digest is there afterwards.
  pub put-stores :
      (dir : Dir) (name : Str)
      → blob_path (digest sha256_hex blob) ≡ ok name
      → ((put sha256_hex sys blob dir).1 ≡ ok (digest sha256_hex blob))
        × (file_exists name (put sha256_hex sys blob dir).0 ≡ true)
  unfolding put file_exists
  put-stores dir name e = elim (Bool-cases (file_exists name dir)) [
    | inl there ↦ rw (e, put) (rw there (refl, there))
    | inr missing ↦
        let runs = put_new-runs dir name in
        let found =
          (put_new-lookup sha256_hex sys blob dir (put_new sha256_hex sys blob name dir).0 name
            (digest sha256_hex blob) moved_not_there
            (ap (λ r. ((put_new sha256_hex sys blob name dir).0, r)) runs)).1 in
        rw (put-fresh sha256_hex sys blob dir name e missing) (runs, rw found refl)
  ]
