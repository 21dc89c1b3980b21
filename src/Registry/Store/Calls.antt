-- ===== src/Registry/Store/Calls.antt =====
-- `put` as its sequence of system calls, and what holds of the disk after each.
use ember_edge.Prelude.{
  ℕ, zero, suc, ◌≡◌, refl, ap, subst, false, not, ◌&&◌, some, List, [], ◌∷◌, arith, lookup,
  lookup-insert_self, take, Bool-cases, inl, inr,
}
use ember_edge.Text.Basic.{Str, str_eq, str_eq_iff, str_Eq}
use ember_edge.Errors.{Error}
use ember_edge.Errors.Monad.{Result, ok, err, Result-cases}
use ember_edge.Registry.Digest.{Blob}
use ember_edge.Registry.Digest.Form.{IsHex64}
use ember_edge.Registry.Action.{Dir, Stateful, ◌>>=◌, ◌>>◌, continue}
use ember_edge.Registry.Store.{
  SystemAnswers, moved, already_exists, failed, temp_name, Disk, touched, opened, create_file,
  write_file, sync_file, rename_file,
}
use ember_edge.Registry.Store.Integrity.{IsIntact, hex_ne_temp, temp-IsIntact, move_file-IsIntact}

unfoldable pub run_calls : List (Stateful Disk (Unit {0})) → Stateful Disk (Unit {0})
unfolding ◌>>=◌
run_calls [] disk = (disk, ok tt)
run_calls (call ∷ calls) disk = (call >> run_calls calls) disk

-- The calls of `put_new`, in order. An answer that a write failed after some bytes stands for a
-- stop within the write.
abbrev pub put_calls : SystemAnswers → Blob → Str → List (Stateful Disk (Unit {0}))
put_calls sys blob name =
    create_file sys ∷ write_file sys blob ∷ sync_file sys ∷ rename_file sys name ∷ []

-- A property of the disk holds after some calls if the first call keeps it, and so do the others
-- where the first one succeeds.
run_calls-cons {ℓ} :
    (P : Disk → Type ℓ) (call : Stateful Disk (Unit {0})) (calls : List (Stateful Disk (Unit {0})))
    (disk : Disk)
    → P (call disk).0
    → ((disk' : Disk) → call disk ≡ (disk', ok tt) → P disk' → P (run_calls calls disk').0)
    → P (run_calls (call ∷ calls) disk).0
unfolding run_calls
run_calls-cons P call calls disk first rest = go (call disk) refl first
  where
    go :
        (r : Disk × Result Error (Unit {0}))
        → call disk ≡ r
        → P r.0
        → P (continue r (λ _. run_calls calls)).0
    go (disk', ok u) e h = rest disk' e h
    go (disk', err f) e h = h

run_calls-nil : (n : ℕ) (disk : Disk) → (run_calls (take n []) disk).0 ≡ disk
unfolding run_calls
run_calls-nil zero disk = refl
run_calls-nil (suc n) disk = refl

module _ (sha256_hex : Blob → Str) (sys : SystemAnswers) (blob : Blob) where
  -- The files are intact, and the data of those that are named like a digest is synced.
  pub record IsSound (disk : Disk) : Type 0 where
    pub intact : IsIntact sha256_hex disk.files
    pub synced : (name : Str) → IsHex64 name → disk.unsynced name ≡ false

  -- The temporary file is written whole.
  abbrev IsWritten : Disk → Type 0
  IsWritten disk = lookup (temp_name sys.pid) disk.files ≡ some blob

  abbrev IsSynced : Disk → Type 0
  IsSynced disk = disk.unsynced (temp_name sys.pid) ≡ false

  rename-IsSound :
      (disk : Disk)
      → IsWritten disk
      → IsSynced disk
      → IsSound disk
      → IsSound (rename_file sys (sha256_hex blob) disk).0
  unfolding rename_file
  rename-IsSound disk w y d =
      elim sys.rename
        as (λ r. IsSound (rename_file (record sys { rename = r }) (sha256_hex blob) disk).0) [
          | moved ↦ record {
            intact = move_file-IsIntact sha256_hex sys.pid blob disk.files w d.intact;
            synced = λ name v. elim (Bool-cases (str_eq (sha256_hex blob) name)) [
              | inl same ↦ rw same y
              | inr other ↦ rw other (d.synced name v)
            ];
          }
          | already_exists ↦ d
          | failed e ↦ d
        ]

  touched-IsSound : (b : Blob) (disk : Disk) → IsSound disk → IsSound (touched sys b disk)
  touched-IsSound b disk d = record {
    intact = temp-IsIntact sha256_hex sys.pid b disk.files d.intact;
    synced = λ name v. ground (arith, hex_ne_temp sys.pid name v, d.synced name v);
  }

  create-IsSound : (disk : Disk) → IsSound disk → IsSound (create_file sys disk).0
  unfolding create_file
  create-IsSound disk d =
      elim sys.create as (λ r. IsSound (create_file (record sys { create = r }) disk).0) [
        | ok u ↦ touched-IsSound [] disk d
        | err e ↦ d
      ]

  write-IsSound : (disk : Disk) → IsSound disk → IsSound (write_file sys blob disk).0
  unfolding write_file
  write-IsSound disk d =
      elim sys.write_all as (λ r. IsSound (write_file (record sys { write_all = r }) blob disk).0) [
        | ok u ↦ touched-IsSound blob disk d
        | err e ↦ touched-IsSound (take sys.written blob) disk d
      ]

  write-IsWritten :
      (disk disk' : Disk) → write_file sys blob disk ≡ (disk', ok tt) → IsWritten disk'
  unfolding write_file
  write-IsWritten disk disk' h = elim (Result-cases sys.write_all) [
    | inl (u, e) ↦
        let h' : (touched sys blob disk, ok tt) ≡ (disk', ok tt) = rw (e, write_file) at h in
        subst IsWritten (ap (λ (r : Disk × Result Error (Unit {0})). r.0) h')
          (lookup-insert_self (temp_name sys.pid) blob disk.files)
    | inr (f, e) ↦
        let h' : err (Error.io f) ≡ ok tt =
          ap (λ (r : Disk × Result Error (Unit {0})). r.1) (rw (e, write_file) at h) in
        absurd (ground (arith, h'))
  ]

  sync-IsSound : (disk : Disk) → IsSound disk → IsSound (sync_file sys disk).0
  unfolding sync_file
  sync-IsSound disk d =
      elim sys.sync_all as (λ r. IsSound (sync_file (record sys { sync_all = r }) disk).0) [
        | ok u ↦ record { intact = d.intact; synced = λ name v. ground (arith, d.synced name v) }
        | err e ↦ d
      ]

  -- A sync that succeeds leaves the temporary file as it is, and its data on the medium.
  sync-IsSynced :
      (disk disk' : Disk)
      → IsWritten disk
      → sync_file sys disk ≡ (disk', ok tt)
      → IsWritten disk' × IsSynced disk'
  unfolding sync_file
  sync-IsSynced disk disk' w h = elim (Result-cases sys.sync_all) [
    | inl (u, e) ↦
        let synced : Disk = record disk {
          unsynced = λ name. not (str_eq (temp_name sys.pid) name) && disk.unsynced name;
        } in
        let h' : (synced, ok tt) ≡ (disk', ok tt) = rw (e, sync_file) at h in
        subst (λ x. IsWritten x × IsSynced x) (ap (λ (r : Disk × Result Error (Unit {0})). r.0) h')
          (w, rw ((str_eq_iff (temp_name sys.pid) (temp_name sys.pid)).1 refl) refl)
    | inr (f, e) ↦
        let h' : err (Error.io f) ≡ ok tt =
          ap (λ (r : Disk × Result Error (Unit {0})). r.1) (rw (e, sync_file) at h) in
        absurd (ground (arith, h'))
  ]

  abbrev pub file : Str
  file = sha256_hex blob

  -- The calls from some point on keep a disk sound, however many of them are made.
  from_rename :
      (n : ℕ) (disk : Disk)
      → IsWritten disk × IsSynced disk
      → IsSound disk
      → IsSound (run_calls (take n (rename_file sys file ∷ [])) disk).0
  from_rename zero disk w d = unfold run_calls in d
  from_rename (suc n) disk (w, y) d =
      run_calls-cons IsSound (rename_file sys file) (take n []) disk (rename-IsSound disk w y d)
        (λ disk' e d'. rw (run_calls-nil n disk') d')

  from_sync :
      (n : ℕ) (disk : Disk)
      → IsWritten disk
      → IsSound disk
      → IsSound (run_calls (take n (sync_file sys ∷ rename_file sys file ∷ [])) disk).0
  from_sync zero disk w d = unfold run_calls in d
  from_sync (suc n) disk w d =
      run_calls-cons IsSound (sync_file sys) (take n (rename_file sys file ∷ [])) disk
        (sync-IsSound disk d) (λ disk' e d'. from_rename n disk' (sync-IsSynced disk disk' w e) d')

  from_write :
      (n : ℕ) (disk : Disk)
      → IsSound disk
      → IsSound
          (run_calls
            (take n (write_file sys blob ∷ sync_file sys ∷ rename_file sys file ∷ []))
            disk).0
  from_write zero disk d = unfold run_calls in d
  from_write (suc n) disk d =
      run_calls-cons IsSound (write_file sys blob)
        (take n (sync_file sys ∷ rename_file sys file ∷ [])) disk (write-IsSound disk d)
        (λ disk' e d'. from_sync n disk' (write-IsWritten disk disk' e) d')

  pub calls-IsSound :
      (n : ℕ) (disk : Disk)
      → IsSound disk
      → IsSound (run_calls (take n (put_calls sys blob file)) disk).0
  calls-IsSound zero disk d = unfold run_calls in d
  calls-IsSound (suc n) disk d =
      run_calls-cons IsSound (create_file sys)
        (take n (write_file sys blob ∷ sync_file sys ∷ rename_file sys file ∷ [])) disk
        (create-IsSound disk d) (λ disk' e d'. from_write n disk' d')

  pub opened-IsSound : (dir : Dir) → IsIntact sha256_hex dir → IsSound (opened dir)
  opened-IsSound dir d = record { intact = d; synced = λ name v. refl }
