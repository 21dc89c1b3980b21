-- ===== src/Sandbox/MemFs/Quota.antt =====
-- Which writes the quota admits, and what a history of writes and removals keeps.
use ember_edge.Prelude.{
  ℕ, ◌+◌, ◌-◌, ◌≤◌, ◌<◌, ◌≡◌, refl, false, not, ◌&&◌, ◌||◌, List, [], ◌∷◌, arith, length, lookup,
  insert, leb, insert-Distinct, remove-Distinct, All, Option-cases, inl, inr, ◌∙◌,
}
use ember_edge.Text.Basic.{Str}
use ember_edge.Numbers.{i64_bound}
use ember_edge.Numbers.Int.{sub_ℕ}
use ember_edge.Errors.{Error}
use ember_edge.Errors.Monad.{Result, ok, err, is_ok, Result-cases}
use ember_edge.Sandbox.ScratchPath.{components, components_Eq}
use ember_edge.Sandbox.MemFs.{
  Bytes, MemFs, new, held_length, account, over_quota, invalid_path, write, remove_file,
}
use ember_edge.Sandbox.MemFs.Accounting.{
  total, total-insert, total-remove, held-le-total, IsAccounted, new-IsAccounted, account_exact,
  over_quota_exact, account_remove,
}

abbrev pub held : MemFs → Str → ℕ
held fs path = held_length (lookup (components path) fs.files)

-- The quota and the written bytes are within what an i64 counts.
abbrev pub FitsCounter : MemFs → Bytes → Type 0
FitsCounter fs bytes = fs.quota_bytes + length bytes < i64_bound

pub write_inversion :
    (fs fs' : MemFs) (path : Str) (bytes : Bytes)
    → write fs path bytes ≡ ok fs'
    → (invalid_path path ≡ false)
      × (over_quota fs (sub_ℕ (length bytes) (held fs path)) ≡ false)
      × (fs'.files ≡ insert (components path) bytes fs.files)
      × (fs'.used ≡ account fs.used (sub_ℕ (length bytes) (held fs path)))
      × (fs'.quota_bytes ≡ fs.quota_bytes)
unfolding write
write_inversion fs fs' path bytes h = ground arith

held-le-used : (fs : MemFs) (path : Str) → IsAccounted fs → held fs path ≤ fs.used
held-le-used fs path v = omega (arith, held-le-total (components path) fs.files)

-- Where `used` is the size of the files and within the quota, and the quota and the new bytes
-- together are below 2^63, a write succeeds exactly when its path is relative and not empty, and the
-- file does not grow or the bytes held afterwards are within the quota.
pub write-accepts :
    (fs : MemFs) (path : Str) (bytes : Bytes)
    → IsAccounted fs
    → FitsCounter fs bytes
    → is_ok (write fs path bytes) ≡ (
        not (invalid_path path)
        && (leb (length bytes) (held fs path)
            || leb (total fs.files + length bytes - held fs path) fs.quota_bytes))
unfolding write
write-accepts fs path bytes v fits = ground (
  arith,
  over_quota_exact fs (length bytes) (held fs path) fits v.bounded (held-le-used fs path v),
)

-- After a successful write the counter is still the size of the files, and within the quota.
pub write-IsAccounted :
    (fs fs' : MemFs) (path : Str) (bytes : Bytes)
    → IsAccounted fs
    → FitsCounter fs bytes
    → write fs path bytes ≡ ok fs'
    → IsAccounted fs'
write-IsAccounted fs fs' path bytes v fits h =
    let (valid, room, files, used, quota) = write_inversion fs fs' path bytes h in
    let exact =
      account_exact fs.used (length bytes) (held fs path) (omega arith) (held-le-used fs path v) in
    let test =
      over_quota_exact fs (length bytes) (held fs path) fits v.bounded (held-le-used fs path v) in
    let sum = total-insert (components path) bytes fs.files in
    record {
      distinct = rw files (insert-Distinct (components path) bytes fs.files v.distinct);
      counted = rw files (omega arith);
      bounded = ground (arith, held-le-used fs path v);
    }

pub remove_file-IsAccounted :
    (fs : MemFs) (path : Str)
    → fs.quota_bytes < i64_bound
    → IsAccounted fs
    → IsAccounted (remove_file fs path).0
unfolding remove_file
remove_file-IsAccounted fs path fits v = elim (Option-cases (lookup (components path) fs.files)) [
  | inl e ↦ rw (e, remove_file) v
  | inr (b, e) ↦
      let within : length b ≤ fs.used = rw e at (held-le-used fs path v) in
      rw (e, remove_file)
        (record {
          distinct = remove-Distinct (components path) fs.files v.distinct;
          counted = omega (
            arith,
            account_remove fs.used (length b) (omega arith) within,
            rw e at (total-remove (components path) fs.files v.distinct),
          );
          bounded = omega (arith, account_remove fs.used (length b) (omega arith) within);
        })
]

-- The calls that change the files.
pub data Call : Type 0 where
  writes : Str → Bytes → Call
  removes : Str → Call

-- A write that fails leaves the files as they were.
abbrev pub after : MemFs → Result Error MemFs → MemFs
after fs (ok fs') = fs'
after fs (err e) = fs

unfoldable pub step : MemFs → Call → MemFs
step fs (writes path bytes) = after fs (write fs path bytes)
step fs (removes path) = (remove_file fs path).0

unfoldable pub run : MemFs → List Call → MemFs
run fs [] = fs
run fs (c ∷ cs) = run (step fs c) cs

-- The written bytes of a call, with the quota, are within what an i64 counts.
abbrev pub CallFits : ℕ → Call → Type 0
CallFits quota (writes path bytes) = quota + length bytes < i64_bound
CallFits quota (removes path) = quota < i64_bound

pub step-quota : (fs : MemFs) (c : Call) → (step fs c).quota_bytes ≡ fs.quota_bytes
unfolding step write remove_file
step-quota fs (writes path bytes) = ground arith
step-quota fs (removes path) = ground arith

pub step-IsAccounted :
    (fs : MemFs) (c : Call) → CallFits fs.quota_bytes c → IsAccounted fs → IsAccounted (step fs c)
unfolding step
step-IsAccounted fs (writes path bytes) fits v = elim (Result-cases (write fs path bytes)) [
  | inl (fs', e) ↦ rw (e, after) (write-IsAccounted fs fs' path bytes v fits e)
  | inr (f, e) ↦ rw (e, after) v
]
step-IsAccounted fs (removes path) fits v = remove_file-IsAccounted fs path fits v

run-quota : (fs : MemFs) (cs : List Call) → (run fs cs).quota_bytes ≡ fs.quota_bytes
unfolding run
run-quota fs [] = refl
run-quota fs (c ∷ cs) = run-quota (step fs c) cs ∙ step-quota fs c

new-quota : (quota : ℕ) → (new quota).quota_bytes ≡ quota
unfolding new
new-quota quota = refl

run-IsAccounted :
    (fs : MemFs) (cs : List Call)
    → All (CallFits fs.quota_bytes) cs
    → IsAccounted fs
    → IsAccounted (run fs cs)
unfolding run
run-IsAccounted fs [] fits v = v
run-IsAccounted fs (c ∷ cs) fits v =
    run-IsAccounted (step fs c) cs (rw (step-quota fs c) fits.1) (step-IsAccounted fs c fits.0 v)

-- From a new scratch file system, after any writes and removals, failing or not, that an i64 can
-- count, `used` is the size of the files held and is at most the quota.
pub run-accounting :
    (quota : ℕ) (cs : List Call)
    → All (CallFits quota) cs
    → ((run (new quota) cs).used ≡ total (run (new quota) cs).files)
      × (total (run (new quota) cs).files ≤ quota)
run-accounting quota cs fits =
    let v = run-IsAccounted (new quota) cs (unfold new in fits) (new-IsAccounted quota) in
    (v.counted, omega (arith, run-quota (new quota) cs, new-quota quota))
