-- ===== src/Sandbox/MemFs/Refinement.antt =====
-- What a scratch file system promises, without machine integers, and that `MemFs` keeps to it: a map
-- of files with a count of bytes, and what each call answers.
use ember_edge.Prelude.{
  ℕ, ◌+◌, ◌-◌, ◌≡◌, refl, sym, ap, ◌∙◌, Option-cases, Bool, true, false, not, ◌&&◌, ◌||◌, Option,
  none, some, List, [], ◌∷◌, arith, if◌then◌else◌, length, lookup, leb, lookup-insert,
  lookup-remove, All, inl, inr,
}
use ember_edge.Text.Basic.{Str}
use ember_edge.Errors.Monad.{ok, is_ok, Result-cases}
use ember_edge.Sandbox.ScratchPath.{
  Components, components, components_Eq, components_eq, components_eq_iff,
}
use ember_edge.Sandbox.MemFs.{Bytes, MemFs, new, held_length, invalid_path, write, remove_file}
use ember_edge.Sandbox.MemFs.Accounting.{
  IsAccounted, new-IsAccounted, total, total-insert, total-remove,
}
use ember_edge.Sandbox.MemFs.Quota.{
  Call, writes, removes, after, step, run, CallFits, step-quota, step-IsAccounted, write_inversion,
  write-accepts, held, write-IsAccounted, remove_file-IsAccounted,
}

pub record Scratch : Type 0 where
  pub view : Components → Option Bytes
  pub used : ℕ
  pub quota : ℕ

abbrev pub empty : ℕ → Scratch
empty quota = record { view = λ k. none; used = 0; quota = quota }

-- What a call answers: whether a write was made, or what was removed.
pub data Answer : Type 0 where
  made : Bool → Answer
  removed : Option Bytes → Answer

abbrev pub set : Components → Option Bytes → (Components → Option Bytes) → Components → Option Bytes
set k v view j = if components_eq k j then v else view j

abbrev pub admits : Scratch → Str → Bytes → Bool
admits s path bytes =
    not (invalid_path path)
    && (leb (length bytes) (held_length (s.view (components path)))
        || leb (s.used + length bytes - held_length (s.view (components path))) s.quota)

abbrev pub promised : Scratch → Call → Scratch
promised s (writes path bytes) =
    if admits s path bytes
    then record s {
      view = set (components path) (some bytes) s.view;
      used = s.used + length bytes - held_length (s.view (components path));
    }
    else s
promised s (removes path) = record s {
  view = set (components path) none s.view;
  used = s.used - held_length (s.view (components path));
}

abbrev pub promised_answer : Scratch → Call → Answer
promised_answer s (writes path bytes) = made (admits s path bytes)
promised_answer s (removes path) = removed (s.view (components path))

abbrev pub promised_answers : Scratch → List Call → List Answer
promised_answers s [] = []
promised_answers s (c ∷ cs) = promised_answer s c ∷ promised_answers (promised s c) cs

abbrev pub promised_run : Scratch → List Call → Scratch
promised_run s [] = s
promised_run s (c ∷ cs) = promised_run (promised s c) cs

abbrev pub answer : MemFs → Call → Answer
answer fs (writes path bytes) = made (is_ok (write fs path bytes))
answer fs (removes path) = removed (remove_file fs path).1

abbrev pub answers : MemFs → List Call → List Answer
answers fs [] = []
answers fs (c ∷ cs) = answer fs c ∷ answers (step fs c) cs

pub record Simulates (fs : MemFs) (s : Scratch) : Type 0 where
  pub files : (k : Components) → lookup k fs.files ≡ s.view k
  pub used : fs.used ≡ s.used
  pub quota : fs.quota_bytes ≡ s.quota

admits-write :
    (fs : MemFs) (s : Scratch) (path : Str) (bytes : Bytes)
    → IsAccounted fs
    → CallFits fs.quota_bytes (writes path bytes)
    → Simulates fs s
    → is_ok (write fs path bytes) ≡ admits s path bytes
admits-write fs s path bytes v fits m =
    rw (write-accepts fs path bytes v fits)
      (ground (arith, v.counted, m.used, m.quota, m.files (components path)))

answer-promised :
    (fs : MemFs) (s : Scratch) (c : Call)
    → IsAccounted fs
    → CallFits fs.quota_bytes c
    → Simulates fs s
    → answer fs c ≡ promised_answer s c
unfolding remove_file
answer-promised fs s (writes path bytes) v fits m = ap made (admits-write fs s path bytes v fits m)
answer-promised fs s (removes path) v fits m = ground (arith, m.files (components path))

written-Simulates :
    (fs fs' : MemFs) (s : Scratch) (path : Str) (bytes : Bytes)
    → IsAccounted fs
    → CallFits fs.quota_bytes (writes path bytes)
    → Simulates fs s
    → write fs path bytes ≡ ok fs'
    → Simulates fs' (record s {
      view = set (components path) (some bytes) s.view;
      used = s.used + length bytes - held_length (s.view (components path));
    })
written-Simulates fs fs' s path bytes v fits m e =
    let (valid, room, files, used, quota) = write_inversion fs fs' path bytes e in
    let w = write-IsAccounted fs fs' path bytes v fits e in
    let sum = total-insert (components path) bytes fs.files in
    let grown : total fs'.files + held fs path ≡ total fs.files + length bytes = rw files sum in
    let known : held fs path ≡ held_length (s.view (components path)) =
      ap held_length (m.files (components path)) in
    record {
      files = λ k.
          rw files
            (rw (lookup-insert (components path) k bytes fs.files) (ground (arith, m.files k)));
      used = omega (arith, w.counted, v.counted, m.used, grown, known);
      quota = quota ∙ m.quota;
    }

removed-Simulates :
    (fs : MemFs) (s : Scratch) (path : Str)
    → IsAccounted fs
    → CallFits fs.quota_bytes (removes path)
    → Simulates fs s
    → Simulates (remove_file fs path).0 (promised s (removes path))
unfolding remove_file components_eq components
removed-Simulates fs s path v fits m = elim (Option-cases (lookup (components path) fs.files)) [
  | inl e ↦
      rw (e, remove_file)
        (record {
          files = λ k. ground (arith, e, m.files k, components_eq_iff (components path) k);
          used = ground (arith, e, m.used, m.files (components path));
          quota = m.quota;
        })
  | inr (b, e) ↦
      let w : IsAccounted (remove_file fs path).0 = remove_file-IsAccounted fs path fits v in
      let held : s.view (components path) ≡ some b = sym (m.files (components path)) ∙ e in
      let shrunk = rw e at (total-remove (components path) fs.files v.distinct) in
      let w' = rw (e, remove_file) at w in
      rw (e, remove_file)
        (record {
          files = λ k. rw (lookup-remove (components path) k fs.files) (ground (arith, m.files k));
          used = rw held (omega (arith, w'.counted, v.counted, m.used, shrunk));
          quota = m.quota;
        })
]

step-Simulates :
    (fs : MemFs) (s : Scratch) (c : Call)
    → IsAccounted fs
    → CallFits fs.quota_bytes c
    → Simulates fs s
    → Simulates (step fs c) (promised s c)
unfolding step
step-Simulates fs s (writes path bytes) v fits m = elim (Result-cases (write fs path bytes)) [
  | inl (fs', e) ↦
      let yes : admits s path bytes ≡ true =
        sym (admits-write fs s path bytes v fits m) ∙ ap is_ok e in
      rw (e, after) (rw yes (written-Simulates fs fs' s path bytes v fits m e))
  | inr (f, e) ↦
      let no : admits s path bytes ≡ false =
        sym (admits-write fs s path bytes v fits m) ∙ ap is_ok e in
      rw (e, after) (rw no m)
]
step-Simulates fs s (removes path) v fits m = removed-Simulates fs s path v fits m

run-Simulates :
    (fs : MemFs) (s : Scratch) (cs : List Call)
    → IsAccounted fs
    → All (CallFits fs.quota_bytes) cs
    → Simulates fs s
    → Simulates (run fs cs) (promised_run s cs) × (answers fs cs ≡ promised_answers s cs)
unfolding run
run-Simulates fs s [] v fits m = (m, refl)
run-Simulates fs s (c ∷ cs) v fits m =
    let (z, a) =
      run-Simulates (step fs c) (promised s c) cs (step-IsAccounted fs c fits.0 v)
        (rw (step-quota fs c) fits.1) (step-Simulates fs s c v fits.0 m) in
    (z, rw (answer-promised fs s c v fits.0 m, a))

new-Simulates : (quota : ℕ) → Simulates (new quota) (empty quota)
unfolding new lookup
new-Simulates quota = record { files = λ k. refl; used = refl; quota = refl }

-- From a new scratch file system, after any writes and removals that an i64 can count, every call
-- has answered as the promise says, every path reads what the promised map holds for it, and the
-- count of bytes is the promised one, with no wrap-around. In the promise a write that is taken
-- replaces what its path held.
pub run-refines :
    (quota : ℕ) (cs : List Call)
    → All (CallFits quota) cs
    → Simulates (run (new quota) cs) (promised_run (empty quota) cs)
      × (answers (new quota) cs ≡ promised_answers (empty quota) cs)
run-refines quota cs fits =
    run-Simulates (new quota) (empty quota) cs (new-IsAccounted quota) (unfold new in fits)
      (new-Simulates quota)
