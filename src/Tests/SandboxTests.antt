-- ===== src/Tests/SandboxTests.antt =====
-- The scratch file system and the limits on concrete values.
use ember_edge.Prelude.{
  ℕ, ◌+◌, ◌≤◌, ◌≡◌, refl, Bool, true, false, not, ◌&&◌, ◌||◌, ◌-◌, Option, none, some, List, [],
  ◌∷◌, arith, length, leb, if◌then◌else◌,
}
use ember_edge.Text.Basic.{text}
use ember_edge.Errors.Monad.{ok, is_ok}
use ember_edge.Sandbox.ScratchPath.{components, components_eq}
use ember_edge.Sandbox.MemFs.{MemFs, Bytes, new, read, write, remove_file, invalid_path}
use ember_edge.Sandbox.MemFs.Accounting.{total, new-IsAccounted}
use ember_edge.Sandbox.MemFs.Quota.{Call, writes, removes, run, held, run-accounting, write-accepts}
use ember_edge.Sandbox.MemFs.Refinement.{
  Simulates, promised_run, empty, answers, promised_answers, run-refines,
}

-- Two writes, one of them over the quota of 4, and a removal.
abbrev calls : List Call
calls =
    writes (text "a/b") (1 ∷ 2 ∷ 3 ∷ [])
    ∷ writes (text "c") (4 ∷ 5 ∷ [])
    ∷ writes (text "a//b") (1 ∷ [])
    ∷ removes (text "c")
    ∷ []

run-accounting_example :
    ((run (new 4) calls).used ≡ total (run (new 4) calls).files)
    × (total (run (new 4) calls).files ≤ 4)
run-accounting_example =
    run-accounting 4 calls (omega arith, (omega arith, (omega arith, (omega arith, tt))))

used_after : (run (new 4) calls).used ≡ 1
unfolding run ember_edge.Sandbox.MemFs.Quota.step remove_file ember_edge.Prelude.lookup write
    invalid_path ember_edge.Sandbox.MemFs.over_quota new ember_edge.Prelude.insert components_eq
    components ember_edge.Sandbox.MemFs.account
used_after = refl

write-accepts_example : is_ok (write (new 4) (text "a") (1 ∷ 2 ∷ [])) ≡ (
    not (invalid_path (text "a"))
    && (leb 2 (held (new 4) (text "a"))
        || leb (total (new 4).files + 2 - held (new 4) (text "a")) (new 4).quota_bytes))
unfolding new
write-accepts_example =
    write-accepts (new 4) (text "a") (1 ∷ 2 ∷ []) (new-IsAccounted 4) (omega arith)

abbrev written : MemFs
written = record { files = (text "a" ∷ [], 7 ∷ []) ∷ []; quota_bytes = 4; used = 1 }

written_lem : write (new 4) (text "a") (7 ∷ []) ≡ ok written
unfolding write invalid_path ember_edge.Sandbox.MemFs.over_quota ember_edge.Prelude.lookup new
    ember_edge.Prelude.insert ember_edge.Sandbox.MemFs.account components
written_lem = refl

run-refines_example :
    Simulates (run (new 4) calls) (promised_run (empty 4) calls)
    × (answers (new 4) calls ≡ promised_answers (empty 4) calls)
run-refines_example =
    run-refines 4 calls (omega arith, (omega arith, (omega arith, (omega arith, tt))))
