-- ===== src/Sandbox/MemFs/Contents.antt =====
-- What can be read after a write or a removal.
use ember_edge.Prelude.{◌≡◌, none, some, arith, if◌then◌else◌, lookup-insert, lookup-remove}
use ember_edge.Text.Basic.{Str}
use ember_edge.Errors.Monad.{ok}
use ember_edge.Sandbox.ScratchPath.{components, components_Eq, components_eq, components_eq_iff}
use ember_edge.Sandbox.MemFs.{Bytes, MemFs, read, write, remove_file}
use ember_edge.Sandbox.MemFs.Quota.{write_inversion}

-- After a successful write every path that names the written file reads the new bytes, and every
-- other path reads what it read before.
pub read-write :
    (fs fs' : MemFs) (path other : Str) (bytes : Bytes)
    → write fs path bytes ≡ ok fs'
    → read fs' other
      ≡ (if components_eq (components path) (components other) then some bytes else read fs other)
unfolding read
read-write fs fs' path other bytes h =
    rw ((write_inversion fs fs' path bytes h).2)
      (lookup-insert (components path) (components other) bytes fs.files)

-- A removal returns what could be read at its path; afterwards the paths that name that file read
-- nothing, and every other path reads what it read before.
pub read-remove :
    (fs : MemFs) (path other : Str)
    → ((remove_file fs path).1 ≡ read fs path)
      × (read (remove_file fs path).0 other
          ≡ (if components_eq (components path) (components other) then none else read fs other))
unfolding read remove_file
read-remove fs path other = (
  ground arith,
  ground (
    arith,
    lookup-remove (components path) (components other) fs.files,
    components_eq_iff (components path) (components other),
  ),
)
