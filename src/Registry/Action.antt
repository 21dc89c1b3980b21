-- ===== src/Registry/Action.antt =====
-- Code that changes the store's directory and may fail: what it did to the directory stays when it
-- fails.
pub mod Yields
pub mod Achieves
use ember_edge.Prelude.{Bool, true, false, List}
use ember_edge.Text.Basic.{Str}
use ember_edge.Errors.{Error}
use ember_edge.Errors.Monad.{Result, ok, err}
use ember_edge.Registry.Digest.{Blob}

-- The files of the store's root directory, by name.
abbrev pub Dir : Type 0
Dir = List (Str × Blob)

-- Code that changes a state and may fail.
abbrev pub Stateful {ℓ} : Type 0 → Type ℓ → Type ℓ
Stateful S A = S → S × Result Error A

abbrev pub Action {ℓ} : Type ℓ → Type ℓ
Action A = Stateful Dir A

abbrev pub continue {ℓ κ} :
    {S : Type 0} {A : Type ℓ} {B : Type κ}
    → S × Result Error A
    → (A → Stateful S B)
    → S × Result Error B
continue (s, ok a) f = f a s
continue (s, err e) f = (s, err e)

infixl 5 ◌>>=◌ ◌>>◌
unfoldable pub ◌>>=◌ {ℓ κ} :
    {S : Type 0} {A : Type ℓ} {B : Type κ} → Stateful S A → (A → Stateful S B) → Stateful S B
◌>>=◌ m f s = continue (m s) f

abbrev pub ◌>>◌ {κ} :
    {S : Type 0} {B : Type κ} → Stateful S (Unit {0}) → Stateful S B → Stateful S B
m >> k = m >>= λ _. k

abbrev pub pure {ℓ} : {A : Type ℓ} → A → Action A
pure a dir = (dir, ok a)

-- A result that does not touch the directory.
abbrev pub lift {ℓ} : {A : Type ℓ} → Result Error A → Action A
lift r dir = (dir, r)

-- A reading of the directory.
abbrev pub reads {ℓ} : {A : Type ℓ} → (Dir → Result Error A) → Action A
reads f dir = (dir, f dir)

abbrev pub changes : (Dir → Dir) → Action (Unit {0})
changes f dir = (f dir, ok tt)
