-- ===== src/Runtime/Pool.antt =====
-- `InstancePool` (src/runtime/invoke.rs). The lock is held through `acquire`, instantiation
-- included, so `acquire` and `release` are one step each. `I` is what an instance is, a store with
-- its guest.
pub mod Generations
use ember_edge.Prelude.{
  ℕ, ◌≡◌, Bool, Option, none, some, List, [], ◌∷◌, ◌++◌, arith, if◌then◌else◌, ltb, length, max,
}
use ember_edge.Text.Basic.{Str, str_eq}
use ember_edge.Errors.{Error}
use ember_edge.Errors.Monad.{Result, ok, err, ◌>>=◌}

pub record Prepared (I : Type 0) : Type 0 where
  pub digest : Str
  pub store : I

pub record InstancePool (I : Type 0) : Type 0 where
  pub queue : List (Prepared I)
  pub cap : ℕ

module _ {I : Type 0} where
  unfoldable pub new : ℕ → InstancePool I
  new cap = record { queue = []; cap = max cap 1 }

  -- The `while let` loop: entries are popped until one has the digest; the others are dropped.
  unfoldable pub scan : Str → List (Prepared I) → Option (Prepared I) × List (Prepared I)
  scan digest [] = (none, [])
  scan digest (p ∷ ps) =
      let rest = scan digest ps in if str_eq p.digest digest then (some p, ps) else rest

  -- `build` makes a store and instantiates the component in it.
  unfoldable pub acquire :
      InstancePool I → Str → Result Error I → InstancePool I × Result Error (Prepared I)
  acquire pool digest build =
      let (found, rest) = scan digest pool.queue in
      (
        record pool { queue = rest },
        elim found [
          | some p ↦ ok p
          | none ↦ build >>= λ i. ok (record { digest = digest; store = i })
        ],
      )

  unfoldable pub release : InstancePool I → Prepared I → InstancePool I
  release pool p =
      if ltb (length pool.queue) pool.cap
      then record pool { queue = pool.queue ++ (p ∷ []) }
      else pool
