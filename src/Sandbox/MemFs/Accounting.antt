-- ===== src/Sandbox/MemFs/Accounting.antt =====
-- The byte accounting of `MemFs`: `used` is the size of the files and stays within the quota.
use ember_edge.Prelude.{
  ℕ, ◌+◌, ◌-◌, ◌%◌, ◌≤◌, ◌<◌, ◌≡◌, refl, ◌&&◌, [], ◌∷◌, arith, length, lookup, insert, remove, ltb,
  Distinct, remove-eq_self,
}
use ember_edge.Numbers.{u64_mod, i64_bound}
use ember_edge.Numbers.Int.{sub_ℕ}
use ember_edge.Sandbox.ScratchPath.{Components, components_Eq, components_eq_iff}
use ember_edge.Sandbox.MemFs.{Bytes, Files, MemFs, new, held_length, account, over_quota}

-- The bytes that the files hold.
pub total : Files → ℕ
total [] = 0
total ((k, b) ∷ m) = length b + total m

pub total-insert :
    (k : Components) (b : Bytes) (m : Files)
    → total (insert k b m) + held_length (lookup k m) ≡ total m + length b
unfolding total insert lookup
total-insert k b [] = omega arith
total-insert k b ((j, c) ∷ m) = ground (arith, total-insert k b m)

pub total-remove :
    (k : Components) (m : Files)
    → Distinct m
    → total (remove k m) + held_length (lookup k m) ≡ total m
unfolding total remove lookup
total-remove k [] d = omega arith
total-remove k ((j, c) ∷ m) d =
    ground (arith, total-remove k m d.1, remove-eq_self k m, components_eq_iff j k)

pub held-le-total : (k : Components) (m : Files) → held_length (lookup k m) ≤ total m
unfolding total lookup
held-le-total k [] = omega arith
held-le-total k ((j, c) ∷ m) = ground (arith, held-le-total k m)

-- What every method keeps.
pub record IsAccounted (fs : MemFs) : Type 0 where
  pub distinct : Distinct fs.files
  pub counted : fs.used ≡ total fs.files
  pub bounded : fs.used ≤ fs.quota_bytes

pub new-IsAccounted : (quota : ℕ) → IsAccounted (new quota)
unfolding new total
new-IsAccounted quota = record { distinct = tt; counted = refl; bounded = omega arith }

-- In range, the counter moves by the exact difference of the lengths.
pub account_exact :
    (used a b : ℕ) → used + a < u64_mod → b ≤ used → account used (sub_ℕ a b) ≡ used + a - b
unfolding account
account_exact used a b h k = ground arith

-- In range, the test in i64 is the test on the numbers.
pub over_quota_exact :
    (fs : MemFs) (a b : ℕ)
    → fs.quota_bytes + a < i64_bound
    → fs.used ≤ fs.quota_bytes
    → b ≤ fs.used
    → over_quota fs (sub_ℕ a b) ≡ (ltb b a && ltb fs.quota_bytes (fs.used + a - b))
unfolding over_quota
over_quota_exact fs a b h k l = ground arith

pub account_remove :
    (used a : ℕ) → used < u64_mod → a ≤ used → (used + (u64_mod - a % u64_mod)) % u64_mod ≡ used - a
account_remove used a h k = ground arith
