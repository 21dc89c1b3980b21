-- ===== src/Numbers.antt =====
-- Rust's fixed-width integers (64 bits, `usize` too) and `Duration`, in nanoseconds.
pub mod Int
use ember_edge.Prelude.{
  ℕ, suc, ◌+◌, ◌-◌, ◌*◌, ◌/◌, ◌%◌, ◌^◌, ◌<◌, ◌≤◌, ◌≡◌, Bool, Option, none, some, arith, ltb,
  if◌then◌else◌, Eq, ◌==◌, ==_iff,
}
use Int.{ℤ, pos, negsuc, ◌+ℤ◌}

abbrev pub u64_mod : ℕ
u64_mod = 2 ^ 64

abbrev pub i64_bound : ℕ
i64_bound = 2 ^ 63

-- `checked_mul`.
unfoldable pub checked_mul : ℕ → ℕ → Option ℕ
checked_mul a b = if ltb (a * b) u64_mod then some (a * b) else none

-- `n as i64` for a u64 or a usize.
unfoldable pub as_i64 : ℕ → ℤ
as_i64 n = if ltb n i64_bound then pos n else negsuc (u64_mod - n - 1)

-- A sum of two i64 values in a release build, which wraps.
unfoldable pub wrap_i64 : ℤ → ℤ
unfolding as_i64
wrap_i64 (pos n) = as_i64 (n % u64_mod)
wrap_i64 (negsuc n) = as_i64 (u64_mod - 1 - n % u64_mod)

unfoldable pub add_i64 : ℤ → ℤ → ℤ
unfolding wrap_i64 ◌+ℤ◌
add_i64 a b = wrap_i64 (a +ℤ b)

-- `Duration`s in nanoseconds.
unfoldable pub from_millis : ℕ → ℕ
from_millis ms = ms * 1_000_000

unfoldable pub from_secs : ℕ → ℕ
from_secs s = s * 1_000_000_000

unfoldable pub as_millis : ℕ → ℕ
as_millis d = d / 1_000_000

-- Addresses of shared values.
instance abbrev pub address_Eq : Eq ℕ
address_Eq = record { beq = λ a b. a == b; beq_iff = ==_iff }
