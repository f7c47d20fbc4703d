-- ===== src/Prelude/Words.antt =====
-- Machine words: the ranges of u16, u32, u64 and usize, Rust's checked and saturating additions,
-- and `Duration` as a number of nanoseconds.
use Prim.Native.Nat.{ℕ, ◌+◌, ◌*◌, ◌/◌, ◌%◌, ◌≤◌, min}
use mathlib.Core.Bool.{Bool}
use mathlib.Core.Option.{Option, none, some}
use native.Mathlib.Omega.{arith}
use pulse.Prelude.Tests.{leb, if◌then◌else◌, ◌==◌}

abbrev pub u32_max : ℕ
u32_max = 4294967295

abbrev pub u64_max : ℕ
u64_max = 18446744073709551615

-- u64::checked_add
abbrev pub checked_add : ℕ → ℕ → Option ℕ
checked_add a b = if leb (a + b) u64_max then some (a + b) else none

-- u64::saturating_add
unfoldable pub saturating_add : ℕ → ℕ → ℕ
saturating_add a b = min (a + b) u64_max

pub saturating_add_bounds :
    (a b : ℕ) → (saturating_add a b ≤ u64_max) × (saturating_add a b ≤ a + b)
unfolding saturating_add
saturating_add_bounds a b = omega arith

-- A `Duration`, in nanoseconds.
abbrev pub Duration : Type 0
Duration = ℕ

-- Duration::is_zero
abbrev pub is_zero : Duration → Bool
is_zero d = d == 0

-- Duration::as_millis
abbrev pub as_millis : Duration → ℕ
as_millis d = d / 1000000

-- Duration::from_millis
abbrev pub from_millis : ℕ → Duration
from_millis n = n * 1000000

-- `a += b` on a u64 in a release build; a debug build stops where it would wrap.
abbrev pub wrapping_add : ℕ → ℕ → ℕ
wrapping_add a b = (a + b) % 18446744073709551616
