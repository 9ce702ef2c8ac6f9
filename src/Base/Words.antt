-- ===== src/Base/Words.antt =====
-- Machine words: a w-bit unsigned value is a natural number below 2 ^ w, and the checked
-- operations of Rust test the bound.
use Prim.Native.Nat.{ℕ, ◌+◌, ◌-◌, ◌*◌, ◌^◌}
use mathlib.Core.Option.{Option, none, some}
use slopos.Base.Tests.{ltb, leb, if◌then◌else◌}

abbrev pub u16_mod : ℕ
u16_mod = 2 ^ 16

abbrev pub u32_mod : ℕ
u32_mod = 2 ^ 32

abbrev pub u64_mod : ℕ
u64_mod = 2 ^ 64

-- checked_add below a modulus
abbrev pub checked_add : ℕ → ℕ → ℕ → Option ℕ
checked_add modulus a b = if ltb (a + b) modulus then some (a + b) else none

abbrev pub checked_mul : ℕ → ℕ → ℕ → Option ℕ
checked_mul modulus a b = if ltb (a * b) modulus then some (a * b) else none

abbrev pub checked_sub : ℕ → ℕ → Option ℕ
checked_sub a b = if leb b a then some (a - b) else none

-- `try_from` into a type of that modulus
abbrev pub try_from : ℕ → ℕ → Option ℕ
try_from modulus a = if ltb a modulus then some a else none
