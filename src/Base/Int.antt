-- ===== src/Base/Int.antt =====
-- Signed integers over the native numbers, under the library's names (its ℤ stands on the unary ℕ),
-- and the fixed-width words: a `uint32_t` is a number below 2 ^ 32, an `int32_t` an integer whose
-- arithmetic is undefined out of range.
use latency_lab.Base.Tests.{ltb, leb, if◌then◌else◌, ◌==◌}
use Prim.Native.Nat.{ℕ, suc, ◌+◌, ◌-◌, ◌^◌, ◌%◌, ◌≤◌, ◌<◌}
use mathlib.Core.Path.{◌≡◌}
use mathlib.Core.Bool.{Bool, true, ◌&&◌}
use mathlib.Core.Option.{Option, none, some}
use mathlib.Core.Logic.{◌↔◌}
use native.Mathlib.Omega.{arith}

-- `negsuc n` is -(n + 1).
pub data ℤ : Type 0 where
  pos : ℕ → ℤ
  negsuc : ℕ → ℤ

abbrev pub pos_part : ℤ → ℕ
pos_part (pos n) = n
pos_part (negsuc n) = 0

abbrev pub neg_part : ℤ → ℕ
neg_part (pos n) = 0
neg_part (negsuc n) = suc n

abbrev pub sub_ℕ : ℕ → ℕ → ℤ
sub_ℕ a b = if leb b a then pos (a - b) else negsuc (b - a - 1)

infixl 65 ◌+ℤ◌ ◌-ℤ◌
infix 50 ◌≤ℤ◌
abbrev pub ◌+ℤ◌ : ℤ → ℤ → ℤ
a +ℤ b = sub_ℕ (pos_part a + pos_part b) (neg_part a + neg_part b)

abbrev pub ◌-ℤ◌ : ℤ → ℤ → ℤ
a -ℤ b = sub_ℕ (pos_part a + neg_part b) (neg_part a + pos_part b)

abbrev pub ◌≤ℤ◌ : ℤ → ℤ → Type 0
a ≤ℤ b = pos_part a + neg_part b ≤ pos_part b + neg_part a

abbrev pub ltb_ℤ : ℤ → ℤ → Bool
ltb_ℤ a b = ltb (pos_part a + neg_part b) (pos_part b + neg_part a)

abbrev pub eqb_ℤ : ℤ → ℤ → Bool
eqb_ℤ a b = pos_part a + neg_part b == pos_part b + neg_part a

pub eqb_ℤ_iff : (a b : ℤ) → (eqb_ℤ a b ≡ true) ↔ (a ≡ b)
eqb_ℤ_iff a b = ground arith

abbrev pub u32_mod : ℕ
u32_mod = 2 ^ 32

-- `uint32_t` sum and difference; `-` on ℕ stops at 0, so the modulus is added first.
unfoldable pub add32 : ℕ → ℕ → ℕ
add32 a b = (a + b) % u32_mod

unfoldable pub sub32 : ℕ → ℕ → ℕ
sub32 a b = (a + u32_mod - b) % u32_mod

-- `static_cast<std::int32_t>` of a `uint32_t`
abbrev pub int32_of : ℕ → ℤ
int32_of w = if ltb w (2 ^ 31) then pos w else negsuc (u32_mod - w - 1)

-- `static_cast<std::uint32_t>` of an integer that an `int32_t` or an `int64_t` holds, reduced
-- modulo 2 ^ 32
abbrev pub u32_of : ℤ → ℕ
u32_of (pos n) = n % u32_mod
u32_of (negsuc n) = u32_mod - 1 - n % u32_mod

-- The result of an `int32_t` operation: out of range it is undefined.
abbrev pub int32 : ℤ → Option ℤ
int32 z = if leb (pos_part z) (2 ^ 31 - 1) && leb (neg_part z) (2 ^ 31) then some z else none

-- Wrapping words compute sums and differences modulo 2 ^ 32.
pub add32-mod : (a b : ℕ) → add32 (a % u32_mod) b ≡ (a + b) % u32_mod
unfolding add32
add32-mod a b = omega arith

pub sub32-mod : (a b : ℕ) → b ≤ a → b < u32_mod → sub32 (a % u32_mod) b ≡ (a - b) % u32_mod
unfolding sub32
sub32-mod a b h k = omega arith

pub sub32-eq-sub : (a b : ℕ) → b ≤ a → a < u32_mod → sub32 a b ≡ a - b
unfolding sub32
sub32-eq-sub a b h k = omega arith
