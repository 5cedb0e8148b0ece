-- ===== src/Prelude/Int.antt =====
-- Go's `int`, a 64-bit signed integer: an integer whose operations wrap round.
use Prim.Native.Nat.{ℕ, suc, ◌+◌, ◌-◌, ◌%◌, ◌≤◌, ◌<◌}
use mathlib.Core.Path.{◌≡◌}
use mathlib.Core.Bool.{Bool}
use native.Mathlib.Omega.{arith}
use task_orchestrator.Prelude.Tests.{ltb, leb, if◌then◌else◌}

-- `negsuc n` is -(n + 1).
pub data ℤ : Type 0 where
  pos : ℕ → ℤ
  negsuc : ℕ → ℤ

abbrev pub pos_part : ℤ → ℕ
pos_part (pos n) = n
pos_part (negsuc n) = 0

abbrev pub neg_part : ℤ → ℕ
neg_part (pos n) = 0
neg_part (negsuc n) = suc n

-- a - b, as an integer.
abbrev pub sub_ℕ : ℕ → ℕ → ℤ
sub_ℕ a b = if leb b a then pos (a - b) else negsuc (b - a - 1)

infix 50 ◌≤ℤ◌ ◌<ℤ◌
abbrev pub ◌≤ℤ◌ : ℤ → ℤ → Type 0
a ≤ℤ b = pos_part a + neg_part b ≤ pos_part b + neg_part a

abbrev pub ◌<ℤ◌ : ℤ → ℤ → Type 0
a <ℤ b = pos_part a + neg_part b < pos_part b + neg_part a

abbrev pub leb_ℤ : ℤ → ℤ → Bool
leb_ℤ a b = leb (pos_part a + neg_part b) (pos_part b + neg_part a)

abbrev pub ltb_ℤ : ℤ → ℤ → Bool
ltb_ℤ a b = ltb (pos_part a + neg_part b) (pos_part b + neg_part a)

abbrev pub max_int : ℕ
max_int = 9223372036854775807

-- The value of an integer in 64 bits, in two's complement.
abbrev pub wrap64 : ℤ → ℤ
wrap64 (pos n) =
    let r = n % 18446744073709551616 in
    if leb r max_int then pos r else negsuc (18446744073709551615 - r)
wrap64 (negsuc n) =
    let r = n % 18446744073709551616 in
    if leb r max_int then negsuc r else pos (18446744073709551615 - r)

-- The values that an `int` can hold.
abbrev pub IsInt64 : ℤ → Type 0
IsInt64 (pos n) = n ≤ max_int
IsInt64 (negsuc n) = n ≤ max_int

infixl 65 ◌+64◌ ◌-64◌
-- Addition and subtraction of `int`s.
abbrev pub ◌+64◌ : ℤ → ℤ → ℤ
a +64 b = wrap64 (sub_ℕ (pos_part a + pos_part b) (neg_part a + neg_part b))

abbrev pub ◌-64◌ : ℤ → ℤ → ℤ
a -64 b = wrap64 (sub_ℕ (pos_part a + neg_part b) (neg_part a + pos_part b))

-- Go's `%` has the sign of the dividend. (A zero divisor is a panic, which callers exclude.)
abbrev pub rem : ℤ → ℤ → ℤ
rem (pos a) n = pos (a % (pos_part n + neg_part n))
rem (negsuc a) n = sub_ℕ 0 (suc a % (pos_part n + neg_part n))

pub int_of_ℕ-wrap : (n : ℕ) → n ≤ max_int → wrap64 (pos n) ≡ pos n
int_of_ℕ-wrap n h = ground arith
