-- ===== src/Base/Integers.antt =====
-- Go's int64: signed numbers over the native ones, with the wrap-around of 64-bit words, their
-- order, and the order of texts by bytes.
use Prim.Native.Nat.{ℕ, zero, suc, ◌+◌, ◌-◌, ◌/◌, ◌%◌, ◌^◌, ◌<◌}
use selfservice_api.Base.Tests.{ltb, leb, ◌==◌, if◌then◌else◌}
use mathlib.Core.Path.{◌≡◌}
use mathlib.Core.Bool.{Bool, true, false}
use native.Mathlib.Omega.{arith}

-- `negsuc n` is -(n + 1).
pub data ℤ : Type 0 where
  pos : ℕ → ℤ
  negsuc : ℕ → ℤ

-- Go's `^z`, which is -z - 1.
abbrev pub complement : ℤ → ℤ
complement (pos n) = negsuc n
complement (negsuc n) = pos n

-- The word with the value n, read as a signed one.
abbrev pub signed : ℕ → ℤ
signed n = let m = n % 2 ^ 64 in if ltb m (2 ^ 63) then pos m else negsuc (2 ^ 64 - 1 - m)

abbrev pub wrap : ℤ → ℤ
wrap (pos n) = signed n
wrap (negsuc n) = complement (signed n)

-- a - b in the numbers.
abbrev pub difference : ℕ → ℕ → ℤ
difference a b = if leb b a then pos (a - b) else negsuc (b - a - 1)

abbrev pub exact_sum : ℤ → ℤ → ℤ
exact_sum (pos a) (pos b) = pos (a + b)
exact_sum (pos a) (negsuc b) = difference a (suc b)
exact_sum (negsuc a) (pos b) = difference b (suc a)
exact_sum (negsuc a) (negsuc b) = negsuc (suc (a + b))

abbrev pub negated : ℤ → ℤ
negated (pos zero) = pos 0
negated (pos (suc n)) = negsuc n
negated (negsuc n) = pos (suc n)

infixl 60 ◌+ℤ◌
abbrev pub ◌+ℤ◌ : ℤ → ℤ → ℤ
a +ℤ b = wrap (exact_sum a b)

infixl 60 ◌-ℤ◌
abbrev pub ◌-ℤ◌ : ℤ → ℤ → ℤ
a -ℤ b = wrap (exact_sum a (negated b))

-- Division by a positive constant cuts towards 0.
abbrev pub quotient : ℤ → ℕ → ℤ
quotient (pos n) d = pos (n / d)
quotient (negsuc n) d = negated (pos (suc n / d))

abbrev pub int_ltb : ℤ → ℤ → Bool
int_ltb (pos a) (pos b) = ltb a b
int_ltb (pos a) (negsuc b) = false
int_ltb (negsuc a) (pos b) = true
int_ltb (negsuc a) (negsuc b) = ltb b a

abbrev pub int_eq : ℤ → ℤ → Bool
int_eq (pos a) (pos b) = a == b
int_eq (negsuc a) (negsuc b) = a == b
int_eq _ _ = false

-- Sums of numbers that keep below 2 ^ 63 do not wrap.
pub sum-small : (a b : ℕ) → a + b < 2 ^ 63 → (pos a +ℤ pos b) ≡ pos (a + b)
sum-small a b h = ground arith
