-- ===== src/Base/Int.antt =====
-- The signed results of the C functions: an error is a negative number, `-ENOENT` is `neg 2`.
use Prim.Native.Nat.{ℕ, zero, suc}
use mathlib.Core.Path.{◌≡◌}
use mathlib.Core.Bool.{Bool, true, false}
use native.Mathlib.Omega.{arith}
use nsb.Base.Tests.{◌==◌}

-- `negsuc n` is -(n + 1).
pub data ℤ : Type 0 where
  pos : ℕ → ℤ
  negsuc : ℕ → ℤ

abbrev pub neg : ℕ → ℤ
neg zero = pos 0
neg (suc n) = negsuc n

-- `if (err < 0)`
abbrev pub is_neg : ℤ → Bool
is_neg (pos n) = false
is_neg (negsuc n) = true

-- `if (!err)`
abbrev pub is_zero : ℤ → Bool
is_zero (pos n) = n == 0
is_zero (negsuc n) = false

-- `a == b`
abbrev pub eq_ℤ : ℤ → ℤ → Bool
eq_ℤ (pos a) (pos b) = a == b
eq_ℤ (negsuc a) (negsuc b) = a == b
eq_ℤ (pos a) (negsuc b) = false
eq_ℤ (negsuc a) (pos b) = false

-- A Boolean of C.
abbrev pub of_bool : Bool → ℤ
of_bool true = pos 1
of_bool false = pos 0

pub is_zero-eq : (a : ℤ) → is_zero a ≡ true → a ≡ pos 0
is_zero-eq (pos n) h = ground arith
is_zero-eq (negsuc n) h = ground arith

abbrev pub enoent : ℤ
enoent = negsuc 1

abbrev pub esrch : ℤ
esrch = negsuc 2

abbrev pub e2big : ℤ
e2big = negsuc 6

abbrev pub eagain : ℤ
eagain = negsuc 10

abbrev pub enomem : ℤ
enomem = negsuc 11

abbrev pub efault : ℤ
efault = negsuc 13

abbrev pub ebusy : ℤ
ebusy = negsuc 15

abbrev pub eexist : ℤ
eexist = negsuc 16

abbrev pub einval : ℤ
einval = negsuc 21

abbrev pub enospc : ℤ
enospc = negsuc 27

abbrev pub erange : ℤ
erange = negsuc 33

abbrev pub enodata : ℤ
enodata = negsuc 60

abbrev pub etime : ℤ
etime = negsuc 61

abbrev pub enotsup : ℤ
enotsup = negsuc 94
