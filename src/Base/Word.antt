-- ===== src/Base/Word.antt =====
-- 64-bit machine words as native numbers, and their bytes in memory, the lowest first.
use Prim.Native.Nat.{ℕ, zero, suc, ◌+◌, ◌-◌, ◌*◌, ◌/◌, ◌%◌, ◌^◌}
use mathlib.Core.Path.{◌≡◌, refl}
use mathlib.Core.List.{List, [], ◌∷◌}
use native.Mathlib.Omega.{arith}
use nsb.Base.Tests.{ltb, if◌then◌else◌}
use nsb.Base.Int.{ℤ, pos, negsuc}
use nsb.Base.Lists.{length}

abbrev pub u64_mod : ℕ
u64_mod = 2 ^ 64

abbrev pub add64 : ℕ → ℕ → ℕ
add64 a b = (a + b) % u64_mod

-- `-` on ℕ stops at 0, so the modulus is added first.
abbrev pub sub64 : ℕ → ℕ → ℕ
sub64 a b = (a + u64_mod - b) % u64_mod

-- `~w`
abbrev pub not64 : ℕ → ℕ
not64 w = u64_mod - 1 - w

-- The number that the bit pattern of an `int64_t` stands for.
abbrev pub signed64 : ℕ → ℤ
signed64 w = if ltb w (2 ^ 63) then pos w else negsuc (u64_mod - w - 1)

-- The bit pattern of an `int64_t`.
abbrev pub bits64 : ℤ → ℕ
bits64 (pos n) = n % u64_mod
bits64 (negsuc n) = u64_mod - 1 - n % u64_mod

-- `labs(w)`, as a bit pattern.
abbrev pub labs64 : ℕ → ℕ
labs64 w = if ltb w (2 ^ 63) then w else u64_mod - w

-- A 32-bit pattern widened to 64 bits with its sign.
abbrev pub sign_extend32 : ℕ → ℕ
sign_extend32 d = if ltb d (2 ^ 31) then d else d + (u64_mod - 2 ^ 32)

-- The `n` lowest bytes of a word.
abbrev pub le_bytes : ℕ → ℕ → List ℕ
le_bytes zero w = []
le_bytes (suc n) w = (w % 256) ∷ le_bytes n (w / 256)

abbrev pub from_le : List ℕ → ℕ
from_le [] = 0
from_le (b ∷ bs) = b + 256 * from_le bs

pub from_le-le_bytes4 : (w : ℕ) → from_le (le_bytes 4 w) ≡ w % 2 ^ 32
from_le-le_bytes4 w = omega arith

pub from_le-le_bytes8 : (w : ℕ) → from_le (le_bytes 8 w) ≡ w % 2 ^ 64
from_le-le_bytes8 w = omega arith

pub length-le_bytes : (n w : ℕ) → length (le_bytes n w) ≡ n
length-le_bytes zero w = refl
length-le_bytes (suc n) w = omega (arith, length-le_bytes n (w / 256))

-- The number that the bit pattern of an `int` stands for.
abbrev pub signed32 : ℕ → ℤ
signed32 w = if ltb w (2 ^ 31) then pos w else negsuc (2 ^ 32 - w - 1)

-- A wider number stored to an `int`.
abbrev pub to_int : ℤ → ℤ
to_int z = signed32 (bits64 z % 2 ^ 32)
