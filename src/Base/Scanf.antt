-- ===== src/Base/Scanf.antt =====
-- The part of the C library's `sscanf` that the patcher uses: `%lx`, `%x`, `%lu`, `%c`, literal
-- characters, white space, and `%n` at the end. The C locale's white space is taken.
use Prim.Native.Nat.{ℕ, ◌+◌, ◌-◌, ◌*◌}
use mathlib.Core.Bool.{Bool, true, false, ◌&&◌, ◌||◌}
use mathlib.Core.List.{List, [], ◌∷◌}
use mathlib.Core.Option.{Option, none, some}
use nsb.Base.Tests.{leb, ◌==◌, if◌then◌else◌}
use nsb.Base.Text.{Text}

-- What a byte means as a digit of the base.
abbrev pub digit_value : (base c : ℕ) → Option ℕ
digit_value base c =
    let v =
      if leb b'0' c && leb c b'9'
      then c - b'0'
      else if leb b'a' c && leb c b'f'
      then c - b'a' + 10
      else if leb b'A' c && leb c b'F'
      then c - b'A' + 10
      else 16 in
    if leb base v then none else some v

abbrev pub is_space : ℕ → Bool
is_space c = c == b' ' || (leb 9 c && leb c 13)

-- White space at the front is passed over: the rest, and how many bytes it took.
unfoldable pub skip_space : Text → ℕ → Text × ℕ
skip_space [] n = ([], n)
skip_space (c ∷ s) n = let rest = skip_space s (n + 1) in if is_space c then rest else (c ∷ s, n)

-- The digits at the front: the number behind `acc`, the rest, the position.
unfoldable pub scan_digits : (base acc : ℕ) → Text → ℕ → ℕ × Text × ℕ
scan_digits base acc [] n = (acc, [], n)
scan_digits base acc (c ∷ s) n = elim (digit_value base c) [
  | none ↦ (acc, c ∷ s, n)
  | some v ↦ scan_digits base (acc * base + v) s (n + 1)
]

abbrev pub starts_with_digit : ℕ → Text → Bool
starts_with_digit base [] = false
starts_with_digit base (c ∷ s) = elim (digit_value base c) [ none ↦ false | some _ ↦ true ]

-- `0x` in front of a hexadecimal number is a part of it.
abbrev pub skip_0x : Text → ℕ → Text × ℕ
skip_0x (z ∷ x ∷ s) n =
    if z == b'0' && ((x == b'x' || x == b'X') && starts_with_digit 16 s)
    then (s, n + 2)
    else (z ∷ x ∷ s, n)
skip_0x s n = (s, n)

pub data Directive : Type 0 where
  hex dec char space : Directive
  literal : ℕ → Directive

-- The conversions made, in order, and the position behind the last byte that was used: `some` of it
-- where the end of the format was reached, so that a final `%n` stores it.
abbrev pub Scanned : Type 0
Scanned = List ℕ × Option ℕ

abbrev pub converted : ℕ → Scanned → Scanned
converted v (vs, end) = (v ∷ vs, end)

abbrev pub scan_number : (base : ℕ) → Text × ℕ → Option (ℕ × Text × ℕ)
scan_number base (s, n) = if starts_with_digit base s then some (scan_digits base 0 s n) else none

unfoldable pub sscanf : List Directive → Text → ℕ → Scanned
unfolding skip_space scan_digits
sscanf [] s n = ([], some n)
sscanf (Directive.hex ∷ ds) s n =
    let (t, m) = skip_space s n in
    elim (scan_number 16 (skip_0x t m)) [
      | none ↦ ([], none)
      | some (v, rest, k) ↦ converted v (sscanf ds rest k)
    ]
sscanf (Directive.dec ∷ ds) s n = elim (scan_number 10 (skip_space s n)) [
  | none ↦ ([], none)
  | some (v, rest, k) ↦ converted v (sscanf ds rest k)
]
sscanf (Directive.char ∷ ds) [] n = ([], none)
sscanf (Directive.char ∷ ds) (c ∷ s) n = converted c (sscanf ds s (n + 1))
sscanf (Directive.space ∷ ds) s n = let (t, m) = skip_space s n in sscanf ds t m
sscanf (Directive.literal c ∷ ds) [] n = ([], none)
sscanf (Directive.literal c ∷ ds) (d ∷ s) n =
    let rest = sscanf ds s (n + 1) in if d == c then rest else ([], none)
