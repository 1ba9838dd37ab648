-- ===== src/X86/Machine.antt =====
-- What the processor makes of the bytes that patcher/x86_64.c builds: an independent reading of the
-- few instructions that occur, against which the encoders are proved.
use nsb.Base.{ℕ, ◌∷◌, List, Option, none, some, ◌==◌, if◌then◌else◌}
use nsb.Base.Word.{add64, sign_extend32, from_le}

-- The target of `jmp rel32` or `call rel32`, by its opcode, at the address `ip`.
abbrev pub near_target : (opcode ip : ℕ) → List ℕ → Option ℕ
near_target opcode ip (op ∷ b0 ∷ b1 ∷ b2 ∷ b3 ∷ rest) =
    if op == opcode
    then some (add64 (add64 ip 5) (sign_extend32 (from_le (b0 ∷ b1 ∷ b2 ∷ b3 ∷ List.[]))))
    else none
near_target opcode ip bytes = none

abbrev pub jmp_target : (ip : ℕ) → List ℕ → Option ℕ
jmp_target = near_target 0xe9

-- The registers that carry the arguments of a call.
pub record Regs : Type 0 where
  pub rdi : ℕ
  pub rsi : ℕ
  pub rdx : ℕ
  pub rcx : ℕ
  pub r8 : ℕ
  pub r9 : ℕ

-- `movabs $imm, reg`: REX.W selects the low registers, REX.WB the high ones.
abbrev pub set_reg : (prefix reg imm : ℕ) → Regs → Option Regs
set_reg prefix reg imm r =
    if prefix == 0x48
    then if reg == 0xbf
      then some (record r { rdi = imm })
      else if reg == 0xbe
      then some (record r { rsi = imm })
      else if reg == 0xba
      then some (record r { rdx = imm })
      else if reg == 0xb9
      then some (record r { rcx = imm })
      else none
    else if prefix == 0x49
    then if reg == 0xb8
      then some (record r { r8 = imm })
      else if reg == 0xb9
      then some (record r { r9 = imm })
      else none
    else none

-- One `movabs`: the registers after it and the code that follows.
abbrev pub mov : Regs → List ℕ → Option (Regs × List ℕ)
mov r (p ∷ o ∷ b0 ∷ b1 ∷ b2 ∷ b3 ∷ b4 ∷ b5 ∷ b6 ∷ b7 ∷ rest) =
    elim (set_reg p o (from_le (b0 ∷ b1 ∷ b2 ∷ b3 ∷ b4 ∷ b5 ∷ b6 ∷ b7 ∷ List.[])) r) [
      | none ↦ none
      | some r' ↦ some (r', rest)
    ]
mov r bytes = none

abbrev pub movs : ℕ → Regs → List ℕ → Option (Regs × List ℕ)
movs ℕ.zero r bytes = some (r, bytes)
movs (ℕ.suc n) r bytes = elim (mov r bytes) [ none ↦ none | some (r', rest) ↦ movs n r' rest ]
