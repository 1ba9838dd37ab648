-- ===== src/Relocations/Slots.antt =====
-- What applying the relocations of a patch (patcher/relocations.c) leaves in the target's memory.
use nsb.Base.{List, []}
use nsb.Base.Int.{ℤ}
use nsb.Base.Word.{le_bytes}
use nsb.Elf.Reloc.{ExternSymbol}
use nsb.Patch.{FuncJump}
use nsb.Process.Memory.{Memory}
use nsb.Relocations.{Linking, plt_addr, func_addr}

-- The eight bytes that a relocation writes, as a jump with that place and those bytes: what is proved
-- of writing jumps holds of them.
abbrev pub slot_of : Linking → ExternSymbol → FuncJump
slot_of ctx es = record {
  name = [];
  func_value = 0;
  func_size = 0;
  patch_value = 0;
  shndx = 0;
  func_addr = plt_addr ctx es;
  code = [];
  func_jump = le_bytes 8 (func_addr ctx es);
}

-- How a walk ends: its result and the state.
abbrev end_of_walk {ℓ κ} : {A : Type ℓ} {S : Type κ} → ℤ × List A × S → ℤ × S
end_of_walk r = (r.0, r.2)
