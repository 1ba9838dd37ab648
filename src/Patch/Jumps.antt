-- ===== src/Patch/Jumps.antt =====
-- Preparing and writing the jumps from the target's functions to the patch's (write_func_code,
-- write_func_jump, apply_func_jumps, read_func_jump_code, tune_patch_func_jump and
-- tune_patch_func_jumps of patcher/patch.c).
pub mod Redirects
pub mod Tuned
use nsb.Base.{
  ℕ, Bool, true, false, List, [], ◌∷◌, Option, none, some, ◌⊎◌, inl, inr, length, write_at, ltb,
  not, ◌==◌, if◌then◌else◌,
}
use nsb.Base.Int.{ℤ, pos, negsuc, is_neg, einval}
use nsb.Base.Loop.{Actor, for_each_entry, reading}
use nsb.Base.Word.{add64, sub64, bits64}
use nsb.DlMap.{DlMap, dlm_load_base}
use nsb.Elf.{ElfInfo}
use nsb.Patch.{FuncJump}
use nsb.Process.Memory.{Tracee, process_write_data}
use nsb.X86.{x86_jmpq_instruction}

-- What the target's file holds: `virt_base` is the address of a section less its file offset (none
-- where the section cannot be had), and `pread` the bytes of the file at an offset, at most as many
-- as asked for, or n for errno n + 1.
pub record TargetFile : Type 0 where
  pub virt_base : ElfInfo → (shndx : ℕ) → Option ℕ
  pub pread : DlMap → (offset size : ℕ) → ℕ ⊎ List ℕ

module _ (t : Tracee) where
  unfoldable pub write_func_code : FuncJump → t.State → ℤ × t.State
  write_func_code fj s = process_write_data t s fj.func_addr fj.code

  unfoldable pub write_func_jump : (dry_run : Bool) → FuncJump → t.State → ℤ × t.State
  write_func_jump dry_run fj s =
      if dry_run then (pos 0, s) else process_write_data t s fj.func_addr fj.func_jump

  -- The result is 0 whatever the walk's was.
  unfoldable pub apply_func_jumps : (dry_run : Bool) → List FuncJump → t.State → ℤ × t.State
  apply_func_jumps dry_run fjs s =
      let (err, fjs', s') = for_each_entry (reading (write_func_jump dry_run)) fjs s in (pos 0, s')

-- What comes of the `read` into the code.
abbrev pub code_read : FuncJump → ℕ ⊎ List ℕ → ℤ × FuncJump
code_read fj (inl n) = (negsuc n, fj)
code_read fj (inr bytes) =
    let read = record fj { code = write_at fj.code 0 bytes } in
    if not (length bytes == 8) then (einval, read) else (pos 0, read)

module _ (file : TargetFile) where
  open file use {virt_base, pread}

  -- `elf_section_virt_base`: its error is a number like any other to the caller.
  abbrev section_virt_base : ElfInfo → ℕ → ℕ
  section_virt_base ei ndx = elim (virt_base ei ndx) [ none ↦ bits64 einval | some b ↦ b ]

  abbrev pub code_offset : DlMap → FuncJump → ℕ
  code_offset target_dlm fj = sub64 fj.func_value (section_virt_base target_dlm.ei fj.shndx)

  unfoldable pub read_func_jump_code : DlMap → FuncJump → ℤ × FuncJump
  read_func_jump_code target_dlm fj = code_read fj (pread target_dlm (code_offset target_dlm fj) 8)

  unfoldable pub tune_patch_func_jump : (target_dlm patch_dlm : DlMap) → FuncJump → ℤ × FuncJump
  tune_patch_func_jump target_dlm patch_dlm fj =
      let func_addr = add64 (dlm_load_base target_dlm) fj.func_value in
      let patch_addr = add64 (dlm_load_base patch_dlm) fj.patch_value in
      let (size, jump) = x86_jmpq_instruction fj.func_jump func_addr patch_addr in
      let fj' = record fj { func_addr = func_addr; func_jump = jump } in
      if is_neg size then (size, fj') else read_func_jump_code target_dlm fj'

  abbrev pub tuning : (target_dlm patch_dlm : DlMap) → Actor FuncJump (Unit {0})
  tuning target_dlm patch_dlm fj s =
      let (err, fj') = tune_patch_func_jump target_dlm patch_dlm fj in (err, fj' ∷ [], s)

  -- The result is 0 whatever the walk's was; the jumps behind the first that failed are not tuned.
  unfoldable pub tune_patch_func_jumps :
      (target_dlm patch_dlm : DlMap) → List FuncJump → ℤ × List FuncJump
  tune_patch_func_jumps target_dlm patch_dlm fjs =
      let (err, fjs', s) = for_each_entry (tuning target_dlm patch_dlm) fjs tt in (pos 0, fjs')
