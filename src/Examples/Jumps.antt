-- ===== src/Examples/Jumps.antt =====
-- Examples for the jumps of a patch, and for the instructions.
use nsb.Base.{
  ℕ, ◌≤◌, ◌≡◌, refl, inl, inr, List, [], ◌∷◌, map, none, some, length, drop, replicate, Bool, arith,
  All,
}
use nsb.Base.Int.{pos, enoent}
use nsb.Base.Word.{add64}
use nsb.Examples.{target, patch_dlm, nops, jump_at, counting}
use nsb.DlMap.{dlm_load_base}
use nsb.Patch.{FuncJump, Patch}
use nsb.Patch.Jumps.{
  TargetFile, read_func_jump_code, tune_patch_func_jump, tune_patch_func_jumps, apply_func_jumps,
}
use nsb.Patch.Jumps.Redirects.{JumpsToPatch, apply_tuned_func_jumps-redirect}
use nsb.Patch.Jumps.Tuned.{tuned, TunesWell, tune_patch_func_jumps-stops}
use nsb.Patch.Revert.{patch_revert_func_jumps, find_previous_func_jump}
use nsb.Patch.Revert.Overlays.{Spread}
use nsb.Patch.Revert.Restores.{apply_func_jumps-stands, revert-apply}
use nsb.Process.Memory.{plain, plain-ReadsAndWrites, process_read_data, bytes_at}
use nsb.X86.{x86_jmpq_instruction, x86_64_call, call_offset}
use nsb.X86.Call.{x86_64_call-runs, args_in_regs}
use nsb.X86.Jump.{jmpq-jmp_target}
use nsb.X86.Machine.{Regs, jmp_target, movs, near_target}

-- A file of which every byte is 0x55, with sections that lie at their offsets.
abbrev file : TargetFile
file = record { virt_base = λ ei ndx. some 0; pread = λ dlm offset size. inr (replicate size 0x55) }

-- A jump that is placed, with its eight bytes.
abbrev placed : (func_addr : ℕ) → FuncJump
placed func_addr = record {
  name = [];
  func_value = 0;
  func_size = 0x20;
  patch_value = 0;
  shndx = 1;
  func_addr = func_addr;
  code = bytes_at counting func_addr 8;
  func_jump = 0xe9 ∷ 1 ∷ 2 ∷ 3 ∷ 4 ∷ 0x90 ∷ 0x90 ∷ 0x90 ∷ [];
}

abbrev two_jumps : List FuncJump
two_jumps = placed 0x10000100 ∷ placed 0x10000200 ∷ []

abbrev two_patch : Patch
two_patch = record {
  id = 7;
  target_dlm = some target;
  patch_dlm = patch_dlm;
  pi = record {
    target_bid = [];
    patch_bid = [];
    func_jumps = two_jumps;
    manual_syms = [];
    global_syms = [];
    static_syms = [];
  };
}

two_previous :
    (fj : FuncJump) → find_previous_func_jump (two_patch ∷ []) two_patch fj ≡ (enoent, none)
unfolding find_previous_func_jump
two_previous fj = refl

revert-apply_example :
    (patch_revert_func_jumps plain Bool.false
      (two_patch ∷ [])
      two_patch
      (apply_func_jumps plain Bool.false two_jumps counting).1).1
    ≡ counting
revert-apply_example =
    revert-apply plain plain-ReadsAndWrites (two_patch ∷ []) two_patch counting
      ((inl (omega arith), tt), (tt, tt)) ((λ e. ground (arith, e)), ((λ e. ground (arith, e)), tt))
      (refl, (refl, tt))
      (
        inl (two_previous (placed 0x10000100), refl),
        (inl (two_previous (placed 0x10000200), refl), tt),
      )

apply_func_jumps-stands_example :
    All
      (λ (fj : FuncJump).
        process_read_data plain
          (apply_func_jumps plain Bool.false two_jumps counting).1
          fj.func_addr
          8
        ≡ (pos 0, fj.func_jump))
      two_jumps
apply_func_jumps-stands_example =
    apply_func_jumps-stands plain plain-ReadsAndWrites two_jumps counting
      ((inl (omega arith), tt), (tt, tt)) (refl, (refl, tt))

abbrev untuned : List FuncJump
untuned = jump_at 0x100 0x500 ∷ jump_at 0x200 0x600 ∷ []

untuned_well : All (TunesWell file target patch_dlm) untuned
unfolding tune_patch_func_jump read_func_jump_code x86_jmpq_instruction dlm_load_base
untuned_well = (refl, (refl, tt))

untuned-Spread : Spread (map (tuned file target patch_dlm) untuned)
unfolding tune_patch_func_jump read_func_jump_code x86_jmpq_instruction dlm_load_base
untuned-Spread = ((inl (omega arith), tt), (tt, tt))

-- The second function of the patch is too far away for its jump.
abbrev far_jump : FuncJump
far_jump = jump_at 0x200 0x7f0000000000

far_badly : ¬ TunesWell file target patch_dlm far_jump
unfolding tune_patch_func_jump x86_jmpq_instruction dlm_load_base
far_badly h = ground (arith, h)

tune_patch_func_jumps-stops_example :
    tune_patch_func_jumps file target patch_dlm
      (jump_at 0x100 0x500 ∷ far_jump ∷ jump_at 0x300 0x700 ∷ [])
    ≡ (
      pos 0,
      tuned file target patch_dlm (jump_at 0x100 0x500)
          ∷ tuned file target patch_dlm far_jump
          ∷ jump_at 0x300 0x700
          ∷ [],
    )
tune_patch_func_jumps-stops_example =
    tune_patch_func_jumps-stops file target patch_dlm (jump_at 0x100 0x500 ∷ [])
      (jump_at 0x300 0x700 ∷ []) far_jump (untuned_well.0, tt) far_badly

apply_tuned_func_jumps-redirect_example :
    All
      (JumpsToPatch file plain target patch_dlm
        (apply_func_jumps plain Bool.false
          (tune_patch_func_jumps file target patch_dlm untuned).1
          counting).1)
      untuned
apply_tuned_func_jumps-redirect_example =
    apply_tuned_func_jumps-redirect file plain target patch_dlm plain-ReadsAndWrites untuned
      counting ((refl, refl), ((refl, refl), tt)) untuned_well untuned-Spread

jmpq-jmp_target_example :
    let (size, code) = x86_jmpq_instruction nops 0x1000 0x400 in
    (size ≡ pos 5)
    × (jmp_target 0x1000 code ≡ some 0x400)
    × (drop 5 code ≡ replicate 3 0x90)
    × (length code ≡ 8)
jmpq-jmp_target_example =
    jmpq-jmp_target nops 0x1000 0x400 (omega arith) (omega arith) (omega arith)

abbrev no_regs : Regs
no_regs = record { rdi = 0; rsi = 0; rdx = 0; rcx = 0; r8 = 0; r9 = 0 }

x86_64_call-runs_example :
    (code : List ℕ) × (insn : List ℕ) × (x86_64_call
        (0 ∷ 0 ∷ 0 ∷ 0 ∷ [])
        0x10000500
        0x10000000
        1
        2
        3
        4
        5
        6
      ≡ (pos 66, code))
    × (movs 6 no_regs code ≡ some (args_in_regs 1 2 3 4 5 6, insn))
    × (near_target 0xe8 (add64 0x10000000 call_offset) insn ≡ some 0x10000500)
    × (drop 5 insn ≡ 0xcc ∷ [])
    × (length code ≡ 66)
    × (length code ≤ 102)
x86_64_call-runs_example =
    x86_64_call-runs (0 ∷ 0 ∷ 0 ∷ 0 ∷ []) 0x10000500 0x10000000 1 2 3 4 5 6 no_regs refl
      (omega arith) (omega arith) (omega arith) (omega arith) (omega arith) (omega arith)
      (omega arith) (omega arith)
