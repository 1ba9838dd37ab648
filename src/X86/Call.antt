-- ===== src/X86/Call.antt =====
-- `x86_64_call` of patcher/x86_64.c against the processor's reading of its code.
use nsb.Base.{ℕ, ◌≤◌, ◌<◌, ◌≡◌, refl, List, [], ◌∷◌, ◌++◌, some, length, drop, write_at-full, arith}
use nsb.Base.Int.{pos, neg}
use nsb.Base.Word.{u64_mod, add64, sub64, le_bytes, from_le}
use nsb.X86.{x86_64_call, call_args, call_offset, call_max_size}
use nsb.X86.Jump.{Reaches, near_target-offset, ip_gen_offset-Reaches, ip_gen_offset-beyond}
use nsb.X86.Machine.{Regs, near_target, movs}

-- The registers of the System V calling convention, for six arguments.
abbrev pub args_in_regs : (arg0 arg1 arg2 arg3 arg4 arg5 : ℕ) → Regs
args_in_regs arg0 arg1 arg2 arg3 arg4 arg5 = record {
  rdi = arg0;
  rsi = arg1;
  rdx = arg2;
  rcx = arg3;
  r8 = arg4;
  r9 = arg5;
}

word : (w : ℕ) → w < u64_mod → from_le (le_bytes 8 w) ≡ w
word w h = omega arith

-- The six moves, run from any registers, leave the arguments where a callee expects them.
movs-call_args :
    (r : Regs) (arg0 arg1 arg2 arg3 arg4 arg5 : ℕ) (rest : List ℕ)
    → arg0 < u64_mod
    → arg1 < u64_mod
    → arg2 < u64_mod
    → arg3 < u64_mod
    → arg4 < u64_mod
    → arg5 < u64_mod
    → movs 6 r (call_args arg0 arg1 arg2 arg3 arg4 arg5 ++ rest)
      ≡ some (args_in_regs arg0 arg1 arg2 arg3 arg4 arg5, rest)
movs-call_args r arg0 arg1 arg2 arg3 arg4 arg5 rest h0 h1 h2 h3 h4 h5 i = some (
  record {
    rdi = word arg0 h0 i;
    rsi = word arg1 h1 i;
    rdx = word arg2 h2 i;
    rcx = word arg3 h3 i;
    r8 = word arg4 h4 i;
    r9 = word arg5 h5 i;
  },
  rest,
)

-- The code that a successful `x86_64_call` builds loads the six arguments in the registers of the
-- calling convention, then calls the function, then traps, and it fits the room that is kept for it
-- (`X86_64_CALL_MAX_SIZE`); it does not depend on the static buffer's old contents.
pub x86_64_call-runs :
    (rel : List ℕ) (call at arg0 arg1 arg2 arg3 arg4 arg5 : ℕ) (r : Regs)
    → length rel ≡ 4
    → call < u64_mod
    → arg0 < u64_mod
    → arg1 < u64_mod
    → arg2 < u64_mod
    → arg3 < u64_mod
    → arg4 < u64_mod
    → arg5 < u64_mod
    → Reaches (add64 at call_offset) call
    → (code : List ℕ) × (insn : List ℕ) × (x86_64_call rel call at arg0 arg1 arg2 arg3 arg4 arg5
        ≡ (pos 66, code))
      × (movs 6 r code ≡ some (args_in_regs arg0 arg1 arg2 arg3 arg4 arg5, insn))
      × (near_target 0xe8 (add64 at call_offset) insn ≡ some call)
      × (drop 5 insn ≡ 0xcc ∷ [])
      × (length code ≡ 66)
      × (length code ≤ call_max_size)
unfolding x86_64_call
x86_64_call-runs rel call at arg0 arg1 arg2 arg3 arg4 arg5 r full lt h0 h1 h2 h3 h4 h5 reach =
    let insn = 0xe8 ∷ (le_bytes 4 (sub64 call (add64 (add64 at call_offset) 5)) ++ 0xcc ∷ []) in
    (
      call_args arg0 arg1 arg2 arg3 arg4 arg5 ++ insn,
      insn,
      rw (
        ip_gen_offset-Reaches (add64 (add64 at call_offset) 5) call reach,
        write_at-full rel (le_bytes 4 (sub64 call (add64 (add64 at call_offset) 5))) full,
      ),
      movs-call_args r arg0 arg1 arg2 arg3 arg4 arg5 insn h0 h1 h2 h3 h4 h5,
      near_target-offset (add64 at call_offset) call 0xe8 (0xcc ∷ []) lt reach,
      refl,
      refl,
      omega arith,
    )

-- Where the function is out of reach of the call instruction, `x86_64_call` results in -1 and no code.
pub x86_64_call-beyond :
    (rel : List ℕ) (call at arg0 arg1 arg2 arg3 arg4 arg5 : ℕ)
    → ¬ Reaches (add64 at call_offset) call
    → x86_64_call rel call at arg0 arg1 arg2 arg3 arg4 arg5 ≡ (neg 1, [])
unfolding x86_64_call
x86_64_call-beyond rel call at arg0 arg1 arg2 arg3 arg4 arg5 far =
    rw (ip_gen_offset-beyond (add64 (add64 at call_offset) 5) call (omega arith))
