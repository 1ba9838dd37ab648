-- ===== src/X86.antt =====
-- The instructions that the patcher builds (patcher/x86_64.c). A buffer is a list of bytes, its
-- size the list's length; a function that fills one returns its result and the buffer.
pub mod Call
pub mod Jump
pub mod Machine
use nsb.Base.{
  ℕ, ◌+◌, ◌-◌, ◌%◌, ◌^◌, List, [], ◌∷◌, ◌++◌, length, replicate, write_at, ltb, ◌==◌, not,
  if◌then◌else◌,
}
use nsb.Base.Int.{ℤ, pos, is_zero, is_neg, neg, einval, enospc, enotsup}
use nsb.Base.Word.{add64, sub64, labs64, le_bytes}

-- `X86_64_JUMP_RANGE`, 2 GB
abbrev pub jump_range : ℕ
jump_range = 2 ^ 31

unfoldable pub x86_jump_min_address : ℕ → ℕ
x86_jump_min_address address = if ltb jump_range address then address - jump_range else 0

unfoldable pub x86_jump_max_address : ℕ → ℕ
x86_jump_max_address address = add64 address jump_range

-- `x & ~mask` for a mask of the 31 lowest bits (`INT_MAX`)
abbrev pub above_int_max : ℕ → ℕ
above_int_max x = x - x % 2 ^ 31

-- The result, and the four bytes that are stored to `*buf` (none on an error).
pub ip_gen_offset : (next_ip tgt_pos addr_size : ℕ) → ℤ × List ℕ
ip_gen_offset next_ip tgt_pos addr_size =
    let offset = sub64 tgt_pos next_ip in
    if not (addr_size == 4)
    then (enotsup, [])
    else if not (above_int_max (labs64 offset) == 0)
    then (einval, [])
    else (pos 0, le_bytes 4 offset)

pub x86_modify_instruction : (buf : List ℕ) (op_size addr_size cur_pos tgt_pos : ℕ) → ℤ × List ℕ
unfolding ip_gen_offset
x86_modify_instruction buf op_size addr_size cur_pos tgt_pos =
    let instr_size = op_size + addr_size in
    let (err, addr) = ip_gen_offset (add64 cur_pos instr_size) tgt_pos addr_size in
    if is_zero err then (pos instr_size, write_at buf op_size addr) else (neg 1, buf)

unfoldable pub x86_jmpq_instruction : (buf : List ℕ) (cur_pos tgt_pos : ℕ) → ℤ × List ℕ
unfolding x86_modify_instruction
x86_jmpq_instruction buf cur_pos tgt_pos =
    if ltb (length buf) 5
    then (enospc, buf)
    else x86_modify_instruction (write_at (replicate (length buf) 0x90) 0 (0xe9 ∷ [])) 1 4 cur_pos
        tgt_pos

-- `struct mov_reg` with its immediate filled in.
abbrev pub mov_reg : (prefix reg value : ℕ) → List ℕ
mov_reg prefix reg value = prefix ∷ reg ∷ le_bytes 8 value

-- The six `struct mov_reg` of `struct x86_64_call_cmd`, in its order.
abbrev pub call_args : (arg0 arg1 arg2 arg3 arg4 arg5 : ℕ) → List ℕ
call_args arg0 arg1 arg2 arg3 arg4 arg5 =
    mov_reg 0x49 0xb9 arg5
    ++ (mov_reg 0x49 0xb8 arg4
        ++ (mov_reg 0x48 0xb9 arg3
            ++ (mov_reg 0x48 0xba arg2 ++ (mov_reg 0x48 0xbe arg1 ++ mov_reg 0x48 0xbf arg0))))

-- `offsetof(struct x86_64_call_cmd, call)`
abbrev pub call_offset : ℕ
call_offset = 60

-- `X86_64_CALL_MAX_SIZE`
abbrev pub call_max_size : ℕ
call_max_size = 102

-- The size of the code, or the error, and the code that `*code` then points to. The four bytes of
-- the call's operand are in a static buffer: `rel` is what the call before left in them.
unfoldable pub x86_64_call :
    (rel : List ℕ) (call where_ arg0 arg1 arg2 arg3 arg4 arg5 : ℕ) → ℤ × List ℕ
unfolding x86_modify_instruction
x86_64_call rel call where_ arg0 arg1 arg2 arg3 arg4 arg5 =
    let (size, insn) = x86_modify_instruction (0xe8 ∷ rel) 1 4 (add64 where_ call_offset) call in
    if is_neg size
    then (size, [])
    else (pos 66, call_args arg0 arg1 arg2 arg3 arg4 arg5 ++ (insn ++ 0xcc ∷ []))

unfoldable pub x86_64_dlopen : (rel : List ℕ) (dlopen_addr name_addr where_ : ℕ) → ℤ × List ℕ
x86_64_dlopen rel dlopen_addr name_addr where_ =
    x86_64_call rel dlopen_addr where_ name_addr 1 0 0 0 0

unfoldable pub x86_64_dlclose : (rel : List ℕ) (dlopen_addr handle where_ : ℕ) → ℤ × List ℕ
x86_64_dlclose rel dlopen_addr handle where_ = x86_64_call rel dlopen_addr where_ handle 0 0 0 0 0
