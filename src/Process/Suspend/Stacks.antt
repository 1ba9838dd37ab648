-- ===== src/Process/Suspend/Stacks.antt =====
-- The check that `process_suspend` makes when a patch is applied (jumps_check_backtrace of
-- patcher/patch.c).
use nsb.Backtrace.{Frame, backtrace_check_func}
use nsb.Backtrace.Clear.{Outside, backtrace_check_func-Outside}
use nsb.Base.{ℕ, zero, suc, ◌≡◌, refl, ◌↔◌, List, [], ◌∷◌, All, arith, if◌then◌else◌}
use nsb.Base.Int.{ℤ, pos, is_zero}
use nsb.Base.Word.{add64}
use nsb.Patch.{FuncJump}
use nsb.Process.Suspend.{jumps_check_backtrace}

both_zero : (a b : ℤ) → (if is_zero a then b else a) ≡ pos 0 → (a ≡ pos 0) × (b ≡ pos 0)
both_zero (pos zero) b h = (refl, h)
both_zero (pos (suc n)) b h = absurd (ground (arith, h))
both_zero (ℤ.negsuc n) b h = absurd (ground (arith, h))

-- No frame of the stack is inside the function.
abbrev pub NotIn : List Frame → (start : ℕ) → FuncJump → Type 0
NotIn bt start fj =
    All (Outside (add64 start fj.func_value) (add64 (add64 start fj.func_value) fj.func_size)) bt

jumps-NotIn :
    (fjs : List FuncJump) (bt : List Frame) (start end : ℕ)
    → jumps_check_backtrace fjs bt start end ≡ pos 0
    → All (NotIn bt start) fjs
unfolding jumps_check_backtrace
jumps-NotIn [] bt start end h = tt
jumps-NotIn (fj ∷ fjs) bt start end h =
    let (e, f) =
      both_zero (backtrace_check_func fj bt start) (jumps_check_backtrace fjs bt start end) h in
    ((backtrace_check_func-Outside fj bt start).0 e, jumps-NotIn fjs bt start end f)

NotIn-jumps :
    (fjs : List FuncJump) (bt : List Frame) (start end : ℕ)
    → All (NotIn bt start) fjs
    → jumps_check_backtrace fjs bt start end ≡ pos 0
unfolding jumps_check_backtrace
NotIn-jumps [] bt start end h = refl
NotIn-jumps (fj ∷ fjs) bt start end h =
    rw ((backtrace_check_func-Outside fj bt start).1 h.0) (NotIn-jumps fjs bt start end h.1)

-- The check of a stack before a patch is applied results in 0 exactly if no frame is a signal frame
-- and no frame's instruction pointer is inside one of the functions that the patch replaces. A patch
-- with no functions passes whatever the stack.
pub jumps_check_backtrace-NotIn :
    (fjs : List FuncJump) (bt : List Frame) (start end : ℕ)
    → (jumps_check_backtrace fjs bt start end ≡ pos 0) ↔ All (NotIn bt start) fjs
jumps_check_backtrace-NotIn fjs bt start end =
    (jumps-NotIn fjs bt start end, NotIn-jumps fjs bt start end)
