-- ===== src/Examples/Stacks.antt =====
-- Examples for the stacks.
use nsb.Backtrace.{
  Frame, Unwinder, bt_check_range, backtrace_check_func, backtrace_check_range, create_frame, round,
  do_backtrace, pid_backtrace,
}
use nsb.Backtrace.Unwound.{Unwinds, pid_backtrace-Unwinds}
use nsb.Base.{
  ℕ, zero, suc, ◌≤◌, ◌≡◌, refl, ◌⊎◌, ◌↔◌, Bool, true, false, List, [], ◌∷◌, some, length, All,
}
use nsb.Base.Int.{ℤ, pos, is_zero, eagain}
use nsb.Base.Text.{codes}
use nsb.Examples.{jump_at}
use nsb.Process.Suspend.{jumps_check_backtrace}
use nsb.Process.Suspend.Stacks.{NotIn, jumps_check_backtrace-NotIn}

-- A stack of three calls, unwound from the innermost: a cursor is the number of calls above it.
abbrev unwinder : Unwinder
unwinder = record {
  Cursor = ℕ;
  get_ip = λ c. (pos 0, 0x10000800);
  get_sp = λ c. (pos 0, 0x7000);
  get_proc_name = λ c. codes "f";
  is_signal_frame = λ c. pos 0;
  step = λ c. elim c [ zero ↦ (pos 0, 0) | suc n ↦ (pos 1, n) ];
  create_addr_space = true;
  upt_create = λ pid. true;
  init_remote = λ pid. (pos 0, 3);
  alloc_succeeds = λ n. true;
}

abbrev frame : (ip : ℕ) (sigframe : Bool) → Frame
frame ip sigframe = record { ip = ip; sp = 0x7000; sigframe = sigframe; name = some (codes "f") }

abbrev stack : List Frame
stack = frame 0x10000800 false ∷ frame 0x10000100 false ∷ []

unwound :
    pid_backtrace unwinder 5
    ≡ some (pos 0, frame 0x10000800 false ∷ frame 0x10000800 false ∷ frame 0x10000800 false ∷ [])
unfolding pid_backtrace do_backtrace round create_frame
unwound = refl

in_function : backtrace_check_func (jump_at 0x7f0 0) stack 0x10000000 ≡ eagain
unfolding backtrace_check_func bt_check_range
in_function = refl

in_signal : backtrace_check_range (frame 0x20 true ∷ []) 0x1000 0x2000 ≡ eagain
unfolding backtrace_check_range bt_check_range
in_signal = refl

pid_backtrace-Unwinds_example :
    (r : ℤ × List Frame) × (pid_backtrace unwinder 5 ≡ some r)
    × ((is_zero r.0 ≡ false) ⊎ (Unwinds unwinder 3 r.1 × (length r.1 ≤ 65)))
pid_backtrace-Unwinds_example = pid_backtrace-Unwinds unwinder 5

jumps_check_backtrace-NotIn_example :
    (jumps_check_backtrace (jump_at 0x100 0 ∷ jump_at 0x300 0 ∷ []) stack 0x10000000 0x10002000
      ≡ pos 0)
    ↔ All (NotIn stack 0x10000000) (jump_at 0x100 0 ∷ jump_at 0x300 0 ∷ [])
jumps_check_backtrace-NotIn_example =
    jumps_check_backtrace-NotIn (jump_at 0x100 0 ∷ jump_at 0x300 0 ∷ []) stack 0x10000000 0x10002000
