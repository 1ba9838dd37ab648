-- ===== src/Process/Suspend.antt =====
-- Stopping the target where it can be patched (compare_target_bid, process_get_target_info,
-- task_check_stack, process_check_stack, process_catch, increase_timeout and process_suspend of
-- patcher/process.c; jumps_check_backtrace and patch_check_backtrace of patcher/patch.c).
pub mod Caught
pub mod Cured
pub mod Ended
pub mod Stacks
use nsb.Backtrace.{Frame, Unwinder, pid_backtrace, backtrace_check_func, backtrace_check_range}
use nsb.Base.{
  ℕ, zero, suc, ◌+◌, ◌*◌, Bool, true, false, List, [], ◌∷◌, Option, none, some, ◌⊎◌, inl, inr, ltb,
  not, if◌then◌else◌,
}
use nsb.Base.Int.{ℤ, pos, is_neg, is_zero, eq_ℤ, eagain, enoent, etime}
use nsb.Base.Text.{Text}
use nsb.DlMap.Collect.{Files}
use nsb.DlMap.Find.{bid_is}
use nsb.Elf.{ElfInfo, elf_type_dyn}
use nsb.Patch.{FuncJump}
use nsb.Process.Threads.{Thread, Tasks, Infection, process_infect, process_cure_threads}
use nsb.Vma.{VmaArea, vma_start, vma_end}
use nsb.Vma.Collect.{Host, iter_map_files}

-- `ctx->check_backtrace`: when a patch is applied, and when one is taken back.
abbrev pub CheckBacktrace : Type 0
CheckBacktrace = List Frame → (start end : ℕ) → ℤ

unfoldable pub jumps_check_backtrace : List FuncJump → CheckBacktrace
jumps_check_backtrace [] bt start end = pos 0
jumps_check_backtrace (fj ∷ fjs) bt start end =
    let rest = jumps_check_backtrace fjs bt start end in
    let err = backtrace_check_func fj bt start in if is_zero err then rest else err

unfoldable pub patch_check_backtrace : CheckBacktrace
patch_check_backtrace bt start end = backtrace_check_range bt start end

-- `struct target_info`
pub record TargetInfo : Type 0 where
  pub bid : Text
  pub start : ℕ
  pub end : ℕ

module _ (host : Host) (files : Files) (pid : ℕ) where
  abbrev matched : VmaArea → TargetInfo → ElfInfo → ℤ × TargetInfo
  matched vma ti ei =
      if bid_is ti.bid ei.bid
      then (
        pos 1,
        record ti {
          start = if elf_type_dyn ei then vma_start vma else 0;
          end = if elf_type_dyn ei then vma_end vma else 0;
        },
      )
      else (pos 0, ti)

  unfoldable pub compare_target_bid : VmaArea → TargetInfo → ℤ × TargetInfo
  unfolding elf_type_dyn
  compare_target_bid vma ti =
      let map_file = host.map_file_of pid (vma_start vma) (vma_end vma) in
      elim vma.path [
        | none ↦ (pos 0, ti)
        | some path ↦
            if not (host.access map_file)
            then (pos 0, ti)
            else if not (files.is_elf_file map_file)
            then (pos 0, ti)
            else elim (files.open_elf map_file) [
              | inl n ↦ (ℤ.negsuc n, ti)
              | inr ei ↦ matched vma ti ei
            ]
      ]

  unfoldable pub process_get_target_info : TargetInfo → ℤ × TargetInfo
  process_get_target_info ti =
      let (ret, ti') = iter_map_files host pid compare_target_bid ti in
      if is_neg ret then (ret, ti') else if is_zero ret then (enoent, ti') else (pos 0, ti')

abbrev pub or_rest : Option ℤ → Option ℤ → Option ℤ
or_rest none rest = none
or_rest (some err) rest = if is_zero err then rest else some err

-- What comes of the walk up a stack.
abbrev pub walk_checked : CheckBacktrace → (start end : ℕ) → Option (ℤ × List Frame) → Option ℤ
walk_checked check_backtrace start end none = none
walk_checked check_backtrace start end (some (err, bt)) =
    some (if not (is_zero err) then err else check_backtrace bt start end)

module _ (u : Unwinder) (check_backtrace : CheckBacktrace) where
  unfoldable pub task_check_stack : Thread → (start end : ℕ) → Option ℤ
  task_check_stack t start end = walk_checked check_backtrace start end (pid_backtrace u t.pid)

  unfoldable pub process_check_stack : List Thread → (start end : ℕ) → Option ℤ
  process_check_stack [] start end = some (pos 0)
  process_check_stack (t ∷ ts) start end =
      let rest = process_check_stack ts start end in or_rest (task_check_stack t start end) rest

unfoldable pub increase_timeout : ℕ → ℕ
increase_timeout current_msec =
    if ltb current_msec 1000
    then (if ltb (current_msec * 2) 1000 then current_msec * 2 else 1000)
    else current_msec

-- What the patcher has to do with: the tasks, and what the operating system and libunwind show of them.
pub record Machine : Type 1 where
  pub tasks : Tasks
  pub host : tasks.World → Host
  pub files : tasks.World → Files
  pub unwinder : tasks.World → Unwinder
  pub usleep : tasks.World → (usec : ℕ) → tasks.World

-- A result of none: the rounds that `process_infect` is given are used up.
module _ (m : Machine) (pid : ℕ) (check_backtrace : CheckBacktrace) (fuel : ℕ) where
  abbrev pub Caught : Type 0
  Caught = ℤ × List Thread × m.tasks.World

  abbrev pub target_of : (target_bid : Text) → m.tasks.World → ℤ × TargetInfo
  target_of target_bid w =
      process_get_target_info (m.host w) (m.files w) pid
        (record { bid = target_bid; start = 0; end = 0 })

  abbrev pub cure : ℤ → List Thread → m.tasks.World → Caught
  cure ret threads w =
      let (err, threads', w') = process_cure_threads m.tasks threads w in
      (if is_zero ret then err else ret, threads', w')

  abbrev pub stack_checked : Option ℤ → List Thread → m.tasks.World → Option Caught
  stack_checked none threads w = none
  stack_checked (some ret) threads w =
      if is_zero ret then some (pos 0, threads, w) else some (cure ret threads w)

  abbrev pub infected_well : (target_bid : Text) → Infection m.tasks → Option Caught
  infected_well target_bid i =
      let (ret, ti) = target_of target_bid i.world in
      let checked =
        stack_checked
          (process_check_stack (m.unwinder i.world) check_backtrace i.threads ti.start ti.end)
          i.threads i.world in
      if not (is_zero i.err)
      then some (i.err, i.threads, i.world)
      else if not (is_zero ret)
      then some (cure ret i.threads i.world)
      else checked

  abbrev pub after_infect : (target_bid : Text) → Option (Infection m.tasks) → Option Caught
  after_infect target_bid none = none
  after_infect target_bid (some i) = infected_well target_bid i

  unfoldable pub process_catch : (target_bid : Text) → List Thread → m.tasks.World → Option Caught
  process_catch target_bid threads w =
      after_infect target_bid (process_infect m.tasks fuel threads w)

  -- `ret != -EAGAIN` ends the tries.
  abbrev pub unless_again :
      Option Caught → (List Thread → m.tasks.World → Option Caught) → Option Caught
  unless_again none next = none
  unless_again (some (ret, threads, w)) next =
      if eq_ℤ ret eagain then next threads w else some (ret, threads, w)

  -- The tries that are left, and the time to sleep before the next.
  unfoldable pub suspend_again :
      (left timeout_msec : ℕ) (target_bid : Text) → List Thread → m.tasks.World → Option Caught
  suspend_again zero timeout_msec target_bid threads w = some (etime, threads, w)
  suspend_again (suc left) timeout_msec target_bid threads w =
      let next = suspend_again left (increase_timeout timeout_msec) target_bid in
      unless_again (process_catch target_bid threads (m.usleep w (timeout_msec * 1000))) next

  -- 25 tries, the first without a delay.
  unfoldable pub process_suspend : (target_bid : Text) → List Thread → m.tasks.World → Option Caught
  process_suspend target_bid threads w =
      unless_again (process_catch target_bid threads w) (suspend_again 24 1 target_bid)
