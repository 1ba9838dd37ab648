-- ===== src/Process/Suspend/Ended.antt =====
-- Where stopping the threads comes to an end, so does an attempt to stop the target at a safe point
-- (process_catch and process_suspend of patcher/process.c).
use mathlib.Core.Path.{subst}
use nsb.Backtrace.{Unwinder}
use nsb.Backtrace.Unwound.{pid_backtrace-Unwinds}
use nsb.Base.{
  inl, inr, ℕ, zero, suc, ◌*◌, ◌≡◌, sym, false, Bool-cases, List, [], ◌∷◌, Option, none, some, not,
}
use nsb.Base.Int.{ℤ, is_zero, eq_ℤ, eagain}
use nsb.Base.Steps.{IsSome, if-either}
use nsb.Base.Text.{Text}
use nsb.Process.Suspend.{
  CheckBacktrace, Machine, Caught, or_rest, task_check_stack, process_check_stack, target_of,
  stack_checked, infected_well, after_infect, process_catch, unless_again, suspend_again,
  process_suspend, increase_timeout,
}
use nsb.Process.Suspend.Cured.{Left, again_bad, catch-Left}
use nsb.Process.Threads.{Thread, Infection, process_infect}
use nsb.Process.Threads.Cured.{Ends}

module _ (u : Unwinder) (check_backtrace : CheckBacktrace) where
  or_rest-IsSome :
      (result rest : Option ℤ) → IsSome result → IsSome rest → IsSome (or_rest result rest)
  or_rest-IsSome none rest h h' = absurd h
  or_rest-IsSome (some err) rest h h' = if-either IsSome (is_zero err) rest (some err) h' tt

  task_check_stack-IsSome :
      (t : Thread) (start end : ℕ) → IsSome (task_check_stack u check_backtrace t start end)
  unfolding task_check_stack
  task_check_stack-IsSome t start end =
      let (r, walks, unwinds) = pid_backtrace-Unwinds u t.pid in rw walks tt

  pub check_stack-IsSome :
      (ts : List Thread) (start end : ℕ)
      → IsSome (process_check_stack u check_backtrace ts start end)
  unfolding process_check_stack
  check_stack-IsSome [] start end = tt
  check_stack-IsSome (t ∷ ts) start end =
      or_rest-IsSome _ _ (task_check_stack-IsSome t start end) (check_stack-IsSome ts start end)

module _ (m : Machine) (pid : ℕ) (check_backtrace : CheckBacktrace) (fuel : ℕ)
    (resumes : (w : m.tasks.World) (pid : ℕ) → (m.tasks.resume_task w pid).0 ≡ false)
    (infects : (w : m.tasks.World) → IsSome (process_infect m.tasks fuel [] w)) where
  checked-IsSome :
      (result : Option ℤ) (ts : List Thread) (w : m.tasks.World)
      → IsSome result
      → IsSome (stack_checked m pid check_backtrace fuel result ts w)
  checked-IsSome none ts w h = absurd h
  checked-IsSome (some ret) ts w h = if-either IsSome (is_zero ret) _ _ tt tt

  infected-IsSome :
      (bid : Text) (i : Infection m.tasks) → IsSome (infected_well m pid check_backtrace fuel bid i)
  infected-IsSome bid i =
      let (ret, ti) = target_of m pid check_backtrace fuel bid i.world in
      if-either IsSome (not (is_zero i.err)) _ _ tt (
        if-either IsSome (not (is_zero ret)) _ _ tt (
          checked-IsSome _ i.threads i.world
            (check_stack-IsSome (m.unwinder i.world) check_backtrace i.threads ti.start ti.end)))

  after-IsSome :
      (bid : Text) (i : Option (Infection m.tasks))
      → IsSome i
      → IsSome (after_infect m pid check_backtrace fuel bid i)
  after-IsSome bid none h = absurd h
  after-IsSome bid (some i) h = infected-IsSome bid i

  catch-IsSome :
      (bid : Text) (w : m.tasks.World) → IsSome (process_catch m pid check_backtrace fuel bid [] w)
  unfolding process_catch
  catch-IsSome bid w = after-IsSome bid (process_infect m.tasks fuel [] w) (infects w)

  again-IsSome :
      (r : Option (Caught m pid check_backtrace fuel))
      (next : List Thread → m.tasks.World → Option (Caught m pid check_backtrace fuel))
      → IsSome r
      → Ends (Left m pid check_backtrace fuel resumes) r
      → ((w : m.tasks.World) → IsSome (next [] w))
      → IsSome (unless_again m pid check_backtrace fuel r next)
  again-IsSome none next h left keep = absurd h
  again-IsSome (some (ret, ts, w)) next h left keep = elim (Bool-cases (eq_ℤ ret eagain)) [
    | inl e ↦
        rw e
          (subst (λ (us : List Thread). IsSome (next us w)) (sym (left (again_bad ret e))) (keep w))
    | inr e ↦ rw e tt
  ]

  suspend_again-IsSome :
      (left timeout : ℕ) (bid : Text) (w : m.tasks.World)
      → IsSome (suspend_again m pid check_backtrace fuel left timeout bid [] w)
  unfolding suspend_again
  suspend_again-IsSome zero timeout bid w = tt
  suspend_again-IsSome (suc left) timeout bid w =
      let w' = m.usleep w (timeout * 1000) in
      again-IsSome (process_catch m pid check_backtrace fuel bid [] w') _ (catch-IsSome bid w')
        (catch-Left m pid check_backtrace fuel resumes bid [] w')
        (suspend_again-IsSome left (increase_timeout timeout) bid)

  pub suspend-IsSome :
      (bid : Text) (w : m.tasks.World)
      → IsSome (process_suspend m pid check_backtrace fuel bid [] w)
  unfolding process_suspend
  suspend-IsSome bid w =
      again-IsSome (process_catch m pid check_backtrace fuel bid [] w) _ (catch-IsSome bid w)
        (catch-Left m pid check_backtrace fuel resumes bid [] w) (suspend_again-IsSome 24 1 bid)
