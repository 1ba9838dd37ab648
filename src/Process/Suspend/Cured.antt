-- ===== src/Process/Suspend/Cured.antt =====
-- Where every thread can be resumed, an attempt to stop the target at a safe point that fails
-- (process_catch and process_suspend of patcher/process.c) leaves no thread behind.
use mathlib.Core.Bool.{true≢false}
use mathlib.Core.Path.{subst}
use nsb.Base.{ℕ, zero, suc, ◌*◌, ◌≡◌, refl, sym, true, false, List, [], Option, none, some, not}
use nsb.Base.Int.{ℤ, pos, negsuc, is_zero, eq_ℤ, eagain}
use nsb.Base.Text.{Text}
use nsb.Process.Suspend.{
  CheckBacktrace, Machine, Caught, process_check_stack, target_of, cure, stack_checked,
  infected_well, after_infect, process_catch, unless_again, suspend_again, process_suspend,
  increase_timeout,
}
use nsb.Process.Threads.{Thread, Infection, process_infect}
use nsb.Process.Threads.Cured.{Ends, Ends-if, ErrorEmpty, cure_threads-empty, infect-ErrorEmpty}

pub again_bad : (ret : ℤ) → eq_ℤ ret eagain ≡ true → is_zero ret ≡ false
again_bad (pos n) h = absurd (true≢false (sym h))
again_bad (negsuc n) h = refl

module _ (m : Machine) (pid : ℕ) (check_backtrace : CheckBacktrace) (fuel : ℕ)
    (resumes : (w : m.tasks.World) (pid : ℕ) → (m.tasks.resume_task w pid).0 ≡ false) where
  abbrev pub Left : Caught m pid check_backtrace fuel → Type 0
  Left c = ErrorEmpty c.0 c.1

  cure-Left :
      (ret : ℤ) (ts : List Thread) (w : m.tasks.World)
      → Left (cure m pid check_backtrace fuel ret ts w)
  cure-Left ret ts w h = (cure_threads-empty m.tasks resumes ts w).1

  checked-Left :
      (result : Option ℤ) (ts : List Thread) (w : m.tasks.World)
      → Ends Left (stack_checked m pid check_backtrace fuel result ts w)
  checked-Left none ts w = tt
  checked-Left (some ret) ts w =
      Ends-if Left (is_zero ret) _ _ (λ _ h. absurd (true≢false h)) (λ _. cure-Left ret ts w)

  infected-Left :
      (bid : Text) (i : Infection m.tasks)
      → ErrorEmpty i.err i.threads
      → Ends Left (infected_well m pid check_backtrace fuel bid i)
  infected-Left bid i e =
      let (ret, ti) = target_of m pid check_backtrace fuel bid i.world in
      Ends-if Left (not (is_zero i.err)) _ _ (λ _. e)
        (λ _.
          Ends-if Left (not (is_zero ret)) _ _ (λ _. cure-Left ret i.threads i.world)
            (λ _.
              checked-Left
                (process_check_stack (m.unwinder i.world) check_backtrace i.threads ti.start ti.end)
                i.threads i.world))

  after-Left :
      (bid : Text) (i : Option (Infection m.tasks))
      → Ends (λ (i : Infection m.tasks). ErrorEmpty i.err i.threads) i
      → Ends Left (after_infect m pid check_backtrace fuel bid i)
  after-Left bid none h = tt
  after-Left bid (some i) h = infected-Left bid i h

  pub catch-Left :
      (bid : Text) (ts : List Thread) (w : m.tasks.World)
      → Ends Left (process_catch m pid check_backtrace fuel bid ts w)
  unfolding process_catch
  catch-Left bid ts w =
      after-Left bid (process_infect m.tasks fuel ts w)
        (infect-ErrorEmpty m.tasks resumes fuel ts w)

  -- A try that is made again leaves no thread to the next one.
  again-Left :
      (r : Option (Caught m pid check_backtrace fuel))
      (next : List Thread → m.tasks.World → Option (Caught m pid check_backtrace fuel))
      → Ends Left r
      → ((w : m.tasks.World) → Ends Left (next [] w))
      → Ends Left (unless_again m pid check_backtrace fuel r next)
  again-Left none next h keep = tt
  again-Left (some (ret, ts, w)) next h keep =
      Ends-if Left (eq_ℤ ret eagain) _ _
        (λ e.
          subst (λ (us : List Thread). Ends Left (next us w)) (sym (h (again_bad ret e))) (keep w))
        (λ _. h)

  suspend_again-Left :
      (left timeout : ℕ) (bid : Text) (w : m.tasks.World)
      → Ends Left (suspend_again m pid check_backtrace fuel left timeout bid [] w)
  unfolding suspend_again
  suspend_again-Left zero timeout bid w = λ h. refl
  suspend_again-Left (suc left) timeout bid w =
      again-Left (process_catch m pid check_backtrace fuel bid [] (m.usleep w (timeout * 1000))) _
        (catch-Left bid [] (m.usleep w (timeout * 1000)))
        (suspend_again-Left left (increase_timeout timeout) bid)

  pub suspend-Left :
      (bid : Text) (ts : List Thread) (w : m.tasks.World)
      → Ends Left (process_suspend m pid check_backtrace fuel bid ts w)
  unfolding process_suspend
  suspend-Left bid ts w =
      again-Left (process_catch m pid check_backtrace fuel bid ts w) _ (catch-Left bid ts w)
        (suspend_again-Left 24 1 bid)
