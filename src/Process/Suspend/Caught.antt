-- ===== src/Process/Suspend/Caught.antt =====
-- What `process_suspend` of patcher/process.c promises of the threads and their stacks.
use mathlib.Core.Path.{subst}
use nsb.Backtrace.{Frame, Unwinder, pid_backtrace}
use nsb.Base.{
  ℕ, zero, suc, ◌*◌, ◌≡◌, refl, sym, ap, ◌∙◌, ◌⊎◌, inl, inr, Bool, true, false, List, [], ◌∷◌,
  Option, none, some, All, not, Bool-cases, some-eq, arith, if◌then◌else◌,
}
use nsb.Base.Int.{ℤ, pos, is_zero, is_zero-eq, eq_ℤ, eagain, etime}
use nsb.Base.Text.{Text}
use nsb.Process.Suspend.{
  CheckBacktrace, Machine, Caught, task_check_stack, or_rest, walk_checked, process_check_stack,
  target_of, cure, stack_checked, infected_well, after_infect, process_catch, unless_again,
  suspend_again, process_suspend, increase_timeout,
}
use nsb.Process.Threads.{Thread, Infection, process_infect}
use nsb.Process.Threads.Collected.{SeizedFirst}
use nsb.Process.Threads.Infected.{AllStopped, process_infect-AllStopped}
use nsb.Process.Threads.Kept.{process_infect-SeizedFirst, cure_threads-SeizedFirst}

first_zero :
    (first rest : Option ℤ)
    → or_rest first rest ≡ some (pos 0)
    → (first ≡ some (pos 0)) × (rest ≡ some (pos 0))
first_zero none rest h = absurd (ground (arith, h))
first_zero (some (pos zero)) rest h = (refl, h)
first_zero (some (pos (suc n))) rest h = absurd (ground (arith, h))
first_zero (some (ℤ.negsuc n)) rest h = absurd (ground (arith, h))

walk_zero :
    (check_backtrace : CheckBacktrace) (start end : ℕ) (walked : Option (ℤ × List Frame))
    → walk_checked check_backtrace start end walked ≡ some (pos 0)
    → (bt : List Frame) × (walked ≡ some (pos 0, bt)) × (check_backtrace bt start end ≡ pos 0)
walk_zero check_backtrace start end none h = absurd (ground (arith, h))
walk_zero check_backtrace start end (some (pos zero, bt)) h =
    (bt, refl, some-eq (check_backtrace bt start end) (pos 0) h)
walk_zero check_backtrace start end (some (pos (suc n), bt)) h = absurd (ground (arith, h))
walk_zero check_backtrace start end (some (ℤ.negsuc n, bt)) h = absurd (ground (arith, h))

module _ (u : Unwinder) (check_backtrace : CheckBacktrace) where
  -- The stack of the thread can be walked, and passes the check.
  abbrev pub Clear : (start end : ℕ) → Thread → Type 0
  Clear start end t =
      (bt : List Frame) × (pid_backtrace u t.pid ≡ some (pos 0, bt))
      × (check_backtrace bt start end ≡ pos 0)

  stack-Clear :
      (ts : List Thread) (start end : ℕ)
      → process_check_stack u check_backtrace ts start end ≡ some (pos 0)
      → All (Clear start end) ts
  unfolding process_check_stack task_check_stack
  stack-Clear [] start end h = tt
  stack-Clear (t ∷ ts) start end h =
      let (e, f) =
        first_zero (task_check_stack u check_backtrace t start end)
          (process_check_stack u check_backtrace ts start end) h in
      (walk_zero check_backtrace start end (pid_backtrace u t.pid) e, stack-Clear ts start end f)

two_of :
    {A : Type 0} (a b : Bool) (x y rest : Option A) (i : A)
    → (if not a then x else if not b then y else rest) ≡ some i
    → ((a ≡ false) × (x ≡ some i))
      ⊎ (((b ≡ false) × (y ≡ some i)) ⊎ ((a ≡ true) × (b ≡ true) × (rest ≡ some i)))
two_of false b x y rest i h = inl (refl, h)
two_of true false x y rest i h = inr (inl (refl, h))
two_of true true x y rest i h = inr (inr (refl, refl, h))

if_true : {A : Type 0} (b : Bool) (x y : A) → b ≡ true → (if b then x else y) ≡ x
if_true b x y e = rw e refl

if_false : {A : Type 0} (b : Bool) (x y : A) → b ≡ false → (if b then x else y) ≡ y
if_false b x y e = rw e refl

module _ (m : Machine) (pid : ℕ) (check_backtrace : CheckBacktrace) (fuel : ℕ)
    (target_bid : Text) where
  -- Every task is a thread of the list and is stopped, the target is found, and every stack is clear.
  abbrev pub Safe : List Thread → m.tasks.World → Type 0
  Safe threads w =
      let (ret, ti) = target_of m pid check_backtrace fuel target_bid w in
      AllStopped m.tasks (record { err = pos 0; threads = threads; world = w })
      × (ret ≡ pos 0)
      × All (Clear (m.unwinder w) check_backtrace ti.start ti.end) threads

  -- What is true of what a try, or all tries, come to.
  abbrev pub Sound : Caught m pid check_backtrace fuel → Type 0
  Sound c = SeizedFirst c.1 × ((is_zero c.0 ≡ false) ⊎ Safe c.1 c.2)

  cure-Sound :
      (ret : ℤ) (threads : List Thread) (w : m.tasks.World)
      → is_zero ret ≡ false
      → SeizedFirst threads
      → Sound (cure m pid check_backtrace fuel ret threads w)
  cure-Sound ret threads w bad h = (cure_threads-SeizedFirst m.tasks threads w h, inl (rw bad bad))

  checked-Sound :
      (result : Option ℤ) (threads : List Thread) (w : m.tasks.World)
      (c : Caught m pid check_backtrace fuel)
      → SeizedFirst threads
      → AllStopped m.tasks (record { err = pos 0; threads = threads; world = w })
      → (target_of m pid check_backtrace fuel target_bid w).0 ≡ pos 0
      → (let ti = (target_of m pid check_backtrace fuel target_bid w).1 in
          process_check_stack (m.unwinder w) check_backtrace threads ti.start ti.end ≡ result)
      → stack_checked m pid check_backtrace fuel result threads w ≡ some c
      → Sound c
  checked-Sound none threads w c h st tg e ran = absurd (ground (arith, ran))
  checked-Sound (some ret) threads w c h st tg e ran = elim (Bool-cases (is_zero ret)) [
    | inl z ↦
        let ti = (target_of m pid check_backtrace fuel target_bid w).1 in
        subst Sound (some-eq (pos 0, threads, w) c (sym (ap (pick ret) z) ∙ ran)) (
          h,
          inr (
            st,
            tg,
            stack-Clear (m.unwinder w) check_backtrace threads ti.start ti.end
                (e ∙ ap some (is_zero-eq ret z)),
          ),
        )
    | inr z ↦
        subst Sound
          (some-eq (cure m pid check_backtrace fuel ret threads w) c (sym (ap (pick ret) z) ∙ ran))
          (cure-Sound ret threads w z h)
  ]
    where
      pick : ℤ → Bool → Option (Caught m pid check_backtrace fuel)
      pick r b =
          if b then some (pos 0, threads, w) else some (cure m pid check_backtrace fuel r threads w)

  infected-Sound :
      (i : Infection m.tasks) (c : Caught m pid check_backtrace fuel)
      → SeizedFirst i.threads
      → (is_zero i.err ≡ true → AllStopped m.tasks i)
      → infected_well m pid check_backtrace fuel target_bid i ≡ some c
      → Sound c
  infected-Sound i c h st ran =
      let (ret, ti) = target_of m pid check_backtrace fuel target_bid i.world in
      let result =
        process_check_stack (m.unwinder i.world) check_backtrace i.threads ti.start ti.end in
      let cured = cure m pid check_backtrace fuel ret i.threads i.world in
      elim (two_of (is_zero i.err) (is_zero ret) (some (i.err, i.threads, i.world)) (some cured)
        (stack_checked m pid check_backtrace fuel result i.threads i.world) c ran) [
          | inl (bad, e) ↦ subst Sound (some-eq (i.err, i.threads, i.world) c e) (h, inl bad)
          | inr (inl (bad, e)) ↦
              subst Sound (some-eq cured c e) (cure-Sound ret i.threads i.world bad h)
          | inr (inr (good, found, e)) ↦
              checked-Sound result i.threads i.world c h (st good) (is_zero-eq ret found) refl e
        ]

  after-Sound :
      (threads : List Thread) (w : m.tasks.World) (c : Caught m pid check_backtrace fuel)
      (o : Option (Infection m.tasks))
      → SeizedFirst threads
      → process_infect m.tasks fuel threads w ≡ o
      → after_infect m pid check_backtrace fuel target_bid o ≡ some c
      → Sound c
  after-Sound threads w c none h e ran = absurd (ground (arith, ran))
  after-Sound threads w c (some i) h e ran =
      infected-Sound i c (process_infect-SeizedFirst m.tasks fuel threads w i h e)
        (process_infect-AllStopped m.tasks fuel threads w i h e) ran

  catch-Sound :
      (threads : List Thread) (w : m.tasks.World) (c : Caught m pid check_backtrace fuel)
      → SeizedFirst threads
      → process_catch m pid check_backtrace fuel target_bid threads w ≡ some c
      → Sound c
  unfolding process_catch
  catch-Sound threads w c h ran =
      after-Sound threads w c (process_infect m.tasks fuel threads w) h refl ran

  -- If the tries that follow are sound, so is what comes of one more.
  unless_again-Sound :
      (tried : Option (Caught m pid check_backtrace fuel))
      (next : List Thread → m.tasks.World → Option (Caught m pid check_backtrace fuel))
      (c : Caught m pid check_backtrace fuel)
      → ((d : Caught m pid check_backtrace fuel) → tried ≡ some d → Sound d)
      → ((ts : List Thread) (v : m.tasks.World) → SeizedFirst ts → next ts v ≡ some c → Sound c)
      → unless_again m pid check_backtrace fuel tried next ≡ some c
      → Sound c
  unless_again-Sound none next c first later ran = absurd (ground (arith, ran))
  unless_again-Sound (some (ret, ts, v)) next c first later ran =
      elim (Bool-cases (eq_ℤ ret eagain)) [
        | inl again ↦
            later ts v (first (ret, ts, v) refl).0
              (sym (if_true (eq_ℤ ret eagain) (next ts v) (some (ret, ts, v)) again) ∙ ran)
        | inr ends ↦
            first c (sym (if_false (eq_ℤ ret eagain) (next ts v) (some (ret, ts, v)) ends) ∙ ran)
      ]

  again-Sound :
      (left timeout_msec : ℕ) (threads : List Thread) (w : m.tasks.World)
      (c : Caught m pid check_backtrace fuel)
      → SeizedFirst threads
      → suspend_again m pid check_backtrace fuel left timeout_msec target_bid threads w ≡ some c
      → Sound c
  unfolding suspend_again
  again-Sound zero timeout_msec threads w c h ran =
      subst Sound (some-eq (etime, threads, w) c ran) (h, inl refl)
  again-Sound (suc left) timeout_msec threads w c h ran =
      let woken = m.usleep w (timeout_msec * 1000) in
      unless_again-Sound (process_catch m pid check_backtrace fuel target_bid threads woken)
        (suspend_again m pid check_backtrace fuel left (increase_timeout timeout_msec) target_bid) c
        (λ d e. catch-Sound threads woken d h e)
        (λ ts v k e. again-Sound left (increase_timeout timeout_msec) ts v c k e) ran

  -- If `process_suspend`, begun with an empty list of threads, comes to an end with the result 0, then
  -- every task of the process is a thread of the list and is stopped, the target was found, and the
  -- stack of every thread can be walked to its end and passes the check for the target's range.
  pub process_suspend-Safe :
      (w w' : m.tasks.World) (threads : List Thread)
      → process_suspend m pid check_backtrace fuel target_bid [] w ≡ some (pos 0, threads, w')
      → Safe threads w'
  unfolding process_suspend
  process_suspend-Safe w w' threads ran =
      elim (unless_again-Sound (process_catch m pid check_backtrace fuel target_bid [] w)
        (suspend_again m pid check_backtrace fuel 24 1 target_bid) (pos 0, threads, w')
        (λ d e. catch-Sound [] w d tt e)
        (λ ts v k e. again-Sound 24 1 ts v (pos 0, threads, w') k e) ran).1 [
          | inl bad ↦ absurd (ground (arith, bad))
          | inr safe ↦ safe
        ]
