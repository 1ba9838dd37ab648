-- ===== src/Process/Threads/Infected.antt =====
-- What `process_infect` of patcher/process.c leaves: which threads are stopped when it ends.
use mathlib.Core.Path.{subst}
use nsb.Base.{
  ℕ, zero, suc, ◌≡◌, ◌≢◌, refl, sym, ap, ◌∙◌, ◌⊎◌, inl, inr, Bool, true, false, List, [], ◌∷◌, ◌++◌,
  Option, some, All, not, Bool-cases, Sum-cases, some-eq, arith, if◌then◌else◌,
}
use nsb.Base.Int.{ℤ, pos, is_zero}
use nsb.Base.Loop.{Actor, for_each_entry, for_each_entry-goes, for_each_entry-stops}
use nsb.Process.Threads.Collected.{
  Seized, Known, SeizedFirst, collect_all-Known, collect_all-SeizedFirst, tail-SeizedFirst,
  prepend-SeizedFirst, last-Seized-All,
}
use nsb.Process.Threads.{
  Thread, Stopped, Tasks, Infection, collect_all, process_needs_seize, infected, task_infect,
  process_collect_threads, process_infect_threads, process_infect, infected_all, give_up,
}

-- One of the four ends of a round.
pub one_of :
    {A : Type 0} (a b c : Bool) (x y z rest : Option A) (i : A)
    → (if not a then x else if not b then y else if not c then z else rest) ≡ some i
    → ((a ≡ false) × (x ≡ some i))
      ⊎ (((a ≡ true) × (b ≡ false) × (y ≡ some i))
          ⊎ (((c ≡ false) × (z ≡ some i)) ⊎ ((c ≡ true) × (rest ≡ some i))))
one_of false b c x y z rest i h = inl (refl, h)
one_of true false c x y z rest i h = inr (inl (refl, refl, h))
one_of true true false x y z rest i h = inr (inr (inl (refl, h)))
one_of true true true x y z rest i h = inr (inr (inr (refl, h)))

-- A walk keeps the order if a step with the result 0 leaves threads that are stopped, and any other
-- leaves its thread.
pub walk-SeizedFirst :
    {S : Type 0} (actor : Actor Thread S)
    → ((t : Thread) (s : S) → is_zero (actor t s).0 ≡ true → All Seized (actor t s).1)
    → ((t : Thread) (s : S) → is_zero (actor t s).0 ≡ false → (actor t s).1 ≡ t ∷ [])
    → (ts : List Thread) (s : S) → SeizedFirst ts
    → SeizedFirst (for_each_entry actor ts s).1
unfolding for_each_entry
walk-SeizedFirst actor ok bad [] s h = tt
walk-SeizedFirst actor ok bad (t ∷ ts) s h = elim (Bool-cases (is_zero (actor t s).0)) [
  | inl e ↦
      subst (λ (r : ℤ × List Thread × _). SeizedFirst r.1)
        (sym (for_each_entry-goes actor t ts s e))
        (prepend-SeizedFirst (actor t s).1 (for_each_entry actor ts (actor t s).2).1 (ok t s e)
          (walk-SeizedFirst actor ok bad ts (actor t s).2 (tail-SeizedFirst t ts h)))
  | inr e ↦
      subst (λ (r : ℤ × List Thread × _). SeizedFirst r.1)
        (sym (for_each_entry-stops actor t ts s e))
        (subst (λ (xs : List Thread). SeizedFirst (xs ++ ts)) (sym (bad t s e)) h)
]

module _ (tasks : Tasks) where
  open tasks use {World, task_names}

  infected-Seized :
      (t : Thread) (answer : Stopped)
      → is_zero (infected t answer).0 ≡ true
      → All Seized (infected t answer).1
  infected-Seized t Stopped.alive h = (refl, tt)
  infected-Seized t Stopped.stopped h = ground (arith, h)
  infected-Seized t Stopped.zombie h = tt
  infected-Seized t Stopped.dead h = tt
  infected-Seized t (Stopped.failed n) h = ground (arith, h)

  task_infect-Seized :
      (t : Thread) (w : World)
      → is_zero (task_infect tasks t w).0 ≡ true
      → All Seized (task_infect tasks t w).1
  unfolding task_infect
  task_infect-Seized t w h = infected-Seized t (tasks.stop_task w t.pid).0 h

  collected :
      (ts : List Thread) (w : World)
      → is_zero (process_collect_threads tasks w ts).0 ≡ true
      → (pids : List ℕ) × (task_names w ≡ inr pids)
        × (process_collect_threads tasks w ts ≡ (pos 0, collect_all pids ts))
  unfolding process_collect_threads
  collected ts w h = elim (Sum-cases (task_names w)) [
    | inl (n, e) ↦ absurd (not_collected ts w n e h)
    | inr (pids, e) ↦ (pids, e, rw (e, process_collect_threads) refl)
  ]
    where
      not_collected :
          (ts : List Thread) (w : World) (n : ℕ)
          → task_names w ≡ inl n
          → ¬ (is_zero (process_collect_threads tasks w ts).0 ≡ true)
      not_collected ts w n e h = ground (arith, e, h)

  infected-left :
      (t : Thread) (answer : Stopped)
      → is_zero (infected t answer).0 ≡ false
      → (infected t answer).1 ≡ t ∷ []
  infected-left t Stopped.alive h = ground (arith, h)
  infected-left t Stopped.stopped h = refl
  infected-left t Stopped.zombie h = ground (arith, h)
  infected-left t Stopped.dead h = ground (arith, h)
  infected-left t (Stopped.failed n) h = refl

  task_infect-left :
      (t : Thread) (w : World)
      → is_zero (task_infect tasks t w).0 ≡ false
      → (task_infect tasks t w).1 ≡ t ∷ []
  unfolding task_infect
  task_infect-left t w h = infected-left t (tasks.stop_task w t.pid).0 h

  pub infect_threads-SeizedFirst :
      (ts : List Thread) (w : World)
      → SeizedFirst ts
      → SeizedFirst (process_infect_threads tasks ts w).1
  unfolding process_infect_threads
  infect_threads-SeizedFirst ts w h =
      walk-SeizedFirst (task_infect tasks) (λ t w e. task_infect-Seized t w e) task_infect-left ts w
        h

  -- Every task of the process is a thread of the list, and every thread of the list is stopped.
  abbrev pub AllStopped : Infection tasks → Type 0
  AllStopped i =
      All Seized i.threads
      × (i.threads ≢ [])
      × ((pids : List ℕ) × (task_names i.world ≡ inr pids) × All (Known i.threads) pids)

  infected_all-AllStopped :
      (threads : List Thread) (w : World) (pids : List ℕ)
      → All Seized threads
      → threads ≢ []
      → task_names w ≡ inr pids
      → All (Known threads) pids
      → AllStopped (infected_all tasks threads w)
  infected_all-AllStopped [] w pids h n e k = absurd (n refl)
  infected_all-AllStopped (t ∷ ts) w pids h n e k = (h, n, (pids, e, k))

  break-AllStopped :
      (threads : List Thread) (w : World)
      → SeizedFirst threads
      → is_zero (process_collect_threads tasks w threads).0 ≡ true
      → process_needs_seize (process_collect_threads tasks w threads).1 ≡ false
      → AllStopped (infected_all tasks (process_collect_threads tasks w threads).1 w)
  break-AllStopped threads w h ok done =
      let (pids, names, eq) = collected threads w ok in
      let got : (process_collect_threads tasks w threads).1 ≡ collect_all pids threads =
        ap (λ (r : ℤ × List Thread). r.1) eq in
      let (seized, some_left) =
        last-Seized-All (collect_all pids threads) (collect_all-SeizedFirst pids threads h)
          (sym (ap process_needs_seize got) ∙ done) in
      subst (λ (xs : List Thread). AllStopped (infected_all tasks xs w)) (sym got)
        (infected_all-AllStopped (collect_all pids threads) w pids seized some_left names
          (collect_all-Known pids threads))

  gave_up :
      (err : ℤ) (ts : List Thread) (w : World) (i : Infection tasks)
      → is_zero err ≡ false
      → some (give_up tasks err ts w) ≡ some i
      → ¬ (is_zero i.err ≡ true)
  gave_up err ts w i e h ok = ground (
    arith,
    sym e ∙ ap (λ (x : Infection tasks). is_zero x.err) (some-eq (give_up tasks err ts w) i h) ∙ ok,
  )

  pub collect_threads-SeizedFirst :
      (threads : List Thread) (w : World)
      → SeizedFirst threads
      → SeizedFirst (process_collect_threads tasks w threads).1
  unfolding process_collect_threads
  collect_threads-SeizedFirst threads w h = elim (Sum-cases (task_names w)) [
    | inl (n, e) ↦ rw (e, process_collect_threads) h
    | inr (pids, e) ↦ rw (e, process_collect_threads) (collect_all-SeizedFirst pids threads h)
  ]

  -- If `process_infect`, begun with a list in which the stopped threads come first, ends with 0, then
  -- there are threads in the list, all of them are stopped, and every task that /proc/PID/task lists
  -- in the end is one of them.
  pub process_infect-AllStopped :
      (fuel : ℕ) (threads : List Thread) (w : World) (i : Infection tasks)
      → SeizedFirst threads
      → process_infect tasks fuel threads w ≡ some i
      → is_zero i.err ≡ true
      → AllStopped i
  unfolding process_infect
  process_infect-AllStopped zero threads w i h ran ok = absurd (ground (arith, ran))
  process_infect-AllStopped (suc fuel) threads w i h ran ok =
      let (err, got) = process_collect_threads tasks w threads in
      let (err', left, w') = process_infect_threads tasks got w in
      elim (one_of (is_zero err) (process_needs_seize got) (is_zero err')
        (some (give_up tasks err got w)) (some (infected_all tasks got w))
        (some (give_up tasks err' left w')) (process_infect tasks fuel left w') i ran) [
          | inl (bad, e) ↦ absurd (gave_up err got w i bad e ok)
          | inr (inl (good, done, e)) ↦
              subst AllStopped (some-eq (infected_all tasks got w) i e)
                (break-AllStopped threads w h good done)
          | inr (inr (inl (bad, e))) ↦ absurd (gave_up err' left w' i bad e ok)
          | inr (inr (inr (good, e))) ↦
              process_infect-AllStopped fuel left w' i
                (infect_threads-SeizedFirst got w (collect_threads-SeizedFirst threads w h)) e ok
        ]
