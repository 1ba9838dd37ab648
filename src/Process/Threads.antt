-- ===== src/Process/Threads.antt =====
-- Stopping and releasing the threads of the target (collect_thread, process_collect_threads,
-- task_infect, process_infect_threads, process_needs_seize, process_infect, task_cure and
-- process_cure_threads of patcher/process.c).
pub mod Collected
pub mod Cured
pub mod Infected
pub mod Kept
pub mod Zombie
use nsb.Base.{
  ℕ, zero, suc, Bool, true, false, List, [], ◌∷◌, ◌++◌, Option, none, some, ◌⊎◌, inl, inr, last?,
  ◌==◌, not, if◌then◌else◌,
}
use nsb.Base.Int.{ℤ, pos, neg, negsuc, is_zero, ebusy, esrch}
use nsb.Base.Loop.{Actor, for_each_entry}

-- `struct thread_s`
pub record Thread : Type 0 where
  pub pid : ℕ
  pub seized : Bool

-- What `compel_stop_task` answers; `failed n` is an answer that is none of these, with `errno` n + 1.
pub data Stopped : Type 0 where
  alive stopped zombie dead : Stopped
  failed : ℕ → Stopped

-- The operating system as libcompel and /proc/PID/task show it. `task_names` is the answer of
-- `iterate_dir_name`: an error -(n + 1), or the numbers in the directory.
pub record Tasks : Type 1 where
  pub World : Type 0
  pub task_names : World → ℕ ⊎ List ℕ
  pub stop_task : World → (pid : ℕ) → Stopped × World
  pub resume_task : World → (pid : ℕ) → Bool × World

abbrev pub known : ℕ → List Thread → Bool
known pid [] = false
known pid (t ∷ ts) = if t.pid == pid then true else known pid ts

unfoldable pub collect_thread : ℕ → List Thread → List Thread
collect_thread pid threads =
    if known pid threads then threads else threads ++ record { pid = pid; seized = false } ∷ []

abbrev pub collect_all : List ℕ → List Thread → List Thread
collect_all [] threads = threads
collect_all (pid ∷ pids) threads = collect_all pids (collect_thread pid threads)

abbrev pub last_seized : Option Thread → Bool
last_seized none = false
last_seized (some t) = t.seized

-- Only the last thread is looked at.
unfoldable pub process_needs_seize : List Thread → Bool
process_needs_seize threads = not (last_seized (last? threads))

-- What becomes of the thread: its result, and the thread unless it is destroyed.
abbrev pub infected : Thread → Stopped → ℤ × List Thread
infected t Stopped.alive = (pos 0, record t { seized = true } ∷ [])
infected t Stopped.stopped = (ebusy, t ∷ [])
infected t Stopped.zombie = (pos 0, [])
infected t Stopped.dead = (pos 0, [])
infected t (Stopped.failed n) = (negsuc n, t ∷ [])

module _ (tasks : Tasks) where
  open tasks use {World, task_names, stop_task, resume_task}

  unfoldable pub process_collect_threads : World → List Thread → ℤ × List Thread
  process_collect_threads w threads = elim (task_names w) [
    | inl n ↦ (negsuc n, threads)
    | inr pids ↦ (pos 0, collect_all pids threads)
  ]

  -- `errno` is compared with `-ESRCH`, which it never is: every failure is an error.
  unfoldable pub task_infect : Actor Thread World
  task_infect t w =
      let (answer, w') = stop_task w t.pid in let (err, left) = infected t answer in (err, left, w')

  -- Every thread of the list is stopped, those that were before too.
  unfoldable pub process_infect_threads : List Thread → World → ℤ × List Thread × World
  process_infect_threads threads w = for_each_entry task_infect threads w

  unfoldable pub task_cure : Thread → World → ℤ × World
  task_cure t w =
      let (fails, w') = resume_task w t.pid in
      if not t.seized then (pos 0, w) else if fails then (neg 1, w') else (pos 0, w')

  unfoldable pub process_cure_threads : List Thread → World → ℤ × List Thread × World
  unfolding for_each_entry
  process_cure_threads threads w =
      for_each_entry
        (λ t w. let (err, w') = task_cure t w in (err, if is_zero err then [] else t ∷ [], w'))
        threads w

  -- How the loop of `process_infect` ends.
  pub record Infection : Type 0 where
    pub err : ℤ
    pub threads : List Thread
    pub world : World

  abbrev pub give_up : ℤ → List Thread → World → Infection
  give_up err threads w =
      let (ret, threads', w') = process_cure_threads threads w in
      record { err = err; threads = threads'; world = w' }

  abbrev pub infected_all : List Thread → World → Infection
  infected_all [] w = record { err = esrch; threads = []; world = w }
  infected_all (t ∷ ts) w = record { err = pos 0; threads = t ∷ ts; world = w }

  -- none where the fuel is used up before the loop ends.
  unfoldable pub process_infect : (fuel : ℕ) → List Thread → World → Option Infection
  process_infect zero threads w = none
  process_infect (suc fuel) threads w =
      let (err, collected) = process_collect_threads w threads in
      let (err', left, w') = process_infect_threads collected w in
      let rest = process_infect fuel left w' in
      if not (is_zero err)
      then some (give_up err collected w)
      else if not (process_needs_seize collected)
      then some (infected_all collected w)
      else if not (is_zero err')
      then some (give_up err' left w')
      else rest
