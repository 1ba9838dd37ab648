-- ===== src/Process/Threads/Zombie.antt =====
-- A process that `process_infect` of patcher/process.c does not come to an end with.
use nsb.Base.{ℕ, false}
use nsb.Process.Threads.{Thread, Tasks}

module _ (tasks : Tasks) where
  open tasks use {World, task_names}

  abbrev new_thread : ℕ → Thread
  new_thread pid = record { pid = pid; seized = false }
