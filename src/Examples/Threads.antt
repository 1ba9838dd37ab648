-- ===== src/Examples/Threads.antt =====
-- Examples for stopping a process: one thread, which stops at once, and a zombie.
use nsb.Backtrace.{
  Unwinder, create_frame, round, do_backtrace, pid_backtrace, bt_check_range, backtrace_check_func,
}
use nsb.Base.{ℕ, zero, suc, ◌≡◌, refl, inr, true, false, [], ◌∷◌, some}
use nsb.Base.Int.{pos}
use nsb.Base.Loop.{for_each_entry}
use nsb.Base.Text.{codes, str_eq}
use nsb.Examples.{library_elf, jump_at}
use nsb.Process.Suspend.{
  Machine, jumps_check_backtrace, compare_target_bid, process_get_target_info, task_check_stack,
  process_check_stack, process_catch, process_suspend,
}
use nsb.Process.Suspend.Caught.{Safe, process_suspend-Safe}
use nsb.Process.Threads.{
  Thread, Stopped, Tasks, Infection, collect_thread, process_collect_threads, process_needs_seize,
  task_infect, process_infect_threads, process_infect,
}
use nsb.Process.Threads.Infected.{AllStopped, process_infect-AllStopped}
use nsb.Vma.Collect.{iter_map_files}
use nsb.Vma.Parse.{parse_vma}

-- The world counts the threads that were stopped.
abbrev one_task : Tasks
one_task = record {
  World = ℕ;
  task_names = λ w. inr (5 ∷ []);
  stop_task = λ w pid. (Stopped.alive, suc w);
  resume_task = λ w pid. (false, w);
}

abbrev zombie_task : Tasks
zombie_task = record {
  World = ℕ;
  task_names = λ w. inr (5 ∷ []);
  stop_task = λ w pid. (Stopped.zombie, suc w);
  resume_task = λ w pid. (false, w);
}

abbrev stopped_thread : Thread
stopped_thread = record { pid = 5; seized = true }

abbrev infection : Infection one_task
infection = record { err = pos 0; threads = stopped_thread ∷ []; world = 1 }

infected : process_infect one_task 2 [] 0 ≡ some infection
unfolding process_infect process_collect_threads collect_thread process_needs_seize
    process_infect_threads task_infect for_each_entry
infected = refl

process_infect-AllStopped_example : AllStopped one_task infection
process_infect-AllStopped_example =
    process_infect-AllStopped one_task 2 [] 0 infection tt infected refl

abbrev pub unwinder : Unwinder
unwinder = record {
  Cursor = ℕ;
  get_ip = λ c. (pos 0, 0x10000800);
  get_sp = λ c. (pos 0, 0x7000);
  get_proc_name = λ c. codes "f";
  is_signal_frame = λ c. pos 0;
  step = λ c. elim c [ zero ↦ (pos 0, 0) | suc n ↦ (pos 1, n) ];
  create_addr_space = true;
  upt_create = λ pid. true;
  init_remote = λ pid. (pos 0, 2);
  alloc_succeeds = λ n. true;
}

abbrev machine : Machine
machine = record {
  tasks = one_task;
  host = λ w. record {
    alloc_succeeds = λ n. true;
    map_file_of = λ pid start end. codes "m";
    access = λ file. true;
    maps = λ pid. some (codes "10000000-10002000 r-xp 00000000 08:01 77 /lib/t.so\n" ∷ []);
  };
  files = λ w. record {
    is_elf_file = λ file. true;
    open_elf = λ file. inr library_elf;
    alloc_succeeds = λ n. true;
  };
  unwinder = λ w. unwinder;
  usleep = λ w usec. w;
}

suspended :
    process_suspend machine 5 (jumps_check_backtrace (jump_at 0x100 0 ∷ [])) 2 (codes "t1") [] 0
    ≡ some (pos 0, stopped_thread ∷ [], 1)
unfolding process_suspend process_catch process_infect process_collect_threads collect_thread
    process_needs_seize process_infect_threads task_infect for_each_entry process_get_target_info
    compare_target_bid iter_map_files parse_vma str_eq process_check_stack task_check_stack
    pid_backtrace do_backtrace round create_frame jumps_check_backtrace backtrace_check_func
    bt_check_range
suspended = refl

process_suspend-Safe_example :
    Safe machine 5
      (jumps_check_backtrace (jump_at 0x100 0 ∷ []))
      2
      (codes "t1")
      (stopped_thread ∷ [])
      1
process_suspend-Safe_example =
    process_suspend-Safe machine 5 (jumps_check_backtrace (jump_at 0x100 0 ∷ [])) 2 (codes "t1") 0 1
      (stopped_thread ∷ []) suspended
