-- ===== src/Examples/Runs.antt =====
-- A run on a target of one thread, whose memory reads the same everywhere.
use nsb.Base.{ℕ, suc, refl, inr, true, false, List, [], ◌∷◌, none, some, take, replicate}
use nsb.Base.Int.{pos}
use nsb.Base.Loop.{for_each_entry}
use nsb.Base.Steps.{IsSome}
use nsb.Base.Text.{Text, codes}
use nsb.Client.{Peer}
use nsb.Elf.{ElfInfo, Phdr}
use nsb.Examples.{library_elf, patch_elf, f_sym, jump_at, text_vma}
use nsb.Examples.Threads.{unwinder}
use nsb.Patch.{PatchInfo}
use nsb.Patching.{Env, Ctx, tasks_of}
use nsb.Patching.Commands.{Fuel}
use nsb.Patching.Finished.{Suffices}
use nsb.Patching.LetsGo.{LetsGo}
use nsb.Process.Memory.{Outcome, process_read_data}
use nsb.Process.Remote.{Remote, Answer, Ran}
use nsb.Process.Threads.{
  Stopped, collect_thread, process_collect_threads, process_needs_seize, task_infect,
  process_infect_threads, process_infect,
}
use nsb.Rtld.{rtld_needed_array, needed_from, rtld_dynamic_tag_val}

-- Eight bytes of 6, of 0x10000800, of 8 and of 0: a library without a successor, and a symbol table.
abbrev pattern : List ℕ
pattern =
    6
    ∷ 0
    ∷ 0
    ∷ 0
    ∷ 0
    ∷ 0
    ∷ 0
    ∷ 0
    ∷ 0
    ∷ 8
    ∷ 0
    ∷ 0x10
    ∷ 0
    ∷ 0
    ∷ 0
    ∷ 0
    ∷ 8
    ∷ 0
    ∷ 0
    ∷ 0
    ∷ 0
    ∷ 0
    ∷ 0
    ∷ 0
    ∷ replicate 16 0

-- The world counts the threads that were stopped.
abbrev remote : Remote
remote = record {
  tracee = record {
    State = ℕ;
    peek = λ w addr size. (Outcome.done, take size pattern);
    poke = λ w addr bytes. (Outcome.done, w);
  };
  syscall = λ w nr args. (Answer.returned (pos 0x20000), w);
  run_at = λ w addr. (Ran.ran 0, w);
  behind = λ bytes addr. 0;
}

abbrev library : ElfInfo
library = record library_elf {
  dynsym = some (some (record f_sym { name = some (codes "_r_debug") }) ∷ []);
}

abbrev segment : Phdr
segment = record { p_type = 1; p_flags = 5; p_offset = 0; p_vaddr = 0; p_filesz = 0x2000 }

abbrev opened : Text → ElfInfo
opened path = elim path [
  | [] ↦ record patch_elf { phdrs = some (some segment ∷ []) }
  | c ∷ cs ↦ library
]

abbrev peer : Peer
peer = record {
  remote = remote;
  host = λ w. record {
    alloc_succeeds = λ n. true;
    map_file_of = λ pid start end. codes "m";
    access = λ file. true;
    maps = λ pid. some (codes "10000000-10002000 r-xp 00000000 08:01 77 /lib/t.so\n" ∷ []);
  };
  files = λ w. record {
    is_elf_file = λ file. true;
    open_elf = λ file. inr (opened file);
    alloc_succeeds = λ n. true;
  };
  map_files = λ w pid. inr [];
  readlink = λ w pid dentry. inr [];
  socket = λ w. (inr 3, w);
  connect = λ w sock pid. (none, w);
  close = λ w sock. (none, w);
  send = λ w sock rq. (none, w);
  recv = λ w sock. (inr 8, record { ret = pos 0; needed = [] }, w);
  send_fd = λ w sock fd. (none, w);
  rel = replicate 4 0;
}

abbrev info : PatchInfo
info = record {
  target_bid = codes "t1";
  patch_bid = codes "p1";
  func_jumps = jump_at 0x500 0x100 ∷ [];
  manual_syms = [];
  global_syms = [];
  static_syms = [];
}

abbrev env : Env
env = record {
  peer = peer;
  task_names = λ w. inr (5 ∷ []);
  stop_task = λ w pid. (Stopped.alive, suc w);
  resume_task = λ w pid. (false, w);
  unwinder = λ w. unwinder;
  usleep = λ w usec. w;
  prepare = λ w pid. (true, w);
  cure = λ w. (none, w);
  file = record {
    virt_base = λ ei ndx. some 0;
    pread = λ dlm offset size. inr (replicate size 0x55);
  };
  elf_library_ok = true;
  binpatch = λ ei. inr info;
  has_vzpatch = λ ei. false;
  elf_fd = λ ei. 4;
  past_head = 0x7f0000000000;
  stack = replicate 8 0;
}

abbrev fuel : Fuel
fuel = record { infect = 2; dyn = 1; libraries = 1 }

abbrev env-LetsGo : LetsGo env
env-LetsGo = record {
  resumes = λ w pid. refl;
  cures = λ w. refl;
  maps = λ w v len flags. (refl, refl);
  unmaps = λ w v page. refl;
}

infects : (w : ℕ) → IsSome (process_infect (tasks_of env) 2 [] w)
unfolding process_infect process_collect_threads collect_thread process_needs_seize
    process_infect_threads task_infect for_each_entry
infects w = tt

lists : (w addr : ℕ) → IsSome (rtld_needed_array env.peer.remote.tracee 1 1 w addr)
unfolding rtld_needed_array needed_from rtld_dynamic_tag_val process_read_data
lists w addr = tt

abbrev env-Suffices : Suffices env fuel
env-Suffices = record { infects = λ w. infects w; lists = λ w addr. lists w addr }

-- The context at the start of a command: one page of memory that is private and anonymous.
abbrev start : Ctx
start = record {
  pid = 0;
  patchfile = [];
  dry_run = false;
  patch_ei = patch_elf;
  ctl = false;
  service = record { handle = 0; dlm = none; sock = none; runner = 0; loaded = false };
  vmas = [];
  dl_maps = [];
  applied_patches = [];
  remote_vma = record (text_vma 0 0 4096) { flags = 0x22 };
  needed_list = [];
  threads = [];
  patch_id = 0;
  pi = info;
  tables = record { rela_plt = []; rela_dyn = [] };
  allocs = 0;
}

-- A run on the way back: the patch is among the objects of the target, whose files describe it.
abbrev patched_env : Env
patched_env = record env {
  binpatch = λ ei. inr (record info { patch_bid = codes "t1" });
  has_vzpatch = λ ei. true;
  unwinder = λ w. record unwinder { get_ip = λ c. (pos 0, 0x20000800) };
}

abbrev patched_env-LetsGo : LetsGo patched_env
patched_env-LetsGo = record {
  resumes = λ w pid. refl;
  cures = λ w. refl;
  maps = λ w v len flags. (refl, refl);
  unmaps = λ w v page. refl;
}

abbrev patched_env-Suffices : Suffices patched_env fuel
patched_env-Suffices = record { infects = λ w. infects w; lists = λ w addr. lists w addr }
