-- ===== src/Patching.antt =====
-- What a run of the patcher works on (struct process_ctx_s of patcher/include/context.h), and what it has
-- to do with outside of the program. The children are the steps of a run, from patcher/patch.c and
-- patcher/process.c: stopping and resuming, the service, collecting, loading, and the commands.
pub mod Collect
pub mod Finished
pub mod Held
pub mod Commands
pub mod LetsGo
pub mod Load
pub mod Released
pub mod Resume
pub mod Injected
pub mod TakenBack
use nsb.Backtrace.{Unwinder}
use nsb.Base.{ℕ, Bool, List, Option, ◌⊎◌}
use nsb.Base.Text.{Text}
use nsb.Client.{Service, Peer}
use nsb.DlMap.{DlMap}
use nsb.Elf.{ElfInfo}
use nsb.Patch.{PatchInfo, Patch}
use nsb.Patch.Jumps.{TargetFile}
use nsb.Process.Memory.{Tracee}
use nsb.Process.Remote.{Remote}
use nsb.Process.Suspend.{Machine}
use nsb.Process.Threads.{Thread, Stopped, Tasks}
use nsb.Relocations.{Tables}
use nsb.Vma.{VmaArea}

-- `struct process_ctx_s` and the `struct patch_s` that it points to: its description `pi`, its
-- relocations `tables`, and `target_dlm`. `ctl` says whether there is a control structure of libcompel,
-- and `allocs` counts the allocations that name structures.
pub record Ctx : Type 0 where
  pub pid : ℕ
  pub patchfile : Text
  pub dry_run : Bool
  pub patch_ei : ElfInfo
  pub ctl : Bool
  pub service : Service
  pub vmas : List VmaArea
  pub dl_maps : List DlMap
  pub applied_patches : List Patch
  pub remote_vma : VmaArea
  pub needed_list : List DlMap
  pub threads : List Thread
  pub patch_id : ℕ
  pub pi : PatchInfo
  pub tables : Tables
  pub allocs : ℕ

-- The world outside. `prepare` and `cure` are `compel_prepare` and `compel_cure`; `binpatch` is what is
-- unpacked from the section of a file that describes a patch, or an error, and `has_vzpatch` whether
-- there is that section; `elf_fd` is the descriptor that a file is open at; `past_head` is what the
-- search for room reads behind the last mapping, and `stack` what the buffer of an unwritten offset holds.
pub record Env : Type 1 where
  pub peer : Peer
  pub task_names : peer.remote.tracee.State → ℕ ⊎ List ℕ
  pub stop_task : peer.remote.tracee.State → (pid : ℕ) → Stopped × peer.remote.tracee.State
  pub resume_task : peer.remote.tracee.State → (pid : ℕ) → Bool × peer.remote.tracee.State
  pub unwinder : peer.remote.tracee.State → Unwinder
  pub usleep : peer.remote.tracee.State → (usec : ℕ) → peer.remote.tracee.State
  pub prepare : peer.remote.tracee.State → (pid : ℕ) → Bool × peer.remote.tracee.State
  pub cure : peer.remote.tracee.State → Option ℕ × peer.remote.tracee.State
  pub file : TargetFile
  pub elf_library_ok : Bool
  pub binpatch : ElfInfo → ℕ ⊎ PatchInfo
  pub has_vzpatch : ElfInfo → Bool
  pub elf_fd : ElfInfo → ℕ
  pub past_head : ℕ
  pub stack : List ℕ

-- The parts of the world that a component works on.
abbrev pub World : Env → Type 0
World e = e.peer.remote.tracee.State

abbrev pub tasks_of : Env → Tasks
tasks_of e = record {
  World = e.peer.remote.tracee.State;
  task_names = e.task_names;
  stop_task = e.stop_task;
  resume_task = e.resume_task;
}

abbrev pub machine_of : Env → Machine
machine_of e = record {
  tasks = tasks_of e;
  host = e.peer.host;
  files = e.peer.files;
  unwinder = e.unwinder;
  usleep = e.usleep;
}

-- The state of a run.
abbrev pub Run : Env → Type 0
Run e = Ctx × e.peer.remote.tracee.State
