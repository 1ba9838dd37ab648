-- ===== src/Process/Remote.antt =====
-- System calls in the target, and the mapping and unmapping of a patch by them (process_syscall,
-- process_map_vma, process_unmap_vma, process_mmap_dlm_manual, unmap_dl_vma, process_close_file,
-- process_do_open_file, process_open_file and process_exec_code of patcher/process.c).
pub mod Made
pub mod Pages
pub mod Restores
pub mod Undone
pub mod Whole
use nsb.Base.{
  ℕ, zero, suc, ◌+◌, ◌-◌, ◌*◌, ◌/◌, Bool, true, false, List, [], ◌∷◌, ◌++◌, length, not,
  if◌then◌else◌,
}
use nsb.Base.Int.{ℤ, pos, negsuc, neg, is_neg, is_zero, ebusy}
use nsb.Base.Loop.{for_each_entry, reading}
use nsb.Base.Text.{Text}
use nsb.Base.Word.{bits64, signed64}
use nsb.Process.Memory.{Tracee, Memory, bytes_at, process_write_data}
use nsb.Vma.{VmaArea, Prot}

-- How `compel_syscall` ends: by -(ret + 1), with the errno that it left, or by what the call returned.
pub data Answer : Type 0 where
  failed : (ret errno : ℕ) → Answer
  returned : (sret : ℤ) → Answer

-- How `compel_run_at` ends: by -(err + 1), or by 0 with the register `ax`.
pub data Ran : Type 0 where
  not_run : (err : ℕ) → Ran
  ran : (ax : ℕ) → Ran

-- What libcompel does in the target besides reading and writing, and `behind`, the bytes that follow
-- others in the patcher's own memory.
pub record Remote : Type 1 where
  pub tracee : Tracee
  pub syscall : tracee.State → (nr : ℕ) → (args : List ℕ) → Answer × tracee.State
  pub run_at : tracee.State → (addr : ℕ) → Ran × tracee.State
  pub behind : List ℕ → Memory

-- `round_up(n, 8)`
abbrev pub round_up8 : ℕ → ℕ
round_up8 n = (n + 7) / 8 * 8

-- The bits of `prot` as `mmap` takes them.
abbrev pub vma_prot : VmaArea → ℕ
vma_prot vma =
    (if vma.prot.read then 1 else 0)
    + (if vma.prot.write then 2 else 0)
    + (if vma.prot.exec then 4 else 0)

-- `__NR(mmap, false)` and the like.
abbrev pub nr_open : ℕ
nr_open = 2

abbrev pub nr_close : ℕ
nr_close = 3

abbrev pub nr_mmap : ℕ
nr_mmap = 9

abbrev pub nr_munmap : ℕ
nr_munmap = 11

abbrev pub mmap_args : (fd : ℤ) → VmaArea → List ℕ
mmap_args fd vma = vma.addr ∷ vma.len ∷ vma_prot vma ∷ vma.flags ∷ bits64 fd ∷ vma.offset ∷ []

abbrev pub munmap_args : VmaArea → List ℕ
munmap_args vma = vma.addr ∷ vma.len ∷ 0 ∷ 0 ∷ 0 ∷ 0 ∷ []

-- The result and the errno, which only a negative result leaves.
abbrev pub answered : Answer → ℤ × ℕ
answered (failed ret errno) = (negsuc ret, errno)
answered (returned (pos v)) = (pos v, 0)
answered (returned (negsuc n)) = (neg 1, suc n)

-- `if (ret < 0) return -errno; return ret;`
abbrev pub or_errno : ℤ × ℕ → ℤ
or_errno (pos v, errno) = pos v
or_errno (negsuc n, errno) = neg errno

-- `if (err < 0) return -errno; return 0;`
abbrev pub zero_or_errno : ℤ × ℕ → ℤ
zero_or_errno (pos v, errno) = pos 0
zero_or_errno (negsuc n, errno) = neg errno

-- What came of the code that was run: an error, or `ax` as a number with its sign.
abbrev pub run_result : Ran → ℤ
run_result (not_run err) = negsuc err
run_result (ran ax) = signed64 ax

module _ (r : Remote) where
  open r use {tracee, syscall, run_at, behind}

  unfoldable pub process_syscall : (nr : ℕ) → List ℕ → tracee.State → (ℤ × ℕ) × tracee.State
  process_syscall nr args s = let (answer, s') = syscall s nr args in (answered answer, s')

  -- `loaded` says whether the service is: it has the place of libcompel's then.
  unfoldable pub process_map_vma :
      (loaded : Bool) (fd : ℤ) → VmaArea → tracee.State → ℤ × tracee.State
  process_map_vma loaded fd vma s =
      let (result, s') = process_syscall nr_mmap (mmap_args fd vma) s in
      if loaded then (ebusy, s) else (or_errno result, s')

  unfoldable pub process_unmap_vma : (loaded : Bool) → VmaArea → tracee.State → ℤ × tracee.State
  process_unmap_vma loaded vma s =
      let (result, s') = process_syscall nr_munmap (munmap_args vma) s in
      if loaded then (ebusy, s) else (zero_or_errno result, s')

  unfoldable pub process_close_file : (fd : ℤ) → tracee.State → ℤ × tracee.State
  process_close_file fd s =
      let (result, s') = process_syscall nr_close (bits64 fd ∷ 0 ∷ 0 ∷ 0 ∷ 0 ∷ 0 ∷ []) s in
      (zero_or_errno result, s')

  -- Bytes of the patcher's memory, and what follows them up to a multiple of eight.
  abbrev pub rounded_up : List ℕ → List ℕ
  rounded_up bytes = bytes ++ bytes_at (behind bytes) 0 (round_up8 (length bytes) - length bytes)

  -- `flags` and `mode` are 0: `O_RDONLY` is all that is asked for.
  unfoldable pub process_open_file :
      (remote_addr : ℕ) → (path : Text) → tracee.State → ℤ × tracee.State
  process_open_file remote_addr path s =
      let (err, s1) = process_write_data tracee s remote_addr (rounded_up (path ++ 0 ∷ [])) in
      let (result, s2) = process_syscall nr_open (remote_addr ∷ 0 ∷ 0 ∷ 0 ∷ 0 ∷ 0 ∷ []) s1 in
      if is_zero err then (or_errno result, s2) else (err, s1)

  -- The loop of `process_mmap_dlm_manual`: the error that ended it or 0, and the mappings that were
  -- made, the last one first.
  unfoldable pub map_vmas :
      (loaded : Bool) (fd : ℤ) (made : List VmaArea)
      → List VmaArea
      → tracee.State
      → ℤ × List VmaArea × tracee.State
  map_vmas loaded fd made [] s = (pos 0, made, s)
  map_vmas loaded fd made (vma ∷ vmas) s =
      let (addr, s') = process_map_vma loaded fd vma s in
      let rest = map_vmas loaded fd (vma ∷ made) vmas s' in
      if is_neg addr then (addr, made, s') else rest

  -- The loop behind `unmap`; its errors are ignored.
  unfoldable pub unmap_made : (loaded : Bool) → List VmaArea → tracee.State → tracee.State
  unmap_made loaded [] s = s
  unmap_made loaded (vma ∷ made) s = unmap_made loaded made (process_unmap_vma loaded vma s).1

  -- On an error the file stays open in the target.
  unfoldable pub process_mmap_dlm_manual :
      (loaded : Bool) (remote_addr : ℕ) (path : Text)
      → List VmaArea
      → tracee.State
      → ℤ × tracee.State
  process_mmap_dlm_manual loaded remote_addr path vmas s =
      let (fd, s1) = process_open_file remote_addr path s in
      let (err, made, s2) = map_vmas loaded fd [] vmas s1 in
      if is_neg fd
      then (fd, s1)
      else if is_neg err
      then (err, unmap_made loaded made s2)
      else (pos 0, (process_close_file fd s2).1)

  -- `iterate_dl_vmas` with `unmap_dl_vma`.
  unfoldable pub unmap_dl_vmas : (loaded : Bool) → List VmaArea → tracee.State → ℤ × tracee.State
  unmap_dl_vmas loaded vmas s =
      let (err, vmas', s') = for_each_entry (reading (process_unmap_vma loaded)) vmas s in (err, s')

  unfoldable pub process_exec_code :
      (code_addr : ℕ) (code : List ℕ) → tracee.State → ℤ × tracee.State
  process_exec_code code_addr code s =
      let (err, s1) = process_write_data tracee s code_addr (rounded_up code) in
      let (result, s2) = run_at s1 code_addr in
      if is_zero err then (run_result result, s2) else (err, s1)
