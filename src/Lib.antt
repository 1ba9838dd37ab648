-- ===== src/Lib.antt =====
-- nsb, a live patcher for Linux processes on x86-64: the patcher stops a process, checks that no thread
-- is inside a function it replaces, maps a patch (a shared object with a description of its
-- functions) near its target, resolves the patch's relocations, and writes jumps over the target's
-- functions. It takes a patch back by restoring what the jumps were written over.
--
-- The parts, by the files of the repository:
-- * X86 (patcher/x86_64.c): the instructions, as lists of bytes. X86/Machine is an independent reading
--   of them; X86/Jump and X86/Call relate the two.
-- * Vma (patcher/vma.c, patcher/include/vma.h): the mappings of a process. Vma/Parse reads a line of
--   /proc/PID/maps, Vma/Collect the file; Vma/Sorted and Vma/Collected are about the lists.
-- * Elf (patcher/elf.c): the dynamic symbols; Elf/Sections the sections and the build ID, Elf/Dynamic
--   the needed libraries, Elf/Reloc the relocations, Elf/Load the segments of a patch and where they
--   are put.
-- * DlMap (patcher/dl_map.c): the ELF objects that mappings belong to; DlMap/Collect builds them, and
--   DlMap/Find looks for one.
-- * Process (patcher/process.c): Process/Memory reads and writes the target, Process/Place looks for
--   room, Process/Threads stops the threads, Process/Suspend stops the target at a safe point, and
--   Process/Remote makes system calls in it, by which it maps an object and takes it back.
-- * Backtrace (patcher/backtrace.c): the stacks and the checks on them.
-- * Patch (patcher/patch.c, patcher/include/context.h): Patch/Jumps prepares and writes jumps,
--   Patch/Revert takes them back, Patch/Refs writes references to static data.
-- * Relocations (patcher/relocations.c): resolving and applying relocations, over Elf and DlMap.
-- * Rtld (patcher/rtld.c): the libraries that the dynamic linker lists, read from the target's memory.
-- * Service (plugins/service.c, plugins/service.h): the service's commands to map and to unmap;
--   Service/Libraries has its list of libraries, Service/Commands the other commands and its loop.
-- * Client (patcher/service.c): the patcher's side of the service, its requests and Client/Connect.
-- * Util (patcher/util.c): walks over the names of a directory.
-- * Patching (patcher/patch.c, patcher/process.c): a run, over all of the above. Patching/Resume takes
--   hold of the target and lets it go, Patching/Injected is the service in it, Patching/Collect what is
--   found in it, Patching/Load loads a patch, and Patching/Commands are patch_process,
--   unpatch_process, check_process and list_process_patches.
-- * Base holds what they share: C integers and errno values, 64-bit words with their wrap-around,
--   C strings, sscanf, the loop over a list that an actor can end, and Base/Steps, a monad for code
--   that changes a state and can fail.
-- * Examples applies the theorems to concrete data and holds tests.
--
-- A definition has the name of the function it models. A function that changes state takes the state
-- and returns its result with the new state; an error is a negative ℤ as in the source. A list_head is
-- a list, a pointer is an id that is looked up, an address is a number below 2 ^ 64. Output is left out.
--
-- What is not in the repository is a parameter: libcompel (Tracee, with the laws ReadsAndWrites, and
-- Tasks, and Remote, with the laws MapsInTarget), the sockets of the patcher (Peer), libunwind
-- (Unwinder), libelf (ElfInfo, Files, TargetFile), the kernel's files (Host) and, for
-- the service, its system calls (Kernel, with the laws MapsPages, and
-- Sockets).
-- Env is all of these for a run; LetsGo are the laws by which a target can be let go of.
-- malloc fails where the parameter alloc_succeeds says so; the order of allocations is kept.
--
-- Fuel: do_backtrace is given 66 rounds, two more than MAX_DEPTH: each round adds a frame, and a round
-- that finds more than MAX_DEPTH frames is the last. process_infect is given a number of rounds by its
-- caller, since its loop need not end; none is its result where they are used up. rtld_needed_array and
-- rtld_dynamic_tag_val are given theirs for the same reason: the target's memory may hold a cycle. The
-- other loops are structural. A run is given these three bounds by a Fuel; Suffices says that they are
-- enough.
--
-- Not modelled: the unpacking of the patch description, the command line, the texts of messages, and
-- freeing memory. The search for room looks at the address behind the list's
-- head, as the source does (past_head). unpatch_process reads through the NULL pointer where the patch
-- is not found in the target: the model has no result there.
pub mod Backtrace
pub mod Base
pub mod Client
pub mod DlMap
pub mod Elf
pub mod Examples
pub mod Patch
pub mod Patching
pub mod Process
pub mod Relocations
pub mod Rtld
pub mod Service
pub mod Util
pub mod Vma
pub mod X86
