-- ===== src/Patching/Commands.antt =====
-- The commands (create_patch, init_patch, init_context, process_cease, patch_process, check_process,
-- list_process_patches and unpatch_process of patcher/patch.c).
use nsb.Base.{
  ℕ, suc, Bool, true, false, List, [], Option, none, some, ◌⊎◌, inl, inr, not, if◌then◌else◌,
}
use nsb.Base.Int.{ℤ, pos, neg, negsuc, is_zero, enomem}
use nsb.Base.Steps.{Step, ◌>>=◌, ◌>>◌, pure, checked}
use nsb.Base.Text.{Text}
use nsb.DlMap.{DlMap}
use nsb.Elf.{ElfInfo}
use nsb.Patch.{PatchInfo, Patch}
use nsb.Patching.{Env, Run, World, Ctx, machine_of}
use nsb.Patching.Collect.{
  find_patch_by_bid, process_find_patch, process_find_target_dlm, process_collect_vmas,
  process_collect_needed,
}
use nsb.Patching.Injected.{process_inject_service, process_resume}
use nsb.Patching.Load.{linking_of, apply_dyn_binpatch, revert_dyn_binpatch}
use nsb.Patching.Resume.{process_link}
use nsb.Process.Suspend.{
  CheckBacktrace, jumps_check_backtrace, patch_check_backtrace, process_suspend,
}
use nsb.Process.Threads.{Thread}
use nsb.Relocations.{collect_relocations, resolve_relocations}

-- The bounds given to the loops that need not end: the rounds that stop the threads, and those over a
-- dynamic section and over the list of libraries.
pub record Fuel : Type 0 where
  pub infect : ℕ
  pub dyn : ℕ
  pub libraries : ℕ

module _ (e : Env) (fuel : Fuel) where
  -- An error, or the description of the patch.
  unfoldable pub create_patch : ElfInfo → Run e → ℤ ⊎ PatchInfo
  create_patch ei (c, w) =
      if not ((e.peer.host w).alloc_succeeds c.allocs)
      then inl enomem
      else elim (e.binpatch ei) [ inl n ↦ inl (negsuc n) | inr pi ↦ inr pi ]

  abbrev pub with_patch : ElfInfo → Run e → ℤ ⊎ PatchInfo → ℤ × Run e
  with_patch ei (c, w) (inl err) = (err, (record c { allocs = suc c.allocs }, w))
  with_patch ei (c, w) (inr pi) =
      (pos 0, (record c { patch_ei = ei; patch_id = c.allocs; pi = pi; allocs = suc c.allocs }, w))

  unfoldable pub init_patch : Run e → ℤ × Run e
  init_patch (c, w) = elim ((e.peer.files w).open_elf c.patchfile) [
    | inl n ↦ (negsuc n, (c, w))
    | inr ei ↦ with_patch ei (c, w) (create_patch ei (c, w))
  ]

  unfoldable pub init_context : (pid : ℕ) (patchfile : Text) (dry_run : Bool) → Run e → ℤ × Run e
  init_context pid patchfile dry_run (c, w) =
      let (err, r) =
        init_patch (record c { pid = pid; patchfile = patchfile; dry_run = dry_run }, w) in
      if not e.elf_library_ok
      then (neg 1, (c, w))
      else if not (is_zero err)
      then (pos 1, r)
      else (pos 0, r)

  -- A step, and then the target is resumed: `return ret ? ret : err`.
  abbrev pub resumed : {A : Type 0} → Option ((ℤ ⊎ A) × Run e) → Option (ℤ × Run e)
  resumed none = none
  resumed (some (inl ret, r)) = some (ret, (process_resume e r).1)
  resumed (some (inr a, r)) = some (process_resume e r)

  -- What `process_cease` does once the target is stopped.
  abbrev pub held : Step (Run e) (Unit {0})
  held = do checked (process_link e); checked (process_collect_vmas e)

  -- On an error the target is resumed.
  abbrev pub or_resume : Option ((ℤ ⊎ Unit {0}) × Run e) → Option ((ℤ ⊎ Unit {0}) × Run e)
  or_resume none = none
  or_resume (some (inl ret, r)) = some (inl ret, (process_resume e r).1)
  or_resume (some (inr a, r)) = some (inr a, r)

  abbrev pub after_suspend :
      Ctx → Option (ℤ × List Thread × World e) → Option ((ℤ ⊎ Unit {0}) × Run e)
  after_suspend c none = none
  after_suspend c (some (err, threads, w)) =
      let c' = record c { threads = threads } in
      if not (is_zero err) then some (inl err, (c', w)) else or_resume (held (c', w))

  unfoldable pub process_cease : CheckBacktrace → (bid : Text) → Step (Run e) (Unit {0})
  process_cease check_backtrace bid (c, w) =
      after_suspend c
        (process_suspend (machine_of e) c.pid check_backtrace fuel.infect bid c.threads w)

  -- The steps on the context and the world, as far as they are not in the form of a step.
  abbrev pub not_applied : Step (Run e) (Unit {0})
  not_applied (c, w) = checked (λ (r : Run e). (process_find_patch c, r)) (c, w)

  abbrev pub found_target : Step (Run e) DlMap
  found_target (c, w) = some (process_find_target_dlm c, (c, w))

  abbrev pub injected : (no_plugin : Bool) → Step (Run e) (Unit {0})
  injected true = pure tt
  injected false = checked (process_inject_service e)

  abbrev pub with_code : Option (ℤ × Run e) → Option ((ℤ ⊎ Unit {0}) × Run e)
  with_code none = none
  with_code (some (err, r)) = some (if is_zero err then inr tt else inl err, r)

  abbrev pub needed_collected : Step (Run e) (Unit {0})
  needed_collected r = with_code (process_collect_needed e fuel.dyn fuel.libraries r)

  -- The patch's own object is not looked at before it is loaded.
  abbrev pub relocations_resolved : (target : DlMap) → Step (Run e) (Unit {0})
  relocations_resolved target (c, w) =
      let tables = collect_relocations (e.peer.host w).alloc_succeeds c.patch_ei c.allocs in
      let (err, tables') = resolve_relocations (linking_of c target target) tables in
      some (if is_zero err then inr tt else inl err, (record c { tables = tables' }, w))

  -- Once the target of the patch is found.
  abbrev pub patched_target : (no_plugin : Bool) → DlMap → Step (Run e) (Unit {0})
  patched_target no_plugin target = do
    injected no_plugin
    needed_collected
    relocations_resolved target
    apply_dyn_binpatch e target

  -- What `patch_process` does between stopping the target and resuming it.
  abbrev pub patched : (no_plugin : Bool) → Step (Run e) (Unit {0})
  patched no_plugin = do not_applied; target ← found_target; patched_target no_plugin target

  abbrev pub if_ceased :
      Step (Run e) (Unit {0}) → Option ((ℤ ⊎ Unit {0}) × Run e) → Option (ℤ × Run e)
  if_ceased m none = none
  if_ceased m (some (inl err, r)) = some (err, r)
  if_ceased m (some (inr a, r)) = resumed (m r)

  unfoldable pub patch_process :
      (pid : ℕ) (patchfile : Text) (dry_run no_plugin : Bool) → Run e → Option (ℤ × Run e)
  patch_process pid patchfile dry_run no_plugin r =
      let (err, (c, w)) = init_context pid patchfile dry_run r in
      let run =
        if_ceased (patched no_plugin)
          (process_cease (jumps_check_backtrace c.pi.func_jumps) c.pi.target_bid (c, w)) in
      if not (is_zero err) then some (err, (c, w)) else run

  -- The code of the command, whose `ENOENT` is positive.
  unfoldable pub check_process : (pid : ℕ) (patchfile : Text) → Run e → ℤ × Run e
  check_process pid patchfile r =
      let (err, r1) = init_context pid patchfile false r in
      let (err', (c, w)) = process_collect_vmas e r1 in
      if not (is_zero err)
      then (err, r1)
      else if not (is_zero err')
      then (err', (c, w))
      else elim (find_patch_by_bid c.applied_patches c.pi.patch_bid) [
        | none ↦ (pos 2, (c, w))
        | some p ↦ (pos 0, (c, w))
      ]

  -- The code, and the patches that are printed.
  unfoldable pub list_process_patches : (pid : ℕ) → Run e → ℤ × List Patch × Run e
  list_process_patches pid (c, w) =
      let (err, (c', w')) = process_collect_vmas e (record c { pid = pid }, w) in
      if not e.elf_library_ok
      then (neg 1, [], (c, w))
      else if not (is_zero err)
      then (err, [], (c', w'))
      else (pos 0, c'.applied_patches, (c', w'))

  -- A patch that is not found is none here: the source reads the patch's name through the NULL pointer.
  abbrev pub taken_back : Option Patch → Step (Run e) (Unit {0})
  taken_back none r = none
  taken_back (some p) r = checked (revert_dyn_binpatch e p) r

  abbrev pub unpatched : Step (Run e) (Unit {0})
  unpatched (c, w) = taken_back (find_patch_by_bid c.applied_patches c.pi.patch_bid) (c, w)

  unfoldable pub unpatch_process :
      (pid : ℕ) (patchfile : Text) (dry_run : Bool) → Run e → Option (ℤ × Run e)
  unpatch_process pid patchfile dry_run r =
      let (err, (c, w)) = init_context pid patchfile dry_run r in
      let run = if_ceased unpatched (process_cease patch_check_backtrace c.pi.patch_bid (c, w)) in
      if not (is_zero err) then some (err, (c, w)) else run
