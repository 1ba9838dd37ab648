-- ===== src/Patching/Load.antt =====
-- Loading a patch into the target and taking it back out (load_elf and unload_elf of patcher/elf.c;
-- process_mmap_dl_map and process_munmap_dl_map of patcher/process.c; patch_unload, load_patch,
-- apply_dyn_binpatch and revert_dyn_binpatch of patcher/patch.c).
use nsb.Base.{suc, List, [], ◌∷◌, ◌++◌, Option, none, some, ◌==◌, not, if◌then◌else◌}
use nsb.Base.Int.{ℤ, pos, is_neg, is_zero, enomem}
use nsb.Base.Steps.{Step, ◌>>=◌, ◌>>◌, pure, fail, checked, or_undo, and_then}
use nsb.Base.Word.{bits64}
use nsb.Client.{service_mmap_dlm, service_munmap_dlm, service_transfer_fd}
use nsb.DlMap.{DlMap}
use nsb.DlMap.Collect.{alloc_dl_map}
use nsb.Elf.Load.{create_elf_mmaps, pin_elf_mmaps}
use nsb.Patch.{Patch}
use nsb.Patch.Jumps.{apply_func_jumps, tune_patch_func_jumps}
use nsb.Patch.Refs.{apply_static_refs}
use nsb.Patch.Revert.{patch_revert_func_jumps}
use nsb.Patching.{Env, Run, World, Ctx}
use nsb.Process.Remote.{process_mmap_dlm_manual, unmap_dl_vmas}
use nsb.Relocations.{Linking, apply_relocations}

-- `ctx->patch` once its target and its own object are known.
abbrev pub patch_of : Ctx → (target dlm : DlMap) → Patch
patch_of c target dlm = record {
  id = c.patch_id;
  pi = c.pi;
  target_dlm = some target;
  patch_dlm = dlm;
}

abbrev pub linking_of : Ctx → (target dlm : DlMap) → Linking
linking_of c target dlm = record {
  needed_list = c.needed_list;
  target_dlm = target;
  patch_dlm = dlm;
  pi = c.pi;
}

-- The list holds the patch itself: what is changed in the one is changed in the other.
abbrev pub update_patch : Patch → List Patch → List Patch
update_patch p [] = []
update_patch p (q ∷ qs) = (if q.id == p.id then p else q) ∷ update_patch p qs

module _ (e : Env) where
  -- A step that works on the world alone.
  abbrev pub on_world : (Ctx → World e → ℤ × World e) → Run e → ℤ × Run e
  on_world f (c, w) = let (err, w') = f c w in (err, (c, w'))

  unfoldable pub process_mmap_dlm_service : Ctx → DlMap → World e → ℤ × World e
  process_mmap_dlm_service c dlm w =
      let (fd, w1) = service_transfer_fd e.peer c.remote_vma.addr c.service (e.elf_fd dlm.ei) w in
      if is_neg fd
      then (fd, w1)
      else service_mmap_dlm e.peer c.remote_vma.addr c.service dlm.vmas (bits64 fd) w1

  -- The object's path is that of the patch's file.
  unfoldable pub process_mmap_dl_map : DlMap → Ctx → World e → ℤ × World e
  process_mmap_dl_map dlm c w =
      if c.dry_run
      then (pos 0, w)
      else if c.service.loaded
      then process_mmap_dlm_service c dlm w
      else process_mmap_dlm_manual e.peer.remote c.service.loaded c.remote_vma.addr c.patchfile
          dlm.vmas w

  unfoldable pub process_munmap_dl_map : DlMap → Ctx → World e → ℤ × World e
  process_munmap_dl_map dlm c w =
      if c.dry_run
      then (pos 0, w)
      else if c.service.loaded
      then service_munmap_dlm e.peer c.remote_vma.addr c.service dlm.vmas w
      else unmap_dl_vmas e.peer.remote c.service.loaded dlm.vmas w

  -- `unload_elf`, `patch_unload` and `unload_patch`; its error is not the caller's where it undoes.
  unfoldable pub unload_elf : DlMap → Run e → ℤ × Run e
  unload_elf dlm = on_world (process_munmap_dl_map dlm)

  -- The mappings of the patch's segments, and where they are put.
  unfoldable pub placed_elf : (target dlm : DlMap) → Run e → ℤ × DlMap
  placed_elf target dlm (c, w) =
      let (err, made) = create_elf_mmaps (e.peer.host w).alloc_succeeds dlm c.allocs in
      if not (is_zero err)
      then (err, made)
      else pin_elf_mmaps c.dl_maps e.past_head c.vmas target made

  -- An error, or the object with its mappings.
  unfoldable pub load_elf : (target dlm : DlMap) → Step (Run e) DlMap
  load_elf target dlm r =
      let (err, placed) = placed_elf target dlm r in
      let mapped = (checked (on_world (process_mmap_dl_map placed)) >> pure placed) r in
      if is_zero err then mapped else fail err r

  -- The patch is in the list of those that are applied from now on.
  abbrev pub enlisted : (target dlm : DlMap) → Step (Run e) DlMap
  enlisted target dlm (c, w) =
      pure dlm (record c { applied_patches = c.applied_patches ++ patch_of c target dlm ∷ [] }, w)

  abbrev pub load_allocated : (target : DlMap) → Option DlMap → Step (Run e) DlMap
  load_allocated target none = fail enomem
  load_allocated target (some dlm) = load_elf target dlm >>= enlisted target

  unfoldable pub load_patch : (target : DlMap) → Step (Run e) DlMap
  load_patch target (c, w) =
      load_allocated target (alloc_dl_map (e.peer.files w) c.patch_ei (some c.patchfile) c.allocs)
        (record c { allocs = suc c.allocs }, w)

  abbrev pub tune_func_jumps : (target dlm : DlMap) → Run e → ℤ × Run e
  tune_func_jumps target dlm (c, w) =
      let (err, fjs) = tune_patch_func_jumps e.file target dlm c.pi.func_jumps in
      let c' = record c { pi = record c.pi { func_jumps = fjs } } in
      (
        err,
        (
          record c' { applied_patches = update_patch (patch_of c' target dlm) c'.applied_patches },
          w,
        ),
      )

  abbrev pub relocated : (target dlm : DlMap) → Step (Run e) (Unit {0})
  relocated target dlm = checked (
      on_world (λ c w. apply_relocations e.peer.remote.tracee (linking_of c target dlm) c.tables w))

  abbrev pub refs_fixed : (target dlm : DlMap) → Step (Run e) (Unit {0})
  refs_fixed target dlm = checked (
      on_world
        (λ c w. apply_static_refs e.peer.remote.tracee e.stack target dlm c.pi.static_syms w))

  abbrev pub jumps_tuned : (target dlm : DlMap) → Step (Run e) (Unit {0})
  jumps_tuned target dlm = checked (tune_func_jumps target dlm)

  -- What is undone by unloading the patch, where it fails.
  abbrev pub linked : (target dlm : DlMap) → Step (Run e) (Unit {0})
  linked target dlm = do relocated target dlm; refs_fixed target dlm; jumps_tuned target dlm

  abbrev pub jumps_applied : Step (Run e) (Unit {0})
  jumps_applied =
      checked (on_world (λ c w. apply_func_jumps e.peer.remote.tracee c.dry_run c.pi.func_jumps w))

  abbrev pub revert_func_jumps : (target dlm : DlMap) → Run e → ℤ × Run e
  revert_func_jumps target dlm = on_world (λ c w.
      patch_revert_func_jumps e.peer.remote.tracee c.dry_run c.applied_patches
        (patch_of c target dlm) w)

  -- The steps of `apply_dyn_binpatch` with what each undoes.
  abbrev pub linked_or_unloaded : (target dlm : DlMap) → Step (Run e) (Unit {0})
  linked_or_unloaded target dlm = or_undo (linked target dlm) (λ r. (unload_elf dlm r).1)

  abbrev pub applied_or_reverted : (target dlm : DlMap) → Step (Run e) (Unit {0})
  applied_or_reverted target dlm = or_undo jumps_applied (λ r. (revert_func_jumps target dlm r).1)

  -- Where the jumps cannot be applied they are reverted, and the patch stays loaded.
  unfoldable pub apply_dyn_binpatch : (target : DlMap) → Step (Run e) (Unit {0})
  apply_dyn_binpatch target = do
    dlm ← load_patch target
    linked_or_unloaded target dlm
    applied_or_reverted target dlm

  -- The jumps are reverted where the patch has a target, and then the patch is unloaded.
  abbrev pub reverted_first : Option DlMap → Patch → Run e → ℤ × Run e
  reverted_first none p r = (pos 0, r)
  reverted_first (some target) p (c, w) =
      let (err, w1) =
        patch_revert_func_jumps e.peer.remote.tracee c.dry_run c.applied_patches p w in
      (err, (c, w1))

  unfoldable pub revert_dyn_binpatch : Patch → Run e → ℤ × Run e
  revert_dyn_binpatch p = and_then (reverted_first p.target_dlm p) (unload_elf p.patch_dlm)
