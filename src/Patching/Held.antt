-- ===== src/Patching/Held.antt =====
-- What the steps of a run without the plugin (patcher/patch.c) keep of what the target is held by.
use nsb.Base.{ℕ, ◌%◌, ◌≡◌, inl, inr, ◌⊎◌, Bool, true, false, List, [], ◌∷◌, Option, none, some, not}
use nsb.Base.Int.{ℤ, is_zero}
use nsb.Base.Steps.{
  ◌>>=◌, ◌>>◌, pure, checked, AtEnd, Keeps, Keeps->>=, and_then, and_then-keeps, Keeps-or_undo,
  if-either,
}
use nsb.DlMap.{DlMap}
use nsb.DlMap.Find.{find_dl_map_by_addr}
use nsb.Patch.{Patch}
use nsb.Patching.{Env, Run, World, Ctx}
use nsb.Patching.Collect.{
  find_patch_by_bid, create_patch_by_dlm, add_patch, check_vzpatch, collect_patches, vmas_collected,
  dl_maps_collected, patches_collected, process_collect_vmas, collect_addresses, collected_needed,
  process_needed_list, process_collect_needed, add_needed, add_found,
}
use nsb.Patching.Load.{
  on_world, unload_elf, process_mmap_dl_map, placed_elf, load_elf, load_patch, load_allocated,
  enlisted, relocated, refs_fixed, jumps_tuned, linked, linked_or_unloaded, applied_or_reverted,
  jumps_applied, revert_func_jumps, apply_dyn_binpatch, reverted_first, revert_dyn_binpatch,
}
use nsb.Patching.Commands.{
  Fuel, patched, patched_target, unpatched, taken_back, not_applied, found_target, injected,
  needed_collected, relocations_resolved, with_code,
}
use nsb.Vma.{VmaArea}

-- A whole page.
abbrev pub OnPage : VmaArea → Type 0
OnPage v = (v.addr % 4096 ≡ 0) × (v.len ≡ 4096)

-- There is no service in the target, and it is held with a page of memory or not at all.
abbrev pub Held : Ctx → Type 0
Held c =
    (c.service.handle ≡ 0) × (c.service.loaded ≡ false) × ((c.ctl ≡ false) ⊎ OnPage c.remote_vma)

module _ (e : Env) where
  -- On the states of a run, and on a result with the context.
  abbrev pub HeldRun : Run e → Type 0
  HeldRun r = Held r.0

  abbrev HeldCtx : ℤ × Ctx → Type 0
  HeldCtx r = Held r.1

  add_patch-Held : (c : Ctx) (p : ℤ ⊎ Patch) → Held c → HeldCtx (add_patch e c p)
  add_patch-Held c (inl err) h = h
  add_patch-Held c (inr p) h = h

  check_vzpatch-Held :
      (w : World e) (dlm : DlMap) (c : Ctx) → Held c → HeldCtx (check_vzpatch e w dlm c)
  unfolding check_vzpatch
  check_vzpatch-Held w dlm c h =
      if-either HeldCtx (not (e.has_vzpatch dlm.ei)) _ _ h
        (add_patch-Held c (create_patch_by_dlm e c w dlm) h)

  collect_patches-Held :
      (w : World e) (dlms : List DlMap) (c : Ctx) → Held c → HeldCtx (collect_patches e w dlms c)
  unfolding collect_patches
  collect_patches-Held w [] c h = h
  collect_patches-Held w (dlm ∷ dlms) c h =
      let h' = check_vzpatch-Held w dlm c h in
      if-either HeldCtx (is_zero (check_vzpatch e w dlm c).0) _ _
        (collect_patches-Held w dlms (check_vzpatch e w dlm c).1 h') h'

  pub collect_vmas-Held : (r : Run e) → HeldRun r → HeldRun (process_collect_vmas e r).1
  unfolding process_collect_vmas
  collect_vmas-Held =
      and_then-keeps HeldRun (vmas_collected e)
        (and_then (dl_maps_collected e) (patches_collected e)) (λ r h. h)
        (and_then-keeps HeldRun (dl_maps_collected e) (patches_collected e) (λ r h. h)
          (λ r h. collect_patches-Held r.1 r.0.dl_maps r.0 h))

  add_needed-Held :
      (alloc : Bool) (exec : Option ℕ) (dlm : DlMap) (c : Ctx)
      → Held c
      → HeldCtx (add_needed e alloc exec dlm c)
  add_needed-Held alloc none dlm c h = h
  add_needed-Held alloc (some i) dlm c h = if-either HeldCtx alloc _ _ h h

  add_found-Held :
      (w : World e) (dlm : Option DlMap) (c : Ctx) → Held c → HeldCtx (add_found e w dlm c)
  add_found-Held w none c h = h
  add_found-Held w (some dlm) c h =
      add_needed-Held ((e.peer.host w).alloc_succeeds c.allocs) dlm.exec_vma dlm c h

  collect_addresses-Held :
      (w : World e) (err : ℤ) (addresses : List ℕ) (c : Ctx)
      → Held c
      → HeldCtx (collect_addresses e w err addresses c)
  unfolding collect_addresses
  collect_addresses-Held w err [] c h = h
  collect_addresses-Held w err (a ∷ as') c h =
      let (err', c') = add_found e w (find_dl_map_by_addr c.dl_maps a) c in
      let h' = add_found-Held w (find_dl_map_by_addr c.dl_maps a) c h in
      if-either HeldCtx (is_zero err') _ _ (collect_addresses-Held w err' as' c' h') h'

  needed-Held :
      (fuel : Fuel) (c : Ctx) (found : Option ((ℤ ⊎ List ℕ) × World e))
      → Held c
      → AtEnd (λ r. HeldRun r.1) (with_code e fuel (collected_needed e c found))
  needed-Held fuel c none h = tt
  needed-Held fuel c (some (inl err, w)) h = h
  needed-Held fuel c (some (inr addresses, w)) h = collect_addresses-Held w _ addresses c h

  load_elf-Held : (target dlm : DlMap) → Keeps HeldRun (load_elf e target dlm)
  unfolding load_elf
  load_elf-Held target dlm (c, w) h =
      let placed = (placed_elf e target dlm (c, w)).1 in
      if-either (AtEnd (λ r. HeldRun r.1)) (is_zero (placed_elf e target dlm (c, w)).0) _ _
        (Keeps->>= HeldRun (checked (on_world e (process_mmap_dl_map e placed))) (λ _. pure placed)
          (λ r h. h) (λ _ r h. h) (c, w) h)
        h

  load_allocated-Held :
      (target : DlMap) (dlm : Option DlMap) → Keeps HeldRun (load_allocated e target dlm)
  load_allocated-Held target none = λ r h. h
  load_allocated-Held target (some dlm) =
      Keeps->>= HeldRun (load_elf e target dlm) (enlisted e target) (load_elf-Held target dlm)
        (λ _ r h. h)

  load_patch-Held : (target : DlMap) → Keeps HeldRun (load_patch e target)
  unfolding load_patch
  load_patch-Held target (c, w) h = load_allocated-Held target _ _ h

  unload-Held : (dlm : DlMap) (r : Run e) → HeldRun r → HeldRun (unload_elf e dlm r).1
  unfolding unload_elf
  unload-Held dlm r h = h

  linked-Held : (target dlm : DlMap) → Keeps HeldRun (linked e target dlm)
  linked-Held target dlm =
      Keeps->>= HeldRun (relocated e target dlm)
        (λ _. refs_fixed e target dlm >> jumps_tuned e target dlm) (λ r h. h)
        (λ _.
          Keeps->>= HeldRun (refs_fixed e target dlm) (λ _. jumps_tuned e target dlm) (λ r h. h)
            (λ _ r h. h))

  unloaded-Held : (target dlm : DlMap) → Keeps HeldRun (linked_or_unloaded e target dlm)
  unloaded-Held target dlm =
      Keeps-or_undo HeldRun (linked e target dlm) (λ r. (unload_elf e dlm r).1)
        (linked-Held target dlm) (unload-Held dlm)

  reverted-Held : (target dlm : DlMap) → Keeps HeldRun (applied_or_reverted e target dlm)
  reverted-Held target dlm =
      Keeps-or_undo HeldRun (jumps_applied e) (λ r. (revert_func_jumps e target dlm r).1) (λ r h. h)
        (λ r h. h)

  pub apply-Held : (target : DlMap) → Keeps HeldRun (apply_dyn_binpatch e target)
  unfolding apply_dyn_binpatch
  apply-Held target =
      Keeps->>= HeldRun (load_patch e target)
        (λ dlm. linked_or_unloaded e target dlm >> applied_or_reverted e target dlm)
        (load_patch-Held target)
        (λ dlm.
          Keeps->>= HeldRun (linked_or_unloaded e target dlm)
            (λ _. applied_or_reverted e target dlm) (unloaded-Held target dlm)
            (λ _. reverted-Held target dlm))

  reverted_first-Held :
      (target : Option DlMap) (p : Patch) (r : Run e)
      → HeldRun r
      → HeldRun (reverted_first e target p r).1
  reverted_first-Held none p r h = h
  reverted_first-Held (some target) p r h = h

  revert-Held : (p : Patch) (r : Run e) → HeldRun r → HeldRun (revert_dyn_binpatch e p r).1
  unfolding revert_dyn_binpatch
  revert-Held p =
      and_then-keeps HeldRun (reverted_first e p.target_dlm p) (unload_elf e p.patch_dlm)
        (reverted_first-Held p.target_dlm p) (unload-Held p.patch_dlm)

  module _ (fuel : Fuel) where
    needed_step-Held : Keeps HeldRun (needed_collected e fuel)
    unfolding process_collect_needed
    needed_step-Held (c, w) h =
        needed-Held fuel c (process_needed_list e fuel.dyn fuel.libraries (c, w)) h

    target-Held : (target : DlMap) → Keeps HeldRun (patched_target e fuel true target)
    target-Held target =
        Keeps->>= HeldRun (injected e fuel true)
          (λ _.
            needed_collected e fuel
            >> (relocations_resolved e fuel target >> apply_dyn_binpatch e target))
          (λ r h. h)
          (λ _.
            Keeps->>= HeldRun (needed_collected e fuel)
              (λ _. relocations_resolved e fuel target >> apply_dyn_binpatch e target)
              needed_step-Held
              (λ _.
                Keeps->>= HeldRun (relocations_resolved e fuel target)
                  (λ _. apply_dyn_binpatch e target) (λ r h. h) (λ _. apply-Held target)))

    -- A step of a run without the plugin keeps the target held as it is.
    pub patched-Held : Keeps HeldRun (patched e fuel true)
    patched-Held =
        Keeps->>= HeldRun (not_applied e fuel)
          (λ _. found_target e fuel >>= patched_target e fuel true) (λ r h. h)
          (λ _.
            Keeps->>= HeldRun (found_target e fuel) (patched_target e fuel true) (λ r h. h)
              target-Held)

    taken_back-Held : (p : Option Patch) → Keeps HeldRun (taken_back e fuel p)
    taken_back-Held none = λ r h. tt
    taken_back-Held (some p) = revert-Held p

    pub unpatched-Held : Keeps HeldRun (unpatched e fuel)
    unpatched-Held r h =
        taken_back-Held (find_patch_by_bid r.0.applied_patches r.0.pi.patch_bid) r h
