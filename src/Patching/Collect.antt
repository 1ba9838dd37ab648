-- ===== src/Patching/Collect.antt =====
-- What the patcher finds in a process (patch_set_target_dlm, create_patch_by_dlm, find_patch_by_bid and
-- process_find_patch of patcher/patch.c; check_vzpatch, collect_patches, process_collect_vmas,
-- process_find_target_dlm, process_needed_list and process_collect_needed of patcher/process.c).
use nsb.Base.{
  ℕ, suc, Bool, List, [], ◌∷◌, ◌++◌, Option, none, some, ◌⊎◌, inl, inr, not, if◌then◌else◌,
}
use nsb.Base.Int.{ℤ, pos, negsuc, is_zero, enoent, efault, enomem, eexist}
use nsb.Base.Steps.{and_then}
use nsb.Base.Text.{Text, codes, str_eq}
use nsb.Client.{service_needed_array}
use nsb.DlMap.{DlMap}
use nsb.DlMap.Collect.{collect_dl_maps, listed}
use nsb.DlMap.Find.{find_dl_map_by_bid, find_dl_map_by_addr}
use nsb.Patch.{PatchInfo, Patch}
use nsb.Patch.Jumps.{tune_patch_func_jumps}
use nsb.Patching.{Env, Run, World, Ctx}
use nsb.Patching.Injected.{process_find_sym}
use nsb.Rtld.{rtld_needed_array}
use nsb.Vma.Collect.{collect_vmas}

unfoldable pub find_patch_by_bid : List Patch → (bid : Text) → Option Patch
find_patch_by_bid [] bid = none
find_patch_by_bid (p ∷ ps) bid =
    let rest = find_patch_by_bid ps bid in if str_eq p.pi.patch_bid bid then some p else rest

unfoldable pub process_find_patch : Ctx → ℤ
process_find_patch c = elim (find_patch_by_bid c.applied_patches c.pi.patch_bid) [
  | none ↦ pos 0
  | some p ↦ eexist
]

-- An error, or the target of the patch.
unfoldable pub process_find_target_dlm : Ctx → ℤ ⊎ DlMap
process_find_target_dlm c = elim (find_dl_map_by_bid c.dl_maps c.pi.target_bid) [
  | none ↦ inl enoent
  | some dlm ↦ inr dlm
]

module _ (e : Env) where
  -- Where the target is there and the patch has code, its jumps are prepared.
  abbrev tuned : (target : Option DlMap) → DlMap → PatchInfo → PatchInfo
  tuned none dlm pi = pi
  tuned (some target) dlm pi = elim dlm.exec_vma [
    | none ↦ pi
    | some i ↦ record pi { func_jumps = (tune_patch_func_jumps e.file target dlm pi.func_jumps).1 }
  ]

  -- An error, or the patch that is applied as `dlm`.
  unfoldable pub create_patch_by_dlm : (c : Ctx) → World e → DlMap → ℤ ⊎ Patch
  create_patch_by_dlm c w dlm = elim (e.binpatch dlm.ei) [
    | inl n ↦ (if (e.peer.host w).alloc_succeeds c.allocs then inl (negsuc n) else inl enomem)
    | inr pi ↦
        (let target = find_dl_map_by_bid c.dl_maps pi.target_bid in
          if (e.peer.host w).alloc_succeeds c.allocs
          then inr (record {
            id = c.allocs;
            pi = tuned target dlm pi;
            target_dlm = target;
            patch_dlm = dlm;
          })
          else inl enomem)
  ]

  abbrev pub add_patch : Ctx → ℤ ⊎ Patch → ℤ × Ctx
  add_patch c (inl err) = (err, record c { allocs = suc c.allocs })
  add_patch c (inr p) =
      (pos 0, record c { allocs = suc c.allocs; applied_patches = c.applied_patches ++ p ∷ [] })

  unfoldable pub check_vzpatch : World e → DlMap → Ctx → ℤ × Ctx
  check_vzpatch w dlm c =
      if not (e.has_vzpatch dlm.ei) then (pos 0, c) else add_patch c (create_patch_by_dlm c w dlm)

  -- `iterate_dl_maps` with `check_vzpatch`.
  unfoldable pub collect_patches : World e → List DlMap → Ctx → ℤ × Ctx
  collect_patches w [] c = (pos 0, c)
  collect_patches w (dlm ∷ dlms) c =
      let (err, c') = check_vzpatch w dlm c in
      let rest = collect_patches w dlms c' in if is_zero err then rest else (err, c')

  abbrev pub vmas_collected : Run e → ℤ × Run e
  vmas_collected (c, w) =
      let (err, s) =
        collect_vmas (e.peer.host w) c.pid (record { vmas = c.vmas; allocs = c.allocs }) in
      (err, (record c { vmas = s.vmas; allocs = s.allocs }, w))

  abbrev pub dl_maps_collected : Run e → ℤ × Run e
  dl_maps_collected (c, w) =
      let (err, vmas, info) = collect_dl_maps (e.peer.files w) c.vmas c.allocs in
      let dl_maps = listed (e.peer.files w) info in
      (err, (record c { vmas = vmas; dl_maps = dl_maps; allocs = info.allocs }, w))

  abbrev pub patches_collected : Run e → ℤ × Run e
  patches_collected (c, w) = let (err, c') = collect_patches w c.dl_maps c in (err, (c', w))

  unfoldable pub process_collect_vmas : Run e → ℤ × Run e
  process_collect_vmas = and_then vmas_collected (and_then dl_maps_collected patches_collected)

  -- An error, or the addresses; none where the loops of `rtld_needed_array` use up their fuel.
  unfoldable pub process_needed_list : (dyn_fuel fuel : ℕ) → Run e → Option ((ℤ ⊎ List ℕ) × World e)
  process_needed_list dyn_fuel fuel (c, w) =
      let by_service =
        service_needed_array e.peer ((e.peer.host w).alloc_succeeds c.allocs) c.remote_vma.addr
          c.service w in
      if c.service.loaded then some by_service else elim (process_find_sym c (codes "_r_debug")) [
        | inl err ↦ some (inl err, w)
        | inr addr ↦ (elim (rtld_needed_array e.peer.remote.tracee dyn_fuel fuel w addr) [
          | none ↦ none
          | some result ↦ some (result, w)
        ])
      ]

  -- An object is put in the list, if it has code (`collect_needed`).
  abbrev pub add_needed : (alloc_succeeds : Bool) (exec_vma : Option ℕ) → DlMap → Ctx → ℤ × Ctx
  add_needed alloc_succeeds none dlm c = (efault, c)
  add_needed alloc_succeeds (some i) dlm c =
      if alloc_succeeds
      then (pos 0, record c { needed_list = c.needed_list ++ dlm ∷ []; allocs = suc c.allocs })
      else (enomem, c)

  abbrev pub add_found : World e → Option DlMap → Ctx → ℤ × Ctx
  add_found w none c = (enoent, c)
  add_found w (some dlm) c = add_needed ((e.peer.host w).alloc_succeeds c.allocs) dlm.exec_vma dlm c

  -- The loop over the addresses; `err` is the result of the rounds before.
  unfoldable pub collect_addresses : World e → (err : ℤ) → List ℕ → Ctx → ℤ × Ctx
  collect_addresses w err [] c = (err, c)
  collect_addresses w err (address ∷ addresses) c =
      let (err', c') = add_found w (find_dl_map_by_addr c.dl_maps address) c in
      let rest = collect_addresses w err' addresses c' in if is_zero err' then rest else (err', c')

  abbrev pub collected_needed : Ctx → Option ((ℤ ⊎ List ℕ) × World e) → Option (ℤ × Run e)
  collected_needed c none = none
  collected_needed c (some (inl err, w)) = some (enoent, (c, w))
  collected_needed c (some (inr addresses, w)) =
      let (err, c') = collect_addresses w enoent addresses c in some (err, (c', w))

  -- The error of the list is not passed on: it is always -ENOENT, and so is that of an empty list.
  unfoldable pub process_collect_needed : (dyn_fuel fuel : ℕ) → Run e → Option (ℤ × Run e)
  process_collect_needed dyn_fuel fuel (c, w) =
      collected_needed c (process_needed_list dyn_fuel fuel (c, w))
