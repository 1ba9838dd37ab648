-- ===== src/Patch/Revert.antt =====
-- Taking the jumps of a patch back (func_jump_applied, find_function_jump, find_previous_func_jump,
-- do_revert_func_jump, revert_func_jump and patch_revert_func_jumps of patcher/patch.c).
pub mod Overlays
pub mod Restores
use nsb.Base.{
  ℕ, Bool, true, false, List, [], ◌∷◌, ◌++◌, Option, none, some, ◌==◌, not, if◌then◌else◌,
}
use nsb.Base.Int.{ℤ, pos, is_neg, is_zero, eq_ℤ, of_bool, enoent}
use nsb.Base.Loop.{for_each_entry, reading}
use nsb.Base.Text.{str_eq}
use nsb.DlMap.{DlMap}
use nsb.Patch.{FuncJump, Patch}
use nsb.Patch.Jumps.{write_func_code, write_func_jump}
use nsb.Process.Memory.{Tracee, process_read_data}

-- The result and, where it is 0, the jump.
unfoldable pub find_function_jump : List FuncJump → (FuncJump → ℤ) → ℤ × Option FuncJump
find_function_jump [] compare = (enoent, none)
find_function_jump (fj ∷ fjs) compare =
    let rest = find_function_jump fjs compare in
    if is_neg (compare fj)
    then (compare fj, none)
    else if is_zero (compare fj)
    then rest
    else (pos 0, some fj)

abbrev pub compare_fj_addr : ℕ → FuncJump → ℤ
compare_fj_addr addr fj = of_bool (fj.func_addr == addr)

-- `pp->target_dlm == p->target_dlm`, two pointers.
abbrev pub same_dlm : Option DlMap → Option DlMap → Bool
same_dlm none none = true
same_dlm none (some e) = false
same_dlm (some d) none = false
same_dlm (some d) (some e) = d.id == e.id

-- The patches in front of the one with the address, the nearest first.
unfoldable pub patches_before : (id : ℕ) → (passed : List Patch) → List Patch → List Patch
patches_before id passed [] = passed
patches_before id passed (p ∷ ps) =
    let rest = patches_before id (p ∷ passed) ps in if p.id == id then passed else rest

-- The walk over the patches in front, the nearest first.
unfoldable pub search_previous : List Patch → Patch → FuncJump → ℤ × Option FuncJump
unfolding find_function_jump
search_previous [] p fj = (enoent, none)
search_previous (pp ∷ pps) p fj =
    let rest = search_previous pps p fj in
    let found = find_function_jump pp.pi.func_jumps (compare_fj_addr fj.func_addr) in
    if not (same_dlm pp.target_dlm p.target_dlm)
    then rest
    else if not (eq_ℤ found.0 enoent)
    then found
    else rest

unfoldable pub find_previous_func_jump : List Patch → Patch → FuncJump → ℤ × Option FuncJump
unfolding patches_before search_previous
find_previous_func_jump applied_patches p fj =
    search_previous (patches_before p.id [] applied_patches) p fj

module _ (t : Tracee) where
  -- `!memcmp` of the eight bytes: 1 where the jump stands at its place, 0 where it does not.
  unfoldable pub func_jump_applied : FuncJump → t.State → ℤ
  func_jump_applied fj s =
      let (err, code) = process_read_data t s fj.func_addr 8 in
      if fj.func_addr == 0
      then pos 0
      else if not (is_zero err)
      then err
      else of_bool (str_eq code fj.func_jump)

  abbrev write_previous : (dry_run : Bool) → Option FuncJump → t.State → ℤ × t.State
  write_previous dry_run none s = (pos 0, s)
  write_previous dry_run (some prev) s = write_func_jump t dry_run prev s

  -- The code of the target is put back without a look at `dry_run`.
  unfoldable pub do_revert_func_jump :
      (dry_run : Bool) → List Patch → Patch → FuncJump → t.State → ℤ × t.State
  do_revert_func_jump dry_run applied_patches p fj s =
      let (err, prev) = find_previous_func_jump applied_patches p fj in
      if is_neg err
      then (if not (eq_ℤ err enoent) then (err, s) else write_func_code t fj s)
      else write_previous dry_run prev s

  unfoldable pub revert_func_jump :
      (dry_run : Bool) → List Patch → Patch → FuncJump → t.State → ℤ × t.State
  revert_func_jump dry_run applied_patches p fj s =
      let applied = func_jump_applied fj s in
      if is_neg applied
      then (applied, s)
      else if is_zero applied
      then (pos 0, s)
      else do_revert_func_jump dry_run applied_patches p fj s

  -- The result is 0 whatever the walk's was.
  unfoldable pub patch_revert_func_jumps :
      (dry_run : Bool) → List Patch → Patch → t.State → ℤ × t.State
  patch_revert_func_jumps dry_run applied_patches p s =
      let (err, fjs, s') =
        for_each_entry (reading (revert_func_jump dry_run applied_patches p)) p.pi.func_jumps s in
      (pos 0, s')
