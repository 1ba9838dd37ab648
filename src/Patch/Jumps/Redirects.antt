-- ===== src/Patch/Jumps/Redirects.antt =====
-- From the jumps of a patch file to the target's memory (tune_patch_func_jumps and apply_func_jumps of
-- patcher/patch.c): what the processor finds at the functions.
use mathlib.Core.Path.{subst}
use nsb.Base.{ℕ, ◌≡◌, sym, ap, ◌∙◌, List, [], ◌∷◌, map, some, false, length, All}
use nsb.Base.Int.{ℤ, pos, is_zero-eq}
use nsb.Base.Word.{add64}
use nsb.DlMap.{DlMap, dlm_load_base}
use nsb.Patch.{FuncJump}
use nsb.Patch.Jumps.{TargetFile, tune_patch_func_jumps, apply_func_jumps}
use nsb.Patch.Jumps.Tuned.{tuned, TunesWell, tune_patch_func_jump-jumps, tune_patch_func_jumps-All}
use nsb.Patch.Revert.Overlays.{Spread}
use nsb.Patch.Revert.Restores.{apply_func_jumps-stands}
use nsb.Process.Memory.{Tracee, ReadsAndWrites, process_read_data}
use nsb.X86.Machine.{jmp_target}

-- The two buffers of a jump as `struct func_jump_s` has them.
abbrev pub EightBytes : FuncJump → Type 0
EightBytes fj = (length fj.func_jump ≡ 8) × (length fj.code ≡ 8)

module _ (file : TargetFile) (t : Tracee) (target_dlm patch_dlm : DlMap) where
  tuned-eight :
      (fjs : List FuncJump)
      → All EightBytes fjs
      → All (TunesWell file target_dlm patch_dlm) fjs
      → All (λ (fj : FuncJump). length fj.func_jump ≡ 8) (map (tuned file target_dlm patch_dlm) fjs)
  tuned-eight [] l ok = tt
  tuned-eight (fj ∷ fjs) l ok = (
    (tune_patch_func_jump-jumps file target_dlm patch_dlm fj l.0.0 l.0.1 (is_zero-eq _ ok.0)).2,
    tuned-eight fjs l.1 ok.1,
  )

  -- What the processor makes of the bytes at a function.
  abbrev pub JumpsToPatch : t.State → FuncJump → Type 0
  JumpsToPatch s fj =
      let at_ = add64 (dlm_load_base target_dlm) fj.func_value in
      jmp_target at_ (process_read_data t s at_ 8).1
      ≡ some (add64 (dlm_load_base patch_dlm) fj.patch_value)

  standing-jumps :
      (s : t.State) (fjs : List FuncJump)
      → All EightBytes fjs
      → All (TunesWell file target_dlm patch_dlm) fjs
      → All
          (λ (fj : FuncJump). process_read_data t s fj.func_addr 8 ≡ (pos 0, fj.func_jump))
          (map (tuned file target_dlm patch_dlm) fjs)
      → All (JumpsToPatch s) fjs
  standing-jumps s [] l ok h = tt
  standing-jumps s (fj ∷ fjs) l ok h =
      let jump =
        tune_patch_func_jump-jumps file target_dlm patch_dlm fj l.0.0 l.0.1 (is_zero-eq _ ok.0) in
      (
        subst
            (λ (a : ℕ).
              jmp_target a (process_read_data t s a 8).1
              ≡ some (add64 (dlm_load_base patch_dlm) fj.patch_value))
            jump.0
            (ap (λ (r : ℤ × List ℕ). jmp_target (tuned file target_dlm patch_dlm fj).func_addr r.1)
                h.0
              ∙ jump.1),
        standing-jumps s fjs l.1 ok.1 h.1,
      )

  -- Every jump of the patch tunes without an error, and no two of the tuned jumps share one of the eight
  -- bytes they take. They are applied to a stopped target, whose memory the calls of libcompel read
  -- and write. Then at each function of the target, its load base plus the function's value, the
  -- processor finds a jump to the patch's function, its load base plus the patch's value.
  pub apply_tuned_func_jumps-redirect :
      (laws : ReadsAndWrites t) (fjs : List FuncJump) (s : t.State)
      → All EightBytes fjs
      → All (TunesWell file target_dlm patch_dlm) fjs
      → Spread (map (tuned file target_dlm patch_dlm) fjs)
      → All
          (JumpsToPatch
            (apply_func_jumps t false (tune_patch_func_jumps file target_dlm patch_dlm fjs).1 s).1)
          fjs
  apply_tuned_func_jumps-redirect laws fjs s l ok sp =
      subst (λ (r : ℤ × List FuncJump). All (JumpsToPatch (apply_func_jumps t false r.1 s).1) fjs)
        (sym (tune_patch_func_jumps-All file target_dlm patch_dlm fjs ok))
        (standing-jumps (apply_func_jumps t false (map (tuned file target_dlm patch_dlm) fjs) s).1
          fjs l ok
          (apply_func_jumps-stands t laws (map (tuned file target_dlm patch_dlm) fjs) s sp
            (tuned-eight fjs l ok)))
