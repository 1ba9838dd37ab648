-- ===== src/Patch/Jumps/Tuned.antt =====
-- What tune_patch_func_jump and tune_patch_func_jumps of patcher/patch.c leave in the jumps.
use nsb.Base.{
  ℕ, ◌<◌, ◌^◌, ◌≡◌, refl, sym, ap, ◌∙◌, ◌⊎◌, inl, inr, List, [], ◌∷◌, ◌++◌, map, some, true, false,
  length, write_at-full, All, arith, ◌==◌, ==_iff, Bool-cases,
}
use nsb.Base.Int.{ℤ, pos, neg, is_zero, is_neg, einval}
use nsb.Base.Loop.{for_each_entry}
use nsb.Base.Word.{u64_mod, add64, sub64, labs64}
use native.Mathlib.Decide.{dec_lt}
use nsb.DlMap.{DlMap, dlm_load_base}
use nsb.Patch.{FuncJump}
use nsb.Patch.Jumps.{
  TargetFile, code_offset, code_read, read_func_jump_code, tune_patch_func_jump, tuning,
  tune_patch_func_jumps,
}
use nsb.X86.{x86_jmpq_instruction}
use nsb.X86.Jump.{Reaches, jmpq-jmp_target, jmpq-beyond}
use nsb.X86.Machine.{jmp_target}

is_neg-not : {z : ℤ} → z ≡ neg 1 → ¬ (is_neg z ≡ false)
is_neg-not e ok = ground (arith, ap is_neg e)

-- A jump of eight bytes whose size is given reaches its target.
jmpq-ok :
    (buf : List ℕ) (cur tgt : ℕ)
    → length buf ≡ 8
    → is_neg (x86_jmpq_instruction buf cur tgt).0 ≡ false
    → Reaches cur tgt
jmpq-ok buf cur tgt l ok = elim (dec_lt (labs64 (sub64 tgt (add64 cur 5))) (2 ^ 31)) [
  | yes h ↦ h
  | no h ↦ absurd (is_neg-not (jmpq-beyond buf cur tgt (omega arith) h) ok)
]

jmpq-eight :
    (buf : List ℕ) (cur tgt : ℕ)
    → length buf ≡ 8
    → tgt < u64_mod
    → is_neg (x86_jmpq_instruction buf cur tgt).0 ≡ false
    → let code = (x86_jmpq_instruction buf cur tgt).1 in
      (jmp_target cur code ≡ some tgt) × (length code ≡ 8)
jmpq-eight buf cur tgt l lt ok =
    let jump = jmpq-jmp_target buf cur tgt (omega arith) lt (jmpq-ok buf cur tgt l ok) in
    (jump.1, jump.3 ∙ l)

code_read-keeps :
    (fj : FuncJump) (r : ℕ ⊎ List ℕ)
    → ((code_read fj r).1.func_addr ≡ fj.func_addr) × ((code_read fj r).1.func_jump ≡ fj.func_jump)
code_read-keeps fj (inl n) = (refl, refl)
code_read-keeps fj (inr bytes) = elim (Bool-cases (length bytes == 8)) [
  | inl f ↦ rw f (refl, refl)
  | inr f ↦ rw f (refl, refl)
]

code_read-short :
    (fj : FuncJump) (bytes : List ℕ)
    → (length bytes == 8) ≡ false
    → (code_read fj (inr bytes)).0 ≡ einval
code_read-short fj bytes f = rw f refl

code_read-ok :
    (fj : FuncJump) (r : ℕ ⊎ List ℕ)
    → length fj.code ≡ 8
    → (code_read fj r).0 ≡ pos 0
    → r ≡ inr (code_read fj r).1.code
code_read-ok fj (inl n) l ok = absurd (ground (arith, ap is_neg ok))
code_read-ok fj (inr bytes) l ok = elim (Bool-cases (length bytes == 8)) [
  | inl f ↦
      rw f (ap inr (sym (write_at-full fj.code bytes (l ∙ sym ((==_iff (length bytes) 8).0 f)))))
  | inr f ↦ absurd (ground (arith, ap is_neg (sym (code_read-short fj bytes f) ∙ ok)))
]

module _ (file : TargetFile) where
  open file use {virt_base, pread}

  tune-in_reach :
      (target_dlm patch_dlm : DlMap) (fj : FuncJump)
      → (tune_patch_func_jump file target_dlm patch_dlm fj).0 ≡ pos 0
      → is_neg
          (x86_jmpq_instruction fj.func_jump
            (add64 (dlm_load_base target_dlm) fj.func_value)
            (add64 (dlm_load_base patch_dlm) fj.patch_value)).0
        ≡ false
  unfolding tune_patch_func_jump
  tune-in_reach target_dlm patch_dlm fj ok = ground (arith, ap is_neg ok)

  read_code-keeps :
      (target_dlm : DlMap) (fj : FuncJump)
      → let fj' = (read_func_jump_code file target_dlm fj).1 in
        (fj'.func_addr ≡ fj.func_addr) × (fj'.func_jump ≡ fj.func_jump)
  unfolding read_func_jump_code
  read_code-keeps target_dlm fj =
      code_read-keeps fj (pread target_dlm (code_offset file target_dlm fj) 8)

  read_code-ok :
      (target_dlm : DlMap) (fj : FuncJump)
      → length fj.code ≡ 8
      → (read_func_jump_code file target_dlm fj).0 ≡ pos 0
      → pread target_dlm (code_offset file target_dlm fj) 8
        ≡ inr (read_func_jump_code file target_dlm fj).1.code
  unfolding read_func_jump_code
  read_code-ok target_dlm fj l ok =
      code_read-ok fj (pread target_dlm (code_offset file target_dlm fj) 8) l ok

  -- The jump with its place and its instruction, before the code is read.
  abbrev placed : (target_dlm patch_dlm : DlMap) → FuncJump → FuncJump
  placed target_dlm patch_dlm fj =
      let func_addr = add64 (dlm_load_base target_dlm) fj.func_value in
      record fj {
        func_addr = func_addr;
        func_jump =
            (x86_jmpq_instruction fj.func_jump func_addr
              (add64 (dlm_load_base patch_dlm) fj.patch_value)).1;
      }

  tune-reads :
      (target_dlm patch_dlm : DlMap) (fj : FuncJump)
      → (tune_patch_func_jump file target_dlm patch_dlm fj).0 ≡ pos 0
      → tune_patch_func_jump file target_dlm patch_dlm fj
        ≡ read_func_jump_code file target_dlm (placed target_dlm patch_dlm fj)
  unfolding tune_patch_func_jump
  tune-reads target_dlm patch_dlm fj ok = rw (tune-in_reach target_dlm patch_dlm fj ok) refl

  pub tune_patch_func_jump-jumps :
      (target_dlm patch_dlm : DlMap) (fj : FuncJump)
      → length fj.func_jump ≡ 8
      → length fj.code ≡ 8
      → (tune_patch_func_jump file target_dlm patch_dlm fj).0 ≡ pos 0
      → let fj' = (tune_patch_func_jump file target_dlm patch_dlm fj).1 in
        (fj'.func_addr ≡ add64 (dlm_load_base target_dlm) fj.func_value)
        × (jmp_target fj'.func_addr fj'.func_jump
            ≡ some (add64 (dlm_load_base patch_dlm) fj.patch_value))
        × (length fj'.func_jump ≡ 8)
        × (pread target_dlm (code_offset file target_dlm fj) 8 ≡ inr fj'.code)
  tune_patch_func_jump-jumps target_dlm patch_dlm fj l lc ok =
      let eq = tune-reads target_dlm patch_dlm fj ok in
      let fj1 = placed target_dlm patch_dlm fj in
      let kept = read_code-keeps target_dlm fj1 in
      let jump =
        jmpq-eight fj.func_jump fj1.func_addr (add64 (dlm_load_base patch_dlm) fj.patch_value) l
          (omega arith) (tune-in_reach target_dlm patch_dlm fj ok) in
      rw eq (
        kept.0,
        rw (kept.0, kept.1) jump.0,
        rw kept.1 jump.1,
        read_code-ok target_dlm fj1 lc (ap (λ (r : ℤ × FuncJump). r.0) (sym eq) ∙ ok),
      )

  abbrev pub tuned : (target_dlm patch_dlm : DlMap) → FuncJump → FuncJump
  tuned target_dlm patch_dlm fj = (tune_patch_func_jump file target_dlm patch_dlm fj).1

  abbrev pub TunesWell : (target_dlm patch_dlm : DlMap) → FuncJump → Type 0
  TunesWell target_dlm patch_dlm fj =
      is_zero (tune_patch_func_jump file target_dlm patch_dlm fj).0 ≡ true

  walk-All :
      (target_dlm patch_dlm : DlMap) (fjs : List FuncJump)
      → All (TunesWell target_dlm patch_dlm) fjs
      → (for_each_entry (tuning file target_dlm patch_dlm) fjs tt).1
        ≡ map (tuned target_dlm patch_dlm) fjs
  unfolding for_each_entry
  walk-All target_dlm patch_dlm [] h = refl
  walk-All target_dlm patch_dlm (fj ∷ fjs) h =
      rw (h.0, for_each_entry)
        (ap (◌∷◌ (tuned target_dlm patch_dlm fj)) (walk-All target_dlm patch_dlm fjs h.1))

  walk-stops :
      (target_dlm patch_dlm : DlMap) (before after : List FuncJump) (fj : FuncJump)
      → All (TunesWell target_dlm patch_dlm) before
      → ¬ TunesWell target_dlm patch_dlm fj
      → (for_each_entry (tuning file target_dlm patch_dlm) (before ++ fj ∷ after) tt).1
        ≡ map (tuned target_dlm patch_dlm) before ++ tuned target_dlm patch_dlm fj ∷ after
  unfolding for_each_entry
  walk-stops target_dlm patch_dlm [] after fj h bad =
      elim (Bool-cases (is_zero (tune_patch_func_jump file target_dlm patch_dlm fj).0)) [
        | inl e ↦ absurd (bad e)
        | inr e ↦ rw (e, for_each_entry) refl
      ]
  walk-stops target_dlm patch_dlm (b ∷ before) after fj h bad =
      rw (h.0, for_each_entry)
        (ap (◌∷◌ (tuned target_dlm patch_dlm b))
          (walk-stops target_dlm patch_dlm before after fj h.1 bad))

  pub tune_patch_func_jumps-All :
      (target_dlm patch_dlm : DlMap) (fjs : List FuncJump)
      → All (TunesWell target_dlm patch_dlm) fjs
      → tune_patch_func_jumps file target_dlm patch_dlm fjs
        ≡ (pos 0, map (tuned target_dlm patch_dlm) fjs)
  unfolding tune_patch_func_jumps
  tune_patch_func_jumps-All target_dlm patch_dlm fjs h =
      ap (λ (r : List FuncJump). (pos 0, r)) (walk-All target_dlm patch_dlm fjs h)

  -- If a jump does not tune, and those before it do, the walk stops there: the jumps after it stay as
  -- they were, without a place and an instruction, and the result is 0 all the same.
  pub tune_patch_func_jumps-stops :
      (target_dlm patch_dlm : DlMap) (before after : List FuncJump) (fj : FuncJump)
      → All (TunesWell target_dlm patch_dlm) before
      → ¬ TunesWell target_dlm patch_dlm fj
      → tune_patch_func_jumps file target_dlm patch_dlm (before ++ fj ∷ after)
        ≡ (pos 0, map (tuned target_dlm patch_dlm) before ++ tuned target_dlm patch_dlm fj ∷ after)
  unfolding tune_patch_func_jumps
  tune_patch_func_jumps-stops target_dlm patch_dlm before after fj h bad =
      ap (λ (r : List FuncJump). (pos 0, r)) (walk-stops target_dlm patch_dlm before after fj h bad)
