-- ===== src/Patch/Revert/Restores.antt =====
-- Applying the jumps of a patch and reverting them (apply_func_jumps and patch_revert_func_jumps of
-- patcher/patch.c): the target's memory in between and in the end.
use mathlib.Core.Path.{fun_ext, subst}
use nsb.Base.{
  ℕ, ◌≡◌, ◌≢◌, refl, sym, ap, ◌∙◌, ◌⊎◌, inl, inr, false, List, [], ◌∷◌, none, some, length, All,
  arith, ==-no,
}
use nsb.Base.Int.{ℤ, pos, is_zero, enoent}
use nsb.Base.Loop.{for_each_entry, reading, for_each_entry-go, for_each_entry-goes}
use nsb.Base.Text.{str_eq_refl}
use nsb.Patch.{FuncJump, Patch}
use nsb.Patch.Jumps.{write_func_code, write_func_jump, apply_func_jumps}
use nsb.Patch.Revert.{
  find_previous_func_jump, func_jump_applied, do_revert_func_jump, revert_func_jump,
  patch_revert_func_jumps,
}
use nsb.Patch.Revert.Overlays.{
  Away, Spread, jumped, restored, restored-original, jumped-Covered, jumped-stands,
}
use nsb.Process.Memory.{
  Tracee, Memory, ReadsAndWrites, Outcome, outcome_code, process_write_data, process_read_data,
  bytes_at, overlay, overlay-outside, bytes_at-ext,
}

-- What there is to write back over a jump is what stands in the memory: the code read from the file
-- of the target, or, where an earlier patch of the same target took the function, its jump.
abbrev pub Undoes : Memory → List Patch → Patch → FuncJump → Type 0
Undoes m0 applied_patches p fj =
    ((find_previous_func_jump applied_patches p fj ≡ (enoent, none))
      × (fj.code ≡ bytes_at m0 fj.func_addr 8))
    ⊎ ((prev : FuncJump) × (find_previous_func_jump applied_patches p fj ≡ (pos 0, some prev))
        × (prev.func_addr ≡ fj.func_addr)
        × (prev.func_jump ≡ bytes_at m0 fj.func_addr 8))

module _ (t : Tracee) (laws : ReadsAndWrites t) where
  open laws use {mem, peeks, poke_done, poke_mem}

  pub write_mem :
      (s : t.State) (a : ℕ) (bs : List ℕ)
      → length bs ≡ 8
      → ((process_write_data t s a bs).0 ≡ pos 0)
        × (mem (process_write_data t s a bs).1 ≡ overlay (mem s) a bs)
  unfolding process_write_data
  write_mem s a bs l =
      (rw (poke_done s a bs (rw l refl)) refl, fun_ext (λ x. poke_mem s a bs x (rw l refl)))

  func_jump_applied-stands :
      (fj : FuncJump) (s : t.State)
      → fj.func_addr ≢ 0
      → bytes_at (mem s) fj.func_addr 8 ≡ fj.func_jump
      → func_jump_applied t fj s ≡ pos 1
  unfolding func_jump_applied process_read_data
  func_jump_applied-stands fj s n h =
      let read : t.peek s fj.func_addr 8 ≡ (Outcome.done, fj.func_jump) =
        peeks s fj.func_addr 8 refl ∙ ap (λ (bs : List ℕ). (Outcome.done, bs)) h in
      rw (read, str_eq_refl fj.func_jump, ==-no fj.func_addr 0 n) refl

  do_revert-mem :
      (applied_patches : List Patch) (p : Patch) (m0 : Memory) (fj : FuncJump) (s : t.State)
      → Undoes m0 applied_patches p fj
      → ((do_revert_func_jump t false applied_patches p fj s).0 ≡ pos 0)
        × (mem (do_revert_func_jump t false applied_patches p fj s).1
            ≡ overlay (mem s) fj.func_addr (bytes_at m0 fj.func_addr 8))
  unfolding do_revert_func_jump write_func_code write_func_jump
  do_revert-mem applied_patches p m0 fj s (inl (e, c)) =
      rw e (rw c (write_mem s fj.func_addr (bytes_at m0 fj.func_addr 8) refl))
  do_revert-mem applied_patches p m0 fj s (inr (prev, e, a, j)) =
      rw e (rw (a, j) (write_mem s fj.func_addr (bytes_at m0 fj.func_addr 8) refl))

  revert-mem :
      (applied_patches : List Patch) (p : Patch) (m0 : Memory) (fj : FuncJump) (s : t.State)
      → fj.func_addr ≢ 0
      → bytes_at (mem s) fj.func_addr 8 ≡ fj.func_jump
      → Undoes m0 applied_patches p fj
      → ((revert_func_jump t false applied_patches p fj s).0 ≡ pos 0)
        × (mem (revert_func_jump t false applied_patches p fj s).1
            ≡ overlay (mem s) fj.func_addr (bytes_at m0 fj.func_addr 8))
  unfolding revert_func_jump
  revert-mem applied_patches p m0 fj s n h u =
      rw (func_jump_applied-stands fj s n h) (do_revert-mem applied_patches p m0 fj s u)

  pub apply_walk-mem :
      (fjs : List FuncJump) (s : t.State)
      → All (λ (fj : FuncJump). length fj.func_jump ≡ 8) fjs
      → mem (for_each_entry (reading (write_func_jump t false)) fjs s).2 ≡ jumped (mem s) fjs
  unfolding write_func_jump for_each_entry
  apply_walk-mem [] s l = refl
  apply_walk-mem (fj ∷ fjs) s l =
      let wrote = write_mem s fj.func_addr fj.func_jump l.0 in
      ap mem (for_each_entry-go (reading (write_func_jump t false)) fj fjs s wrote.0)
      ∙ apply_walk-mem fjs (process_write_data t s fj.func_addr fj.func_jump).1 l.1
      ∙ ap (λ m. jumped m fjs) wrote.1

  pub apply_walk-zero :
      (fjs : List FuncJump) (s : t.State)
      → All (λ (fj : FuncJump). length fj.func_jump ≡ 8) fjs
      → (for_each_entry (reading (write_func_jump t false)) fjs s).0 ≡ pos 0
  unfolding write_func_jump for_each_entry
  apply_walk-zero [] s l = refl
  apply_walk-zero (fj ∷ fjs) s l =
      let wrote = write_mem s fj.func_addr fj.func_jump l.0 in
      ap (λ (r : ℤ × List FuncJump × t.State). r.0)
        (for_each_entry-goes (reading (write_func_jump t false)) fj fjs s (ap is_zero wrote.0))
      ∙ apply_walk-zero fjs (process_write_data t s fj.func_addr fj.func_jump).1 l.1

  still_stand :
      (m : Memory) (bs : List ℕ) (a : ℕ) (fjs : List FuncJump)
      → length bs ≡ 8
      → Away a fjs
      → All (λ (fj : FuncJump). bytes_at m fj.func_addr 8 ≡ fj.func_jump) fjs
      → All (λ (fj : FuncJump). bytes_at (overlay m a bs) fj.func_addr 8 ≡ fj.func_jump) fjs
  still_stand m bs a [] l aw h = tt
  still_stand m bs a (fj ∷ fjs) l aw h = (
    bytes_at-ext (overlay m a bs) m fj.func_addr 8
          (λ x le lt. overlay-outside m a bs x (rw l (omega arith)))
        ∙ h.0,
    still_stand m bs a fjs l aw.1 h.1,
  )

  revert_walk-mem :
      (applied_patches : List Patch) (p : Patch) (m0 : Memory) (fjs : List FuncJump) (s : t.State)
      → Spread fjs
      → All (λ (fj : FuncJump). fj.func_addr ≢ 0) fjs
      → All (λ (fj : FuncJump). bytes_at (mem s) fj.func_addr 8 ≡ fj.func_jump) fjs
      → All (Undoes m0 applied_patches p) fjs
      → mem (for_each_entry (reading (revert_func_jump t false applied_patches p)) fjs s).2
        ≡ restored m0 (mem s) fjs
  unfolding for_each_entry
  revert_walk-mem applied_patches p m0 [] s sp n h u = refl
  revert_walk-mem applied_patches p m0 (fj ∷ fjs) s sp n h u =
      let wrote = revert-mem applied_patches p m0 fj s n.0 h.0 u.0 in
      ap mem
        (for_each_entry-go (reading (revert_func_jump t false applied_patches p)) fj fjs s wrote.0)
      ∙ revert_walk-mem applied_patches p m0 fjs (revert_func_jump t false applied_patches p fj s).1
          sp.1 n.1
          (subst (λ m. All (λ (f : FuncJump). bytes_at m f.func_addr 8 ≡ f.func_jump) fjs)
            (sym wrote.1)
            (still_stand (mem s) (bytes_at m0 fj.func_addr 8) fj.func_addr fjs refl sp.0 h.1))
          u.1
      ∙ ap (λ m. restored m0 m fjs) wrote.1

pub read_back :
    (t : Tracee) (laws : ReadsAndWrites t) (s : t.State) (fjs : List FuncJump)
    → All (λ (fj : FuncJump). bytes_at (laws.mem s) fj.func_addr 8 ≡ fj.func_jump) fjs
    → All (λ (fj : FuncJump). process_read_data t s fj.func_addr 8 ≡ (pos 0, fj.func_jump)) fjs
unfolding process_read_data
read_back t laws s [] h = tt
read_back t laws s (fj ∷ fjs) h = (
  ap (λ (r : Outcome × List ℕ). (outcome_code r.0, r.1)) (laws.peeks s fj.func_addr 8 refl)
      ∙ ap (λ (bs : List ℕ). (pos 0, bs)) h.0,
  read_back t laws s fjs h.1,
)

-- The jumps of a patch are applied to a stopped target whose memory the calls of libcompel read and
-- write; no two functions share a byte of the eight that a jump takes, every jump is placed and eight
-- bytes long. Then each function's first eight bytes are its jump.
pub apply_func_jumps-stands :
    (t : Tracee) (laws : ReadsAndWrites t) (fjs : List FuncJump) (s : t.State)
    → Spread fjs
    → All (λ (fj : FuncJump). length fj.func_jump ≡ 8) fjs
    → All
        (λ (fj : FuncJump).
          process_read_data t (apply_func_jumps t false fjs s).1 fj.func_addr 8
          ≡ (pos 0, fj.func_jump))
        fjs
unfolding apply_func_jumps
apply_func_jumps-stands t laws fjs s sp l =
    read_back t laws (for_each_entry (reading (write_func_jump t false)) fjs s).2 fjs (
      subst (λ m. All (λ (f : FuncJump). bytes_at m f.func_addr 8 ≡ f.func_jump) fjs)
        (sym (apply_walk-mem t laws fjs s l)) (jumped-stands (laws.mem s) fjs sp l))

-- The jumps are applied and then reverted, neither as a dry run, to a stopped target whose memory the
-- calls of libcompel read and write; no two functions share a byte of the eight that a jump takes,
-- every jump is placed and eight bytes long, and what there is to write back over it is what stood
-- there: the function's code, or the jump of the nearest earlier patch of the same target that took
-- the function. Then every byte of the memory is what it was.
pub revert-apply :
    (t : Tracee) (laws : ReadsAndWrites t) (applied_patches : List Patch) (p : Patch) (s : t.State)
    → Spread p.pi.func_jumps
    → All (λ (fj : FuncJump). fj.func_addr ≢ 0) p.pi.func_jumps
    → All (λ (fj : FuncJump). length fj.func_jump ≡ 8) p.pi.func_jumps
    → All (Undoes (laws.mem s) applied_patches p) p.pi.func_jumps
    → laws.mem
        (patch_revert_func_jumps t false applied_patches p
          (apply_func_jumps t false p.pi.func_jumps s).1).1
      ≡ laws.mem s
unfolding apply_func_jumps patch_revert_func_jumps
revert-apply t laws applied_patches p s sp n l u =
    revert_walk-mem t laws applied_patches p (laws.mem s) p.pi.func_jumps
      (for_each_entry (reading (write_func_jump t false)) p.pi.func_jumps s).2 sp n
      (subst (λ m. All (λ (f : FuncJump). bytes_at m f.func_addr 8 ≡ f.func_jump) p.pi.func_jumps)
        (sym (apply_walk-mem t laws p.pi.func_jumps s l))
        (jumped-stands (laws.mem s) p.pi.func_jumps sp l))
      u
    ∙ ap (λ m. restored (laws.mem s) m p.pi.func_jumps) (apply_walk-mem t laws p.pi.func_jumps s l)
    ∙ fun_ext (λ x.
      restored-original (laws.mem s) (jumped (laws.mem s) p.pi.func_jumps) p.pi.func_jumps x
        (jumped-Covered (laws.mem s) p.pi.func_jumps x l))
