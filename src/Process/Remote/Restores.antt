-- ===== src/Process/Remote/Restores.antt =====
-- Taking back a mapping that failed half-way (patcher/process.c).
use mathlib.Core.Bool.{true≢false}
use nsb.Base.{
  ℕ, ◌≡◌, refl, sym, ◌∙◌, inl, inr, ◌⊎◌, Bool, true, false, Bool-cases, List, [], ◌∷◌, ◌++◌, All,
}
use nsb.Base.Int.{ℤ, is_neg, is_zero}
use nsb.Base.Text.{Text}
use nsb.Process.Memory.{process_write_data}
use nsb.Process.Remote.{
  Remote, mmap_args, munmap_args, nr_mmap, nr_munmap, process_syscall, process_map_vma,
  process_unmap_vma, process_open_file, map_vmas, unmap_made, rounded_up, process_mmap_dlm_manual,
}
use nsb.Vma.{VmaArea}
use nsb.Process.Remote.Pages.{
  OnPages, OffPages, IsPlaced, MapsInTarget, OnSome, on_or_off, apart, neg-or_errno,
}

module _ (r : Remote) (laws : MapsInTarget r) (x : ℕ) (b : Bool) where
  open laws use {
    mapped, poke_keeps, open_keeps, close_keeps, sets_errno, mmap_on, mmap_fails, mmap_off,
    munmap_on, munmap_off,
  }

  -- `b` says whether the address was mapped at first: it was not, where one of `made` is at it.
  abbrev pub Kept : List VmaArea → r.tracee.State → Type 0
  Kept made s = (mapped s x ≡ b) ⊎ ((b ≡ false) × OnSome made x)

  abbrev pub Fresh : VmaArea → Type 0
  Fresh v = IsPlaced v × (OnPages v x → b ≡ false)

  unmap-Kept :
      (v : VmaArea) (made : List VmaArea) (s : r.tracee.State)
      → Fresh v
      → Kept (v ∷ made) s
      → Kept made (process_unmap_vma r false v s).1
  unfolding process_unmap_vma process_syscall
  unmap-Kept v made s f k = elim (on_or_off v x) [
    | inl on ↦ inl (munmap_on s v x f.0 on ∙ sym (f.1 on))
    | inr off ↦ off_case off k
  ]
    where
      off_case :
          OffPages v x → Kept (v ∷ made) s → Kept made (r.syscall s nr_munmap (munmap_args v)).1
      off_case off (inl e) = inl (munmap_off s v x f.0 off ∙ e)
      off_case off (inr (e, inl on)) = absurd (apart v x on off)
      off_case off (inr (e, inr some_)) = inr (e, some_)

  pub unmap_made-restores :
      (made : List VmaArea) (s : r.tracee.State)
      → All Fresh made
      → Kept made s
      → mapped (unmap_made r false made s) x ≡ b
  unfolding unmap_made
  unmap_made-restores [] s f (inl e) = e
  unmap_made-restores [] s f (inr (e, h)) = absurd h
  unmap_made-restores (v ∷ made) s f k =
      unmap_made-restores made (process_unmap_vma r false v s).1 f.1 (unmap-Kept v made s f.0 k)

  map-Kept :
      (fd : ℤ) (v : VmaArea) (made : List VmaArea) (s : r.tracee.State)
      → Fresh v
      → Kept made s
      → Kept (v ∷ made) (process_map_vma r false fd v s).1
  unfolding process_map_vma process_syscall
  map-Kept fd v made s f k = elim (on_or_off v x) [
    | inl on ↦ inr (f.1 on, inl on)
    | inr off ↦ off_case off k
  ]
    where
      off_case :
          OffPages v x → Kept made s → Kept (v ∷ made) (r.syscall s nr_mmap (mmap_args fd v)).1
      off_case off (inl e) = inl (mmap_off s fd v x f.0 off ∙ e)
      off_case off (inr (e, some_)) = inr (e, inr some_)

  failed-Kept :
      (fd : ℤ) (v : VmaArea) (made : List VmaArea) (s : r.tracee.State)
      → Fresh v
      → is_neg (process_map_vma r false fd v s).0 ≡ true
      → Kept made s
      → Kept made (process_map_vma r false fd v s).1
  unfolding process_map_vma process_syscall
  failed-Kept fd v made s f h (inr k) = inr k
  failed-Kept fd v made s f h (inl e) = elim (on_or_off v x) [
    | inl on ↦ inl (mmap_fails s fd v x (neg-or_errno _ h) (e ∙ f.1 on) ∙ sym (f.1 on))
    | inr off ↦ inl (mmap_off s fd v x f.0 off ∙ e)
  ]

  pub map_vmas-Kept :
      (fd : ℤ) (made vmas : List VmaArea) (s : r.tracee.State)
      → All Fresh made
      → All Fresh vmas
      → Kept made s
      → let (err, made', s') = map_vmas r false fd made vmas s in All Fresh made' × Kept made' s'
  unfolding map_vmas
  map_vmas-Kept fd made [] s fm fv k = (fm, k)
  map_vmas-Kept fd made (v ∷ vs) s fm fv k =
      elim (Bool-cases (is_neg (process_map_vma r false fd v s).0)) [
        | inl bad ↦ rw bad (fm, failed-Kept fd v made s fv.0 bad k)
        | inr good ↦ rw good (
            map_vmas-Kept fd (v ∷ made) vs (process_map_vma r false fd v s).1 (fv.0, fm) fv.1
              (map-Kept fd v made s fv.0 k))
      ]

  pub open-keeps :
      (remote_addr : ℕ) (path : Text) (s : r.tracee.State)
      → mapped (process_open_file r remote_addr path s).1 x ≡ mapped s x
  unfolding process_open_file process_syscall process_write_data
  open-keeps remote_addr path s =
      let s1 = (process_write_data r.tracee s remote_addr (rounded_up r (path ++ 0 ∷ []))).1 in
      elim (Bool-cases
        (is_zero (process_write_data r.tracee s remote_addr (rounded_up r (path ++ 0 ∷ []))).0)) [
          | inl e ↦ rw e (open_keeps s1 _ x ∙ poke_keeps s _ _ x)
          | inr e ↦ rw e (poke_keeps s _ _ x)
        ]

  pub mmap_dlm_manual-restores :
      (remote_addr : ℕ) (path : Text) (vmas : List VmaArea) (s : r.tracee.State)
      → mapped s x ≡ b
      → All Fresh vmas
      → is_neg (process_mmap_dlm_manual r false remote_addr path vmas s).0 ≡ true
      → mapped (process_mmap_dlm_manual r false remote_addr path vmas s).1 x ≡ b
  unfolding process_mmap_dlm_manual
  mmap_dlm_manual-restores remote_addr path vmas s h f neg_ =
      let (fd, s1) = process_open_file r remote_addr path s in
      let opened = open-keeps remote_addr path s ∙ h in
      let (kf, k) = map_vmas-Kept fd [] vmas s1 tt f (inl opened) in
      elim (Bool-cases (is_neg fd)) [
        | inl e ↦ rw e opened
        | inr e ↦ elim (Bool-cases (is_neg (map_vmas r false fd [] vmas s1).0)) [
          | inl e' ↦ rw (e, e') (unmap_made-restores _ _ kf k)
          | inr e' ↦ absurd (true≢false (sym neg_ ∙ rw (e, e') refl))
        ]
      ]
