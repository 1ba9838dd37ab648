-- ===== src/Process/Remote/Made.antt =====
-- A mapping that did not fail (patcher/process.c).
use mathlib.Core.Bool.{true≢false}
use nsb.Base.{ℕ, ◌≡◌, sym, ◌∙◌, inl, inr, Bool, true, false, Bool-cases, List, [], ◌∷◌, All}
use nsb.Base.Int.{ℤ, is_neg}
use nsb.Base.Text.{Text}
use nsb.Process.Remote.{
  Remote, process_syscall, process_map_vma, process_close_file, process_open_file, map_vmas,
  process_mmap_dlm_manual,
}
use nsb.Vma.{VmaArea}
use nsb.Process.Remote.Pages.{
  OffPages, IsPlaced, MapsInTarget, OnSome, on_or_off, apart, done-or_errno,
}
use nsb.Process.Remote.Restores.{open-keeps}

abbrev pub reverse_onto {ℓ} : {A : Type ℓ} → List A → List A → List A
reverse_onto [] ys = ys
reverse_onto (x ∷ xs) ys = reverse_onto xs (x ∷ ys)

module _ (r : Remote) (laws : MapsInTarget r) (x : ℕ) (b : Bool) where
  open laws use {
    mapped, poke_keeps, open_keeps, close_keeps, sets_errno, mmap_on, mmap_fails, mmap_off,
    munmap_on, munmap_off,
  }

  -- What holds while mappings are made, none of which has failed.
  abbrev pub Made : List VmaArea → r.tracee.State → Type 0
  Made made s = (OnSome made x → mapped s x ≡ true) × (¬ OnSome made x → mapped s x ≡ b)

  vmas_done :
      (fd : ℤ) (v : VmaArea) (made : List VmaArea) (s : r.tracee.State)
      → IsPlaced v
      → is_neg (process_map_vma r false fd v s).0 ≡ false
      → Made made s
      → Made (v ∷ made) (process_map_vma r false fd v s).1
  unfolding process_map_vma process_syscall
  vmas_done fd v made s p h (hit, miss) = elim (on_or_off v x) [
    | inl on ↦
        let maps = mmap_on s fd v x p (done-or_errno _ (sets_errno s _ _) h) on in
        (λ _. maps, λ none_. absurd (none_ (inl on)))
    | inr off ↦
        let keeps = mmap_off s fd v x p off in
        (λ some_. keeps ∙ hit (other some_ off), λ none_. keeps ∙ miss (λ m. none_ (inr m)))
  ]
    where
      other : OnSome (v ∷ made) x → OffPages v x → OnSome made x
      other (inl on) off = absurd (apart v x on off)
      other (inr m) off = m

  map_vmas-Made :
      (fd : ℤ) (made vmas : List VmaArea) (s : r.tracee.State)
      → All IsPlaced vmas
      → is_neg (map_vmas r false fd made vmas s).0 ≡ false
      → Made made s
      → Made (reverse_onto vmas made) (map_vmas r false fd made vmas s).2
  unfolding map_vmas
  map_vmas-Made fd made [] s p h m = m
  map_vmas-Made fd made (v ∷ vs) s p h m =
      elim (Bool-cases (is_neg (process_map_vma r false fd v s).0)) [
        | inl bad ↦ absurd (true≢false (sym bad ∙ (rw bad at h)))
        | inr good ↦ rw good (
            map_vmas-Made fd (v ∷ made) vs (process_map_vma r false fd v s).1 p.1 (rw good at h)
              (vmas_done fd v made s p.0 good m))
      ]

  close-keeps : (fd : ℤ) (s : r.tracee.State) → mapped (process_close_file r fd s).1 x ≡ mapped s x
  unfolding process_close_file process_syscall
  close-keeps fd s = close_keeps s _ x

  pub mmap_dlm_manual-Made :
      (remote_addr : ℕ) (path : Text) (vmas : List VmaArea) (s : r.tracee.State)
      → mapped s x ≡ b
      → All IsPlaced vmas
      → is_neg (process_mmap_dlm_manual r false remote_addr path vmas s).0 ≡ false
      → Made (reverse_onto vmas []) (process_mmap_dlm_manual r false remote_addr path vmas s).1
  unfolding process_mmap_dlm_manual
  mmap_dlm_manual-Made remote_addr path vmas s h p pos_ =
      let (fd, s1) = process_open_file r remote_addr path s in
      let opened = open-keeps r laws x b remote_addr path s ∙ h in
      let s2 = (map_vmas r false fd [] vmas s1).2 in
      elim (Bool-cases (is_neg fd)) [
        | inl e ↦ absurd (true≢false (sym e ∙ (rw e at pos_)))
        | inr e ↦ elim (Bool-cases (is_neg (map_vmas r false fd [] vmas s1).0)) [
          | inl e' ↦ absurd (true≢false (sym e' ∙ (rw (e, e') at pos_)))
          | inr e' ↦
              let (hit, miss) =
                map_vmas-Made fd [] vmas s1 p e' (λ none_. absurd none_, λ _. opened) in
              rw (e, e') (λ m. close-keeps fd s2 ∙ hit m, λ n. close-keeps fd s2 ∙ miss n)
        ]
      ]
