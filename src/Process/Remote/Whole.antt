-- ===== src/Process/Remote/Whole.antt =====
-- The mapping of a patch by calls in the target (patcher/process.c) is done as a whole or not at all.
use nsb.Base.{ℕ, ◌≡◌, refl, inl, inr, ◌⊎◌, ◌↔◌, Bool, true, false, List, [], ◌∷◌, All}
use nsb.Base.Int.{is_neg}
use nsb.Base.Text.{Text}
use nsb.Process.Remote.{Remote, process_mmap_dlm_manual}
use nsb.Vma.{VmaArea}
use nsb.Process.Remote.Pages.{OnPages, IsPlaced, MapsInTarget, OnSome}
use nsb.Process.Remote.Restores.{mmap_dlm_manual-restores}
use nsb.Process.Remote.Made.{reverse_onto, mmap_dlm_manual-Made}

pub OnSome-reverse_onto :
    (xs ys : List VmaArea) (x : ℕ) → OnSome (reverse_onto xs ys) x ↔ (OnSome xs x ⊎ OnSome ys x)
OnSome-reverse_onto [] ys x = (inr, λ h. elim h [ inl none_ ↦ absurd none_ | inr h ↦ h ])
OnSome-reverse_onto (v ∷ xs) ys x =
    let (to, from) = OnSome-reverse_onto xs (v ∷ ys) x in
    (
      λ h. elim (to h) [
        | inl m ↦ inl (inr m)
        | inr m ↦ elim m [ inl on ↦ inl (inl on) | inr m' ↦ inr m' ]
      ],
      λ h. elim h [
        | inl m ↦ elim m [ inl on ↦ from (inr (inl on)) | inr m' ↦ from (inl m') ]
        | inr m ↦ from (inr (inr m))
      ],
    )

pub Fresh-All :
    (vmas : List VmaArea) (x : ℕ) (b : Bool)
    → All IsPlaced vmas
    → (OnSome vmas x → b ≡ false)
    → All (λ (v : VmaArea). IsPlaced v × (OnPages v x → b ≡ false)) vmas
Fresh-All [] x b p f = tt
Fresh-All (v ∷ vs) x b p f = ((p.0, λ on. f (inl on)), Fresh-All vs x b p.1 (λ m. f (inr m)))

module _ (r : Remote) (laws : MapsInTarget r) where
  open laws use {mapped}

  pub mmap_dlm_manual_cases :
      (remote_addr : ℕ) (path : Text) (vmas : List VmaArea) (s : r.tracee.State)
      → All IsPlaced vmas
      → ((x : ℕ) → OnSome vmas x → mapped s x ≡ false)
      → let (err, s') = process_mmap_dlm_manual r false remote_addr path vmas s in
        (is_neg err ≡ true → (x : ℕ) → mapped s' x ≡ mapped s x)
        × (is_neg err ≡ false → (x : ℕ) → OnSome vmas x → mapped s' x ≡ true)
        × (is_neg err ≡ false → (x : ℕ) → ¬ OnSome vmas x → mapped s' x ≡ mapped s x)
  mmap_dlm_manual_cases remote_addr path vmas s p free = (
    λ e x.
        mmap_dlm_manual-restores r laws x (mapped s x) remote_addr path vmas s refl
          (Fresh-All vmas x (mapped s x) p (free x)) e,
    λ e x m.
        (mmap_dlm_manual-Made r laws x (mapped s x) remote_addr path vmas s refl p e).0
          ((OnSome-reverse_onto vmas [] x).1 (inl m)),
    λ e x n.
        (mmap_dlm_manual-Made r laws x (mapped s x) remote_addr path vmas s refl p e).1
          (λ m. elim ((OnSome-reverse_onto vmas [] x).0 m) [ inl m' ↦ n m' | inr none_ ↦ none_ ]),
  )
