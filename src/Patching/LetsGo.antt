-- ===== src/Patching/LetsGo.antt =====
-- Letting go of a stopped target (process_resume of patcher/patch.c, process_link and process_unlink of
-- patcher/process.c).
use mathlib.Core.Bool.{true≢false}
use nsb.Base.{ℕ, ◌%◌, ◌≡◌, refl, ap, ◌∙◌, inl, inr, Bool, false, Bool-cases, ==_iff, [], none}
use nsb.Base.Int.{ℤ, pos, neg, negsuc, is_neg, eq_ℤ}
use nsb.Base.Word.{bits64}
use nsb.Client.{or_neg}
use nsb.Patching.{Env, Run, World, Ctx, tasks_of}
use nsb.Patching.Held.{OnPage, HeldRun}
use nsb.Patching.Injected.{process_shutdown_service, process_resume}
use nsb.Patching.Resume.{process_link, process_unlink, process_cure}
use nsb.Process.Remote.{
  answered, or_errno, zero_or_errno, mmap_args, munmap_args, nr_mmap, nr_munmap, process_syscall,
  process_map_vma, process_unmap_vma,
}
use nsb.Process.Threads.Cured.{cure_threads-empty}
use nsb.Vma.{VmaArea}

-- What letting go relies on: a stopped thread can be resumed, libcompel can be taken out of the target,
-- the target has room for a page of memory at a whole page, and a page is unmapped.
pub record LetsGo (e : Env) : Type 0 where
  pub resumes : (w : World e) (pid : ℕ) → (e.resume_task w pid).0 ≡ false
  pub cures : (w : World e) → (e.cure w).0 ≡ none
  pub maps :
      (w : World e) (v : VmaArea)
      → v.len ≡ 4096
      → v.flags ≡ 0x22
      → let result = answered (e.peer.remote.syscall w nr_mmap (mmap_args (neg 1) v)).0 in
        (is_neg result.0 ≡ false) × (bits64 result.0 % 4096 ≡ 0)
  pub unmaps :
      (w : World e) (v : VmaArea)
      → OnPage v
      → is_neg (answered (e.peer.remote.syscall w nr_munmap (munmap_args v)).0).0 ≡ false

-- The context as the source's initial one: there is no service, and the page of memory is anonymous.
abbrev pub Begins : Ctx → Type 0
Begins c =
    (c.service.handle ≡ 0)
    × (c.service.loaded ≡ false)
    × (c.remote_vma.len ≡ 4096)
    × (c.remote_vma.flags ≡ 0x22)

zero-not_neg : (a : ℤ × ℕ) → is_neg a.0 ≡ false → zero_or_errno a ≡ pos 0
zero-not_neg (pos v, n) h = refl
zero-not_neg (negsuc v, n) h = absurd (true≢false h)

errno-not_neg :
    (a : ℤ × ℕ) → is_neg a.0 ≡ false → (or_errno a ≡ a.0) × (eq_ℤ (or_errno a) (neg 1) ≡ false)
errno-not_neg (pos v, n) h = (refl, refl)
errno-not_neg (negsuc v, n) h = absurd (true≢false h)

module _ (e : Env) (laws : LetsGo e) where
  open laws use {resumes, cures, maps, unmaps}

  unmap-zero :
      (v : VmaArea) (w : World e) → OnPage v → (process_unmap_vma e.peer.remote false v w).0 ≡ pos 0
  unfolding process_unmap_vma process_syscall
  unmap-zero v w h = zero-not_neg _ (unmaps w v h)

  cure-empty : (r : Run e) → (process_cure e r).1.0.threads ≡ []
  unfolding process_cure
  cure-empty (c, w) = (cure_threads-empty (tasks_of e) resumes c.threads w).1

  shutdown-none : (r : Run e) → HeldRun e r → process_shutdown_service e r ≡ (pos 0, r)
  unfolding process_shutdown_service
  shutdown-none (c, w) h = rw ((==_iff c.service.handle 0).1 h.0) refl

  unlink-zero : (r : Run e) → HeldRun e r → (process_unlink e r).0 ≡ pos 0
  unfolding process_unlink
  unlink-zero (c, w) (hh, hl, inl no_ctl) = rw no_ctl refl
  unlink-zero (c, w) (hh, hl, inr page) = elim (Bool-cases c.ctl) [
    | inr no_ctl ↦ rw no_ctl refl
    | inl ctl ↦
        let (err, w1) = process_unmap_vma e.peer.remote false c.remote_vma w in
        rw (ctl, hl, unmap-zero c.remote_vma w page) (ap or_neg (cures w1))
  ]

  pub resume-empty : (r : Run e) → HeldRun e r → (process_resume e r).1.0.threads ≡ []
  unfolding process_resume
  resume-empty r h = rw (shutdown-none r h, unlink-zero r h) (cure-empty (process_unlink e r).1)

  map-page :
      (loaded : Bool) (v : VmaArea) (w : World e)
      → loaded ≡ false
      → v.len ≡ 4096
      → v.flags ≡ 0x22
      → bits64 (process_map_vma e.peer.remote loaded (neg 1) v w).0 % 4096 ≡ 0
  unfolding process_map_vma process_syscall
  map-page loaded v w not_loaded len flags =
      let (good, aligned) = maps w v len flags in
      rw not_loaded (ap (λ (a : ℤ). bits64 a % 4096) (errno-not_neg _ good).0 ∙ aligned)

  pub link-Held : (r : Run e) → Begins r.0 → HeldRun e (process_link e r).1
  unfolding process_link
  link-Held (c, w) (no_handle, not_loaded, len, flags) =
      let (ok, w1) = e.prepare w c.pid in
      let (addr, w2) = process_map_vma e.peer.remote c.service.loaded (neg 1) c.remote_vma w1 in
      let aligned = map-page c.service.loaded c.remote_vma w1 not_loaded len flags in
      elim (Bool-cases ok) [
        | inr bad ↦ rw bad (no_handle, not_loaded, inl refl)
        | inl good ↦ elim (Bool-cases (eq_ℤ addr (neg 1))) [
          | inl bad ↦ rw (good, bad) (no_handle, not_loaded, inl refl)
          | inr mapped ↦ rw (good, mapped) (no_handle, not_loaded, inr (aligned, len))
        ]
      ]
