-- ===== src/Process/Remote/Undone.antt =====
-- Unmapping an object by calls in the target undoes mapping it (patcher/process.c).
use nsb.Base.{ℕ, ◌≡◌, false, List}
use nsb.Base.Int.{ℤ}
use nsb.Base.Text.{Text}
use nsb.Process.Remote.{Remote, munmap_args, nr_munmap}
use nsb.Process.Remote.Pages.{MapsInTarget, OnSome}
use nsb.Vma.{VmaArea}

module _ (r : Remote) (laws : MapsInTarget r) where
  open laws use {mapped, munmap_on, munmap_off}

  abbrev unmapped : VmaArea → r.tracee.State → r.tracee.State
  unmapped v s = (r.syscall s nr_munmap (munmap_args v)).1

  -- What unmapping leaves of an address, by whether the mappings are at it.
  abbrev Gone : List VmaArea → (s s' : r.tracee.State) → (x : ℕ) → Type 0
  Gone vmas s s' x =
      (mapped s x ≡ false → mapped s' x ≡ false)
      × (OnSome vmas x → mapped s' x ≡ false)
      × (¬ OnSome vmas x → mapped s' x ≡ mapped s x)

  abbrev Walked : Type 0
  Walked = ℤ × List VmaArea × r.tracee.State
