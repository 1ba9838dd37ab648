-- ===== src/Process/Remote/Pages.antt =====
-- The pages of a mapping, and what the system calls of patcher/process.c do to those of the target.
use mathlib.Core.Bool.{true≢false}
use nsb.Base.{
  leb, ltb, ◌&&◌, ◌||◌, ℕ, zero, suc, ◌≢◌, ◌+◌, ◌*◌, ◌/◌, ◌%◌, ◌≤◌, ◌<◌, ◌≡◌, refl, inl, inr, ◌⊎◌,
  Bool, true, false, List, [], ◌∷◌, arith,
}
use nsb.Base.Int.{ℤ, pos, negsuc, is_neg}
use nsb.Process.Remote.{
  Remote, mmap_args, munmap_args, nr_mmap, nr_munmap, nr_open, nr_close, answered, or_errno,
}
use nsb.Vma.{VmaArea, map_fixed}

abbrev pub pages_end : VmaArea → ℕ
pages_end v = v.addr + (v.len + 4095) / 4096 * 4096

abbrev pub OnPages : VmaArea → ℕ → Type 0
OnPages v x = (v.addr ≤ x) × (x < pages_end v)

abbrev pub OffPages : VmaArea → ℕ → Type 0
OffPages v x = (x < v.addr) ⊎ (pages_end v ≤ x)

-- A mapping that `mmap` puts at its address, and that `munmap` accepts.
abbrev pub IsPlaced : VmaArea → Type 0
IsPlaced v = (v.flags / map_fixed % 2 ≡ 1) × (v.addr % 4096 ≡ 0) × (0 < v.len)

pub on_or_off : (v : VmaArea) (x : ℕ) → OnPages v x ⊎ OffPages v x
on_or_off v x = ground arith

pub apart : (v : VmaArea) (x : ℕ) → OnPages v x → OffPages v x → ⊥
apart v x on (inl below) = omega arith
apart v x on (inr above) = omega arith

-- What the manual pages say of the addresses that are mapped in the target: `mmap` at a fixed address
-- maps its pages where it succeeds and maps nothing where it fails, `munmap` unmaps its pages, both
-- change no other page, and writing, opening and closing change none.
-- A call that fails leaves an errno.
pub record MapsInTarget (r : Remote) : Type 0 where
  pub mapped : r.tracee.State → ℕ → Bool
  pub poke_keeps :
      (s : r.tracee.State) (addr : ℕ) (bytes : List ℕ) (x : ℕ)
      → mapped (r.tracee.poke s addr bytes).1 x ≡ mapped s x
  pub open_keeps :
      (s : r.tracee.State) (args : List ℕ) (x : ℕ)
      → mapped (r.syscall s nr_open args).1 x ≡ mapped s x
  pub close_keeps :
      (s : r.tracee.State) (args : List ℕ) (x : ℕ)
      → mapped (r.syscall s nr_close args).1 x ≡ mapped s x
  pub sets_errno :
      (s : r.tracee.State) (nr : ℕ) (args : List ℕ)
      → is_neg (answered (r.syscall s nr args).0).0 ≡ true
      → (answered (r.syscall s nr args).0).1 ≢ 0
  pub mmap_on :
      (s : r.tracee.State) (fd : ℤ) (v : VmaArea) (x : ℕ)
      → IsPlaced v
      → is_neg (answered (r.syscall s nr_mmap (mmap_args fd v)).0).0 ≡ false
      → OnPages v x
      → mapped (r.syscall s nr_mmap (mmap_args fd v)).1 x ≡ true
  pub mmap_fails :
      (s : r.tracee.State) (fd : ℤ) (v : VmaArea) (x : ℕ)
      → is_neg (answered (r.syscall s nr_mmap (mmap_args fd v)).0).0 ≡ true
      → mapped s x ≡ false
      → mapped (r.syscall s nr_mmap (mmap_args fd v)).1 x ≡ false
  pub mmap_off :
      (s : r.tracee.State) (fd : ℤ) (v : VmaArea) (x : ℕ)
      → IsPlaced v
      → OffPages v x
      → mapped (r.syscall s nr_mmap (mmap_args fd v)).1 x ≡ mapped s x
  pub munmap_on :
      (s : r.tracee.State) (v : VmaArea) (x : ℕ)
      → IsPlaced v
      → OnPages v x
      → mapped (r.syscall s nr_munmap (munmap_args v)).1 x ≡ false
  pub munmap_off :
      (s : r.tracee.State) (v : VmaArea) (x : ℕ)
      → IsPlaced v
      → OffPages v x
      → mapped (r.syscall s nr_munmap (munmap_args v)).1 x ≡ mapped s x

pub done-or_errno :
    (a : ℤ × ℕ) → (is_neg a.0 ≡ true → a.1 ≢ 0) → is_neg (or_errno a) ≡ false → is_neg a.0 ≡ false
done-or_errno (pos v, e) nz h = h
done-or_errno (negsuc n, zero) nz h = absurd (nz refl refl)
done-or_errno (negsuc n, suc e) nz h = absurd (true≢false h)

pub neg-or_errno : (a : ℤ × ℕ) → is_neg (or_errno a) ≡ true → is_neg a.0 ≡ true
neg-or_errno (pos v, e) h = h
neg-or_errno (negsuc n, e) h = refl

-- The address is on the pages of one of the mappings.
abbrev pub OnSome : List VmaArea → ℕ → Type 0
OnSome [] x = ⊥
OnSome (v ∷ vs) x = OnPages v x ⊎ OnSome vs x

pub some_or_none : (vmas : List VmaArea) (x : ℕ) → OnSome vmas x ⊎ (¬ OnSome vmas x)
some_or_none [] x = inr (λ none_. none_)
some_or_none (v ∷ vs) x = elim (on_or_off v x) [
  | inl on ↦ inl (inl on)
  | inr off ↦ elim (some_or_none vs x) [
    | inl m ↦ inl (inr m)
    | inr n ↦ inr (λ m. elim m [ inl on ↦ apart v x on off | inr m' ↦ n m' ])
  ]
]

-- What an object that is mapped as a whole or not at all makes of the addresses that are mapped.
abbrev pub covered : List VmaArea → ℕ → Bool
covered [] x = false
covered (v ∷ vs) x = (leb v.addr x && ltb x (pages_end v)) || covered vs x

abbrev pub mapped_whole : (failed : Bool) → List VmaArea → (ℕ → Bool) → ℕ → Bool
mapped_whole true vmas before x = before x
mapped_whole false vmas before x = covered vmas x || before x

pub on-covered : (vmas : List VmaArea) (x : ℕ) → OnSome vmas x → covered vmas x ≡ true
on-covered [] x h = absurd h
on-covered (v ∷ vs) x (inl on) = ground arith
on-covered (v ∷ vs) x (inr m) = rw (on-covered vs x m) (ground arith)

pub off-covered : (vmas : List VmaArea) (x : ℕ) → ¬ OnSome vmas x → covered vmas x ≡ false
off-covered [] x n = refl
off-covered (v ∷ vs) x n =
    rw (off-covered vs x (λ m. n (inr m)))
      (elim (on_or_off v x) [ inl on ↦ absurd (n (inl on)) | inr off ↦ ground arith ])
