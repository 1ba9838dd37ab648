-- ===== src/Elf/Load/Pinned.antt =====
-- Where the segments of a patch come to lie (patcher/elf.c).
use mathlib.Core.Path.{subst}
use nsb.Base.{ℕ, ◌+◌, ◌-◌, ◌%◌, ◌^◌, ◌≤◌, ◌<◌, ◌≡◌, List, [], ◌∷◌, All, arith}
use nsb.Base.Word.{sub64}
use nsb.DlMap.{DlMap, dl_map_start, dl_map_end}
use nsb.Elf.{Phdr}
use nsb.Elf.Load.{page_start, create_elf_vma, pin_elf_mmap, pin_all, load_size}
use nsb.Vma.{VmaArea, page_size}

-- A segment whose address and file offset agree within a page, as ELF asks, and that ends below 2^63,
-- pinned at a page-aligned hole: the mapping begins at a page, is whole pages long, covers the
-- segment's bytes at `hole + p_vaddr`, and shows at each address of the segment the byte of the file
-- that belongs there.
pub pin_create-covers :
    (id hole : ℕ) (p : Phdr) (k : ℕ)
    → p.p_vaddr % page_size ≡ p.p_offset % page_size
    → hole % page_size ≡ 0
    → hole + p.p_vaddr + p.p_filesz + page_size < 2 ^ 63
    → p.p_offset + p.p_filesz < 2 ^ 63
    → k < p.p_filesz
    → let v = pin_elf_mmap hole (create_elf_vma id p) in
      (v.addr % page_size ≡ 0)
      × (v.len % page_size ≡ 0)
      × (v.offset % page_size ≡ 0)
      × (v.addr ≤ hole + p.p_vaddr + k)
      × (hole + p.p_vaddr + k < v.addr + v.len)
      × (v.offset + (hole + p.p_vaddr + k - v.addr) ≡ p.p_offset + k)
unfolding pin_elf_mmap create_elf_vma
pin_create-covers id hole p k agree aligned fits file lt =
    (omega arith, omega arith, omega arith, omega arith, omega arith, omega arith)

-- The segments of a patch that is linked at 0: each ends, in whole pages, where the last does or below.
abbrev pub Linked : DlMap → Type 0
Linked dlm =
    (dl_map_start dlm < page_size)
    × (dl_map_end dlm < 2 ^ 62)
    × All
        (λ (v : VmaArea).
          (v.addr < 2 ^ 62) × (page_start v.addr + v.len ≤ page_start (dl_map_end dlm)))
        dlm.vmas

-- The mapping lies in the range.
abbrev pub Within : (address size : ℕ) → VmaArea → Type 0
Within address size v = (address ≤ v.addr) × (v.addr + v.len ≤ address + size)

pin_all-Within' :
    (hole end : ℕ) (vs : List VmaArea)
    → hole % page_size ≡ 0
    → hole < 2 ^ 62
    → All (λ (v : VmaArea). (v.addr < 2 ^ 62) × (page_start v.addr + v.len ≤ page_start end)) vs
    → All (Within hole (page_start end)) (pin_all hole vs)
unfolding pin_all
pin_all-Within' hole end [] aligned low h = tt
pin_all-Within' hole end (v ∷ vs) aligned low h =
    ((omega arith, omega arith), pin_all-Within' hole end vs aligned low h.1)

sub64-zero :
    (e s : ℕ) → s < page_size → e < 2 ^ 62 → page_start e ≡ sub64 (page_start e) (page_start s)
sub64-zero e s h k = omega arith

-- Pinned at a page-aligned hole below 2^62, the segments of a patch that is linked at 0 stay in the
-- hole of the patch's load size.
pub pin_all-Within :
    (dlm : DlMap) (hole : ℕ)
    → hole % page_size ≡ 0
    → hole < 2 ^ 62
    → Linked dlm
    → All (Within hole (load_size dlm)) (pin_all hole dlm.vmas)
unfolding load_size
pin_all-Within dlm hole aligned low h =
    let same : page_start (dl_map_end dlm)
        ≡ sub64 (page_start (dl_map_end dlm)) (page_start (dl_map_start dlm)) =
      sub64-zero (dl_map_end dlm) (dl_map_start dlm) h.0 h.1 in
    subst (λ (n : ℕ). All (Within hole n) (pin_all hole dlm.vmas)) same
      (pin_all-Within' hole (dl_map_end dlm) dlm.vmas aligned low h.2)
