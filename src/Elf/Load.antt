-- ===== src/Elf/Load.antt =====
-- The mappings of a patch (create_elf_vma, create_elf_mmaps, pin_elf_mmap and pin_elf_mmaps of
-- patcher/elf.c).
pub mod Pinned
pub mod Safe
use nsb.Base.{
  ℕ, suc, ◌+◌, ◌-◌, ◌/◌, ◌%◌, Bool, true, false, List, [], ◌∷◌, Option, none, some, ◌⊎◌, inl, inr,
  ◌==◌, not, ◌||◌, if◌then◌else◌,
}
use nsb.Base.Int.{ℤ, pos, neg, is_zero, einval, erange}
use nsb.Base.Word.{add64, sub64}
use nsb.DlMap.{
  DlMap, dl_map_start, dl_map_end, add_dl_vma_sorted, dl_map_jump_hint, dl_map_check_jump_range,
}
use nsb.Elf.{Phdr}
use nsb.Process.Place.{process_find_place_for_elf}
use nsb.Vma.{VmaArea, Prot, page_size, map_private, map_fixed}

-- `ELF_PAGESTART`
abbrev pub page_start : ℕ → ℕ
page_start v = v - v % page_size

-- `ELF_PAGEOFFSET`
abbrev pub page_offset : ℕ → ℕ
page_offset v = v % page_size

-- `ELF_PAGEALIGN`
abbrev pub page_align : ℕ → ℕ
page_align v = page_start (add64 v (page_size - 1))

-- A bit of `p_flags`.
abbrev flag : ℕ → ℕ → Bool
flag flags bit = (flags / bit) % 2 == 1

-- The structure is fresh, at the address `id`; the fields that the source leaves unset are cleared.
unfoldable pub create_elf_vma : (id : ℕ) → Phdr → VmaArea
create_elf_vma id p = record {
  id = id;
  addr = p.p_vaddr;
  len = page_align (add64 p.p_filesz (page_offset p.p_vaddr));
  flags = map_private + map_fixed;
  prot = record { read = flag p.p_flags 4; write = flag p.p_flags 2; exec = flag p.p_flags 1 };
  offset = sub64 p.p_offset (page_offset p.p_vaddr);
  path = none;
  map_file = none;
  dlm = none;
}

module _ (alloc_succeeds : ℕ → Bool) where
  -- The loop over the program headers; `err` is the result of the rounds before, and the last number
  -- counts allocations. On an error the mappings that were added stay with the object: the source's
  -- clean-up walks a list that nothing was put in.
  unfoldable pub load_phdrs : ℤ → List (Option Phdr) → DlMap → ℕ → ℤ × DlMap
  unfolding create_elf_vma
  load_phdrs err [] dlm n = (pos 0, dlm)
  load_phdrs err (none ∷ ps) dlm n = (err, dlm)
  load_phdrs err (some p ∷ ps) dlm n =
      let skipped = load_phdrs err ps dlm n in
      let (err', dlm') = add_dl_vma_sorted dlm (create_elf_vma n p) in
      let rest = load_phdrs err' ps dlm' (suc n) in
      if not (p.p_type == 1)
      then skipped
      else if not (alloc_succeeds n)
      then (err, dlm)
      else if is_zero err'
      then rest
      else (err', dlm')

  abbrev has_mappings : List VmaArea → Bool
  has_mappings [] = false
  has_mappings (v ∷ vs) = true

  unfoldable pub create_elf_mmaps : DlMap → ℕ → ℤ × DlMap
  unfolding load_phdrs
  create_elf_mmaps dlm n = elim dlm.ei.phdrs [
    | none ↦ (neg 1, dlm)
    | some ps ↦
        let (err, dlm') = load_phdrs (neg 1) ps dlm n in
        (if is_zero err then (if has_mappings dlm'.vmas then pos 0 else einval) else err, dlm')
  ]

unfoldable pub pin_elf_mmap : (hole : ℕ) → VmaArea → VmaArea
pin_elf_mmap hole vma = record vma { addr = page_start (add64 hole vma.addr) }

unfoldable pub pin_all : (hole : ℕ) → List VmaArea → List VmaArea
unfolding pin_elf_mmap
pin_all hole [] = []
pin_all hole (v ∷ vs) = pin_elf_mmap hole v ∷ pin_all hole vs

unfoldable pub load_size : DlMap → ℕ
load_size dlm = sub64 (page_start (dl_map_end dlm)) (page_start (dl_map_start dlm))

-- `objects`, `past_head` and `vmas` are the process's: see process_find_place_for_elf.
unfoldable pub pin_elf_mmaps :
    List DlMap → (past_head : ℕ) → List VmaArea → (target dlm : DlMap) → ℤ × DlMap
unfolding pin_all load_size
pin_elf_mmaps objects past_head vmas target dlm =
    let size = load_size dlm in
    elim (process_find_place_for_elf objects past_head vmas (dl_map_jump_hint target) size) [
      | inl err ↦ (err, dlm)
      | inr hole ↦
          if not (is_zero (dl_map_check_jump_range target hole))
            || not (is_zero (dl_map_check_jump_range target (add64 hole size)))
          then (erange, dlm)
          else (pos 0, record dlm { vmas = pin_all hole dlm.vmas })
    ]
