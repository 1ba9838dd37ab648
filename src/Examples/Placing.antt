-- ===== src/Examples/Placing.antt =====
-- Examples for the place of a patch.
use nsb.Base.{ℕ, ◌+◌, ◌-◌, ◌%◌, ◌≤◌, ◌<◌, ◌≡◌, refl, ◌⊎◌, none, List, [], ◌∷◌, All, arith}
use nsb.Base.Int.{pos}
use nsb.DlMap.{DlMap, dl_map_jump_hint, dl_map_check_jump_range}
use nsb.DlMap.Range.{check_jump_range-Reaches}
use nsb.Elf.{Phdr}
use nsb.Elf.Load.{create_elf_vma, pin_elf_mmap, pin_elf_mmaps}
use nsb.Elf.Load.Pinned.{Linked, pin_create-covers}
use nsb.Elf.Load.Safe.{Disjoint, InUserSpace, pin_elf_mmaps-Disjoint, pin_elf_mmaps-Reaches}
use nsb.Examples.{target, patch_dlm, text_vma, data_vma}
use nsb.Process.Place.{find_hole, iterate_find_hole, process_find_place_for_elf}
use nsb.Process.Place.Fits.{Apart}
use nsb.Vma.{VmaArea, vma_end, page_size}
use nsb.X86.Jump.{Reaches}

-- A patch as it is linked, at 0.
abbrev linked_patch : DlMap
linked_patch = record patch_dlm { vmas = text_vma 3 0 0x1000 ∷ data_vma 4 0x2000 0x1000 ∷ [] }

abbrev segment : Phdr
segment = record { p_type = 1; p_flags = 5; p_offset = 0x1234; p_vaddr = 0x3234; p_filesz = 0x2000 }

-- The mappings of the process: the target's, and a library behind it.
abbrev vmas : List VmaArea
vmas =
    text_vma 1 0x10000000 0x2000
    ∷ data_vma 2 0x10002000 0x1000
    ∷ record (text_vma 5 0x10004000 0x1000) { dlm = none }
    ∷ []

apart : Apart 0 vmas
apart = (omega arith, omega arith, (omega arith, omega arith, (omega arith, omega arith, tt)))

-- Behind the last mapping the search reads what stands behind the head of the list.
abbrev past : ℕ
past = 0x7f0000000000

placed_patch : pin_elf_mmaps (target ∷ []) past vmas target linked_patch ≡ (
  pos 0,
  record linked_patch { vmas = text_vma 3 0x10005000 0x1000 ∷ data_vma 4 0x10007000 0x1000 ∷ [] },
)
unfolding pin_elf_mmaps process_find_place_for_elf iterate_find_hole find_hole dl_map_jump_hint
    dl_map_check_jump_range
placed_patch = refl

abbrev pinned : DlMap
pinned = record linked_patch {
  vmas = text_vma 3 0x10005000 0x1000 ∷ data_vma 4 0x10007000 0x1000 ∷ [];
}

whole_pages : All (λ (v : VmaArea). vma_end v % page_size ≡ 0) vmas
whole_pages = (refl, (refl, (refl, tt)))

in_user_space : InUserSpace target
in_user_space = record { ordered = omega arith; low = omega arith; whole_pages = refl }

is_Linked : Linked linked_patch
is_Linked =
    (omega arith, omega arith, ((omega arith, omega arith), ((omega arith, omega arith), tt)))

pin_elf_mmaps-Disjoint_example : All (λ (v : VmaArea). All (Disjoint v) vmas) pinned.vmas
pin_elf_mmaps-Disjoint_example =
    pin_elf_mmaps-Disjoint (target ∷ []) past vmas target linked_patch pinned apart whole_pages
      in_user_space is_Linked placed_patch

pin_elf_mmaps-Reaches_example :
    All (λ (v : VmaArea). (v.len < 0x800) ⊎ Reaches 0x10000100 (v.addr + 0x800)) pinned.vmas
pin_elf_mmaps-Reaches_example =
    pin_elf_mmaps-Reaches (target ∷ []) past vmas target linked_patch pinned 0x10000100 0x800
      whole_pages in_user_space is_Linked placed_patch (omega arith) (omega arith)

pin_create-covers_example :
    let v = pin_elf_mmap 0x10005000 (create_elf_vma 9 segment) in
    (v.addr % 4096 ≡ 0)
    × (v.len % 4096 ≡ 0)
    × (v.offset % 4096 ≡ 0)
    × (v.addr ≤ 0x10008235)
    × (0x10008235 < v.addr + v.len)
    × (v.offset + (0x10008235 - v.addr) ≡ 0x1235)
pin_create-covers_example =
    pin_create-covers 9 0x10005000 segment 1 refl refl (omega arith) (omega arith) (omega arith)

lo : dl_map_check_jump_range target 0x10005000 ≡ pos 0
unfolding dl_map_check_jump_range
lo = refl

hi : dl_map_check_jump_range target (0x10005000 + 0x3000) ≡ pos 0
unfolding dl_map_check_jump_range
hi = refl

check_jump_range-Reaches_example : Reaches 0x10000100 0x10005500
check_jump_range-Reaches_example =
    check_jump_range-Reaches target 0x10005000 0x3000 0x10000100 0x10005500 lo hi (omega arith)
      (omega arith) (omega arith) (omega arith) (omega arith)
