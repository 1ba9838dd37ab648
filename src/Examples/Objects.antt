-- ===== src/Examples/Objects.antt =====
-- Examples for the ELF objects of a process.
use mathlib.Core.List.{Perm}
use nsb.Base.{◌≡◌, refl, inl, inr, true, List, [], ◌∷◌, some, All, arith}
use nsb.Base.Int.{is_zero}
use nsb.Base.Text.{codes, str_eq}
use nsb.DlMap.{add_dl_vma_sorted, link_dl_vma}
use nsb.DlMap.Collect.{
  Files, alloc_dl_map, create_dl_map_by_vma, join_dl_map, start_dl_map, collect_dl_map_vma,
  collect_dl_maps, listed,
}
use nsb.DlMap.Grouped.{elf_vmas, mapped, collect_dl_maps-IsValid}
use nsb.DlMap.Partition.{collect_dl_maps-partition}
use nsb.DlMap.Valid.{IsValid}
use nsb.Examples.{target, library_elf, text_vma, data_vma}
use nsb.Vma.{VmaArea}

abbrev files : Files
files = record {
  is_elf_file = λ file. true;
  open_elf = λ file. inr library_elf;
  alloc_succeeds = λ n. true;
}

-- Two mappings of one file, and one of another with the same contents.
abbrev vmas : List VmaArea
vmas =
    text_vma 1 0x1000 0x1000
    ∷ data_vma 2 0x2000 0x1000
    ∷ record (text_vma 3 0x5000 0x1000) { path = some (codes "/lib/u.so") }
    ∷ []

collected : is_zero (collect_dl_maps files vmas 10).0 ≡ true
unfolding collect_dl_maps collect_dl_map_vma start_dl_map join_dl_map create_dl_map_by_vma
    alloc_dl_map add_dl_vma_sorted link_dl_vma str_eq
collected = refl

target-IsValid : IsValid target
target-IsValid = record {
  sorted = (omega arith, (omega arith, tt));
  one_exec = refl;
  exec_known = (inr refl, (inl refl, tt));
}

collect_dl_maps-IsValid_example : All IsValid (listed files (collect_dl_maps files vmas 10).2)
collect_dl_maps-IsValid_example = collect_dl_maps-IsValid files vmas 10

collect_dl_maps-partition_example :
    let (ret, vmas', s) = collect_dl_maps files vmas 10 in
    Perm (elf_vmas files vmas') (mapped (listed files s))
collect_dl_maps-partition_example = collect_dl_maps-partition files vmas 10 collected
