-- ===== src/Examples/Mappings.antt =====
-- Examples for the mappings of a process.
use mathlib.Core.List.{Perm}
use nsb.Base.{◌≡◌, refl, true, List, [], ◌∷◌, map, some, arith}
use nsb.Base.Int.{pos}
use nsb.Base.Text.{Text, codes}
use nsb.Examples.{text_vma, data_vma}
use nsb.Vma.{VmaArea, add_vma_sorted, splice_vma_lists_sorted}
use nsb.Vma.Collect.{Host, Collected, create_vma, collect_vmas}
use nsb.Vma.Collected.{described, mapping, collect_vmas-IsSorted, collect_vmas-described}
use nsb.Vma.Parse.{parse_vma, zeroed_vma}
use nsb.Vma.Sorted.{IsSorted, add_vma_sorted-IsSorted, splice-IsSorted}

abbrev two_lines : List Text
two_lines =
    codes "400000-401000 r-xp 00000000 08:01 77 /bin/a\n"
    ∷ codes "401000-402000 rw-p 00001000 08:01 77 /bin/a\n"
    ∷ []

abbrev host : Host
host = record {
  alloc_succeeds = λ n. true;
  map_file_of = λ pid start end. codes "m";
  access = λ file. true;
  maps = λ pid. some two_lines;
}

abbrev nothing : Collected
nothing = record { vmas = []; allocs = 0 }

abbrev sorted_two : List VmaArea
sorted_two = text_vma 1 0x1000 0x1000 ∷ data_vma 2 0x3000 0x1000 ∷ []

parsed :
    (parse_vma (codes "400000-401000 r-xp 00001000 08:01 77 /bin/a") (zeroed_vma 0)).1.offset
    ≡ 0x1000
unfolding parse_vma
parsed = refl

in_order :
    add_vma_sorted sorted_two (data_vma 3 0x2000 0x1000)
    ≡ (pos 0, text_vma 1 0x1000 0x1000 ∷ data_vma 3 0x2000 0x1000 ∷ data_vma 2 0x3000 0x1000 ∷ [])
unfolding add_vma_sorted
in_order = refl

sorted_two-IsSorted : IsSorted sorted_two
sorted_two-IsSorted = (omega arith, (omega arith, tt))

two_collected : collect_vmas host 5 nothing ≡ (pos 0, (collect_vmas host 5 nothing).1)
unfolding collect_vmas parse_vma create_vma add_vma_sorted
two_collected = refl

add_vma_sorted-IsSorted_example :
    let (ret, vs') = add_vma_sorted sorted_two (data_vma 3 0x2000 0x1000) in
    (ret ≡ pos 0) × IsSorted vs' × Perm (data_vma 3 0x2000 0x1000 ∷ sorted_two) vs'
add_vma_sorted-IsSorted_example =
    add_vma_sorted-IsSorted sorted_two (data_vma 3 0x2000 0x1000) sorted_two-IsSorted

splice-IsSorted_example :
    let (err, left, to') = splice_vma_lists_sorted (data_vma 3 0x2000 0x1000 ∷ []) sorted_two in
    (err ≡ pos 0) × (left ≡ []) × IsSorted to' × Perm (data_vma 3 0x2000 0x1000 ∷ sorted_two) to'
splice-IsSorted_example =
    splice-IsSorted (data_vma 3 0x2000 0x1000 ∷ []) sorted_two sorted_two-IsSorted

collect_vmas-IsSorted_example : IsSorted (collect_vmas host 5 nothing).1.vmas
collect_vmas-IsSorted_example = collect_vmas-IsSorted host 5 nothing tt

collect_vmas-described_example :
    (line : Text) × (rest : List Text) × (some two_lines ≡ some (line ∷ rest))
    × Perm (described (line ∷ rest)) (map mapping (collect_vmas host 5 nothing).1.vmas)
collect_vmas-described_example =
    collect_vmas-described host 5 0 (collect_vmas host 5 nothing).1 two_collected
