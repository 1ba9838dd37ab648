-- ===== src/DlMap.antt =====
-- The ELF objects that a process has mapped (patcher/dl_map.c, patcher/include/dl_map.h). `exec_vma`
-- points to one of the object's mappings: it is that mapping's `id`, looked up in the list.
pub mod Collect
pub mod Find
pub mod Grouped
pub mod Partition
pub mod Range
pub mod Valid
use nsb.Base.{
  ℕ, ◌+◌, Bool, true, false, List, [], ◌∷◌, ◌++◌, Option, none, some, first?, last?, ltb, ◌==◌, not,
  ◌&&◌, if◌then◌else◌,
}
use nsb.Base.Int.{ℤ, pos, is_neg, is_zero, eq_ℤ, neg, efault, einval, enoent, erange}
use nsb.Base.Loop.{for_each_entry}
use nsb.Base.Text.{Text}
use nsb.Base.Word.{add64}
use nsb.Elf.{ElfInfo, elf_type_dyn}
use nsb.Vma.{VmaArea, vma_start, vma_end, add_vma, iterate_vmas, starts_after_last}
use nsb.X86.{x86_jump_min_address, x86_jump_max_address}

pub record DlMap : Type 0 where
  pub id : ℕ
  pub path : Option Text
  pub vmas : List VmaArea
  pub ei : ElfInfo
  pub exec_vma : Option ℕ

-- The structure that a pointer points to.
abbrev pub find_id : ℕ → List VmaArea → Option VmaArea
find_id i [] = none
find_id i (v ∷ vs) = if v.id == i then some v else find_id i vs

abbrev pub first_dl_vma : DlMap → Option VmaArea
first_dl_vma dlm = first? dlm.vmas

abbrev pub last_dl_vma : DlMap → Option VmaArea
last_dl_vma dlm = last? dlm.vmas

-- A NULL pointer is not dereferenced by any caller that gets here; the model reads 0 there.
abbrev pub start_of : Option VmaArea → ℕ
start_of none = 0
start_of (some v) = vma_start v

abbrev pub end_of : Option VmaArea → ℕ
end_of none = 0
end_of (some v) = vma_end v

abbrev pub dl_map_start : DlMap → ℕ
dl_map_start dlm = start_of (first_dl_vma dlm)

abbrev pub dl_map_end : DlMap → ℕ
dl_map_end dlm = end_of (last_dl_vma dlm)

-- The mapping that `exec_vma` points to.
abbrev pub exec_of : DlMap → Option VmaArea
exec_of dlm = elim dlm.exec_vma [ none ↦ none | some i ↦ find_id i dlm.vmas ]

unfoldable pub dlm_load_base : DlMap → ℕ
unfolding elf_type_dyn
dlm_load_base dlm = if elf_type_dyn dlm.ei then start_of (exec_of dlm) else 0

-- The walk of `add_dl_vma_sorted` behind its check; its actor `add_dl_vma` does what `add_vma` does,
-- on the object's list.
unfoldable pub link_dl_vma : DlMap → VmaArea → ℤ × DlMap
unfolding add_vma for_each_entry
link_dl_vma dlm vma =
    if starts_after_last vma (last_dl_vma dlm)
    then (pos 0, record dlm { vmas = dlm.vmas ++ vma ∷ [] })
    else let (ret, vmas', s) = iterate_vmas (add_vma vma) dlm.vmas tt in
      let dlm' = record dlm { vmas = vmas' } in
      if eq_ℤ ret (pos 1) then (pos 0, dlm') else (if is_neg ret then ret else efault, dlm')

abbrev is_some_id : Option ℕ → Bool
is_some_id none = false
is_some_id (some i) = true

unfoldable pub add_dl_vma_sorted : DlMap → VmaArea → ℤ × DlMap
add_dl_vma_sorted dlm vma =
    if vma.prot.exec
    then if is_some_id dlm.exec_vma
      then (einval, dlm)
      else link_dl_vma (record dlm { exec_vma = some vma.id }) vma
    else link_dl_vma dlm vma

-- Where the search for a place for a patch of the object begins.
unfoldable pub dl_map_jump_hint : DlMap → ℕ
unfolding elf_type_dyn x86_jump_min_address
dl_map_jump_hint dlm =
    if not (elf_type_dyn dlm.ei) then dl_map_end dlm else x86_jump_min_address (dl_map_end dlm)

unfoldable pub dl_map_check_jump_range : DlMap → ℕ → ℤ
unfolding x86_jump_min_address x86_jump_max_address
dl_map_check_jump_range dlm base =
    if ltb base (x86_jump_min_address (dl_map_end dlm))
    then erange
    else if ltb (x86_jump_max_address (dl_map_start dlm)) base
    then erange
    else pos 0
