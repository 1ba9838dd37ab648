-- ===== src/DlMap/Collect.antt =====
-- Sorting the mappings of a process into ELF objects (collect_dl_map_vma, collect_dl_maps and
-- create_dl_map of patcher/dl_map.c).
use nsb.Base.{
  ℕ, suc, Bool, true, false, List, [], ◌∷◌, ◌++◌, Option, none, some, not, ◌⊎◌, inl, inr,
  if◌then◌else◌,
}
use nsb.Base.Int.{ℤ, pos, negsuc, is_zero, enomem}
use nsb.Base.Loop.{Actor}
use nsb.Base.Text.{Text, same_text}
use nsb.DlMap.{DlMap, add_dl_vma_sorted}
use nsb.Elf.{ElfInfo}
use nsb.Vma.{VmaArea, iterate_vmas}

-- What `is_elf_file` and `elf_create_info` of patcher/elf.c find in the file system (a file as libelf
-- decodes it, or n for the error -(n + 1)), and whether the n-th allocation succeeds.
pub record Files : Type 0 where
  pub is_elf_file : Text → Bool
  pub open_elf : Text → ℕ ⊎ ElfInfo
  pub alloc_succeeds : ℕ → Bool

-- `struct dl_info`: `linked` says whether there is a list head, `earlier` are the objects that were
-- put in the list before the current one, which is its last entry.
pub record DlInfo : Type 0 where
  pub linked : Bool
  pub earlier : List DlMap
  pub dlm : Option DlMap
  pub allocs : ℕ

abbrev pub option_list {ℓ} : {A : Type ℓ} → Option A → List A
option_list none = []
option_list (some a) = a ∷ []

abbrev pub dlm_path : Option DlMap → Option Text
dlm_path none = none
dlm_path (some dlm) = dlm.path

module _ (files : Files) where
  open files use {is_elf_file, open_elf, alloc_succeeds}

  unfoldable pub alloc_dl_map : ElfInfo → Option Text → ℕ → Option DlMap
  alloc_dl_map ei path n =
      if alloc_succeeds n
      then some (record { id = n; path = path; vmas = []; ei = ei; exec_vma = none })
      else none

  unfoldable pub create_dl_map_by_vma : VmaArea → Text → ℕ → ℤ × Option DlMap
  unfolding alloc_dl_map
  create_dl_map_by_vma vma map_file n = elim (open_elf map_file) [
    | inl e ↦ (negsuc e, none)
    | inr ei ↦ (elim (alloc_dl_map ei vma.path n) [
      | none ↦ (enomem, none)
      | some dlm ↦ (pos 0, some dlm)
    ])
  ]

  -- The mapping is put in the object, and points to it from then on.
  unfoldable pub join_dl_map : DlMap → VmaArea → DlInfo → ℤ × List VmaArea × DlInfo
  join_dl_map dlm vma s =
      let vma' = record vma { dlm = some dlm.id } in
      let (ret, dlm') = add_dl_vma_sorted dlm vma' in (ret, vma' ∷ [], record s { dlm = some dlm' })

  -- A new object is begun, and takes the place of the current one.
  unfoldable pub start_dl_map : VmaArea → Text → DlInfo → ℤ × List VmaArea × DlInfo
  start_dl_map vma map_file s =
      let (err, made) = create_dl_map_by_vma vma map_file s.allocs in
      elim made [
        | none ↦ (err, vma ∷ [], record s { allocs = suc s.allocs })
        | some dlm ↦ join_dl_map dlm vma (record s {
          earlier = if s.linked then s.earlier ++ option_list s.dlm else [];
          dlm = some dlm;
          allocs = suc s.allocs;
        })
      ]

  abbrev pub continue_or_start : Option DlMap → VmaArea → Text → DlInfo → ℤ × List VmaArea × DlInfo
  continue_or_start none vma map_file s = start_dl_map vma map_file s
  continue_or_start (some dlm) vma map_file s =
      if same_text dlm.path vma.path then join_dl_map dlm vma s else start_dl_map vma map_file s

  unfoldable pub collect_dl_map_vma : Actor VmaArea DlInfo
  collect_dl_map_vma vma s = elim vma.map_file [
    | none ↦ (pos 0, vma ∷ [], s)
    | some map_file ↦
        if not (is_elf_file map_file)
        then (pos 0, vma ∷ [], s)
        else continue_or_start s.dlm vma map_file s
  ]

  -- The objects in the list, in order.
  abbrev pub listed : DlInfo → List DlMap
  listed s = s.earlier ++ option_list s.dlm

  -- The result, the mappings, and the objects, for an empty list of objects.
  unfoldable pub collect_dl_maps : List VmaArea → ℕ → ℤ × List VmaArea × DlInfo
  collect_dl_maps vmas allocs =
      iterate_vmas collect_dl_map_vma vmas
        (record { linked = true; earlier = []; dlm = none; allocs = allocs })

  -- The object of the last mapping, where all mappings are of one.
  unfoldable pub create_dl_map : List VmaArea → ℕ → ℤ × List VmaArea × Option DlMap
  create_dl_map vmas allocs =
      let (err, vmas', s) =
        iterate_vmas collect_dl_map_vma vmas
          (record { linked = false; earlier = []; dlm = none; allocs = allocs }) in
      (err, vmas', if is_zero err then s.dlm else none)
