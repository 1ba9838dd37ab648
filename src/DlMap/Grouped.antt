-- ===== src/DlMap/Grouped.antt =====
-- What `collect_dl_maps` of patcher/dl_map.c makes of the mappings.
use mathlib.Core.List.{append_assoc}
use nsb.Base.{
  ℕ, ◌≡◌, refl, inl, inr, Bool, true, false, List, [], ◌∷◌, ◌++◌, Option, none, some, All,
  All-append, Bool-cases, Option-cases, arith, if◌then◌else◌,
}
use nsb.Base.Int.{pos, is_zero}
use nsb.Base.Loop.{for_each_entry-keeps}
use nsb.Base.Text.{Text, same_text}
use nsb.DlMap.{DlMap}
use nsb.DlMap.Collect.{
  Files, DlInfo, option_list, create_dl_map_by_vma, join_dl_map, start_dl_map, continue_or_start,
  collect_dl_map_vma, listed, collect_dl_maps,
}
use nsb.DlMap.Valid.{IsValid, add_dl_vma_sorted-IsValid}
use nsb.Vma.{VmaArea}

module _ (files : Files) where
  -- The mappings of ELF files, in order.
  abbrev pub elf_backed : VmaArea → Bool
  elf_backed v = elim v.map_file [ none ↦ false | some f ↦ files.is_elf_file f ]

  abbrev pub elf_vmas : List VmaArea → List VmaArea
  elf_vmas [] = []
  elf_vmas (v ∷ vs) = (if elf_backed v then v ∷ [] else []) ++ elf_vmas vs

-- The mappings of all objects, in order.
abbrev pub mapped : List DlMap → List VmaArea
mapped [] = []
mapped (d ∷ ds) = d.vmas ++ mapped ds

pub mapped-append : (ds es : List DlMap) → mapped (ds ++ es) ≡ mapped ds ++ mapped es
mapped-append [] es = refl
mapped-append (d ∷ ds) es = rw (mapped-append ds es, append_assoc)

-- The state's invariant: every object is valid.
abbrev pub AllValid : DlInfo → Type 0
AllValid s = All IsValid s.earlier × All IsValid (option_list s.dlm)

earlier-IsValid :
    (linked : Bool) (ds es : List DlMap)
    → All IsValid ds
    → All IsValid es
    → All IsValid (if linked then ds ++ es else [])
earlier-IsValid true ds es h k = All-append IsValid ds es h k
earlier-IsValid false ds es h k = tt

module _ (files : Files) where
  pub created_empty :
      (vma : VmaArea) (file : Text) (n : ℕ) (d : DlMap)
      → (create_dl_map_by_vma files vma file n).1 ≡ some d
      → (d.vmas ≡ []) × (d.exec_vma ≡ none) × ((create_dl_map_by_vma files vma file n).0 ≡ pos 0)
  unfolding create_dl_map_by_vma
  created_empty vma file n d e = ground arith

  pub created_none :
      (vma : VmaArea) (file : Text) (n : ℕ)
      → (create_dl_map_by_vma files vma file n).1 ≡ none
      → is_zero (create_dl_map_by_vma files vma file n).0 ≡ false
  unfolding create_dl_map_by_vma
  created_none vma file n e = ground arith

  pub IsValid-of_empty : (d : DlMap) → d.vmas ≡ [] → d.exec_vma ≡ none → IsValid d
  IsValid-of_empty d e f = record { sorted = rw e tt; one_exec = rw (e, f); exec_known = rw e tt }

  -- Joining the current object: it stays valid, and on success it has gained the mapping.
  pub join_lem :
      (dlm : DlMap) (vma : VmaArea) (s : DlInfo)
      → All IsValid s.earlier
      → IsValid dlm
      → AllValid (join_dl_map files dlm vma s).2
  unfolding join_dl_map
  join_lem dlm vma s hs h =
      elim (add_dl_vma_sorted-IsValid dlm (record vma { dlm = some dlm.id }) h) [
        | inl (exec, has, e) ↦ (hs, ((rw e h), tt))
        | inr (ok, valid, all) ↦ (hs, (valid, tt))
      ]

  pub start-AllValid :
      (vma : VmaArea) (file : Text) (s : DlInfo)
      → AllValid s
      → AllValid (start_dl_map files vma file s).2
  unfolding start_dl_map
  start-AllValid vma file s (hs, h) =
      elim (Option-cases (create_dl_map_by_vma files vma file s.allocs).1) [
        | inl e ↦ rw (e, start_dl_map) (hs, h)
        | inr (d, e) ↦
            let empty = created_empty vma file s.allocs d e in
            rw (e, start_dl_map)
              (join_lem d vma _ (earlier-IsValid s.linked s.earlier (option_list s.dlm) hs h)
                (IsValid-of_empty d empty.0 empty.1))
      ]

  pub continue-AllValid :
      (o : Option DlMap) (vma : VmaArea) (file : Text) (s : DlInfo)
      → AllValid s
      → All IsValid (option_list o)
      → AllValid (continue_or_start files o vma file s).2
  continue-AllValid none vma file s h k = start-AllValid vma file s h
  continue-AllValid (some d) vma file s h k = elim (Bool-cases (same_text d.path vma.path)) [
    | inl e ↦ rw e (join_lem d vma s h.0 k.0)
    | inr e ↦ rw e (start-AllValid vma file s h)
  ]

  pub collect_unbacked :
      (vma : VmaArea) (s : DlInfo)
      → elf_backed files vma ≡ false
      → collect_dl_map_vma files vma s ≡ (pos 0, vma ∷ [], s)
  unfolding collect_dl_map_vma
  collect_unbacked vma s h = ground arith

  pub collect_backed :
      (vma : VmaArea) (s : DlInfo)
      → elf_backed files vma ≡ true
      → (file : Text) × (collect_dl_map_vma files vma s ≡ continue_or_start files s.dlm vma file s)
  unfolding collect_dl_map_vma
  collect_backed vma s h = elim (Option-cases vma.map_file) [
    | inl e ↦ absurd (ground (arith, e))
    | inr (file, e) ↦ (file, ground (arith, e))
  ]

  pub collect-AllValid :
      (vma : VmaArea) (s : DlInfo) → AllValid s → AllValid (collect_dl_map_vma files vma s).2
  collect-AllValid vma s h = elim (Bool-cases (elf_backed files vma)) [
    | inr e ↦ rw (collect_unbacked vma s e) h
    | inl e ↦
        let (file, eq) = collect_backed vma s e in rw eq (continue-AllValid s.dlm vma file s h h.1)
  ]

  -- Every object that `collect_dl_maps` has built is valid, also where it ends with an error: its
  -- mappings are sorted, at most one is executable, and `exec_vma` points to that one.
  pub collect_dl_maps-IsValid :
      (vmas : List VmaArea) (allocs : ℕ)
      → All IsValid (listed files (collect_dl_maps files vmas allocs).2)
  unfolding collect_dl_maps
  collect_dl_maps-IsValid vmas allocs =
      let valid =
        for_each_entry-keeps AllValid (collect_dl_map_vma files) collect-AllValid vmas _ (tt, tt) in
      All-append IsValid _ _ valid.0 valid.1
