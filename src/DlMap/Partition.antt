-- ===== src/DlMap/Partition.antt =====
-- `collect_dl_maps` of patcher/dl_map.c splits the mappings of ELF files among the objects.
use mathlib.Core.List.{Perm, perm_append_singleton, append-nil, append_assoc}
use mathlib.Core.List.Perm
use nsb.Base.{
  ℕ, suc, ◌≡◌, refl, ap, inl, inr, true, List, [], ◌∷◌, ◌++◌, Option, none, some, All, Bool-cases,
  Option-cases, arith,
}
use nsb.Base.Int.{ℤ, is_zero}
use nsb.Base.Loop.{for_each_entry}
use nsb.Base.Text.{Text, same_text}
use nsb.DlMap.{DlMap}
use nsb.DlMap.Collect.{
  Files, DlInfo, option_list, create_dl_map_by_vma, join_dl_map, start_dl_map, continue_or_start,
  collect_dl_map_vma, listed, collect_dl_maps,
}
use nsb.DlMap.Grouped.{
  elf_backed, elf_vmas, mapped, mapped-append, AllValid, created_empty, created_none,
  IsValid-of_empty, collect_unbacked, collect_backed, collect-AllValid,
}
use nsb.DlMap.Valid.{IsValid, add_dl_vma_sorted-IsValid}
use nsb.Vma.{VmaArea}

module _ (files : Files) where
  -- A step of the walk that succeeds puts the ELF mappings of its entry in the objects.
  abbrev Gains : List DlMap → ℤ × List VmaArea × DlInfo → Type 0
  Gains before (err, here, s') =
      is_zero err ≡ true → Perm (mapped before ++ elf_vmas files here) (mapped (listed files s'))

  gain_one :
      (es : List DlMap) (d d' : DlMap) (v : VmaArea)
      → Perm (v ∷ d.vmas) d'.vmas
      → Perm (mapped (es ++ d ∷ []) ++ v ∷ []) (mapped (es ++ d' ∷ []))
  gain_one es d d' v p =
      rw
        (
          mapped-append es (d ∷ []),
          mapped-append es (d' ∷ []),
          append-nil d.vmas,
          append-nil d'.vmas,
          append_assoc,
        )
        (Perm.append_left (mapped es) (Perm.trans (perm_append_singleton v d.vmas) p))

  join-Gains :
      (dlm : DlMap) (vma : VmaArea) (s : DlInfo)
      → IsValid dlm
      → elf_backed files vma ≡ true
      → Gains (s.earlier ++ dlm ∷ []) (join_dl_map files dlm vma s)
  unfolding join_dl_map
  join-Gains dlm vma s h b z =
      elim (add_dl_vma_sorted-IsValid dlm (record vma { dlm = some dlm.id }) h) [
        | inl (exec, has, e) ↦ absurd (ground (arith, e))
        | inr (ok, valid, all) ↦
            rw b (gain_one s.earlier dlm _ (record vma { dlm = some dlm.id }) all)
      ]

  start_fails :
      (vma : VmaArea) (file : Text) (s : DlInfo)
      → (create_dl_map_by_vma files vma file s.allocs).1 ≡ none
      → is_zero (start_dl_map files vma file s).0 ≡ true
      → ⊥
  unfolding start_dl_map
  start_fails vma file s e z = ground (arith, e, created_none files vma file s.allocs e)

  start_eq :
      (vma : VmaArea) (file : Text) (s : DlInfo) (d : DlMap)
      → s.linked ≡ true
      → (create_dl_map_by_vma files vma file s.allocs).1 ≡ some d
      → start_dl_map files vma file s
        ≡ join_dl_map files d vma
            (record s { earlier = listed files s; dlm = some d; allocs = suc s.allocs })
  unfolding start_dl_map
  start_eq vma file s d l e = ground (arith, e, l)

  mapped_empty : (es : List DlMap) (d : DlMap) → d.vmas ≡ [] → mapped (es ++ d ∷ []) ≡ mapped es
  mapped_empty es d e = rw (mapped-append es (d ∷ []), e) (append-nil (mapped es))

  start-Gains :
      (vma : VmaArea) (file : Text) (s : DlInfo)
      → s.linked ≡ true
      → elf_backed files vma ≡ true
      → Gains (listed files s) (start_dl_map files vma file s)
  start-Gains vma file s l b =
      elim (Option-cases (create_dl_map_by_vma files vma file s.allocs).1) [
        | inl e ↦ λ z. absurd (start_fails vma file s e z)
        | inr (d, e) ↦
            let empty = created_empty files vma file s.allocs d e in
            rw (start_eq vma file s d l e, ← mapped_empty (listed files s) d empty.0)
              (join-Gains d vma _ (IsValid-of_empty files d empty.0 empty.1) b)
      ]

  continue-Gains :
      (o : Option DlMap) (vma : VmaArea) (file : Text) (s : DlInfo)
      → AllValid s
      → s.linked ≡ true
      → s.dlm ≡ o
      → elf_backed files vma ≡ true
      → Gains (listed files s) (continue_or_start files o vma file s)
  continue-Gains none vma file s h l e b = start-Gains vma file s l b
  continue-Gains (some d) vma file s h l e b = elim (Bool-cases (same_text d.path vma.path)) [
    | inl same ↦
        let now : listed files s ≡ s.earlier ++ d ∷ [] = ap (λ o. s.earlier ++ option_list o) e in
        let valid : All IsValid (option_list (some d)) = rw e at h.1 in
        rw (same, now) (join-Gains d vma s valid.0 b)
    | inr other ↦ rw other (start-Gains vma file s l b)
  ]

  collect-Gains :
      (vma : VmaArea) (s : DlInfo)
      → AllValid s
      → s.linked ≡ true
      → Gains (listed files s) (collect_dl_map_vma files vma s)
  collect-Gains vma s h l = elim (Bool-cases (elf_backed files vma)) [
    | inr e ↦ rw (collect_unbacked files vma s e, e) (λ z. rw append-nil (Perm.refl _))
    | inl e ↦
        let (file, eq) = collect_backed files vma s e in
        rw eq (continue-Gains s.dlm vma file s h l refl e)
  ]

  collect-linked :
      (vma : VmaArea) (s : DlInfo)
      → s.linked ≡ true
      → (collect_dl_map_vma files vma s).2.linked ≡ true
  unfolding collect_dl_map_vma start_dl_map join_dl_map
  collect-linked vma s l = ground arith

  elf_vmas-append :
      (vs ws : List VmaArea) → elf_vmas files (vs ++ ws) ≡ elf_vmas files vs ++ elf_vmas files ws
  elf_vmas-append [] ws = refl
  elf_vmas-append (v ∷ vs) ws = rw (elf_vmas-append vs ws, append_assoc)

  walk-perm :
      (vmas : List VmaArea) (s : DlInfo)
      → AllValid s
      → s.linked ≡ true
      → Gains (listed files s) (for_each_entry (collect_dl_map_vma files) vmas s)
  unfolding for_each_entry
  walk-perm [] s h l = λ z. rw append-nil (Perm.refl _)
  walk-perm (v ∷ vs) s h l = elim (Bool-cases (is_zero (collect_dl_map_vma files v s).0)) [
    | inr stop ↦ rw (stop, for_each_entry) (λ z. absurd (ground (arith, z, stop)))
    | inl go ↦
        let s1 = (collect_dl_map_vma files v s).2 in
        let rest = for_each_entry (collect_dl_map_vma files) vs s1 in
        let ih = walk-perm vs s1 (collect-AllValid files v s h) (collect-linked v s l) in
        rw (go, for_each_entry)
          (λ z.
            rw (elf_vmas-append (collect_dl_map_vma files v s).1 rest.1, ← append_assoc)
              (Perm.trans (Perm.append_right (elf_vmas files rest.1) (collect-Gains v s h l go))
                (ih z)))
  ]

  -- Where `collect_dl_maps` succeeds, every mapping of an ELF file is in exactly one of the objects,
  -- as often as in the list, and the objects hold nothing else.
  pub collect_dl_maps-partition :
      (vmas : List VmaArea) (allocs : ℕ)
      → is_zero (collect_dl_maps files vmas allocs).0 ≡ true
      → let (ret, vmas', s) = collect_dl_maps files vmas allocs in
        Perm (elf_vmas files vmas') (mapped (listed files s))
  unfolding collect_dl_maps
  collect_dl_maps-partition vmas allocs z = walk-perm vmas _ (tt, tt) refl z
