-- ===== src/Vma/Collected.antt =====
-- What `collect_vmas` of patcher/vma.c has in its list in the end.
use mathlib.Core.List.{Perm, perm_middle, append-nil}
use mathlib.Core.List.Perm
use nsb.Base.{
  ℕ, ◌≡◌, sym, ap, true, false, List, [], ◌∷◌, ◌++◌, map, Option, none, some, Bool-cases,
  Option-cases, arith, inl, inr,
}
use nsb.Base.Int.{ℤ, pos, neg, is_zero}
use nsb.Base.Text.{Text}
use nsb.Vma.{VmaArea, Prot}
use nsb.Vma.Collect.{
  Host, Collected, chomp, create_vma, collect_vma, iter_lines, iter_map_files, collect_vmas,
  iter_lines-keeps,
}
use nsb.Vma.Parse.{parse_vma, zeroed_vma}
use nsb.Vma.Sorted.{IsSorted, add_vma_sorted-IsSorted, add_vma_sorted-perm}

-- A mapping without what belongs to its structure: its address, the copy's link and its object.
pub record Mapping : Type 0 where
  pub addr : ℕ
  pub len : ℕ
  pub flags : ℕ
  pub prot : Prot
  pub offset : ℕ
  pub path : Option Text

abbrev pub mapping : VmaArea → Mapping
mapping v = record {
  addr = v.addr;
  len = v.len;
  flags = v.flags;
  prot = v.prot;
  offset = v.offset;
  path = v.path;
}

-- The mappings that the lines of the file describe.
abbrev pub described : List Text → List Mapping
described [] = []
described (line ∷ rest) = mapping (parse_vma (chomp line) (zeroed_vma 0)).1 ∷ described rest

-- A mapping is created whole, or not at all with a result other than 0.
abbrev Created : VmaArea → ℤ → Option VmaArea → Type 0
Created v err none = is_zero err ≡ false
Created v err (some w) = (err ≡ pos 0) × (mapping w ≡ mapping v)

module _ (host : Host) where
  create_vma-Created :
      (pid : ℕ) (v : VmaArea) (n : ℕ)
      → let (err, vma, k) = create_vma host pid v n in Created v err vma
  unfolding create_vma
  create_vma-Created pid v n = ground arith

  collect_vma-IsSorted :
      (pid : ℕ) (v : VmaArea) (s : Collected)
      → IsSorted s.vmas
      → IsSorted (collect_vma host pid v s).1.vmas
  unfolding collect_vma
  collect_vma-IsSorted pid v s h = elim (Option-cases (create_vma host pid v s.allocs).1) [
    | inl e ↦ rw (e, collect_vma) h
    | inr (w, e) ↦ rw (e, collect_vma) (add_vma_sorted-IsSorted s.vmas w h).1
  ]

  collect_vma-perm :
      (pid : ℕ) (v : VmaArea) (s : Collected)
      → is_zero (collect_vma host pid v s).0 ≡ true
      → Perm (mapping v ∷ map mapping s.vmas) (map mapping (collect_vma host pid v s).1.vmas)
  unfolding collect_vma
  collect_vma-perm pid v s h = elim (Option-cases (create_vma host pid v s.allocs).1) [
    | inl e ↦
        let made : Created v (create_vma host pid v s.allocs).0 none =
          rw e at (create_vma-Created pid v s.allocs) in
        absurd (ground (arith, made, e))
    | inr (w, e) ↦
        let made : Created v (create_vma host pid v s.allocs).0 (some w) =
          rw e at (create_vma-Created pid v s.allocs) in
        rw (e, collect_vma, sym made.1) (Perm.map mapping (add_vma_sorted-perm s.vmas w).1)
  ]

  iter_lines-perm :
      (pid : ℕ) (ret : ℤ) (lines : List Text) (s s' : Collected)
      → iter_lines host (collect_vma host pid) ret lines s ≡ (pos 0, s')
      → Perm (described lines ++ map mapping s.vmas) (map mapping s'.vmas)
  unfolding iter_lines
  iter_lines-perm pid ret [] s s' h = rw (ap (λ (t : ℤ × Collected). t.1) h) (Perm.refl _)
  iter_lines-perm pid ret (line ∷ rest) s s' h =
      let v = (parse_vma (chomp line) (zeroed_vma 0)).1 in
      elim (Bool-cases (is_zero (parse_vma (chomp line) (zeroed_vma 0)).0)) [
        | inr bad ↦ absurd (ground (arith, bad))
        | inl good ↦ elim (Bool-cases (is_zero (collect_vma host pid v s).0)) [
          | inr stop ↦ absurd (ground (arith, good, stop))
          | inl go ↦
              let t = (collect_vma host pid v s).1 in
              let ih =
                iter_lines-perm pid (collect_vma host pid v s).0 rest t s'
                  (rw (good, go, iter_lines) at h) in
              Perm.trans (Perm.symm (perm_middle (described rest) (map mapping s.vmas)))
                (Perm.trans (Perm.append_left (described rest) (collect_vma-perm pid v s go)) ih)
        ]
      ]

  -- `collect_vmas` keeps its list sorted by start address on every path, errors included.
  pub collect_vmas-IsSorted :
      (pid : ℕ) (s : Collected) → IsSorted s.vmas → IsSorted (collect_vmas host pid s).1.vmas
  unfolding collect_vmas
  collect_vmas-IsSorted pid s h = elim (Option-cases (host.maps pid)) [
    | inl e ↦ rw (e, iter_map_files) h
    | inr (lines, e) ↦
        rw (e, iter_map_files)
          (iter_lines-keeps host (λ (t : Collected). IsSorted t.vmas) (collect_vma host pid)
            (collect_vma-IsSorted pid) (neg 1) lines s h)
  ]

  -- Where `collect_vmas` returns 0 on an empty list, the file had at least one line, and the list
  -- holds the mapping that each line describes, no more and no fewer.
  pub collect_vmas-described :
      (pid allocs : ℕ) (s' : Collected)
      → collect_vmas host pid (record { vmas = []; allocs = allocs }) ≡ (pos 0, s')
      → (line : Text) × (rest : List Text) × (host.maps pid ≡ some (line ∷ rest))
        × Perm (described (line ∷ rest)) (map mapping s'.vmas)
  unfolding collect_vmas
  collect_vmas-described pid allocs s' h = elim (Option-cases (host.maps pid)) [
    | inl e ↦ absurd (ground (arith, e))
    | inr ([], e) ↦ absurd (ground (arith, e))
    | inr (line ∷ rest, e) ↦
        let all =
          iter_lines-perm pid (neg 1) (line ∷ rest) (record { vmas = []; allocs = allocs }) s'
            (rw (e, iter_map_files) at h) in
        (line, rest, e, rw append-nil at all)
  ]
