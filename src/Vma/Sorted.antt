-- ===== src/Vma/Sorted.antt =====
-- The sorted insertion and the merge of patcher/vma.c.
use mathlib.Core.List.{Perm, perm_middle, perm_append_singleton}
use mathlib.Core.List.Perm
use nsb.Base.{
  ℕ, ◌≤◌, ◌<◌, ◌≡◌, refl, sym, ap, inl, inr, true, false, List, [], ◌∷◌, ◌++◌, last?, arith, ltb,
  lt→ltb, Bool-cases,
}
use nsb.Base.Int.{pos}
use nsb.Base.Loop.{for_each_entry}
use nsb.Vma.{
  VmaArea, vma_start, add_vma, starts_after_last, add_vma_sorted, splice_vma_lists_sorted,
}

-- The starts do not fall along the list.
abbrev pub AtLeast : ℕ → List VmaArea → Type 0
AtLeast n [] = Unit {0}
AtLeast n (v ∷ vs) = (n ≤ vma_start v) × AtLeast (vma_start v) vs

abbrev pub IsSorted : List VmaArea → Type 0
IsSorted vs = AtLeast 0 vs

-- Where the sorted insertion puts a mapping, said without the walk.
unfoldable pub insert_sorted : VmaArea → List VmaArea → List VmaArea
insert_sorted new [] = new ∷ []
insert_sorted new (v ∷ vs) = elim (ltb (vma_start v) (vma_start new)) [
  | true ↦ v ∷ insert_sorted new vs
  | false ↦ new ∷ v ∷ vs
]

insert_sorted-AtLeast :
    (new : VmaArea) (n : ℕ) (vs : List VmaArea)
    → n ≤ vma_start new
    → AtLeast n vs
    → AtLeast n (insert_sorted new vs)
unfolding insert_sorted
insert_sorted-AtLeast new n [] h s = (h, tt)
insert_sorted-AtLeast new n (v ∷ vs) h s =
    ground (arith, insert_sorted-AtLeast new (vma_start v) vs)

pub insert_sorted-perm :
    (new : VmaArea) (vs : List VmaArea) → Perm (new ∷ vs) (insert_sorted new vs)
unfolding insert_sorted
insert_sorted-perm new [] = Perm.refl _
insert_sorted-perm new (v ∷ vs) = elim (Bool-cases (ltb (vma_start v) (vma_start new))) [
  | inl e ↦
      rw (e, insert_sorted)
        (Perm.trans (Perm.swap v new vs) (Perm.cons v (insert_sorted-perm new vs)))
  | inr e ↦ rw (e, insert_sorted) (Perm.refl _)
]

lt_of_starts_after_last :
    (new v : VmaArea) (vs : List VmaArea) (n : ℕ)
    → AtLeast n (v ∷ vs)
    → starts_after_last new (last? (v ∷ vs)) ≡ true
    → n < vma_start new
lt_of_starts_after_last new v [] n s h = ground arith
lt_of_starts_after_last new v (w ∷ vs) n s h =
    ground (arith, lt_of_starts_after_last new w vs (vma_start v) s.1 h)

pub insert_sorted-append :
    (new : VmaArea) (vs : List VmaArea) (n : ℕ)
    → AtLeast n vs
    → starts_after_last new (last? vs) ≡ true
    → insert_sorted new vs ≡ vs ++ new ∷ []
unfolding insert_sorted
insert_sorted-append new [] n s h = refl
insert_sorted-append new (v ∷ []) n s h = rw (h, insert_sorted)
insert_sorted-append new (v ∷ w ∷ vs) n s h =
    let below = lt_of_starts_after_last new w vs (vma_start v) s.1 h in
    rw (lt→ltb _ _ below, insert_sorted)
      (ap (◌∷◌ v) (insert_sorted-append new (w ∷ vs) (vma_start v) s.1 h))

-- The walk finds a place unless all start below the new mapping.
pub walk-insert_sorted :
    (new : VmaArea) (vs : List VmaArea)
    → starts_after_last new (last? vs) ≡ false
    → for_each_entry (add_vma new) vs tt ≡ (pos 1, insert_sorted new vs, tt)
unfolding insert_sorted for_each_entry add_vma
walk-insert_sorted new [] h = ground arith
walk-insert_sorted new (v ∷ []) h = ground arith
walk-insert_sorted new (v ∷ w ∷ vs) h = ground (arith, walk-insert_sorted new (w ∷ vs) h)

pub add_vma_sorted-insert_sorted :
    (vs : List VmaArea) (new : VmaArea)
    → IsSorted vs
    → add_vma_sorted vs new ≡ (pos 0, insert_sorted new vs)
unfolding add_vma_sorted
add_vma_sorted-insert_sorted vs new s = elim (Bool-cases (starts_after_last new (last? vs))) [
  | inl e ↦ rw e (ap (λ l. (pos 0, l)) (sym (insert_sorted-append new vs 0 s e)))
  | inr e ↦ rw (e, walk-insert_sorted new vs e)
]

pub insert_sorted-IsSorted :
    (new : VmaArea) (vs : List VmaArea) → IsSorted vs → IsSorted (insert_sorted new vs)
insert_sorted-IsSorted new vs s = insert_sorted-AtLeast new 0 vs (omega arith) s

-- On a sorted list `add_vma_sorted` succeeds, whatever the mapping: the list then holds the mapping
-- and what it held before, each as often, and it is sorted again.
pub add_vma_sorted-IsSorted :
    (vs : List VmaArea) (new : VmaArea)
    → IsSorted vs
    → let (ret, vs') = add_vma_sorted vs new in (ret ≡ pos 0) × IsSorted vs' × Perm (new ∷ vs) vs'
add_vma_sorted-IsSorted vs new s =
    rw (add_vma_sorted-insert_sorted vs new s)
      (refl, insert_sorted-IsSorted new vs s, insert_sorted-perm new vs)

-- On any list, sorted or not, `add_vma_sorted` succeeds and loses nothing: the walk never comes to
-- the end without a place, so `-EFAULT` does not occur.
pub add_vma_sorted-perm :
    (vs : List VmaArea) (new : VmaArea)
    → let (ret, vs') = add_vma_sorted vs new in (ret ≡ pos 0) × Perm (new ∷ vs) vs'
unfolding add_vma_sorted
add_vma_sorted-perm vs new = elim (Bool-cases (starts_after_last new (last? vs))) [
  | inl e ↦ rw e (refl, Perm.symm (perm_append_singleton new vs))
  | inr e ↦ rw (e, walk-insert_sorted new vs e) (refl, insert_sorted-perm new vs)
]

-- `splice_vma_lists_sorted` moves every mapping of `from` into a sorted `to`: it succeeds, `from` is
-- empty, and `to` is sorted and holds the mappings of both.
pub splice-IsSorted :
    (from to : List VmaArea)
    → IsSorted to
    → let (err, left, to') = splice_vma_lists_sorted from to in
      (err ≡ pos 0) × (left ≡ []) × IsSorted to' × Perm (from ++ to) to'
unfolding splice_vma_lists_sorted
splice-IsSorted [] to s = (refl, refl, s, Perm.refl to)
splice-IsSorted (v ∷ from) to s =
    let rest = splice-IsSorted from (insert_sorted v to) (insert_sorted-IsSorted v to s) in
    rw (add_vma_sorted-insert_sorted to v s) (
      rest.0,
      rest.1,
      rest.2,
      Perm.trans (Perm.symm (perm_middle from to))
          (Perm.trans (Perm.append_left from (insert_sorted-perm v to)) rest.3),
    )
