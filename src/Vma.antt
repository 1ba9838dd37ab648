-- ===== src/Vma.antt =====
-- The mappings of a process (patcher/vma.c, patcher/include/vma.h). A `struct list_head` of mappings
-- is a list; a mapping's `id` stands for the address of its structure.
pub mod Collect
pub mod Collected
pub mod Parse
pub mod Sorted
use nsb.Base.{
  ℕ, Bool, List, [], ◌∷◌, ◌++◌, Option, none, some, first?, last?, ltb, not, if◌then◌else◌,
}
use nsb.Base.Int.{ℤ, pos, is_neg, is_zero, eq_ℤ, efault}
use nsb.Base.Loop.{Actor, for_each_entry}
use nsb.Base.Text.{Text}
use nsb.Base.Word.{add64}

-- The bits `PROT_READ`, `PROT_WRITE` and `PROT_EXEC`.
pub record Prot : Type 0 where
  pub read : Bool
  pub write : Bool
  pub exec : Bool

pub record VmaArea : Type 0 where
  pub id : ℕ
  pub addr : ℕ
  pub len : ℕ
  pub flags : ℕ
  pub prot : Prot
  pub offset : ℕ
  pub path : Option Text
  pub map_file : Option Text
  pub dlm : Option ℕ

-- `PAGE_SIZE`
abbrev pub page_size : ℕ
page_size = 4096

abbrev pub map_shared : ℕ
map_shared = 0x01

abbrev pub map_private : ℕ
map_private = 0x02

abbrev pub map_fixed : ℕ
map_fixed = 0x10

abbrev pub map_anonymous : ℕ
map_anonymous = 0x20

abbrev pub vma_start : VmaArea → ℕ
vma_start vma = vma.addr

abbrev pub vma_end : VmaArea → ℕ
vma_end vma = add64 vma.addr vma.len

-- `iterate_vmas`; also `iterate_dl_vmas`, the same loop over the other list that a mapping is in.
abbrev pub iterate_vmas {κ} :
    {S : Type κ} → Actor VmaArea S → List VmaArea → S → ℤ × List VmaArea × S
iterate_vmas actor vmas s = for_each_entry actor vmas s

-- The actor of `add_vma_sorted`: it links the new mapping in front of the first that does not start
-- below it, and ends the walk by 1.
unfoldable pub add_vma : VmaArea → Actor VmaArea (Unit {0})
add_vma new_vma vma s =
    if ltb (vma_start vma) (vma_start new_vma)
    then (pos 0, vma ∷ [], s)
    else (pos 1, new_vma ∷ vma ∷ [], s)

abbrev pub starts_after_last : VmaArea → Option VmaArea → Bool
starts_after_last vma none = Bool.true
starts_after_last vma (some lvma) = ltb (vma_start lvma) (vma_start vma)

unfoldable pub add_vma_sorted : List VmaArea → VmaArea → ℤ × List VmaArea
unfolding add_vma for_each_entry
add_vma_sorted head vma =
    if starts_after_last vma (last? head)
    then (pos 0, head ++ vma ∷ [])
    else let (ret, head', s) = iterate_vmas (add_vma vma) head tt in
      if eq_ℤ ret (pos 1) then (pos 0, head') else (if is_neg ret then ret else efault, head')

-- The result, what is left in `from`, and `to`.
unfoldable pub splice_vma_lists_sorted : (from to : List VmaArea) → ℤ × List VmaArea × List VmaArea
unfolding add_vma_sorted
splice_vma_lists_sorted [] to = (pos 0, [], to)
splice_vma_lists_sorted (vma ∷ from) to =
    let (err, to') = add_vma_sorted to vma in
    let rest = splice_vma_lists_sorted from to' in if is_zero err then rest else (err, from, to')

unfoldable pub first_vma : List VmaArea → Option VmaArea
first_vma vmas = first? vmas

unfoldable pub last_vma : List VmaArea → Option VmaArea
last_vma vmas = last? vmas
