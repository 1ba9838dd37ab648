-- ===== src/DlMap/Valid.antt =====
-- What `add_dl_vma_sorted` of patcher/dl_map.c keeps true of an ELF object's mappings.
use mathlib.Core.List.{Perm}
use nsb.Base.{
  ℕ, ◌+◌, ◌≡◌, ◌≢◌, refl, ◌∙◌, ◌⊎◌, inl, inr, true, false, List, [], ◌∷◌, Option, none, some, last?,
  All, Bool-cases, Option-cases, arith, if◌then◌else◌, ltb,
}
use nsb.Base.Int.{pos, einval}
use nsb.DlMap.{DlMap, link_dl_vma, add_dl_vma_sorted}
use nsb.Vma.{VmaArea, vma_start, starts_after_last}
use nsb.Vma.Sorted.{
  IsSorted, insert_sorted, insert_sorted-append, insert_sorted-perm, insert_sorted-IsSorted,
  walk-insert_sorted,
}

abbrev pub count_exec : List VmaArea → ℕ
count_exec [] = 0
count_exec (v ∷ vs) = (if v.prot.exec then 1 else 0) + count_exec vs

abbrev pub at_most_one : Option ℕ → ℕ
at_most_one none = 0
at_most_one (some i) = 1

-- The mappings are sorted, at most one is executable, and `exec_vma` points to it, if there is one.
pub record IsValid (dlm : DlMap) : Type 0 where
  pub sorted : IsSorted dlm.vmas
  pub one_exec : count_exec dlm.vmas ≡ at_most_one dlm.exec_vma
  pub exec_known :
      All (λ (v : VmaArea). (v.prot.exec ≡ false) ⊎ (dlm.exec_vma ≡ some v.id)) dlm.vmas

link_dl_vma-insert_sorted :
    (dlm : DlMap) (vma : VmaArea)
    → IsSorted dlm.vmas
    → link_dl_vma dlm vma ≡ (pos 0, record dlm { vmas = insert_sorted vma dlm.vmas })
unfolding link_dl_vma
link_dl_vma-insert_sorted dlm vma s = elim (Bool-cases (starts_after_last vma (last? dlm.vmas))) [
  | inl e ↦ rw (e, insert_sorted-append vma dlm.vmas 0 s e)
  | inr e ↦ rw (e, walk-insert_sorted vma dlm.vmas e)
]

count_exec-insert_sorted :
    (new : VmaArea) (vs : List VmaArea)
    → count_exec (insert_sorted new vs) ≡ (if new.prot.exec then 1 else 0) + count_exec vs
unfolding insert_sorted
count_exec-insert_sorted new [] = refl
count_exec-insert_sorted new (v ∷ vs) = ground (arith, count_exec-insert_sorted new vs)

All-insert_sorted :
    (P : VmaArea → Type 0) (new : VmaArea) (vs : List VmaArea)
    → P new
    → All P vs
    → All P (insert_sorted new vs)
unfolding insert_sorted
All-insert_sorted P new [] h hs = (h, tt)
All-insert_sorted P new (v ∷ vs) h hs = elim (Bool-cases (ltb (vma_start v) (vma_start new))) [
  | inl e ↦ rw (e, insert_sorted) (hs.0, All-insert_sorted P new vs h hs.1)
  | inr e ↦ rw (e, insert_sorted) (h, hs)
]

-- Linking a mapping keeps the invariant where `exec_vma` was set as its protection asks.
link_dl_vma-IsValid :
    (dlm : DlMap) (vma : VmaArea)
    → IsSorted dlm.vmas
    → (if vma.prot.exec then 1 else 0) + count_exec dlm.vmas ≡ at_most_one dlm.exec_vma
    → (vma.prot.exec ≡ false) ⊎ (dlm.exec_vma ≡ some vma.id)
    → All (λ (v : VmaArea). (v.prot.exec ≡ false) ⊎ (dlm.exec_vma ≡ some v.id)) dlm.vmas
    → ((link_dl_vma dlm vma).0 ≡ pos 0)
      × IsValid (link_dl_vma dlm vma).1
      × Perm (vma ∷ dlm.vmas) (link_dl_vma dlm vma).1.vmas
link_dl_vma-IsValid dlm vma s one this others = rw (link_dl_vma-insert_sorted dlm vma s) (
  refl,
  record {
    sorted = insert_sorted-IsSorted vma dlm.vmas s;
    one_exec = count_exec-insert_sorted vma dlm.vmas ∙ one;
    exec_known =
        All-insert_sorted (λ (v : VmaArea). (v.prot.exec ≡ false) ⊎ (dlm.exec_vma ≡ some v.id)) vma
          dlm.vmas this others;
  },
  insert_sorted-perm vma dlm.vmas,
)

-- With no executable mapping among them, whatever is said of executable ones holds.
none_exec :
    (e : Option ℕ) (vs : List VmaArea)
    → count_exec vs ≡ 0
    → All (λ (v : VmaArea). (v.prot.exec ≡ false) ⊎ (e ≡ some v.id)) vs
none_exec e [] h = tt
none_exec e (v ∷ vs) h = (inl (ground (arith, h)), none_exec e vs (ground arith))

module _ (dlm : DlMap) (vma : VmaArea) where
  add_plain : vma.prot.exec ≡ false → add_dl_vma_sorted dlm vma ≡ link_dl_vma dlm vma
  unfolding add_dl_vma_sorted
  add_plain plain = simp plain

  add_second :
      (i : ℕ)
      → vma.prot.exec ≡ true
      → dlm.exec_vma ≡ some i
      → add_dl_vma_sorted dlm vma ≡ (einval, dlm)
  unfolding add_dl_vma_sorted
  add_second i exec e = simp (exec, e)

  add_first :
      vma.prot.exec ≡ true
      → dlm.exec_vma ≡ none
      → add_dl_vma_sorted dlm vma ≡ link_dl_vma (record dlm { exec_vma = some vma.id }) vma
  unfolding add_dl_vma_sorted
  add_first exec e = simp (exec, e)

-- `add_dl_vma_sorted` refuses a second executable mapping and then leaves the object alone;
-- any other mapping it adds, and the object's invariant holds again.
pub add_dl_vma_sorted-IsValid :
    (dlm : DlMap) (vma : VmaArea)
    → IsValid dlm
    → ((vma.prot.exec ≡ true) × (dlm.exec_vma ≢ none) × (add_dl_vma_sorted dlm vma ≡ (einval, dlm)))
      ⊎ (((add_dl_vma_sorted dlm vma).0 ≡ pos 0)
          × IsValid (add_dl_vma_sorted dlm vma).1
          × Perm (vma ∷ dlm.vmas) (add_dl_vma_sorted dlm vma).1.vmas)
add_dl_vma_sorted-IsValid dlm vma v = elim (Bool-cases vma.prot.exec) [
  | inr plain ↦ inr (
      simp (add_plain dlm vma plain) (
        link_dl_vma-IsValid dlm vma v.sorted (ground (arith, plain, v.one_exec)) (inl plain)
          v.exec_known))
  | inl exec ↦ elim (Option-cases dlm.exec_vma) [
    | inr (i, e) ↦ inl (exec, ground (arith, e), add_second dlm vma i exec e)
    | inl e ↦ inr (
        simp (add_first dlm vma exec e) (
          link_dl_vma-IsValid (record dlm { exec_vma = some vma.id }) vma v.sorted
            (ground (arith, v.one_exec, exec, e)) (inr refl)
            (none_exec (some vma.id) dlm.vmas (ground (arith, v.one_exec, e)))))
  ]
]
