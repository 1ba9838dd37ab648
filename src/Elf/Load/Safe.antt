-- ===== src/Elf/Load/Safe.antt =====
-- `pin_elf_mmaps` of patcher/elf.c: the patch is put where nothing is, within reach of its target.
use mathlib.Core.Path.{subst}
use native.Mathlib.Decide.{dec_lt}
use nsb.Base.{
  ℕ, ◌+◌, ◌%◌, ◌^◌, ◌≤◌, ◌<◌, ◌≡◌, sym, ◌⊎◌, inl, inr, false, List, [], ◌∷◌, All, Bool-cases,
  Sum-cases, arith,
}
use nsb.Base.Int.{ℤ, pos, is_zero, is_zero-eq}
use nsb.Base.Word.{add64}
use nsb.DlMap.{DlMap, dl_map_start, dl_map_end, dl_map_jump_hint, dl_map_check_jump_range}
use nsb.DlMap.Range.{check_jump_range_bounds, check_jump_range-Reaches}
use nsb.Elf.Load.{pin_all, load_size, pin_elf_mmaps}
use nsb.Elf.Load.Pinned.{Linked, Within, pin_all-Within}
use nsb.Process.Place.{process_find_place_for_elf}
use nsb.Process.Place.Fits.{Apart, Misses, find_place-Misses, find_place-aligned}
use nsb.Vma.{VmaArea, vma_end, page_size}
use nsb.X86.Jump.{Reaches}

-- Two mappings have no address in common.
abbrev pub Disjoint : VmaArea → VmaArea → Type 0
Disjoint v w = (v.addr + v.len ≤ w.addr) ⊎ (w.addr + w.len ≤ v.addr)

-- A target in user space, in whole pages.
pub record InUserSpace (target : DlMap) : Type 0 where
  pub ordered : dl_map_start target ≤ dl_map_end target
  pub low : dl_map_end target < 2 ^ 61
  pub whole_pages : dl_map_end target % page_size ≡ 0

-- What a call that succeeded found: the hole, which both range checks passed.
record Placed (objects : List DlMap) (past : ℕ) (vmas : List VmaArea) (target dlm dlm' : DlMap)
    (hole : ℕ) : Type 0 where
  found :
      process_find_place_for_elf objects past vmas (dl_map_jump_hint target) (load_size dlm)
      ≡ inr hole
  first_in_range : dl_map_check_jump_range target hole ≡ pos 0
  last_in_range : dl_map_check_jump_range target (add64 hole (load_size dlm)) ≡ pos 0
  pinned : dlm'.vmas ≡ pin_all hole dlm.vmas

add64-small : (a b : ℕ) → a < 2 ^ 62 → b < 2 ^ 62 → add64 a b ≡ a + b
add64-small a b h k = omega arith

load_size-low : (dlm : DlMap) → Linked dlm → load_size dlm < 2 ^ 62
unfolding load_size
load_size-low dlm h = omega (arith, h.0, h.1)

find_place_fails :
    (objects : List DlMap) (past : ℕ) (vmas : List VmaArea) (hint size : ℕ) {err : ℤ}
    → process_find_place_for_elf objects past vmas hint size ≡ inl err
    → is_zero err ≡ false
unfolding process_find_place_for_elf
find_place_fails objects past vmas hint size e = ground arith

Disjoint-All :
    (address size : ℕ) (v : VmaArea) (ws : List VmaArea)
    → Within address size v
    → All (Misses address size) ws
    → All (Disjoint v) ws
Disjoint-All address size v [] h ms = tt
Disjoint-All address size v (w ∷ ws) h ms =
    (miss_disjoint ms.0, Disjoint-All address size v ws h ms.1)
  where
    miss_disjoint : Misses address size w → Disjoint v w
    miss_disjoint (inl below) = inr (omega arith)
    miss_disjoint (inr above) = inl (omega arith)

Disjoint-from_All :
    (address size : ℕ) (vs ws : List VmaArea)
    → All (Within address size) vs
    → All (Misses address size) ws
    → All (λ (v : VmaArea). All (Disjoint v) ws) vs
Disjoint-from_All address size [] ws hs ms = tt
Disjoint-from_All address size (v ∷ vs) ws hs ms =
    (Disjoint-All address size v ws hs.0 ms, Disjoint-from_All address size vs ws hs.1 ms)

module _ (objects : List DlMap) (past : ℕ) (vmas : List VmaArea) (target dlm dlm' : DlMap) where
  placed :
      pin_elf_mmaps objects past vmas target dlm ≡ (pos 0, dlm')
      → (hole : ℕ) × Placed objects past vmas target dlm dlm' hole
  unfolding pin_elf_mmaps
  placed e =
      elim (Sum-cases
        (process_find_place_for_elf objects past vmas (dl_map_jump_hint target) (load_size dlm))) [
          | inl (err, f) ↦ absurd (ground (arith, f, find_place_fails _ _ _ _ _ f))
          | inr (hole, f) ↦ elim (Bool-cases (is_zero (dl_map_check_jump_range target hole))) [
            | inr bad ↦ absurd (ground (arith, f, bad))
            | inl first ↦
                elim (Bool-cases
                  (is_zero (dl_map_check_jump_range target (add64 hole (load_size dlm))))) [
                    | inr bad ↦ absurd (ground (arith, f, first, bad))
                    | inl last ↦ (
                      hole,
                      record {
                        found = f;
                        first_in_range = is_zero-eq _ first;
                        last_in_range = is_zero-eq _ last;
                        pinned = ground (arith, f, first, last);
                      },
                    )
                  ]
          ]
        ]

  hint-aligned : InUserSpace target → dl_map_jump_hint target % page_size ≡ 0
  unfolding dl_map_jump_hint
  hint-aligned u = ground (arith, u.whole_pages)

  hole-low :
      (hole : ℕ) → InUserSpace target → dl_map_check_jump_range target hole ≡ pos 0 → hole < 2 ^ 62
  hole-low hole u h = omega (arith, (check_jump_range_bounds target hole h).1, u.low, u.ordered)

  hole-aligned :
      (hole : ℕ)
      → All (λ (v : VmaArea). vma_end v % page_size ≡ 0) vmas
      → InUserSpace target
      → Placed objects past vmas target dlm dlm' hole
      → hole % page_size ≡ 0
  hole-aligned hole ends u p =
      find_place-aligned objects past (dl_map_jump_hint target) (load_size dlm) vmas hole
        (hint-aligned u) ends p.found

  within :
      (hole : ℕ)
      → All (λ (v : VmaArea). vma_end v % page_size ≡ 0) vmas
      → InUserSpace target
      → Linked dlm
      → Placed objects past vmas target dlm dlm' hole
      → All (Within hole (load_size dlm)) dlm'.vmas
  within hole ends u linked p = subst (All (Within hole (load_size dlm))) (sym p.pinned) (
      pin_all-Within dlm hole (hole-aligned hole ends u p) (hole-low hole u p.first_in_range)
        linked)

  -- Where the process's mappings follow one another in whole pages below 2^64, the target ends below
  -- 2^61 in whole pages, and the patch is linked at 0, a `pin_elf_mmaps` that succeeds overlaps no
  -- mapping of the process by a segment of the patch.
  pub pin_elf_mmaps-Disjoint :
      Apart 0 vmas
      → All (λ (v : VmaArea). vma_end v % page_size ≡ 0) vmas
      → InUserSpace target
      → Linked dlm
      → pin_elf_mmaps objects past vmas target dlm ≡ (pos 0, dlm')
      → All (λ (v : VmaArea). All (Disjoint v) vmas) dlm'.vmas
  pin_elf_mmaps-Disjoint apart ends u linked e =
      let (hole, p) = placed e in
      Disjoint-from_All hole (load_size dlm) dlm'.vmas vmas (within hole ends u linked p)
        (find_place-Misses objects past (dl_map_jump_hint target) (load_size dlm) vmas hole apart
          p.found).1

  -- Where the process's mappings end at whole pages, the target ends below 2^61 in whole pages, and the
  -- patch is linked at 0: after a `pin_elf_mmaps` that succeeds, a jump at any function of the target
  -- whose five bytes end inside the target reaches every address of every segment of the patch.
  pub pin_elf_mmaps-Reaches :
      (func k : ℕ)
      → All (λ (v : VmaArea). vma_end v % page_size ≡ 0) vmas
      → InUserSpace target
      → Linked dlm
      → pin_elf_mmaps objects past vmas target dlm ≡ (pos 0, dlm')
      → dl_map_start target ≤ func
      → func + 5 < dl_map_end target
      → All (λ (v : VmaArea). (v.len < k) ⊎ Reaches func (v.addr + k)) dlm'.vmas
  pin_elf_mmaps-Reaches func k ends u linked e from upto =
      let (hole, p) = placed e in
      let last : dl_map_check_jump_range target (hole + load_size dlm) ≡ pos 0 =
        subst (λ (n : ℕ). dl_map_check_jump_range target n ≡ pos 0)
          (add64-small hole (load_size dlm) (hole-low hole u p.first_in_range)
            (load_size-low dlm linked))
          p.last_in_range in
      reaches_all hole (load_size dlm) dlm'.vmas (within hole ends u linked p) (λ patch above below.
        check_jump_range-Reaches target hole (load_size dlm) func patch p.first_in_range last
          (omega (arith, u.low)) from upto above below)
    where
      reaches_all :
          (hole size : ℕ) (vs : List VmaArea)
          → All (Within hole size) vs
          → ((patch : ℕ) → hole ≤ patch → patch ≤ hole + size → Reaches func patch)
          → All (λ (v : VmaArea). (v.len < k) ⊎ Reaches func (v.addr + k)) vs
      reaches_all hole size [] hs r = tt
      reaches_all hole size (v ∷ vs) hs r = (
        elim (dec_lt v.len k) [
          | yes short ↦ inl short
          | no long ↦ inr (r (v.addr + k) (omega arith) (omega arith))
        ],
        reaches_all hole size vs hs.1 r,
      )
