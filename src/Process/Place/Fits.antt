-- ===== src/Process/Place/Fits.antt =====
-- What the search of patcher/process.c finds is free, and it finds the first that is.
use mathlib.Core.Path.{subst}
use nsb.Base.{
  ℕ, ◌+◌, ◌%◌, ◌≤◌, ◌<◌, ◌≡◌, refl, sym, ◌⊎◌, inl, inr, true, false, List, [], ◌∷◌, All, Bool-cases,
  arith, ltb, leb,
}
use nsb.Base.Int.{ℤ, pos, is_zero}
use nsb.Base.Word.{u64_mod, sub64}
use nsb.DlMap.{DlMap}
use nsb.Process.Place.{
  AddressHole, inside_object, max64, find_hole, next_start, iterate_find_hole,
  process_find_place_for_elf,
}
use nsb.Vma.{VmaArea, page_size, vma_end}

-- The mappings follow one another from `n` on without overlap, below 2^64, as the kernel lists them.
abbrev pub Apart : ℕ → List VmaArea → Type 0
Apart n [] = Unit {0}
Apart n (v ∷ vs) = (n ≤ v.addr) × (v.addr + v.len < u64_mod) × Apart (v.addr + v.len) vs

-- The range misses the mapping.
abbrev pub Misses : (address size : ℕ) → VmaArea → Type 0
Misses address size v = (v.addr + v.len ≤ address) ⊎ (address + size ≤ v.addr)

Misses-above :
    (address size n : ℕ) (vs : List VmaArea)
    → Apart n vs
    → address + size ≤ n
    → All (Misses address size) vs
Misses-above address size n [] a h = tt
Misses-above address size n (v ∷ vs) a h =
    (inr (omega arith), Misses-above address size (v.addr + v.len) vs a.2 (omega arith))

-- The hole in front of the next mapping, where the walk stops.
found_fits :
    (past hint size : ℕ) (v : VmaArea) (vs : List VmaArea) (n : ℕ)
    → Apart n (v ∷ vs)
    → ltb (next_start past vs) hint ≡ false
    → leb size (sub64 (next_start past vs) (max64 hint (vma_end v))) ≡ true
    → All (Misses (max64 hint (vma_end v)) size) vs
found_fits past hint size v [] n a h k = tt
found_fits past hint size v (w ∷ vs) n a h k =
    Misses-above _ size w.addr (w ∷ vs) (omega arith, a.2.1, a.2.2) (ground arith)

-- A walk that found a hole.
abbrev Found : (hint size n : ℕ) → List VmaArea → ℤ × AddressHole → Type 0
Found hint size n vs (ret, hole) =
    (ret ≡ pos 1) × (n ≤ hole.address) × (hint ≤ hole.address) × All (Misses hole.address size) vs

Found-cons :
    (hint size n : ℕ) (v : VmaArea) (vs : List VmaArea) (r : ℤ × AddressHole)
    → n ≤ v.addr
    → Found hint size (v.addr + v.len) vs r
    → Found hint size n (v ∷ vs) r
Found-cons hint size n v vs r h f = (f.0, omega arith, f.2, (inl f.1, f.3))

module _ (objects : List DlMap) (past hint size : ℕ) where
  abbrev hole_at : ℕ → AddressHole
  hole_at address = record { hint = hint; size = size; address = address }

  abbrev walk : List VmaArea → ℕ → ℤ × AddressHole
  walk vs address = iterate_find_hole objects past vs (hole_at address)

  -- Either the walk goes on behind the mapping, or it ends there with a hole in front of the next.
  walk_cases :
      (v : VmaArea) (vs : List VmaArea) (address : ℕ)
      → ((b : ℕ) × (walk (v ∷ vs) address ≡ walk vs b))
        ⊎ ((ltb (next_start past vs) hint ≡ false)
            × (leb size (sub64 (next_start past vs) (max64 hint (vma_end v))) ≡ true)
            × (walk (v ∷ vs) address ≡ (pos 1, hole_at (max64 hint (vma_end v)))))
  unfolding iterate_find_hole find_hole
  walk_cases v vs address = elim (Bool-cases (ltb (next_start past vs) hint)) [
    | inl below ↦ inl (address, ground (arith, below))
    | inr above ↦ elim (Bool-cases (inside_object objects v v.dlm)) [
      | inl inside ↦ inl (address, ground (arith, above, inside))
      | inr free ↦
          let gap = max64 hint (vma_end v) in
          elim (Bool-cases (leb size (sub64 (next_start past vs) gap))) [
            | inl wide ↦ inr (above, wide, ground (arith, above, free, wide))
            | inr narrow ↦ inl (gap, ground (arith, above, free, narrow))
          ]
    ]
  ]

  walk-Found :
      (vs : List VmaArea) (n address : ℕ)
      → Apart n vs
      → is_zero (walk vs address).0 ≡ false
      → Found hint size n vs (walk vs address)
  unfolding iterate_find_hole
  walk-Found [] n address a h = absurd (ground arith)
  walk-Found (v ∷ vs) n address a h = elim (walk_cases v vs address) [
    | inl (b, e) ↦ subst (Found hint size n (v ∷ vs)) (sym e) (
        Found-cons hint size n v vs (walk vs b) a.0 (
          walk-Found vs (v.addr + v.len) b a.2
            (subst (λ (r : ℤ × AddressHole). is_zero r.0 ≡ false) e h)))
    | inr (above, wide, e) ↦ subst (Found hint size n (v ∷ vs)) (sym e) (
      refl,
      ground arith,
      ground arith,
      (inl (ground arith), found_fits past hint size v vs n a above wide),
    )
  ]

  walk-aligned :
      (vs : List VmaArea) (address : ℕ)
      → hint % page_size ≡ 0
      → All (λ (v : VmaArea). vma_end v % page_size ≡ 0) vs
      → is_zero (walk vs address).0 ≡ false
      → (walk vs address).1.address % page_size ≡ 0
  unfolding iterate_find_hole
  walk-aligned [] address hinted ends h = absurd (ground arith)
  walk-aligned (v ∷ vs) address hinted ends h = elim (walk_cases v vs address) [
    | inl (b, e) ↦
        subst (λ (r : ℤ × AddressHole). r.1.address % page_size ≡ 0) (sym e)
          (walk-aligned vs b hinted ends.1
            (subst (λ (r : ℤ × AddressHole). is_zero r.0 ≡ false) e h))
    | inr (above, wide, e) ↦
        subst (λ (r : ℤ × AddressHole). r.1.address % page_size ≡ 0) (sym e) (ground arith)
  ]

  pub find_place-aligned :
      (vmas : List VmaArea) (address : ℕ)
      → hint % page_size ≡ 0
      → All (λ (v : VmaArea). vma_end v % page_size ≡ 0) vmas
      → process_find_place_for_elf objects past vmas hint size ≡ inr address
      → address % page_size ≡ 0
  unfolding process_find_place_for_elf
  find_place-aligned vmas address hinted ends e = elim (Bool-cases (is_zero (walk vmas 0).0)) [
    | inl none_there ↦ absurd (ground (arith, none_there))
    | inr some_there ↦
        let found = walk-aligned vmas 0 hinted ends some_there in
        let at : (walk vmas 0).1.address ≡ address = ground (arith, some_there) in
        subst (λ (x : ℕ). x % page_size ≡ 0) at found
  ]

  pub find_place-Misses :
      (vmas : List VmaArea) (address : ℕ)
      → Apart 0 vmas
      → process_find_place_for_elf objects past vmas hint size ≡ inr address
      → (hint ≤ address) × All (Misses address size) vmas
  unfolding process_find_place_for_elf
  find_place-Misses vmas address a e = elim (Bool-cases (is_zero (walk vmas 0).0)) [
    | inl none_there ↦ absurd (ground (arith, none_there))
    | inr some_there ↦
        let found = walk-Found vmas 0 0 a some_there in
        let at : (walk vmas 0).1.address ≡ address = ground (arith, found.0) in
        subst (λ (x : ℕ). (hint ≤ x) × All (Misses x size) vmas) at (found.2, found.3)
  ]
