-- ===== src/Base/Loop.antt =====
-- `list_for_each_entry` with an actor, the loop of iterate_vmas, iterate_dl_vmas, iterate_dl_maps and
-- iterate_patch_function_jumps (patcher/include/list.h, patcher/vma.c, patcher/dl_map.c,
-- patcher/patch.c).
use mathlib.Core.Path.{◌≡◌, refl, sym, ap, ◌∙◌, subst}
use nsb.Base.Lists.{All, All-append}
use mathlib.Core.Bool.{true, false}
use mathlib.Core.Logic.{inl, inr}
use mathlib.Core.List.{List, [], ◌∷◌, ◌++◌}
use native.Mathlib.Omega.{arith}
use nsb.Base.Int.{ℤ, pos, is_zero}
use nsb.Base.Tests.{Bool-cases}

-- What an actor does at an entry: its result, what stands in the entry's place afterwards (itself,
-- changed or not, behind what the actor put in front of it), and the new state.
abbrev pub Actor {ℓ κ} : Type ℓ → Type κ → Type (ℓ ⊔ κ)
Actor A S = A → S → ℤ × List A × S

module _ {ℓ κ} {A : Type ℓ} {S : Type κ} where
  -- The walk ends at the first result that is not 0.
  unfoldable pub for_each_entry : Actor A S → List A → S → ℤ × List A × S
  for_each_entry actor [] s = (pos 0, [], s)
  for_each_entry actor (x ∷ xs) s =
      let (err, here, s') = actor x s in
      let rest = for_each_entry actor xs s' in
      elim (is_zero err) [ true ↦ (rest.0, here ++ rest.1, rest.2) | false ↦ (err, here ++ xs, s') ]

  -- An actor that only reads the entries.
  abbrev pub reading : (A → S → ℤ × S) → Actor A S
  reading f x s = let (err, s') = f x s in (err, x ∷ [], s')

  -- What each call of the actor keeps, the walk keeps.
  pub for_each_entry-keeps {μ} :
      (P : S → Type μ) (actor : Actor A S)
      → ((x : A) (s : S) → P s → P (actor x s).2)
      → (xs : List A) (s : S) → P s
      → P (for_each_entry actor xs s).2
  unfolding for_each_entry
  for_each_entry-keeps P actor keep [] s h = h
  for_each_entry-keeps P actor keep (x ∷ xs) s h = elim (Bool-cases (is_zero (actor x s).0)) [
    | inl go ↦
        rw (go, for_each_entry) (for_each_entry-keeps P actor keep xs (actor x s).2 (keep x s h))
    | inr stop ↦ rw (stop, for_each_entry) (keep x s h)
  ]

  -- A step that results in 0 is followed by the rest of the walk.
  pub for_each_entry-go :
      (actor : Actor A S) (x : A) (xs : List A) (s : S)
      → (actor x s).0 ≡ pos 0
      → (for_each_entry actor (x ∷ xs) s).2 ≡ (for_each_entry actor xs (actor x s).2).2
  unfolding for_each_entry
  for_each_entry-go actor x xs s e = rw (e, for_each_entry) refl

  pub for_each_entry-goes :
      (actor : Actor A S) (x : A) (xs : List A) (s : S)
      → is_zero (actor x s).0 ≡ true
      → for_each_entry actor (x ∷ xs) s ≡ (
          let rest = for_each_entry actor xs (actor x s).2 in
          (rest.0, (actor x s).1 ++ rest.1, rest.2))
  unfolding for_each_entry
  for_each_entry-goes actor x xs s e = rw (e, for_each_entry) refl

  pub for_each_entry-stops :
      (actor : Actor A S) (x : A) (xs : List A) (s : S)
      → is_zero (actor x s).0 ≡ false
      → for_each_entry actor (x ∷ xs) s ≡ ((actor x s).0, (actor x s).1 ++ xs, (actor x s).2)
  unfolding for_each_entry
  for_each_entry-stops actor x xs s e = rw (e, for_each_entry) refl

  -- A walk that ends with 0 leaves what each step that ends with 0 leaves.
  pub for_each_entry-All {κ'} :
      (P : A → Type κ') (actor : Actor A S)
      → ((x : A) (s : S) → is_zero (actor x s).0 ≡ true → All P (actor x s).1)
      → (xs : List A) (s : S) → is_zero (for_each_entry actor xs s).0 ≡ true
      → All P (for_each_entry actor xs s).1
  unfolding for_each_entry
  for_each_entry-All P actor step [] s h = tt
  for_each_entry-All P actor step (x ∷ xs) s h = elim (Bool-cases (is_zero (actor x s).0)) [
    | inr e ↦ absurd (
        ground (
          arith,
          sym e,
          sym (ap (λ (r : ℤ × List A × S). is_zero r.0) (for_each_entry-stops actor x xs s e)) ∙ h,
        ))
    | inl e ↦
        let eq = for_each_entry-goes actor x xs s e in
        subst (λ (r : ℤ × List A × S). All P r.1) (sym eq)
          (All-append P (actor x s).1 (for_each_entry actor xs (actor x s).2).1 (step x s e) (
            for_each_entry-All P actor step xs (actor x s).2
              (sym (ap (λ (r : ℤ × List A × S). is_zero r.0) eq) ∙ h)))
  ]
