-- ===== src/Base/Steps.antt =====
-- Code that changes a state and can fail: `err = f(); if (err) return err;` as a monad. A step results
-- in an error or in a value, and in the state that it leaves either way; none is a step that does not
-- come to an end.
use mathlib.Core.Logic.{◌⊎◌, inl, inr}
use mathlib.Core.Option.{Option, none, some}
use mathlib.Core.Bool.{Bool, true, false}
use nsb.Base.Int.{ℤ, is_zero}
use nsb.Base.Tests.{if◌then◌else◌}

abbrev pub Step : Type 0 → Type 0 → Type 0
Step S A = S → Option ((ℤ ⊎ A) × S)

-- What follows a step, by how it ended.
abbrev pub followed :
    {S A B : Type 0} → (A → Step S B) → Option ((ℤ ⊎ A) × S) → Option ((ℤ ⊎ B) × S)
followed f none = none
followed f (some (inl err, s)) = some (inl err, s)
followed f (some (inr a, s)) = f a s

infixl 5 ◌>>=◌ ◌>>◌
abbrev pub ◌>>=◌ : {S A B : Type 0} → Step S A → (A → Step S B) → Step S B
◌>>=◌ m f s = followed f (m s)

abbrev pub ◌>>◌ : {S A B : Type 0} → Step S A → Step S B → Step S B
m >> k = m >>= λ _. k

abbrev pub pure : {S A : Type 0} → A → Step S A
pure a s = some (inr a, s)

abbrev pub fail : {S A : Type 0} → ℤ → Step S A
fail err s = some (inl err, s)

-- `if (err) return err;` for an `int` that is 0 where all is well.
abbrev pub checked : {S : Type 0} → (S → ℤ × S) → Step S (Unit {0})
checked f s = let (err, s') = f s in some (if is_zero err then inr tt else inl err, s')

-- `err = m(); if (err) return err; return k();`
abbrev pub and_then : {S : Type 0} → (S → ℤ × S) → (S → ℤ × S) → S → ℤ × S
and_then m k s = let (err, s') = m s in let rest = k s' in if is_zero err then rest else (err, s')

-- `goto` on an error: what is cleaned up then does not change the result.
abbrev pub undone : {S A : Type 0} → (S → S) → Option ((ℤ ⊎ A) × S) → Option ((ℤ ⊎ A) × S)
undone undo none = none
undone undo (some (inl err, s)) = some (inl err, undo s)
undone undo (some (inr a, s)) = some (inr a, s)

abbrev pub or_undo : {S A : Type 0} → Step S A → (S → S) → Step S A
or_undo m undo s = undone undo (m s)

-- What holds at the end, where there is one.
abbrev pub AtEnd : {S A : Type 0} → ((ℤ ⊎ A) × S → Type 0) → Option ((ℤ ⊎ A) × S) → Type 0
AtEnd Q none = Unit
AtEnd Q (some r) = Q r

-- Whatever the result, what held before holds afterwards.
abbrev pub Keeps : {S A : Type 0} → (S → Type 0) → Step S A → Type 0
Keeps {S} P m = (s : S) → P s → AtEnd (λ r. P r.1) (m s)

pub if-either :
    {A : Type 0} (Q : A → Type 0) (b : Bool) (x y : A) → Q x → Q y → Q (if b then x else y)
if-either Q true x y hx hy = hx
if-either Q false x y hx hy = hy

module _ {S : Type 0} (P : S → Type 0) where
  pub and_then-keeps :
      (m k : S → ℤ × S)
      → ((s : S) → P s → P (m s).1)
      → ((s : S) → P s → P (k s).1)
      → (s : S) → P s
      → P (and_then m k s).1
  and_then-keeps m k keep keep' s h =
      if-either (λ (r : ℤ × S). P r.1) (is_zero (m s).0) (k (m s).1) ((m s).0, (m s).1)
        (keep' (m s).1 (keep s h)) (keep s h)

  pub Keeps->>= :
      {A B : Type 0} (m : Step S A) (f : A → Step S B)
      → Keeps P m
      → ((a : A) → Keeps P (f a))
      → Keeps P (m >>= f)
  Keeps->>= {A} {B} m f keep keep' s h = cases (m s) (keep s h)
    where
      cases : (r : Option ((ℤ ⊎ A) × S)) → AtEnd (λ r. P r.1) r → AtEnd (λ r. P r.1) (followed f r)
      cases none h' = tt
      cases (some (inl err, s')) h' = h'
      cases (some (inr a, s')) h' = keep' a s' h'

  pub Keeps-or_undo :
      {A : Type 0} (m : Step S A) (undo : S → S)
      → Keeps P m
      → ((s : S) → P s → P (undo s))
      → Keeps P (or_undo m undo)
  Keeps-or_undo {A} m undo keep keep' s h = cases (m s) (keep s h)
    where
      cases : (r : Option ((ℤ ⊎ A) × S)) → AtEnd (λ r. P r.1) r → AtEnd (λ r. P r.1) (undone undo r)
      cases none h' = tt
      cases (some (inl err, s')) h' = keep' s' h'
      cases (some (inr a, s')) h' = h'

-- A step comes to an end, whatever the state.
abbrev pub IsSome {ℓ} : {A : Type ℓ} → Option A → Type 0
IsSome none = ⊥
IsSome (some a) = Unit

abbrev pub Total : {S A : Type 0} → Step S A → Type 0
Total {S} m = (s : S) → IsSome (m s)

module _ {S : Type 0} where
  pub Total->>= :
      {A B : Type 0} (m : Step S A) (f : A → Step S B)
      → Total m
      → ((a : A) → Total (f a))
      → Total (m >>= f)
  Total->>= {A} {B} m f total total' s = cases (m s) (total s)
    where
      cases : (r : Option ((ℤ ⊎ A) × S)) → IsSome r → IsSome (followed f r)
      cases none h = absurd h
      cases (some (inl err, s')) h = tt
      cases (some (inr a, s')) h = total' a s'

  pub Total-or_undo : {A : Type 0} (m : Step S A) (undo : S → S) → Total m → Total (or_undo m undo)
  Total-or_undo {A} m undo total s = cases (m s) (total s)
    where
      cases : (r : Option ((ℤ ⊎ A) × S)) → IsSome r → IsSome (undone undo r)
      cases none h = absurd h
      cases (some (inl err, s')) h = tt
      cases (some (inr a, s')) h = tt
