-- ===== src/Patch/Revert/Overlays.antt =====
-- The memory that writing jumps and writing code leave (apply_func_jumps and patch_revert_func_jumps
-- of patcher/patch.c), as overlays.
use mathlib.Core.Path.{subst}
use native.Mathlib.Decide.{dec_le, dec_lt}
use nsb.Base.{ℕ, ◌+◌, ◌≤◌, ◌<◌, ◌≡◌, refl, ◌∙◌, ◌⊎◌, inl, inr, List, [], ◌∷◌, length, All, arith}
use nsb.Patch.{FuncJump}
use nsb.Process.Memory.{
  Memory, bytes_at, overlay, overlay-outside, bytes_at-overlay, overlay-bytes_at, bytes_at-ext,
}

-- The eight bytes at the address miss those of every function.
abbrev pub Away : ℕ → List FuncJump → Type 0
Away a fjs = All (λ (fj : FuncJump). (a + 8 ≤ fj.func_addr) ⊎ (fj.func_addr + 8 ≤ a)) fjs

-- No two functions share a byte of the eight that their jumps take.
abbrev pub Spread : List FuncJump → Type 0
Spread [] = Unit {0}
Spread (fj ∷ fjs) = Away fj.func_addr fjs × Spread fjs

-- The memory after the jumps were written, and after the code was.
abbrev pub jumped : Memory → List FuncJump → Memory
jumped m [] = m
jumped m (fj ∷ fjs) = jumped (overlay m fj.func_addr fj.func_jump) fjs

abbrev pub restored : Memory → Memory → List FuncJump → Memory
restored m0 m [] = m
restored m0 m (fj ∷ fjs) = restored m0 (overlay m fj.func_addr (bytes_at m0 fj.func_addr 8)) fjs

-- The address is one of the eight bytes of a function.
abbrev pub Covered : List FuncJump → ℕ → Type 0
Covered [] x = ⊥
Covered (fj ∷ fjs) x = ((fj.func_addr ≤ x) × (x < fj.func_addr + 8)) ⊎ Covered fjs x

in_window : (a x : ℕ) → ((a ≤ x) × (x < a + 8)) ⊎ ((x < a) ⊎ (a + 8 ≤ x))
in_window a x = elim (dec_le a x) [
  | yes h ↦ elim (dec_lt x (a + 8)) [ yes k ↦ inl (h, k) | no k ↦ inr (inr (omega arith)) ]
  | no h ↦ inr (inl (omega arith))
]

length-bytes_at : (m : Memory) (a : ℕ) → length (bytes_at m a 8) ≡ 8
length-bytes_at m a = refl

pub jumped-Covered :
    (m : Memory) (fjs : List FuncJump) (x : ℕ)
    → All (λ (fj : FuncJump). length fj.func_jump ≡ 8) fjs
    → (jumped m fjs x ≡ m x) ⊎ Covered fjs x
jumped-Covered m [] x l = inl refl
jumped-Covered m (fj ∷ fjs) x l = elim (in_window fj.func_addr x) [
  | inl inside ↦ inr (inl inside)
  | inr outside ↦ elim (jumped-Covered (overlay m fj.func_addr fj.func_jump) fjs x l.1) [
    | inr c ↦ inr (inr c)
    | inl e ↦ inl (e ∙ overlay-outside m fj.func_addr fj.func_jump x (rw l.0 outside))
  ]
]

pub restored-original :
    (m0 m : Memory) (fjs : List FuncJump) (x : ℕ)
    → (m x ≡ m0 x) ⊎ Covered fjs x
    → restored m0 m fjs x ≡ m0 x
restored-original m0 m [] x (inl e) = e
restored-original m0 m [] x (inr c) = absurd c
restored-original m0 m (fj ∷ fjs) x h = elim (in_window fj.func_addr x) [
  | inl inside ↦
      restored-original m0 (overlay m fj.func_addr (bytes_at m0 fj.func_addr 8)) fjs x
        (inl (overlay-bytes_at m m0 fj.func_addr 8 x inside.0 inside.1))
  | inr outside ↦
      restored-original m0 (overlay m fj.func_addr (bytes_at m0 fj.func_addr 8)) fjs x
        (narrow (overlay-outside m fj.func_addr (bytes_at m0 fj.func_addr 8) x outside) outside h)
]
  where
    narrow :
        (overlay m fj.func_addr (bytes_at m0 fj.func_addr 8) x ≡ m x)
        → (x < fj.func_addr) ⊎ (fj.func_addr + 8 ≤ x)
        → (m x ≡ m0 x) ⊎ Covered (fj ∷ fjs) x
        → (overlay m fj.func_addr (bytes_at m0 fj.func_addr 8) x ≡ m0 x) ⊎ Covered fjs x
    narrow same o (inl e) = inl (same ∙ e)
    narrow same o (inr (inl inside)) = absurd (omega arith)
    narrow same o (inr (inr c)) = inr c

-- Writing other functions' jumps leaves the eight bytes of a function that is away from them.
jumped-Away :
    (m : Memory) (fjs : List FuncJump) (a x : ℕ)
    → Away a fjs
    → All (λ (fj : FuncJump). length fj.func_jump ≡ 8) fjs
    → a ≤ x
    → x < a + 8
    → jumped m fjs x ≡ m x
jumped-Away m [] a x aw l h k = refl
jumped-Away m (fj ∷ fjs) a x aw l h k =
    jumped-Away (overlay m fj.func_addr fj.func_jump) fjs a x aw.1 l.1 h k
    ∙ overlay-outside m fj.func_addr fj.func_jump x (rw l.0 (omega arith))

pub jumped-stands :
    (m : Memory) (fjs : List FuncJump)
    → Spread fjs
    → All (λ (fj : FuncJump). length fj.func_jump ≡ 8) fjs
    → All (λ (fj : FuncJump). bytes_at (jumped m fjs) fj.func_addr 8 ≡ fj.func_jump) fjs
jumped-stands m [] s l = tt
jumped-stands m (fj ∷ fjs) s l = (
  bytes_at-ext (jumped m (fj ∷ fjs)) (overlay m fj.func_addr fj.func_jump) fj.func_addr 8
        (λ x h k. jumped-Away (overlay m fj.func_addr fj.func_jump) fjs fj.func_addr x s.0 l.1 h k)
      ∙ subst
          (λ (n : ℕ). bytes_at (overlay m fj.func_addr fj.func_jump) fj.func_addr n ≡ fj.func_jump)
          l.0 (bytes_at-overlay m fj.func_addr fj.func_jump),
  jumped-stands (overlay m fj.func_addr fj.func_jump) fjs s.1 l.1,
)
