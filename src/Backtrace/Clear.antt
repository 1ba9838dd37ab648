-- ===== src/Backtrace/Clear.antt =====
-- What the checks of patcher/backtrace.c say of a stack.
use nsb.Base.{
  ℕ, ◌≤◌, ◌<◌, ◌≡◌, refl, ap, ◌↔◌, ◌⊎◌, Bool, true, false, List, [], ◌∷◌, Option, none, some, All,
  All-map, if◌then◌else◌, arith,
}
use nsb.Base.Int.{pos}
use nsb.Base.Word.{add64}
use nsb.Backtrace.{
  Frame, again_if_found, hits, bt_check_range, backtrace_check_func, backtrace_check_range,
}
use nsb.Patch.{FuncJump}

-- The frame was not entered by a signal, and does not stand inside the range, or in it.
abbrev pub Outside : (start end : ℕ) → Frame → Type 0
Outside start end bf = (bf.sigframe ≡ false) × ((bf.ip ≤ start) ⊎ (end ≤ bf.ip))

abbrev pub Off : (start end : ℕ) → Frame → Type 0
Off start end bf = (bf.sigframe ≡ false) × ((bf.ip < start) ⊎ (end < bf.ip))

abbrev Missed : (start end : ℕ) (strict : Bool) → Frame → Type 0
Missed start end strict bf = (bf.sigframe ≡ false) × (hits start end strict bf ≡ false)

passed :
    (sig hit : Bool) (bf : Frame) (rest : Option Frame)
    → (if sig then some bf else if hit then some bf else rest) ≡ none
    → (sig ≡ false) × (hit ≡ false) × (rest ≡ none)
passed true hit bf rest h = ground (arith, h)
passed false true bf rest h = ground (arith, h)
passed false false bf rest h = (refl, refl, h)

passes :
    (sig hit : Bool) (bf : Frame) (rest : Option Frame)
    → sig ≡ false
    → hit ≡ false
    → rest ≡ none
    → (if sig then some bf else if hit then some bf else rest) ≡ none
passes sig hit bf rest e f g = rw (e, f) g

none-Missed :
    (bt : List Frame) (start end : ℕ) (strict : Bool)
    → bt_check_range bt start end strict ≡ none
    → All (Missed start end strict) bt
unfolding bt_check_range
none-Missed [] start end strict h = tt
none-Missed (bf ∷ bt) start end strict h =
    let p =
      passed bf.sigframe (hits start end strict bf) bf (bt_check_range bt start end strict) h in
    ((p.0, p.1), none-Missed bt start end strict p.2)

Missed-none :
    (bt : List Frame) (start end : ℕ) (strict : Bool)
    → All (Missed start end strict) bt
    → bt_check_range bt start end strict ≡ none
unfolding bt_check_range
Missed-none [] start end strict h = refl
Missed-none (bf ∷ bt) start end strict h =
    passes bf.sigframe (hits start end strict bf) bf (bt_check_range bt start end strict) h.0.0
      h.0.1 (Missed-none bt start end strict h.1)

again-none : (found : Option Frame) → again_if_found found ≡ pos 0 → found ≡ none
again-none none h = refl
again-none (some bf) h = ground (arith, h)

strictly : (start end : ℕ) (bf : Frame) → Missed start end true bf → Off start end bf
strictly start end bf h = (h.0, ground (arith, h.1))

strictly_back : (start end : ℕ) (bf : Frame) → Off start end bf → Missed start end true bf
strictly_back start end bf h = (h.0, ground (arith, h.1))

loosely : (start end : ℕ) (bf : Frame) → Missed start end false bf → Outside start end bf
loosely start end bf h = (h.0, ground (arith, h.1))

loosely_back : (start end : ℕ) (bf : Frame) → Outside start end bf → Missed start end false bf
loosely_back start end bf h = (h.0, ground (arith, h.1))

-- The check of a function results in 0 exactly if no frame of the stack is a signal frame and no
-- frame's instruction pointer is between the function's start and its end; it may be at either.
pub backtrace_check_func-Outside :
    (fj : FuncJump) (bt : List Frame) (target_base : ℕ)
    → let start = add64 target_base fj.func_value in
      (backtrace_check_func fj bt target_base ≡ pos 0)
      ↔ All (Outside start (add64 start fj.func_size)) bt
unfolding backtrace_check_func
backtrace_check_func-Outside fj bt target_base =
    let start = add64 target_base fj.func_value in
    let end = add64 start fj.func_size in
    (
      λ h.
          All-map (Missed start end false) (Outside start end) (loosely start end) bt
            (none-Missed bt start end false (again-none _ h)),
      λ h. ap again_if_found (
          Missed-none bt start end false
            (All-map (Outside start end) (Missed start end false) (loosely_back start end) bt h)),
    )

-- The check of a range results in 0 exactly if no frame of the stack is a signal frame and no frame's
-- instruction pointer is in the range, its two ends included.
pub backtrace_check_range-Off :
    (bt : List Frame) (start end : ℕ)
    → (backtrace_check_range bt start end ≡ pos 0) ↔ All (Off start end) bt
unfolding backtrace_check_range
backtrace_check_range-Off bt start end = (
  λ h.
      All-map (Missed start end true) (Off start end) (strictly start end) bt
        (none-Missed bt start end true (again-none _ h)),
  λ h. ap again_if_found (
      Missed-none bt start end true
        (All-map (Off start end) (Missed start end true) (strictly_back start end) bt h)),
)
