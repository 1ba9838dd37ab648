-- ===== src/Backtrace.antt =====
-- The stack of a stopped thread and the checks on it (patcher/backtrace.c).
pub mod Clear
pub mod Unwound
use nsb.Base.{
  ℕ, zero, suc, Bool, true, false, List, [], ◌∷◌, ◌++◌, Option, none, some, ◌⊎◌, inl, inr, length,
  ltb, leb, not, ◌&&◌, if◌then◌else◌,
}
use nsb.Base.Int.{ℤ, pos, is_neg, is_zero, eagain, efault, enomem}
use nsb.Base.Text.{Text}
use nsb.Base.Word.{add64}
use nsb.Patch.{FuncJump}

-- `struct backtrace_frame_s`
pub record Frame : Type 0 where
  pub ip : ℕ
  pub sp : ℕ
  pub sigframe : Bool
  pub name : Option Text

-- What libunwind answers at a cursor of a stopped thread, and whether the n-th allocation succeeds.
pub record Unwinder : Type 1 where
  pub Cursor : Type 0
  pub get_ip : Cursor → ℤ × ℕ
  pub get_sp : Cursor → ℤ × ℕ
  pub get_proc_name : Cursor → Text
  pub is_signal_frame : Cursor → ℤ
  pub step : Cursor → ℤ × Cursor
  pub create_addr_space : Bool
  pub upt_create : (pid : ℕ) → Bool
  pub init_remote : (pid : ℕ) → ℤ × Cursor
  pub alloc_succeeds : ℕ → Bool

-- `MAX_DEPTH`
abbrev pub max_depth : ℕ
max_depth = 64

-- `MAX_DEPTH + 2` rounds of the walk are enough.
abbrev pub enough_rounds : ℕ
enough_rounds = 66

module _ (u : Unwinder) where
  open u use {
    Cursor, get_ip, get_sp, get_proc_name, is_signal_frame, step, create_addr_space, upt_create,
    init_remote, alloc_succeeds,
  }

  -- The frame, none where memory is short, and the allocations made.
  unfoldable pub create_frame : (ip sp : ℕ) (sigframe : Bool) → Text → ℕ → Option Frame × ℕ
  create_frame ip sp sigframe [] n = (
    if alloc_succeeds n
        then some (record { ip = ip; sp = sp; sigframe = sigframe; name = none })
        else none,
    suc n,
  )
  create_frame ip sp sigframe (c ∷ s) n = if not (alloc_succeeds n) then (none, suc n) else (
    if alloc_succeeds (suc n)
        then some (record { ip = ip; sp = sp; sigframe = sigframe; name = some (c ∷ s) })
        else none,
    suc (suc n),
  )

  -- One round of the loop: the end, by a result and the frames that are left, or the frames, the cursor
  -- and the allocations of the next round. `bt->depth` is the number of frames.
  unfoldable pub round : Cursor → List Frame → ℕ → (ℤ × List Frame) ⊎ (List Frame × Cursor × ℕ)
  round c calls n =
      let (ret_step, c') = step c in
      let (made, m) =
        create_frame (get_ip c).1 (get_sp c).1 (not (is_zero (is_signal_frame c))) (get_proc_name c)
          n in
      if is_neg (get_ip c).0
      then inl ((get_ip c).0, [])
      else if is_neg (get_sp c).0
      then inl ((get_sp c).0, [])
      else if is_neg (is_signal_frame c)
      then inl (is_signal_frame c, [])
      else if is_neg ret_step
      then inl (eagain, [])
      else if is_zero ret_step
      then inl (pos 0, calls)
      else if ltb max_depth (length calls)
      then inl (eagain, [])
      else elim made [ none ↦ inl (enomem, []) | some bf ↦ inr (calls ++ bf ∷ [], c', m) ]

  -- `while (1)`; none where the fuel is used up.
  unfoldable pub do_backtrace : (fuel : ℕ) → Cursor → List Frame → ℕ → Option (ℤ × List Frame)
  do_backtrace zero c calls n = none
  do_backtrace (suc fuel) c calls n = elim (round c calls n) [
    | inl result ↦ some result
    | inr (calls', c', n') ↦ do_backtrace fuel c' calls' n'
  ]

  unfoldable pub pid_backtrace : (pid : ℕ) → Option (ℤ × List Frame)
  pid_backtrace pid =
      let (err, c) = init_remote pid in
      let walked = do_backtrace enough_rounds c [] 1 in
      if not (alloc_succeeds 0)
      then some (enomem, [])
      else if not create_addr_space
      then some (efault, [])
      else if not (upt_create pid)
      then some (efault, [])
      else if is_neg err
      then some (err, [])
      else walked

-- The first frame that is a signal frame or in the range, its ends included if `strict`.
abbrev pub hits : (start end : ℕ) (strict : Bool) → Frame → Bool
hits start end strict bf =
    if strict then leb start bf.ip && leb bf.ip end else ltb start bf.ip && ltb bf.ip end

unfoldable pub bt_check_range : List Frame → (start end : ℕ) (strict : Bool) → Option Frame
bt_check_range [] start end strict = none
bt_check_range (bf ∷ bt) start end strict =
    let rest = bt_check_range bt start end strict in
    if bf.sigframe then some bf else if hits start end strict bf then some bf else rest

abbrev pub again_if_found : Option Frame → ℤ
again_if_found none = pos 0
again_if_found (some bf) = eagain

unfoldable pub backtrace_check_func : FuncJump → List Frame → (target_base : ℕ) → ℤ
backtrace_check_func fj bt target_base =
    let func_start = add64 target_base fj.func_value in
    let func_end = add64 func_start fj.func_size in
    again_if_found (bt_check_range bt func_start func_end false)

unfoldable pub backtrace_check_range : List Frame → (start end : ℕ) → ℤ
backtrace_check_range bt start end = again_if_found (bt_check_range bt start end true)
