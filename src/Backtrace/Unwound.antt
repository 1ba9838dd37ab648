-- ===== src/Backtrace/Unwound.antt =====
-- The walk up the stack (do_backtrace and pid_backtrace of patcher/backtrace.c): its end, and what it
-- collects.
use mathlib.Core.List.{append-nil, append_assoc}
use mathlib.Core.Path.{subst}
use nsb.Base.{
  ℕ, zero, suc, ◌+◌, ◌≤◌, ◌≡◌, refl, sym, ap, ◌∙◌, ◌⊎◌, inl, inr, Bool, true, false, List, [], ◌∷◌,
  ◌++◌, Option, some, none, length, not, if◌then◌else◌, Bool-cases, Option-cases, Sum-cases,
  length-append, arith,
}
use nsb.Base.Int.{ℤ, pos, negsuc, enomem, efault, is_neg, is_zero, is_zero-eq}
use nsb.Base.Text.{Text}
use nsb.Backtrace.{Frame, Unwinder, create_frame, round, do_backtrace, pid_backtrace, enough_rounds}

module _ (u : Unwinder) where
  open u use {Cursor, get_ip, get_sp, is_signal_frame, get_proc_name, step}

  -- The frame is the one at the cursor.
  abbrev pub FrameOf : Cursor → Frame → Type 0
  FrameOf c bf =
      (bf.ip ≡ (get_ip c).1)
      × (bf.sp ≡ (get_sp c).1)
      × (bf.sigframe ≡ not (is_zero (is_signal_frame c)))

  -- The frames are those that libunwind steps through from the cursor, the topmost left out.
  pub data Unwinds : Cursor → List Frame → Type 0 where
    top : {c : Cursor} → is_zero (step c).0 ≡ true → Unwinds c []
    call :
        {c : Cursor} {bf : Frame} {fs : List Frame}
        → is_neg (step c).0 ≡ false
        → is_zero (step c).0 ≡ false
        → FrameOf c bf
        → Unwinds (step c).1 fs
        → Unwinds c (bf ∷ fs)

  created :
      (ip sp n : ℕ) (sigframe : Bool) (name : Text) (bf : Frame)
      → (create_frame u ip sp sigframe name n).0 ≡ some bf
      → (bf.ip ≡ ip) × (bf.sp ≡ sp) × (bf.sigframe ≡ sigframe)
  unfolding create_frame
  created ip sp n sigframe [] bf h = ground (arith, h)
  created ip sp n sigframe (c ∷ s) bf h = ground (arith, h)

  -- What `round` calls `create_frame` with.
  abbrev frame_at : Cursor → ℕ → Option Frame × ℕ
  frame_at c n =
      create_frame u (get_ip c).1 (get_sp c).1 (not (is_zero (is_signal_frame c))) (get_proc_name c)
        n

  round-end :
      (c : Cursor) (calls frames : List Frame) (n : ℕ)
      → round u c calls n ≡ inl (pos 0, frames)
      → (is_zero (step c).0 ≡ true) × (frames ≡ calls)
  unfolding round
  round-end c calls frames n h = ground (arith, h)

  round-goes :
      (c c' : Cursor) (calls calls' : List Frame) (n n' : ℕ) (bf : Frame)
      → (frame_at c n).0 ≡ some bf
      → round u c calls n ≡ inr (calls', c', n')
      → (is_neg (step c).0 ≡ false)
        × (is_zero (step c).0 ≡ false)
        × (length calls ≤ 64)
        × (calls' ≡ calls ++ bf ∷ [])
        × (c' ≡ (step c).1)
  unfolding round
  round-goes c c' calls calls' n n' bf e h = ground (arith, e, h)

  round-memory :
      (c c' : Cursor) (calls calls' : List Frame) (n n' : ℕ)
      → (frame_at c n).0 ≡ none
      → ¬ (round u c calls n ≡ inr (calls', c', n'))
  unfolding round
  round-memory c c' calls calls' n n' e h = ground (arith, e, h)

  -- What holds of the result of a walk that began with some frames.
  abbrev Walked : Cursor → List Frame → ℤ × List Frame → Type 0
  Walked c calls r =
      (is_zero r.0 ≡ false)
      ⊎ ((fs : List Frame) × (r.1 ≡ calls ++ fs) × Unwinds c fs × (length r.1 ≤ 65))

  ended :
      (c : Cursor) (calls : List Frame) (n : ℕ) (r : ℤ × List Frame)
      → length calls ≤ 65
      → round u c calls n ≡ inl r
      → Walked c calls r
  ended c calls n r few e = elim (Bool-cases (is_zero r.0)) [
    | inr f ↦ inl f
    | inl f ↦
        let last = round-end c calls r.1 n (e ∙ ap (λ (z : ℤ). inl (z, r.1)) (is_zero-eq r.0 f)) in
        inr ([], last.1 ∙ sym (append-nil calls), top last.0, omega (arith, ap length last.1))
  ]

  went :
      (c : Cursor) (calls : List Frame) (bf : Frame) (r : ℤ × List Frame)
      → is_neg (step c).0 ≡ false
      → is_zero (step c).0 ≡ false
      → FrameOf c bf
      → Walked (step c).1 (calls ++ bf ∷ []) r
      → Walked c calls r
  went c calls bf r neg zer frame (inl e) = inl e
  went c calls bf r neg zer frame (inr (fs, e, w, l)) =
      inr (bf ∷ fs, e ∙ append_assoc calls (bf ∷ []) fs, call neg zer frame w, l)

  -- A round that goes on hands on a list that is longer by the frame at the cursor.
  goes_on :
      (c c' : Cursor) (calls calls' : List Frame) (n n' : ℕ)
      → round u c calls n ≡ inr (calls', c', n')
      → (length calls' ≡ length calls + 1)
        × (length calls' ≤ 65)
        × ((r : ℤ × List Frame) → Walked c' calls' r → Walked c calls r)
  goes_on c c' calls calls' n n' e = elim (Option-cases (frame_at c n).0) [
    | inl short ↦ absurd (round-memory c c' calls calls' n n' short e)
    | inr (bf, made) ↦
        let (not_neg, not_zero, few, is_calls, is_c) =
          round-goes c c' calls calls' n n' bf made e in
        let longer : length calls' ≡ length calls + 1 =
          ap length is_calls ∙ length-append calls (bf ∷ []) in
        (
          longer,
          omega arith,
          λ r w.
              went c calls bf r not_neg not_zero
                (created (get_ip c).1 (get_sp c).1 n (not (is_zero (is_signal_frame c)))
                  (get_proc_name c) bf made)
                (subst (λ (x : Cursor). Walked x (calls ++ bf ∷ []) r) is_c
                  (subst (λ (xs : List Frame). Walked c' xs r) is_calls w)),
        )
  ]

  do_backtrace-Walked :
      (fuel : ℕ) (c : Cursor) (calls : List Frame) (n : ℕ)
      → length calls ≤ 65
      → 66 ≤ fuel + length calls
      → (r : ℤ × List Frame) × (do_backtrace u fuel c calls n ≡ some r) × Walked c calls r
  unfolding do_backtrace
  do_backtrace-Walked zero c calls n few enough = absurd (omega arith)
  do_backtrace-Walked (suc fuel) c calls n few enough = elim (Sum-cases (round u c calls n)) [
    | inl (r, e) ↦ (r, rw (e, do_backtrace) refl, ended c calls n r few e)
    | inr ((calls', c', n'), e) ↦
        let (longer, few', back) = goes_on c c' calls calls' n n' e in
        let (r, ran, w) = do_backtrace-Walked fuel c' calls' n' few' (omega arith) in
        (r, rw (e, do_backtrace) ran, back r w)
  ]

  -- The walk's result, unless one of the preparations fails.
  picked :
      (memory space upt : Bool) (err : ℤ) (walked : Option (ℤ × List Frame)) (r : ℤ × List Frame)
      → walked ≡ some r
      → (r' : ℤ × List Frame) × ((if not memory
            then some (enomem, [])
            else if not space
            then some (efault, [])
            else if not upt
            then some (efault, [])
            else if is_neg err
            then some (err, [])
            else walked)
          ≡ some r')
        × ((is_zero r'.0 ≡ false) ⊎ (r' ≡ r))
  picked false space upt err walked r e = ((enomem, []), refl, inl refl)
  picked true false upt err walked r e = ((efault, []), refl, inl refl)
  picked true true false err walked r e = ((efault, []), refl, inl refl)
  picked true true true (negsuc n) walked r e = ((negsuc n, []), refl, inl refl)
  picked true true true (pos n) walked r e = (r, e, inr refl)

  from_start :
      (c : Cursor) (r : ℤ × List Frame)
      → Walked c [] r
      → (is_zero r.0 ≡ false) ⊎ (Unwinds c r.1 × (length r.1 ≤ 65))
  from_start c r (inl e) = inl e
  from_start c r (inr (fs, e, w, few)) =
      inr (subst (λ (xs : List Frame). Unwinds c xs) (sym e) w, few)

  -- `pid_backtrace` always returns. If its result is 0 it has collected at most 65 frames, and they are
  -- the ones that libunwind steps through from the thread's registers, in order, up to the topmost,
  -- which is left out.
  pub pid_backtrace-Unwinds :
      (pid : ℕ)
      → (r : ℤ × List Frame) × (pid_backtrace u pid ≡ some r)
        × ((is_zero r.0 ≡ false) ⊎ (Unwinds (u.init_remote pid).1 r.1 × (length r.1 ≤ 65)))
  unfolding pid_backtrace
  pid_backtrace-Unwinds pid =
      let c = (u.init_remote pid).1 in
      let (r, ran, w) = do_backtrace-Walked enough_rounds c [] 1 (omega arith) (omega arith) in
      let (r', picks, same) =
        picked (u.alloc_succeeds 0) u.create_addr_space (u.upt_create pid) (u.init_remote pid).0
          (do_backtrace u enough_rounds c [] 1) r ran in
      (
        r',
        picks,
        elim same [
          | inl e ↦ inl e
          | inr e ↦
              subst
                (λ (x : ℤ × List Frame).
                  (is_zero x.0 ≡ false) ⊎ (Unwinds c x.1 × (length x.1 ≤ 65)))
                (sym e) (from_start c r w)
        ],
      )
