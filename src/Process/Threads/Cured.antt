-- ===== src/Process/Threads/Cured.antt =====
-- Where every thread can be resumed, an attempt to stop the target that fails (process_infect,
-- process_catch and process_suspend of patcher/process.c) leaves no thread behind.
use mathlib.Core.Bool.{true≢false}
use nsb.Base.{
  ℕ, zero, suc, ◌≡◌, refl, ap, ◌∙◌, Bool, true, false, List, [], ◌∷◌, ◌++◌, Option, none, some, not,
  arith, if◌then◌else◌,
}
use nsb.Base.Int.{ℤ, pos, is_zero}
use nsb.Base.Loop.{for_each_entry, for_each_entry-goes}
use nsb.Process.Threads.{
  Thread, Tasks, Infection, task_cure, process_cure_threads, process_collect_threads,
  process_infect_threads, process_needs_seize, give_up, infected_all, process_infect,
}

-- What holds of a result, where there is one.
abbrev pub Ends {ℓ κ} : {A : Type ℓ} → (A → Type κ) → Option A → Type κ
Ends Q none = Unit
Ends Q (some a) = Q a

pub Ends-if {ℓ κ} :
    {A : Type ℓ} (Q : A → Type κ) (b : Bool) (x y : Option A)
    → (b ≡ true → Ends Q x)
    → (b ≡ false → Ends Q y)
    → Ends Q (if b then x else y)
Ends-if Q true x y hx hy = hx refl
Ends-if Q false x y hx hy = hy refl

-- An error comes with an empty list.
abbrev pub ErrorEmpty : ℤ → List Thread → Type 0
ErrorEmpty err threads = is_zero err ≡ false → threads ≡ []

module _ (tasks : Tasks)
    (resumes : (w : tasks.World) (pid : ℕ) → (tasks.resume_task w pid).0 ≡ false) where
  task_cure-zero : (t : Thread) (w : tasks.World) → (task_cure tasks t w).0 ≡ pos 0
  unfolding task_cure
  task_cure-zero t w = ground (arith, resumes w t.pid)

  pub cure_threads-empty :
      (ts : List Thread) (w : tasks.World)
      → ((process_cure_threads tasks ts w).0 ≡ pos 0) × ((process_cure_threads tasks ts w).1 ≡ [])
  unfolding process_cure_threads for_each_entry
  cure_threads-empty [] w = (refl, refl)
  cure_threads-empty (t ∷ ts) w =
      let goes =
        for_each_entry-goes
          (λ (t : Thread) (w : tasks.World).
            let (err, w') = task_cure tasks t w in (err, if is_zero err then [] else t ∷ [], w'))
          t ts w (ap is_zero (task_cure-zero t w)) in
      let rest = cure_threads-empty ts (task_cure tasks t w).1 in
      (
        ap (λ (r : ℤ × List Thread × tasks.World). r.0) goes ∙ rest.0,
        ap (λ (r : ℤ × List Thread × tasks.World). r.1) goes
            ∙ ap
                (λ (err : ℤ).
                  (if is_zero err then [] else t ∷ [])
                  ++ (process_cure_threads tasks ts (task_cure tasks t w).1).1)
                (task_cure-zero t w)
            ∙ rest.1,
      )

  give_up-empty :
      (err : ℤ) (ts : List Thread) (w : tasks.World) → (give_up tasks err ts w).threads ≡ []
  give_up-empty err ts w = (cure_threads-empty ts w).1

  infected_all-ErrorEmpty :
      (ts : List Thread) (w : tasks.World)
      → ErrorEmpty (infected_all tasks ts w).err (infected_all tasks ts w).threads
  infected_all-ErrorEmpty [] w h = refl
  infected_all-ErrorEmpty (t ∷ ts) w h = absurd (true≢false h)

  pub infect-ErrorEmpty :
      (fuel : ℕ) (ts : List Thread) (w : tasks.World)
      → Ends (λ (i : Infection tasks). ErrorEmpty i.err i.threads) (process_infect tasks fuel ts w)
  unfolding process_infect
  infect-ErrorEmpty zero ts w = tt
  infect-ErrorEmpty (suc fuel) ts w =
      let Q = λ (i : Infection tasks). ErrorEmpty i.err i.threads in
      let (err, collected) = process_collect_threads tasks w ts in
      let (err', left, w') = process_infect_threads tasks collected w in
      Ends-if Q (not (is_zero err)) _ _ (λ _ _. give_up-empty err collected w)
        (λ _.
          Ends-if Q (not (process_needs_seize collected)) _ _
            (λ _. infected_all-ErrorEmpty collected w)
            (λ _.
              Ends-if Q (not (is_zero err')) _ _ (λ _ _. give_up-empty err' left w')
                (λ _. infect-ErrorEmpty fuel left w')))
