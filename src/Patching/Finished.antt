-- ===== src/Patching/Finished.antt =====
-- A run that patches without the plugin comes to an end (patch_process of patcher/patch.c).
use mathlib.Core.Path.{subst}
use nsb.Base.{ℕ, ◌≡◌, refl, sym, inl, inr, ◌⊎◌, List, [], Option, none, some, not}
use nsb.Base.Int.{ℤ, is_zero}
use nsb.Base.Steps.{checked, IsSome, Total, Total->>=, if-either}
use nsb.Base.Text.{Text}
use nsb.DlMap.{DlMap}
use nsb.Patching.{Env, Run, World, Ctx, tasks_of, machine_of}
use nsb.Patching.Collect.{process_collect_vmas}
use nsb.Patching.Commands.{Fuel, resumed, held, or_resume, after_suspend, process_cease}
use nsb.Patching.LetsGo.{LetsGo}
use nsb.Patching.Released.{Released}
use nsb.Patching.Resume.{process_link}
use nsb.Process.Suspend.Ended.{suspend-IsSome}
use nsb.Process.Suspend.{CheckBacktrace, process_suspend}
use nsb.Process.Threads.{Thread, process_infect}
use nsb.Process.Threads.Cured.{Ends}
use nsb.Rtld.{rtld_needed_array}

-- The bounds are enough: the threads are stopped in the rounds given, and what is in the target's
-- memory ends its lists within the bounds for them.
pub record Suffices (e : Env) (fuel : Fuel) : Type 0 where
  pub infects : (w : World e) → IsSome (process_infect (tasks_of e) fuel.infect [] w)
  pub lists :
      (w : World e) (addr : ℕ)
      → IsSome (rtld_needed_array e.peer.remote.tracee fuel.dyn fuel.libraries w addr)

pub some_result :
    {A : Type 0} (Q : A → Type 0) (r : Option A)
    → IsSome r
    → Ends Q r
    → (a : A) × (r ≡ some a) × Q a
some_result Q none h q = absurd h
some_result Q (some a) h q = (a, refl, q)

module _ (e : Env) (fuel : Fuel) (enough : Suffices e fuel) (laws : LetsGo e) where
  held-IsSome : Total (held e fuel)
  held-IsSome =
      Total->>= (checked (process_link e)) (λ _. checked (process_collect_vmas e)) (λ _. tt)
        (λ _ _. tt)

  or_resume-IsSome : (r : Option ((ℤ ⊎ Unit {0}) × Run e)) → IsSome r → IsSome (or_resume e fuel r)
  or_resume-IsSome none h = absurd h
  or_resume-IsSome (some (inl ret, r)) h = tt
  or_resume-IsSome (some (inr a, r)) h = tt

  after_suspend-IsSome :
      (c : Ctx) (stopped : Option (ℤ × List Thread × World e))
      → IsSome stopped
      → IsSome (after_suspend e fuel c stopped)
  after_suspend-IsSome c none h = absurd h
  after_suspend-IsSome c (some (err, threads, w)) h =
      let c' = record c { threads = threads } in
      if-either IsSome (not (is_zero err)) _ _ tt
        (or_resume-IsSome (held e fuel (c', w)) (held-IsSome (c', w)))

  pub cease-IsSome :
      (check : CheckBacktrace) (bid : Text) (r : Run e)
      → r.0.threads ≡ []
      → IsSome (process_cease e fuel check bid r)
  unfolding process_cease
  cease-IsSome check bid (c, w) h =
      after_suspend-IsSome c
        (process_suspend (machine_of e) c.pid check fuel.infect bid c.threads w)
        (subst
          (λ (ts : List Thread).
            IsSome (process_suspend (machine_of e) c.pid check fuel.infect bid ts w))
          (sym h)
          (suspend-IsSome (machine_of e) c.pid check fuel.infect laws.resumes enough.infects bid w))

  pub resumed-IsSome : (r : Option ((ℤ ⊎ Unit {0}) × Run e)) → IsSome r → IsSome (resumed e fuel r)
  resumed-IsSome none h = absurd h
  resumed-IsSome (some (inl ret, r)) h = tt
  resumed-IsSome (some (inr a, r)) h = tt
