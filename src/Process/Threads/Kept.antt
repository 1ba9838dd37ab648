-- ===== src/Process/Threads/Kept.antt =====
-- Whatever comes of `process_infect` and `process_cure_threads` of patcher/process.c, the threads that
-- are stopped come first in the list: the next try relies on it.
use mathlib.Core.Path.{subst}
use nsb.Base.{ℕ, zero, suc, ◌≡◌, refl, inl, inr, List, [], ◌∷◌, some, some-eq, arith, if◌then◌else◌}
use nsb.Base.Int.{is_zero}
use nsb.Process.Threads.{
  Thread, Tasks, Infection, task_cure, process_cure_threads, process_collect_threads,
  process_infect_threads, process_infect, infected_all, give_up, process_needs_seize,
}
use nsb.Process.Threads.Collected.{SeizedFirst}
use nsb.Process.Threads.Infected.{
  one_of, walk-SeizedFirst, infect_threads-SeizedFirst, collect_threads-SeizedFirst,
}

module _ (tasks : Tasks) where
  open tasks use {World}

  pub cure_threads-SeizedFirst :
      (ts : List Thread) (w : World)
      → SeizedFirst ts
      → SeizedFirst (process_cure_threads tasks ts w).1
  unfolding process_cure_threads
  cure_threads-SeizedFirst ts w h =
      walk-SeizedFirst
        (λ t w.
          let (err, w') = task_cure tasks t w in (err, if is_zero err then [] else t ∷ [], w'))
        (λ t w e. rw e tt) (λ t w e. rw e refl) ts w h

  infected_all-SeizedFirst :
      (ts : List Thread) (w : World)
      → SeizedFirst ts
      → SeizedFirst (infected_all tasks ts w).threads
  infected_all-SeizedFirst [] w h = tt
  infected_all-SeizedFirst (t ∷ ts) w h = h

  pub process_infect-SeizedFirst :
      (fuel : ℕ) (threads : List Thread) (w : World) (i : Infection tasks)
      → SeizedFirst threads
      → process_infect tasks fuel threads w ≡ some i
      → SeizedFirst i.threads
  unfolding process_infect
  process_infect-SeizedFirst zero threads w i h ran = absurd (ground (arith, ran))
  process_infect-SeizedFirst (suc fuel) threads w i h ran =
      let (err, got) = process_collect_threads tasks w threads in
      let (err', left, w') = process_infect_threads tasks got w in
      let h1 = collect_threads-SeizedFirst tasks threads w h in
      let h2 = infect_threads-SeizedFirst tasks got w h1 in
      let keep = λ (j : Infection tasks) (e : some j ≡ some i) (k : SeizedFirst j.threads).
        subst (λ (x : Infection tasks). SeizedFirst x.threads) (some-eq j i e) k in
      elim (one_of (is_zero err) (process_needs_seize got) (is_zero err')
        (some (give_up tasks err got w)) (some (infected_all tasks got w))
        (some (give_up tasks err' left w')) (process_infect tasks fuel left w') i ran) [
          | inl (bad, e) ↦ keep (give_up tasks err got w) e (cure_threads-SeizedFirst got w h1)
          | inr (inl (good, done, e)) ↦
              keep (infected_all tasks got w) e (infected_all-SeizedFirst got w h1)
          | inr (inr (inl (bad, e))) ↦
              keep (give_up tasks err' left w') e (cure_threads-SeizedFirst left w' h2)
          | inr (inr (inr (good, e))) ↦ process_infect-SeizedFirst fuel left w' i h2 e
        ]
