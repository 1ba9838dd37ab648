-- ===== src/Patching/Resume.antt =====
-- Taking hold of the stopped target and letting it go (process_link, process_unlink and process_cure of
-- patcher/process.c).
use nsb.Base.{ℕ, Bool, true, false, not, if◌then◌else◌}
use nsb.Base.Int.{ℤ, pos, neg, is_zero, eq_ℤ}
use nsb.Base.Word.{bits64}
use nsb.Client.{or_neg}
use nsb.Patching.{Env, Run, Ctx, tasks_of}
use nsb.Process.Remote.{process_map_vma, process_unmap_vma}
use nsb.Process.Threads.{process_cure_threads}

abbrev pub with_ctl : Ctx → Bool → Ctx
with_ctl c ctl = record c { ctl = ctl }

abbrev pub at_address : Ctx → ℕ → Ctx
at_address c addr = record c { remote_vma = record c.remote_vma { addr = addr }; ctl = true }

module _ (e : Env) where
  -- The result of the mapping is compared with -1 (`MAP_FAILED`) alone: another error is taken for an
  -- address.
  unfoldable pub process_link : Run e → ℤ × Run e
  process_link (c, w) =
      let (ok, w1) = e.prepare w c.pid in
      let (addr, w2) = process_map_vma e.peer.remote c.service.loaded (neg 1) c.remote_vma w1 in
      if not ok
      then (neg 1, (with_ctl c false, w1))
      else if eq_ℤ addr (neg 1)
      then (neg 1, (with_ctl c false, (e.cure w2).1))
      else (pos 0, (at_address c (bits64 addr), w2))

  unfoldable pub process_unlink : Run e → ℤ × Run e
  process_unlink (c, w) =
      let (err, w1) = process_unmap_vma e.peer.remote c.service.loaded c.remote_vma w in
      let (failed, w2) = e.cure w1 in
      if not c.ctl
      then (pos 0, (c, w))
      else if not (is_zero err)
      then (err, (c, w1))
      else (or_neg failed, (c, w2))

  unfoldable pub process_cure : Run e → ℤ × Run e
  process_cure (c, w) =
      let (err, threads, w') = process_cure_threads (tasks_of e) c.threads w in
      (err, (record c { threads = threads }, w'))
