-- ===== src/Patching/Released.antt =====
-- Whatever step of a run without the plugin fails, the target is let go of (patch_process and
-- unpatch_process of patcher/patch.c).
use nsb.Base.{
  ℕ, ◌≡◌, inl, inr, ◌⊎◌, Bool, true, Bool-cases, List, [], Option, none, some, not, if◌then◌else◌,
}
use nsb.Base.Int.{ℤ, pos, neg, negsuc, is_zero}
use nsb.Base.Steps.{Step, AtEnd, Keeps, if-either, followed, checked}
use nsb.Base.Text.{Text}
use nsb.Elf.{ElfInfo}
use nsb.Patch.{PatchInfo}
use nsb.Patching.{Env, Run, World, Ctx, machine_of}
use nsb.Patching.Collect.{process_collect_vmas}
use nsb.Patching.Commands.{
  Fuel, init_context, init_patch, create_patch, with_patch, resumed, held, or_resume, after_suspend,
  process_cease, patched, if_ceased, patch_process, unpatched, unpatch_process,
}
use nsb.Patching.Held.{HeldRun, collect_vmas-Held, patched-Held, unpatched-Held}
use nsb.Patching.Resume.{process_link}
use nsb.Process.Suspend.{
  CheckBacktrace, process_suspend, jumps_check_backtrace, patch_check_backtrace,
}
use nsb.Process.Suspend.Cured.{suspend-Left}
use nsb.Process.Threads.{Thread}
use nsb.Process.Threads.Cured.{Ends, ErrorEmpty}
use nsb.Patching.LetsGo.{LetsGo, Begins, resume-empty, link-Held}

-- The context begins with no thread.
abbrev pub Ready : (e : Env) → Run e → Type 0
Ready e r = Begins r.0 × (r.0.threads ≡ [])

-- No thread is held.
abbrev pub Released : (e : Env) → ℤ × Run e → Type 0
Released e r = r.1.0.threads ≡ []

module _ (e : Env) (laws : LetsGo e) where
  -- What holds of the target when it is stopped, and when that has failed.
  abbrev Ceased : (ℤ ⊎ Unit {0}) × Run e → Type 0
  Ceased (inl err, r) = r.0.threads ≡ []
  Ceased (inr a, r) = HeldRun e r

  module _ (fuel : Fuel) where
    held-Held : (r : Run e) → Begins r.0 → AtEnd (λ r. HeldRun e r.1) (held e fuel r)
    held-Held r b =
        let (err, r') = process_link e r in
        followed_by (if is_zero err then inr tt else inl err) r' (link-Held e laws r b)
      where
        followed_by :
            (x : ℤ ⊎ Unit {0}) (r : Run e)
            → HeldRun e r
            → AtEnd
                (λ r. HeldRun e r.1)
                (followed (λ _. checked (process_collect_vmas e)) (some (x, r)))
        followed_by (inl err) r h = h
        followed_by (inr a) r h = collect_vmas-Held e r h

    or_resume-Ceased :
        (r : Option ((ℤ ⊎ Unit {0}) × Run e))
        → AtEnd (λ r. HeldRun e r.1) r
        → AtEnd Ceased (or_resume e fuel r)
    or_resume-Ceased none h = tt
    or_resume-Ceased (some (inl ret, r)) h = resume-empty e laws r h
    or_resume-Ceased (some (inr a, r)) h = h

    after_suspend-Ceased :
        (c : Ctx) (stopped : Option (ℤ × List Thread × World e))
        → Begins c
        → Ends (λ (r : ℤ × List Thread × World e). ErrorEmpty r.0 r.1) stopped
        → AtEnd Ceased (after_suspend e fuel c stopped)
    after_suspend-Ceased c none b h = tt
    after_suspend-Ceased c (some (err, threads, w)) b h = elim (Bool-cases (is_zero err)) [
      | inr bad ↦ rw bad (h bad)
      | inl good ↦
          let c' = record c { threads = threads } in
          rw good (or_resume-Ceased (held e fuel (c', w)) (held-Held (c', w) b))
    ]

    cease-Ceased :
        (check : CheckBacktrace) (bid : Text) (r : Run e)
        → Begins r.0
        → AtEnd Ceased (process_cease e fuel check bid r)
    unfolding process_cease
    cease-Ceased check bid (c, w) b =
        after_suspend-Ceased c
          (process_suspend (machine_of e) c.pid check fuel.infect bid c.threads w) b
          (suspend-Left (machine_of e) c.pid check fuel.infect laws.resumes bid c.threads w)

    resumed-Released :
        (r : Option ((ℤ ⊎ Unit {0}) × Run e))
        → AtEnd (λ r. HeldRun e r.1) r
        → Ends (Released e) (resumed e fuel r)
    resumed-Released none h = tt
    resumed-Released (some (inl ret, r)) h = resume-empty e laws r h
    resumed-Released (some (inr a, r)) h = resume-empty e laws r h

    if_ceased-Released :
        (m : Step (Run e) (Unit {0})) (r : Option ((ℤ ⊎ Unit {0}) × Run e))
        → Keeps (HeldRun e) m
        → AtEnd Ceased r
        → Ends (Released e) (if_ceased e fuel m r)
    if_ceased-Released m none keep h = tt
    if_ceased-Released m (some (inl err, r)) keep h = h
    if_ceased-Released m (some (inr a, r)) keep h = resumed-Released (m r) (keep r h)

    with_patch-Ready :
        (ei : ElfInfo) (r : Run e) (pi : ℤ ⊎ PatchInfo)
        → Ready e r
        → Ready e (with_patch e fuel ei r pi).1
    with_patch-Ready ei r (inl err) h = h
    with_patch-Ready ei r (inr pi) h = h

    init_patch-Ready : (r : Run e) → Ready e r → Ready e (init_patch e fuel r).1
    unfolding init_patch
    init_patch-Ready (c, w) h = opened ((e.peer.files w).open_elf c.patchfile)
      where
        opened :
            (o : ℕ ⊎ ElfInfo)
            → Ready e
                (elim o as (λ _. ℤ × Run e) [
                  | inl n ↦ (negsuc n, (c, w))
                  | inr ei ↦ with_patch e fuel ei (c, w) (create_patch e fuel ei (c, w))
                ]).1
        opened (inl n) = h
        opened (inr ei) = with_patch-Ready ei (c, w) (create_patch e fuel ei (c, w)) h

    pub init-Ready :
        (pid : ℕ) (patchfile : Text) (dry_run : Bool) (r : Run e)
        → Ready e r
        → Ready e (init_context e fuel pid patchfile dry_run r).1
    unfolding init_context
    init-Ready pid patchfile dry_run (c, w) h =
        let begun = record c { pid = pid; patchfile = patchfile; dry_run = dry_run } in
        let ready = init_patch-Ready (begun, w) h in
        let (err, r) = init_patch e fuel (begun, w) in
        let begun_so : ℤ × Run e = if not (is_zero err) then (pos 1, r) else (pos 0, r) in
        if-either (λ (x : ℤ × Run e). Ready e x.1) (not e.elf_library_ok) (neg 1, (c, w)) begun_so h
          (if-either (λ (x : ℤ × Run e). Ready e x.1) (not (is_zero err)) (pos 1, r) (pos 0, r)
            ready ready)

    begun-Released :
        (err : ℤ) (r : Run e) (run : Option (ℤ × Run e))
        → Ready e r
        → Ends (Released e) run
        → Ends (Released e) (if not (is_zero err) then some (err, r) else run)
    begun-Released err r run h h' = elim (Bool-cases (is_zero err)) [
      | inl good ↦ rw good h'
      | inr bad ↦ rw bad h.1
    ]

    pub patch_process-Released :
        (pid : ℕ) (patchfile : Text) (dry_run : Bool) (r : Run e)
        → Ready e r
        → Ends (Released e) (patch_process e fuel pid patchfile dry_run true r)
    unfolding patch_process
    patch_process-Released pid patchfile dry_run r h =
        let (err, (c, w)) = init_context e fuel pid patchfile dry_run r in
        let ready = init-Ready pid patchfile dry_run r h in
        begun-Released err (c, w) _ ready
          (if_ceased-Released (patched e fuel true) _ (patched-Held e fuel)
            (cease-Ceased (jumps_check_backtrace c.pi.func_jumps) c.pi.target_bid (c, w) ready.0))

    pub unpatch_process-Released :
        (pid : ℕ) (patchfile : Text) (dry_run : Bool) (r : Run e)
        → Ready e r
        → Ends (Released e) (unpatch_process e fuel pid patchfile dry_run r)
    unfolding unpatch_process
    unpatch_process-Released pid patchfile dry_run r h =
        let (err, (c, w)) = init_context e fuel pid patchfile dry_run r in
        let ready = init-Ready pid patchfile dry_run r h in
        begun-Released err (c, w) _ ready
          (if_ceased-Released (unpatched e fuel) _ (unpatched-Held e fuel)
            (cease-Ceased patch_check_backtrace c.pi.patch_bid (c, w) ready.0))
