-- ===== src/Patching/TakenBack.antt =====
-- A run that takes a patch back comes to an end (unpatch_process of patcher/patch.c).
use nsb.Base.{inl, inr, ◌⊎◌}
use nsb.Base.Int.{ℤ}
use nsb.Base.Steps.{IsSome}
use nsb.Base.Text.{Text}
use nsb.Patch.{Patch}
use nsb.Patching.{Env, Run}
use nsb.Patching.Collect.{find_patch_by_bid}
use nsb.Patching.LetsGo.{LetsGo}
use nsb.Patching.Released.{Released}

-- Where the target could be stopped, the patch is among those applied to it.
abbrev pub Finds : (e : Env) → (ℤ ⊎ Unit {0}) × Run e → Type 0
Finds e (inl err, r) = Unit
Finds e (inr a, r) = IsSome (find_patch_by_bid r.0.applied_patches r.0.pi.patch_bid)
