-- ===== src/Patching/Injected.antt =====
-- The service in the target (process_find_sym, process_call_dlopen, process_inject_service,
-- process_call_dlclose and process_shutdown_service of patcher/process.c, and process_resume of
-- patcher/patch.c).
use nsb.Base.{ℕ, [], ◌∷◌, ◌++◌, ◌⊎◌, inl, inr, not, ◌==◌, ◌||◌, if◌then◌else◌}
use nsb.Base.Int.{ℤ, pos, is_neg, is_zero, enoent, efault}
use nsb.Base.Text.{Text, codes}
use nsb.Base.Word.{add64, bits64, to_int}
use nsb.Client.{Service, sym_value}
use nsb.Client.Connect.{service_start, service_stop}
use nsb.DlMap.Find.{dl_get_symbol_value}
use nsb.Patching.{Env, Run, World, Ctx}
use nsb.Patching.Resume.{process_unlink, process_cure}
use nsb.Process.Memory.{process_write_data}
use nsb.Process.Remote.{round_up8, rounded_up, process_exec_code}
use nsb.X86.{call_max_size, x86_64_dlopen, x86_64_dlclose}

-- An error, or the address.
unfoldable pub process_find_sym : Ctx → (name : Text) → ℤ ⊎ ℕ
process_find_sym c name =
    let value = sym_value (dl_get_symbol_value c.dl_maps name) in
    if is_neg value then inl value else if is_zero value then inl enoent else inr (bits64 value)

-- The name of the service, as the patcher's context has it.
abbrev pub service_name : Text
service_name = codes "libnsb_service.so"

module _ (e : Env) where
  unfoldable pub process_call_dlopen :
      (code_addr dlopen_addr : ℕ) (soname : Text) → World e → ℤ × World e
  process_call_dlopen code_addr dlopen_addr soname w =
      let name_addr = round_up8 (add64 code_addr call_max_size) in
      let (size, code) = x86_64_dlopen e.peer.rel dlopen_addr name_addr code_addr in
      let (err, w1) =
        process_write_data e.peer.remote.tracee w name_addr
          (rounded_up e.peer.remote (soname ++ 0 ∷ [])) in
      if is_neg size
      then (size, w)
      else if not (is_zero err)
      then (err, w1)
      else process_exec_code e.peer.remote code_addr code w1

  unfoldable pub process_call_dlclose : (code_addr dlclose_addr handle : ℕ) → World e → ℤ × World e
  process_call_dlclose code_addr dlclose_addr handle w =
      let (size, code) = x86_64_dlclose e.peer.rel dlclose_addr handle code_addr in
      if is_neg size then (size, w) else process_exec_code e.peer.remote code_addr code w

  -- The handle is that of `dlopen` in the target.
  abbrev pub started : (handle : ℤ) → Run e → ℤ × Run e
  started handle (c, w) =
      let held : Service = record c.service { handle = bits64 handle } in
      let (err, service, vmas, allocs, w') =
        service_start e.peer c.pid c.remote_vma.addr held c.vmas c.allocs w in
      (err, (record c { service = service; vmas = vmas; allocs = allocs }, w'))

  unfoldable pub process_inject_service : Run e → ℤ × Run e
  process_inject_service (c, w) = elim (process_find_sym c (codes "__libc_dlopen_mode")) [
    | inl err ↦ (err, (c, w))
    | inr dlopen_addr ↦
        (let (handle, w1) = process_call_dlopen c.remote_vma.addr dlopen_addr service_name w in
          if is_neg handle || is_zero handle then (efault, (c, w1)) else started handle (c, w1))
  ]

  -- The handle is given back with `dlclose`.
  abbrev pub closed : Service → Run e → ℤ × Run e
  closed service (c, w) = elim (process_find_sym c (codes "__libc_dlclose")) [
    | inl err ↦ (err, (record c { service = service }, w))
    | inr dlclose_addr ↦
        (let (ret, w1) = process_call_dlclose c.remote_vma.addr dlclose_addr service.handle w in
          if not (is_zero (to_int ret))
          then (efault, (record c { service = service }, w1))
          else (pos 0, (record c { service = record service { handle = 0 } }, w1)))
  ]

  unfoldable pub process_shutdown_service : Run e → ℤ × Run e
  process_shutdown_service (c, w) =
      let (err, service, w1) = service_stop e.peer c.pid c.service w in
      if c.service.handle == 0
      then (pos 0, (c, w))
      else if not (is_zero err)
      then (err, (record c { service = service }, w1))
      else closed service (c, w1)

  -- Where the service cannot be shut down, or the target not be let go of, it is not resumed.
  unfoldable pub process_resume : Run e → ℤ × Run e
  process_resume r =
      let (err, r1) = process_shutdown_service r in
      let (err', r2) = process_unlink e r1 in
      if not (is_zero err)
      then (err, r1)
      else if not (is_zero err')
      then (err', r2)
      else process_cure e r2
