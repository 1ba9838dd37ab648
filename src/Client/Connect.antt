-- ===== src/Client/Connect.antt =====
-- Connecting to the service in the target (service_collect_vmas, service_connect, service_disconnect,
-- service_start and service_stop of patcher/service.c).
use nsb.Base.{
  ℕ, suc, Bool, true, false, List, [], ◌∷◌, ◌++◌, none, some, inl, inr, not, if◌then◌else◌,
}
use nsb.Base.Int.{ℤ, pos, negsuc, is_neg, is_zero, of_bool, enoent}
use nsb.Base.Text.{Text, codes}
use nsb.Base.Word.{from_le, bits64, to_int}
use nsb.Client.{Service, Peer, World, service_sym_addr, service_do}
use nsb.DlMap.Collect.{create_dl_map}
use nsb.Process.Memory.{process_read_data}
use nsb.Util.{find_dentry, print_hex, starts_with}
use nsb.Vma.{VmaArea, splice_vma_lists_sorted}
use nsb.Vma.Collect.{collect_vmas_by_path}

-- The base address as `sprintf(dentry, "%lx-", base)` prints it.
abbrev pub base_prefix : ℕ → Text
base_prefix base = print_hex 16 base [] ++ b'-' ∷ []

abbrev pub no_vmas : List VmaArea → Bool
no_vmas [] = true
no_vmas (v ∷ vs) = false

module _ (p : Peer) (pid : ℕ) where
  -- What `readlink` finds: the mappings of the service are those with its path. The mappings of the
  -- process come back with those of the service among them, and the number of allocations made.
  unfoldable pub collect_by_link :
      Text → Service → List VmaArea → (allocs : ℕ) → World p → ℤ × Service × List VmaArea × ℕ
  collect_by_link path service vmas allocs w =
      let (err, s) =
        collect_vmas_by_path (p.host w) pid path (record { vmas = []; allocs = allocs }) in
      let (err', own, dlm) = create_dl_map (p.files w) s.vmas s.allocs in
      let (err'', left, vmas') = splice_vma_lists_sorted own vmas in
      if not (is_zero err)
      then (err, service, vmas, s.allocs)
      else if no_vmas s.vmas
      then (enoent, service, vmas, s.allocs)
      else if not (is_zero err')
      then (err', service, vmas, suc s.allocs)
      else (err'', record service { dlm = dlm }, vmas', suc s.allocs)

  unfoldable pub service_collect_vmas :
      Service → List VmaArea → (allocs : ℕ) → World p → ℤ × Service × List VmaArea × ℕ
  service_collect_vmas service vmas allocs w =
      let (err, bytes) = process_read_data p.remote.tracee w service.handle 8 in
      let prefix = base_prefix (from_le bytes) in
      let dentry = find_dentry (p.map_files w pid) (λ name. of_bool (starts_with name prefix)) [] in
      if not (is_zero err) then (err, service, vmas, allocs) else elim dentry [
        | inl err' ↦ (err', service, vmas, allocs)
        | inr name ↦ (elim (p.readlink w pid name) [
          | inl n ↦ (negsuc n, service, vmas, allocs)
          | inr path ↦ collect_by_link path service vmas allocs w
        ])
      ]

  unfoldable pub service_disconnect : Service → World p → ℤ × Service × World p
  service_disconnect service w = elim service.sock [
    | none ↦ (pos 0, service, w)
    | some sock ↦
        (let (failed, w') = p.close w sock in
          elim failed [
            | none ↦ (pos 0, record service { sock = none }, w')
            | some n ↦ (negsuc n, service, w')
          ])
  ]

  -- The name of the socket has room for every pid. The errno of `socket` is returned as it is.
  unfoldable pub service_local_connect : Service → World p → ℤ × Service × World p
  service_local_connect service w =
      let (made, w1) = p.socket w in
      elim made [
        | inl n ↦ (pos (suc n), service, w1)
        | inr sock ↦
            (let (failed, w2) = p.connect w1 sock pid in
              elim failed [
                | none ↦ (pos 0, record service { sock = some sock }, w2)
                | some n ↦ (negsuc n, service, (p.close w2 sock).1)
              ])
      ]

  unfoldable pub service_remote_accept : (code_addr : ℕ) → Service → World p → ℤ × World p
  service_remote_accept code_addr service w =
      let address = service_sym_addr service (codes "nsb_service_accept") in
      let (ret, w') = service_do p code_addr (bits64 address) 0 w in
      if is_neg address
      then (to_int address, w)
      else if is_zero address
      then (pos 0, w)
      else (ret, w')

  unfoldable pub service_find_runner : Service → ℤ × Service
  service_find_runner service =
      let address = service_sym_addr service (codes "nsb_service_run_loop") in
      if is_neg address
      then (to_int address, service)
      else if is_zero address
      then (pos 0, service)
      else (pos 0, record service { runner = bits64 address })

  unfoldable pub service_connect : (code_addr : ℕ) → Service → World p → ℤ × Service × World p
  service_connect code_addr service w =
      let (err, found) = service_find_runner service in
      let (err', connected, w1) = service_local_connect found w in
      let (err'', w2) = service_remote_accept code_addr connected w1 in
      if not (is_zero err)
      then (err, found, w)
      else if not (is_zero err')
      then (err', connected, w1)
      else if not (is_zero err'')
      then (err'', connected, w2)
      else (pos 0, record connected { loaded = true }, w2)

  unfoldable pub service_stop : Service → World p → ℤ × Service × World p
  service_stop service w =
      let (err, service', w') = service_disconnect service w in
      if not (is_zero err)
      then (err, service', w')
      else (pos 0, record service' { loaded = false }, w')

  unfoldable pub service_start :
      (code_addr : ℕ)
      → Service
      → List VmaArea
      → (allocs : ℕ) → World p
      → ℤ × Service × List VmaArea × ℕ × World p
  service_start code_addr service vmas allocs w =
      let (err, service', vmas', allocs') = service_collect_vmas service vmas allocs w in
      let (err', service'', w') = service_connect code_addr service' w in
      if not (is_zero err)
      then (err, service', vmas', allocs', w)
      else (err', service'', vmas', allocs', w')
