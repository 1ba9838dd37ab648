-- ===== src/Client.antt =====
-- The patcher's side of the service in the target (patcher/service.c, patcher/include/service.h): the
-- requests it sends, and how it connects. Client/Connect looks for the service's mappings and connects.
pub mod Connect
pub mod Handled
pub mod Requests
use nsb.Base.{
  ℕ, zero, suc, ◌+◌, Bool, true, false, List, [], ◌∷◌, Option, none, some, ◌⊎◌, inl, inr, ◌==◌, not,
  if◌then◌else◌,
}
use nsb.Base.Int.{ℤ, pos, negsuc, is_neg, is_zero, e2big, enoent, enomem}
use nsb.Base.Loop.{for_each_entry, Actor}
use nsb.Base.Text.{Text, codes}
use nsb.Base.Word.{signed64, bits64, to_int}
use nsb.DlMap.{DlMap}
use nsb.DlMap.Collect.{Files}
use nsb.DlMap.Find.{dl_map_symbol_value}
use nsb.Process.Remote.{Remote, vma_prot, process_exec_code}
use nsb.Service.{MapAddrInfo, MmapInfo, MmapRequest, MunmapRequest}
use nsb.Vma.{VmaArea, iterate_vmas}
use nsb.Vma.Collect.{Host}
use nsb.X86.{x86_64_call}

-- `struct service`; a `sock` of none is -1, and `pid` stands in the context.
pub record Service : Type 0 where
  pub handle : ℕ
  pub dlm : Option DlMap
  pub sock : Option ℕ
  pub runner : ℕ
  pub loaded : Bool

-- `struct nsb_service_request`: its command with the data.
pub data Request : Type 0 where
  map_request : MmapRequest → Request
  unmap_request : MunmapRequest → Request
  needed_request : Request

-- `struct nsb_service_response`; `needed` are the `nr_addrs` addresses of its data.
pub record Response : Type 0 where
  pub ret : ℤ
  pub needed : List ℕ

-- What the patcher uses of the operating system to reach the service. A call that fails leaves the
-- errno n + 1. `recv` comes with what its buffer holds afterwards, whatever the result; `map_files`
-- are the names under /proc/PID/map_files, and `readlink` reads one of them.
pub record Peer : Type 1 where
  pub remote : Remote
  pub host : remote.tracee.State → Host
  pub files : remote.tracee.State → Files
  pub map_files : remote.tracee.State → (pid : ℕ) → ℕ ⊎ List Text
  pub readlink : remote.tracee.State → (pid : ℕ) (dentry : Text) → ℕ ⊎ Text
  pub socket : remote.tracee.State → (ℕ ⊎ ℕ) × remote.tracee.State
  pub connect : remote.tracee.State → (sock pid : ℕ) → Option ℕ × remote.tracee.State
  pub close : remote.tracee.State → (sock : ℕ) → Option ℕ × remote.tracee.State
  pub send : remote.tracee.State → (sock : Option ℕ) → Request → Option ℕ × remote.tracee.State
  pub recv : remote.tracee.State → (sock : Option ℕ) → (ℕ ⊎ ℕ) × Response × remote.tracee.State
  pub send_fd : remote.tracee.State → (sock : Option ℕ) (fd : ℕ) → Option ℕ × remote.tracee.State
  -- What the static buffer of a call's operand holds.
  pub rel : List ℕ

abbrev pub or_neg : Option ℕ → ℤ
or_neg none = pos 0
or_neg (some n) = negsuc n

-- The address, or the error, as an `int64_t`.
abbrev pub sym_value : ℤ ⊎ ℕ → ℤ
sym_value (inl err) = err
sym_value (inr value) = signed64 value

-- `service->dlm` is set before any caller gets here; the model finds no symbol where it is not.
unfoldable pub service_sym_addr : Service → (symbol : Text) → ℤ
service_sym_addr service symbol = elim service.dlm [
  | none ↦ enoent
  | some dlm ↦ sym_value (dl_map_symbol_value dlm symbol)
]

-- `NSB_SERVICE_MMAP_DATA_SIZE_MAX / sizeof(*mi)`
abbrev pub max_mmaps : ℕ
max_mmaps = 255

abbrev pub max_munmaps : ℕ
max_munmaps = 511

abbrev pub addr_info : VmaArea → MapAddrInfo
addr_info vma = record { addr = vma.addr; length = vma.len }

abbrev pub map_info : VmaArea → MmapInfo
map_info vma = record {
  info = addr_info vma;
  prot = vma_prot vma;
  flags = vma.flags;
  offset = vma.offset;
}

abbrev pub put {ℓ} : {A : Type ℓ} → (ℕ → A) → ℕ → A → ℕ → A
put array i a j = if j == i then a else array j

unfoldable pub service_set_map_info : Actor VmaArea MmapRequest
service_set_map_info vma mrq = if mrq.nr_mmaps == max_mmaps then (e2big, vma ∷ [], mrq) else (
  pos 0,
  vma ∷ [],
  record mrq { nr_mmaps = suc mrq.nr_mmaps; mmaps = put mrq.mmaps mrq.nr_mmaps (map_info vma) },
)

unfoldable pub service_set_map_addr_info : Actor VmaArea MunmapRequest
service_set_map_addr_info vma mrq =
    if mrq.nr_munmaps == max_munmaps then (e2big, vma ∷ [], mrq) else (
      pos 0,
      vma ∷ [],
      record mrq {
        nr_munmaps = suc mrq.nr_munmaps;
        munmaps = put mrq.munmaps mrq.nr_munmaps (addr_info vma);
      },
    )

abbrev pub no_info : MapAddrInfo
no_info = record { addr = 0; length = 0 }

-- The requests with the data cleared.
abbrev pub no_mmaps : MmapRequest
no_mmaps = record {
  fd = 0;
  nr_mmaps = 0;
  mmaps = λ i. record { info = no_info; prot = 0; flags = 0; offset = 0 };
}

abbrev pub no_munmaps : MunmapRequest
no_munmaps = record { nr_munmaps = 0; munmaps = λ i. no_info }

-- The request of `service_mmap_dlm`, or the error.
unfoldable pub mmap_request : List VmaArea → (fd : ℕ) → ℤ × MmapRequest
mmap_request vmas fd =
    let (err, vmas', mrq) = iterate_vmas service_set_map_info vmas no_mmaps in
    (err, record mrq { fd = fd })

unfoldable pub munmap_request : List VmaArea → ℤ × MunmapRequest
munmap_request vmas =
    let (err, vmas', mrq) = iterate_vmas service_set_map_addr_info vmas no_munmaps in (err, mrq)

module _ (p : Peer) where
  abbrev pub World : Type 0
  World = p.remote.tracee.State

  unfoldable pub nsb_service_send_request : Service → Request → World → ℤ × World
  nsb_service_send_request service rq w =
      let (failed, w') = p.send w service.sock rq in (or_neg failed, w')

  -- `__service_do`, whose result its callers take as an `int`.
  unfoldable pub service_do : (code_addr address arg1 : ℕ) → World → ℤ × World
  service_do code_addr address arg1 w =
      let (size, code) = x86_64_call p.rel address code_addr arg1 0 0 0 0 0 in
      let (ret, w') = process_exec_code p.remote code_addr code w in
      if is_neg size then (size, w) else (to_int ret, w')

  unfoldable pub service_run : (code_addr : ℕ) → Service → World → ℤ × World
  service_run code_addr service w = service_do code_addr service.runner 1 w

  -- A request, the run of the service, and its response. The result of receiving is compared with 0 as
  -- a `size_t`, so an error of it goes by: what the buffer holds is taken for the response.
  unfoldable pub request : (code_addr : ℕ) → Service → Request → World → ℤ × List ℕ × World
  request code_addr service rq w =
      let (err, w1) = nsb_service_send_request service rq w in
      let (err', w2) = service_run code_addr service w1 in
      let (size, rs, w3) = p.recv w2 service.sock in
      if not (is_zero err)
      then (err, [], w1)
      else if not (is_zero err')
      then (err', [], w2)
      else if is_neg rs.ret
      then (rs.ret, [], w3)
      else (pos 0, rs.needed, w3)

  unfoldable pub service_mmap_dlm :
      (code_addr : ℕ) → Service → List VmaArea → (fd : ℕ) → World → ℤ × World
  service_mmap_dlm code_addr service vmas fd w =
      let (err, mrq) = mmap_request vmas fd in
      let (err', needed, w') = request code_addr service (map_request mrq) w in
      if is_zero err then (err', w') else (err, w)

  unfoldable pub service_munmap_dlm : (code_addr : ℕ) → Service → List VmaArea → World → ℤ × World
  service_munmap_dlm code_addr service vmas w =
      let (err, mrq) = munmap_request vmas in
      let (err', needed, w') = request code_addr service (unmap_request mrq) w in
      if is_zero err then (err', w') else (err, w)

  -- An error, or the addresses.
  unfoldable pub service_needed_array :
      (alloc_succeeds : Bool) (code_addr : ℕ) → Service → World → (ℤ ⊎ List ℕ) × World
  service_needed_array alloc_succeeds code_addr service w =
      let (err, needed, w') = request code_addr service needed_request w in
      if not (is_zero err)
      then (inl err, w')
      else if alloc_succeeds
      then (inr needed, w')
      else (inl enomem, w')

  -- The descriptor in the target, or an error. An address of 0 is returned like a descriptor.
  unfoldable pub service_transfer_fd : (code_addr : ℕ) → Service → (fd : ℕ) → World → ℤ × World
  service_transfer_fd code_addr service fd w =
      let address = service_sym_addr service (codes "nsb_service_receive_fd") in
      let (failed, w1) = p.send_fd w service.sock fd in
      let (tfd, w2) = service_do code_addr (bits64 address) 0 w1 in
      if is_neg address
      then (address, w)
      else if is_zero address
      then (pos 0, w)
      else elim failed [ none ↦ (tfd, w2) | some n ↦ (negsuc n, w1) ]
