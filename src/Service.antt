-- ===== src/Service.antt =====
-- The commands to map and to unmap that the service in the target handles (plugins/service.c,
-- plugins/service.h). Its messages are left out, and errno is taken to be what the call left.
pub mod Commands
pub mod Libraries
pub mod Mapped
pub mod Needed
use nsb.Base.{
  ℕ, zero, suc, ◌+◌, ◌%◌, Bool, true, false, Option, none, some, ltb, ◌==◌, not, if◌then◌else◌,
}
use nsb.Base.Int.{ℤ, pos, negsuc, is_zero, e2big, einval}

-- `struct nsb_service_map_addr_info`
pub record MapAddrInfo : Type 0 where
  pub addr : ℕ
  pub length : ℕ

-- `struct nsb_service_mmap_info`
pub record MmapInfo : Type 0 where
  pub info : MapAddrInfo
  pub prot : ℕ
  pub flags : ℕ
  pub offset : ℕ

-- `struct nsb_service_mmap_request`: the array is that of the receive buffer.
pub record MmapRequest : Type 0 where
  pub fd : ℕ
  pub nr_mmaps : ℕ
  pub mmaps : ℕ → MmapInfo

-- `struct nsb_service_munmap_request`
pub record MunmapRequest : Type 0 where
  pub nr_munmaps : ℕ
  pub munmaps : ℕ → MapAddrInfo

-- The system calls of the service. A call that fails has some errno, n + 1.
pub record Kernel : Type 1 where
  pub World : Type 0
  pub mmap : World → (fd : ℕ) → (addr length prot flags offset : ℕ) → Option ℕ × World
  pub munmap : World → (addr length : ℕ) → Option ℕ × World
  pub close : World → (fd : ℕ) → World

abbrev pub errno_code : Option ℕ → ℤ
errno_code none = pos 0
errno_code (some n) = negsuc n

module _ (k : Kernel) where
  open k use {World, mmap, munmap, close}

  unfoldable pub nsb_service_cmd_do_munmap : MapAddrInfo → World → ℤ × World
  nsb_service_cmd_do_munmap mai w =
      let (errno, w') = munmap w mai.addr mai.length in (errno_code errno, w')

  -- The loop of `nsb_service_cmd_munmap`, with `left` requests left.
  unfoldable pub unmap_from : (left nr : ℕ) → MunmapRequest → World → ℤ × World
  unmap_from zero nr rq w = (pos 0, w)
  unmap_from (suc left) nr rq w =
      let (err, w') = nsb_service_cmd_do_munmap (rq.munmaps nr) w in
      let rest = unmap_from left (suc nr) rq w' in if is_zero err then rest else (err, w')

  -- `max_munmaps` is (8192 - 8) / 16.
  unfoldable pub nsb_service_cmd_munmap : MunmapRequest → World → ℤ × World
  nsb_service_cmd_munmap rq w =
      let unmapped = unmap_from rq.nr_munmaps 0 rq w in
      if ltb 511 rq.nr_munmaps then (e2big, w) else unmapped

  unfoldable pub nsb_service_cmd_do_mmap : (fd : ℕ) → MmapInfo → World → ℤ × World
  nsb_service_cmd_do_mmap fd mi w =
      let (errno, w') = mmap w fd mi.info.addr mi.info.length mi.prot mi.flags mi.offset in
      (errno_code errno, w')

  -- The loop that maps, with `left` requests left: its error, the index where it ended, and the world.
  unfoldable pub map_from : (left nr : ℕ) → MmapRequest → World → ℤ × ℕ × World
  map_from zero nr rq w = (pos 0, nr, w)
  map_from (suc left) nr rq w =
      let (err, w') = nsb_service_cmd_do_mmap rq.fd (rq.mmaps nr) w in
      let rest = map_from left (suc nr) rq w' in if is_zero err then rest else (err, nr, w')

  -- The loop behind `unmap`: from the request that failed, down to the second.
  unfoldable pub unmap_back : (nr : ℕ) → MmapRequest → World → World
  unmap_back zero rq w = w
  unmap_back (suc nr) rq w =
      unmap_back nr rq (nsb_service_cmd_do_munmap (rq.mmaps (suc nr)).info w).1

  -- `max_mmaps` is (8192 - 16) / 32.
  unfoldable pub nsb_service_cmd_mmap : MmapRequest → World → ℤ × World
  nsb_service_cmd_mmap rq w =
      let (err, nr, w') = map_from rq.nr_mmaps 0 rq w in
      if ltb 255 rq.nr_mmaps
      then (e2big, w)
      else if not (rq.nr_mmaps == 2)
      then (einval, w)
      else if is_zero err
      then (pos 0, close w' rq.fd)
      else (err, unmap_back nr rq w')
