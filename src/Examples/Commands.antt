-- ===== src/Examples/Commands.antt =====
-- Commands to the service of plugins/service.c that map two ranges.
use nsb.Base.{
  ℕ, ◌+◌, ◌*◌, ◌/◌, ◌≡◌, refl, ◌∙◌, inl, inr, Bool, true, false, ltb, ◌==◌, Option, none, some,
  if◌then◌else◌, arith,
}
use nsb.Base.Int.{negsuc}
use nsb.Service.{
  MapAddrInfo, MmapInfo, MmapRequest, Kernel, nsb_service_cmd_mmap, nsb_service_cmd_do_mmap,
  map_from,
}
use nsb.Service.Mapped.{
  MapsPages, OnPages, OffPages, nsb_service_cmd_mmap-left, nsb_service_cmd_mmap-both,
}

-- The addresses of the pages have the value, the others are as before.
abbrev pub fill : (value : Bool) → (addr length : ℕ) → (ℕ → Bool) → ℕ → Bool
fill value addr length w x =
    if ltb x addr then w x else if ltb x (addr + (length + 4095) / 4096 * 4096) then value else w x

-- A kernel that refuses to map with the access 7, by the errno 13, and does all else it is asked to.
abbrev pub no_wx : Kernel
no_wx = record {
  World = ℕ → Bool;
  mmap = λ w fd addr length prot flags offset.
      if prot == 7 then (some 12, w) else (none, fill true addr length w);
  munmap = λ w addr length. (none, fill false addr length w);
  close = λ w fd. w;
}

pub fill-On :
    (value : Bool) (i : MapAddrInfo) (w : ℕ → Bool) (x : ℕ)
    → OnPages i x
    → fill value i.addr i.length w x ≡ value
fill-On value i w x on = ground arith

pub fill-Off :
    (value : Bool) (i : MapAddrInfo) (w : ℕ → Bool) (x : ℕ)
    → OffPages i x
    → fill value i.addr i.length w x ≡ w x
fill-Off value i w x off = ground arith

pub refused :
    (two : Bool) (u v : ℕ → Bool) (x : ℕ)
    → (if◌then◌else◌ {A = Option ℕ × (ℕ → Bool)} two (some 12, u) (none, v)).0 ≡ none
    → (if◌then◌else◌ {A = Option ℕ × (ℕ → Bool)} two (some 12, u) (none, v)).1 x ≡ v x
refused true u v x h = absurd (ground (arith, h))
refused false u v x h = refl

pub kept :
    (two : Bool) (u v : ℕ → Bool) (x : ℕ)
    → v x ≡ u x
    → (if◌then◌else◌ {A = Option ℕ × (ℕ → Bool)} two (some 12, u) (none, v)).1 x ≡ u x
kept true u v x h = refl
kept false u v x h = h

abbrev pub no_wx-MapsPages : MapsPages no_wx
no_wx-MapsPages = record {
  mapped = λ w x. w x;
  mmap_here = λ w fd mi x f h on.
      refused (mi.prot == 7) w (fill true mi.info.addr mi.info.length w) x h
      ∙ fill-On true mi.info w x on;
  mmap_off = λ w fd mi x f off.
      kept (mi.prot == 7) w (fill true mi.info.addr mi.info.length w) x
        (fill-Off true mi.info w x off);
  munmap_off = λ w i x off. fill-Off false i w x off;
  close_keeps = λ w fd x. refl;
}

abbrev pub nothing : ℕ → Bool
nothing x = false

abbrev mapping : (addr prot : ℕ) → MmapInfo
mapping addr prot = record {
  info = record { addr = addr; length = 0x1000 };
  prot = prot;
  flags = 0x12;
  offset = 0;
}

-- Two mappings at 0x10000 and 0x20000.
abbrev request : (second_prot : ℕ) → MmapRequest
request second_prot = record {
  fd = 5;
  nr_mmaps = 2;
  mmaps = λ nr. if nr == 0 then mapping 0x10000 5 else mapping 0x20000 second_prot;
}

nsb_service_cmd_mmap-left_example :
    ((nsb_service_cmd_mmap no_wx (request 7) nothing).0 ≡ negsuc 12)
    × ((nsb_service_cmd_mmap no_wx (request 7) nothing).1 0x10010 ≡ true)
unfolding nsb_service_cmd_do_mmap
nsb_service_cmd_mmap-left_example =
    nsb_service_cmd_mmap-left no_wx no_wx-MapsPages (request 7) nothing 12 0x10010 refl refl refl
      refl refl (omega arith, omega arith) (inl (omega arith))

nsb_service_cmd_mmap-both_example :
    ((request 3).nr_mmaps ≡ 2) × ((nsb_service_cmd_mmap no_wx (request 3) nothing).1 0x20010 ≡ true)
unfolding nsb_service_cmd_mmap map_from nsb_service_cmd_do_mmap
nsb_service_cmd_mmap-both_example =
    nsb_service_cmd_mmap-both no_wx no_wx-MapsPages (request 3) nothing 0x20010 refl refl refl
      (inr (omega arith, omega arith))
