-- ===== src/Examples/Service.antt =====
-- The service: its list of libraries, and a request to map that it handles.
use nsb.Base.{ℕ, inl, inr, false, [], ◌∷◌, none, some}
use nsb.Base.Int.{pos}
use nsb.Client.{no_mmaps, no_munmaps}
use nsb.Examples.Commands.{no_wx}
use nsb.Examples.{text_vma}
use nsb.Service.Commands.{Received, Sockets, Statics}
use nsb.Service.Libraries.{LinkMap}
use nsb.Vma.{VmaArea}

-- The library of the memory in the example of the linker, and the service behind it.
abbrev library : LinkMap
library = record { l_addr = 0x40; l_ld = (14, 0) ∷ (6, 0x50) ∷ [] }

abbrev service : LinkMap
service = record { l_addr = 0x1000; l_ld = (6, 0x1100) ∷ [] }

-- Sockets of a service without a client.
abbrev sockets : Sockets no_wx
sockets = record {
  recv = λ w sock wait. (inl 10, w);
  send = λ w sock r. (inr 4, w);
  accept = λ w sock. (inl 10, w);
  recv_fd = λ w sock. (pos 5, w);
  socket = λ w. (inr 3, w);
  bind = λ w sock pid. (none, w);
  listen = λ w sock backlog. (none, w);
  r_map = λ w. library ∷ service ∷ [];
  frame_size = 8;
}

abbrev statics : Statics
statics = record {
  listen_sock = 3;
  cmd_sock = some 4;
  nsb_service_stop = false;
  emergency_sigframe = [];
}

abbrev buffer : Received
buffer = record { cmd = 0; data_size = 0; mmap_rq = no_mmaps; munmap_rq = no_munmaps; frame = [] }

abbrev segment : (addr : ℕ) → VmaArea
segment addr = record (text_vma 1 addr 0x1000) { flags = 0x12 }
