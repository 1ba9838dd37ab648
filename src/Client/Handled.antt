-- ===== src/Client/Handled.antt =====
-- What becomes of the patcher's request to map (patcher/service.c) when the service (plugins/service.c)
-- handles it.
use nsb.Service.{MmapRequest}
use nsb.Service.Commands.{Received}

-- The command to map, with what else is in the buffer.
abbrev pub map_command : MmapRequest → Received → Received
map_command mrq rq = record rq { cmd = 3; mmap_rq = mrq }
