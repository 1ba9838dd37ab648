-- ===== src/Process.antt =====
-- The target process (patcher/process.c): where a patch fits in it, its memory, its threads, and
-- stopping it at a safe point.
pub mod Memory
pub mod Place
pub mod Remote
pub mod Suspend
pub mod Threads
