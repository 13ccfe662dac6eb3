-- ===== src/Client.antt =====
-- The library lib/libzsv.c, through which user programs call the scheduler: the handlers of its
-- enforcement signal, the requests to its device, the printing of its trace and a busy loop.
pub mod Handlers
pub mod Requests
pub mod Signal
pub mod Trace
pub mod Busy
