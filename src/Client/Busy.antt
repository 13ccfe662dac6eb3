-- ===== src/Client/Busy.antt =====
-- busy_timestamped of lib/libzsv.c, which keeps the processor busy and samples the time.
pub mod Laws
use mixed_trust_zsrmv_public.Base.{
  ℕ, zero, suc, ◌+◌, Bool, true, false, ltb, leb, if◌then◌else◌, update,
}
use mixed_trust_zsrmv_public.Reserve.{Timespec, timespec_ns}

-- #define NUM_IN_LOOPS_ONE_MS 1
abbrev pub num_in_loops_one_ms : ℕ
num_in_loops_one_ms = 1

-- #define NUM_SILENT_ITERATIONS 10000
abbrev pub num_silent_iterations : ℕ
num_silent_iterations = 10000

-- get_now_ns, from what clock_gettime gives; the sum is computed on `long`, as in timespec_ns
abbrev pub get_now_ns : Timespec → ℕ
get_now_ns now = timespec_ns now

-- the counter of silent iterations, the samples with their number, and the times that were read
pub record Busy : Type 0 where
  pub s : ℕ
  pub tsbuffer : ℕ → ℕ
  pub bufidx : ℕ
  pub reads : ℕ

-- a sample, if there is room for it
unfoldable pub sample : (ℕ → Timespec) → ℕ → Busy → Busy
sample clock bufsize b =
    if ltb b.bufidx bufsize
    then record b {
      tsbuffer = update b.tsbuffer b.bufidx (get_now_ns (clock b.reads));
      bufidx = suc b.bufidx;
      reads = suc b.reads;
    }
    else b

-- the body of the innermost loop
unfoldable pub busy_step : (ℕ → Timespec) → ℕ → Busy → Busy
busy_step clock bufsize b =
    if leb num_silent_iterations (suc b.s)
    then sample clock bufsize (record b { s = 0 })
    else record b { s = suc b.s }

-- for (i = 0; i < n; i++) body
unfoldable pub repeat : ℕ → (Busy → Busy) → Busy → Busy
repeat zero body b = b
repeat (suc n) body b = repeat n body (body b)

-- IN_LOOP_ONE_MS is measured when the library is built
unfoldable pub busy_timestamped : (ℕ → Timespec) → (in_loop_one_ms : ℕ) → ℕ → (ℕ → ℕ) → ℕ → ℕ → Busy
busy_timestamped clock in_loop_one_ms millis tsbuffer bufsize bufidx =
    repeat millis (repeat num_in_loops_one_ms (repeat in_loop_one_ms (busy_step clock bufsize)))
      (record { s = 0; tsbuffer = tsbuffer; bufidx = bufidx; reads = 0 })
