-- ===== src/Sched.antt =====
-- The scheduler of src/zsrmv.c: its global state, the trace, the timers and the conversions of
-- times. The calls of the Linux kernel and of the hypervisor whose answers are used are parameters
-- (Kernel): what they answer depends on how many of them were made before. The other calls that
-- have an effect are recorded in `calls`, newest first. Variables that only printk reads
-- (prevlocker, zsrmcall, inside_stop, calling_start_from and the like) are left out, and so are
-- return values that only it reads.
pub mod Ready
pub mod Budget
pub mod Jobs
pub mod ZeroSlack
pub mod Life
pub mod Entries
pub mod Tasks
pub mod Commands
pub mod Api
pub mod Invariant
use mixed_trust_zsrmv_public.Base.{
  ℕ, zero, suc, ◌+◌, ◌-◌, ◌*◌, ◌/◌, ◌<◌, ◌≡◌, Bool, true, false, ◌&&◌, ◌||◌, not, Option, none,
  some, List, [], ◌∷◌, ltb, leb, ◌==◌, if◌then◌else◌, u32, u64, sub_u64, update,
}
use mixed_trust_zsrmv_public.Base.Int.{ℤ, pos, negsuc}
use mixed_trust_zsrmv_public.Links.{Queue}
use mixed_trust_zsrmv_public.Reserve.{Timespec, timespec_ns, ZsTimer, Reserve, Table, modify}
use mixed_trust_zsrmv_public.RmQueue.{RmQueue}
use mixed_trust_zsrmv_public.Stack.{Stack}
use mixed_trust_zsrmv_public.Serial.{Serial}

-- one entry of trace_table, or of the hypervisor's debug_log
pub record TraceRec : Type 0 where
  pub timestamp_ns : ℕ
  pub event_type : ℕ
  pub rid : ℕ

-- the four timers of a reserve
pub data WhichTimer : Type 0 where
  of_enforcement of_zero_slack of_period of_start : WhichTimer

pub data Call : Type 0 where
  hrtimer_init : ℕ → WhichTimer → Call
  hrtimer_start_rel : ℕ → WhichTimer → ℕ → Call
  hrtimer_start_abs : ℕ → WhichTimer → ℕ → Call
  hrtimer_cancel : ℕ → WhichTimer → Call
  wake_up_process : ℕ → Call
  wake_up_sched_task : Call
  wake_up_active_task : Call
  set_tsk_need_resched : ℕ → Call
  set_task_interruptible : ℕ → Call
  set_current_interruptible : Call
  set_cpus_allowed : ℕ → Call
  sched_setscheduler_fifo : ℕ → ℤ → Call
  sched_setscheduler_normal : ℕ → Call
  send_sig_info : ℕ → ℤ → ℕ → Call
  disablehyptask : ℕ → Call
  mavlinkserhb_initialize : ℕ → Call
  delete_test_hyptask : ℕ → Call

-- Code outside the scheduler; the first argument of each is the number of the calls before it.
pub record Kernel : Type 0 where
  pub read_cntpct : ℕ → ℕ
  pub pid_task : ℕ → ℤ → Option ℕ → Option ℕ
  pub is_sleeping : ℕ → ℕ → Bool
  pub task_active_pid_ns : ℕ → Option ℕ
  pub dumpdebuglog : ℕ → Option (List TraceRec)
  pub guestjobstart : ℕ → ℕ → Bool
  pub deletehyptask : ℕ → ℕ → Bool
  pub createhyptask : ℕ → ℕ → ℕ → ℤ → ℕ → Option ℕ
  pub ktime_get_ns : ℕ → ℕ
  pub ns_to_timespec : ℕ → Timespec

-- the variables of one overhead measurement
pub record Meter : Type 0 where
  pub start_timestamp_ticks : ℕ
  pub end_timestamp_ticks : ℕ
  pub cumm_ticks : ℕ
  pub num : ℕ
  pub wc_ticks : ℕ

pub record Sched : Type 0 where
  pub reserve_table : Table
  pub readyq : Queue
  pub rm : RmQueue
  pub critical_reservesq : Queue
  pub crit_blockq : Queue
  pub sys_criticality : ℤ
  pub reschedule : Stack
  pub activate : Stack
  pub serial : Serial
  pub kernel_entry_timestamp_ticks : ℕ
  pub ticksperus : ℕ
  pub trace_table : ℕ → TraceRec
  pub trace_index : ℕ
  pub hypercall : Meter
  pub context_switch : Meter
  pub enforcement : Meter
  pub zs_enforcement : Meter
  pub arrival : Meter
  pub blocked_arrival : Meter
  pub departure : Meter
  pub hyptask_handle1 : ℕ
  pub hyptask_handle2 : ℕ
  pub asked : ℕ
  pub calls : List Call

-- #define TRACE_BUFFER_SIZE 100000
abbrev pub trace_buffer_size : ℕ
trace_buffer_size = 100000

-- one more call of the kernel whose answer was used
unfoldable pub ask : Sched → Sched
ask s = record s { asked = suc s.asked }

unfoldable pub emit : Call → Sched → Sched
emit c s = record s { calls = c ∷ s.calls }

-- a write to fields of reserve_table[i]
unfoldable pub on : ℕ → (Reserve → Reserve) → Sched → Sched
on i f s = record s { reserve_table = modify s.reserve_table i f }

-- get_now_ticks: the time, which the caller reads in the state before the call
abbrev pub now : Kernel → Sched → ℕ
now k s = k.read_cntpct s.asked

-- gettask(reserve_table[rid].pid, reserve_table[rid].task_namespace)
abbrev pub gettask : Kernel → Sched → ℕ → Option ℕ
gettask k s rid = k.pid_task s.asked (s.reserve_table rid).pid (s.reserve_table rid).task_namespace

-- kernel_entry_timestamp_ticks = get_now_ticks()
unfoldable pub enter_kernel : Kernel → Sched → Sched
enter_kernel k s = record s { kernel_entry_timestamp_ticks = now k s; asked = suc s.asked }

-- do_div of a 64-bit number by a 32-bit one; no caller divides by zero once ticksperus is set
abbrev pub div : ℕ → ℕ → ℕ
div a b = a / u32 b

abbrev pub ticks2ns : ℕ → ℕ
ticks2ns ticks = ticks

unfoldable pub ticks2ns1 : Sched → ℕ → ℕ
ticks2ns1 s ticks = div (u64 (ticks * 1000)) s.ticksperus

unfoldable pub ns2ticks : Sched → ℕ → ℕ
ns2ticks s ns = div (u64 (ns * s.ticksperus)) 1000

-- set_ticksperus, where `frequency` is what rdcntfrq reads
unfoldable pub set_ticksperus : ℕ → Sched → Sched
set_ticksperus frequency s = record s { ticksperus = div frequency 1000000 }

-- A full trace drops the record; the result -1 for that is never used.
unfoldable pub add_trace_record : ℕ → ℕ → ℕ → Sched → Sched
add_trace_record rid ts event_type s = if leb trace_buffer_size s.trace_index then s else record s {
  trace_table =
      update s.trace_table s.trace_index
        (record { timestamp_ns = ts; event_type = event_type; rid = rid });
  trace_index = suc s.trace_index;
}

-- the loop that copies the hypervisor's log into the trace
unfoldable pub add_trace_records : List TraceRec → Sched → Sched
add_trace_records [] s = s
add_trace_records (e ∷ es) s =
    add_trace_records es (add_trace_record e.rid e.timestamp_ns e.event_type s)

abbrev pub timer_of : WhichTimer → Reserve → ZsTimer
timer_of of_enforcement r = r.enforcement_timer
timer_of of_zero_slack r = r.zero_slack_timer
timer_of of_period r = r.period_timer
timer_of of_start r = r.start_timer

abbrev pub with_absolute : ℕ → ZsTimer → ZsTimer
with_absolute ns t = record t { absolute_expiration_ns = ns }

unfoldable pub set_absolute : WhichTimer → ℕ → Reserve → Reserve
set_absolute of_enforcement ns r = record r {
  enforcement_timer = with_absolute ns r.enforcement_timer;
}
set_absolute of_zero_slack ns r = record r {
  zero_slack_timer = with_absolute ns r.zero_slack_timer;
}
set_absolute of_period ns r = record r { period_timer = with_absolute ns r.period_timer }
set_absolute of_start ns r = record r { start_timer = with_absolute ns r.start_timer }

unfoldable pub arm_relative_timer : ℕ → WhichTimer → Sched → Sched
arm_relative_timer i w s =
    emit (hrtimer_start_rel i w (timer_of w (s.reserve_table i)).absolute_expiration_ns) s

unfoldable pub add_timerq : ℕ → WhichTimer → Sched → Sched
add_timerq i w s =
    arm_relative_timer i w
      (on i (set_absolute w (timespec_ns (timer_of w (s.reserve_table i)).expiration)) s)
