-- ===== src/Sched/Commands.antt =====
-- What the commands of zsrm_write in src/zsrmv.c do, and the structures that they read and answer.
use mixed_trust_zsrmv_public.Base.{
  ℕ, ◌*◌, ◌/◌, Bool, true, false, ◌&&◌, ◌||◌, not, Option, none, some, List, [], ltb, leb, ◌==◌,
  if◌then◌else◌, u32, u64, length, is_negative_long,
}
use mixed_trust_zsrmv_public.Base.Int.{ℤ, pos, negsuc, ltb_ℤ, leb_ℤ, eqb_ℤ, pos_part}
use mixed_trust_zsrmv_public.Links.{max_reserves}
use mixed_trust_zsrmv_public.Reserve.{Timespec, zero_timespec, timespec_ns, Reserve, Table}
use mixed_trust_zsrmv_public.RmQueue.{add_rm_queue}
use mixed_trust_zsrmv_public.Serial.{
  Serial, serial_receiving_buffer_read, serial_sending_buffer_write,
}
use mixed_trust_zsrmv_public.Sched.{
  delete_test_hyptask, Kernel, Sched, ask, emit, on, div, ticks2ns, ns2ticks,
}
use mixed_trust_zsrmv_public.Sched.Jobs.{wait_for_next_period}
use mixed_trust_zsrmv_public.Sched.Entries.{getreserve}

unfoldable pub get_wcet_ns : Reserve → ℕ
get_wcet_ns r = ticks2ns r.worst_exectime_ticks

unfoldable pub get_acet_ns : Reserve → ℕ
get_acet_ns r =
    if ltb 0 r.avg_exectime_ticks_measurements
    then div r.avg_exectime_ticks r.avg_exectime_ticks_measurements
    else 0

unfoldable pub set_signal : ℤ → ℤ → Reserve → Reserve
set_signal pid signo r = record r {
  enforcement_signal_captured = leb_ℤ (pos 0) pid;
  enforcement_signal_receiver_pid = pid;
  enforcement_signo = signo;
}

unfoldable pub capture_enforcement_signal : ℤ → ℤ → ℤ → Sched → Sched × ℤ
capture_enforcement_signal (negsuc n) pid signo s = (s, negsuc 0)
capture_enforcement_signal (pos rid) pid signo s =
    if leb max_reserves rid then (s, negsuc 0) else (on rid (set_signal pid signo) s, pos 0)

unfoldable pub valid_rid : ℤ → Bool
valid_rid rid = leb_ℤ (pos 0) rid && ltb_ℤ rid (pos max_reserves)

unfoldable pub active_rid : Table → ℤ → Bool
active_rid table rid = valid_rid rid && not (eqb_ℤ (table (pos_part rid)).pid (negsuc 0))

-- the fields of `struct api_call` that the commands read; cmd is the argument of zsrm_write
pub record ApiCall : Type 0 where
  pub rid : ℤ
  pub pid : ℤ
  pub period : Timespec
  pub zsinstant : Timespec
  pub exec : Timespec
  pub nominal_exec : Timespec
  pub hyp_enforcer : Timespec
  pub priority : ℤ
  pub criticality : ℤ
  pub buffer : List ℕ
  pub buf_len : ℕ

-- the commands; `unknown` is any other number
pub data Command : Type 0 where
  wait_period create_rsv attach_rsv delete_rsv cmd_get_wcet_ns cmd_get_acet_ns nowait_period :
      Command
  cmd_capture_enforcement_signal get_trace_size end_period wait_release send_serial : Command
  send_serial_finish init_serial recv_serial cmd_test_reserve sim_crash unknown : Command

-- what a command returns, whether schedule() is called, and what is copied to the caller
pub record Reply : Type 0 where
  pub ret : ℤ
  pub need_reschedule : Bool
  pub copied_ns : Option ℕ
  pub copied_bytes : List ℕ

abbrev pub reply : ℤ → Bool → Reply
reply ret need_reschedule = record {
  ret = ret;
  need_reschedule = need_reschedule;
  copied_ns = none;
  copied_bytes = [];
}

abbrev pub double : Timespec → Timespec
double t = record { tv_sec = u32 (t.tv_sec * 2); tv_nsec = u32 (t.tv_nsec * 2) }

-- the times of a new reserve
unfoldable pub create_times : (ℕ → ℕ) → ApiCall → Reserve → Reserve
create_times to_ticks call r =
    let no_hyptask =
      is_negative_long call.hyp_enforcer.tv_sec || is_negative_long call.hyp_enforcer.tv_nsec in
    let unenforced = timespec_ns call.period == timespec_ns call.zsinstant in
    record r {
      period = call.period;
      zsinstant = if unenforced then double call.zsinstant else call.zsinstant;
      hyp_enforcer_instant = if no_hyptask then zero_timespec else call.hyp_enforcer;
      has_hyptask = not no_hyptask;
      period_ns = timespec_ns call.period;
      period_ticks = to_ticks (timespec_ns call.period);
      execution_time = call.exec;
      exectime_ns = timespec_ns call.exec;
      exectime_ticks = to_ticks (timespec_ns call.exec);
      priority = call.priority;
      criticality = call.criticality;
      nominal_execution_time = call.nominal_exec;
      nominal_exectime_ns = timespec_ns call.nominal_exec;
      nominal_exectime_ticks = to_ticks (timespec_ns call.nominal_exec);
      zsinstant_ns = timespec_ns call.zsinstant;
      hyp_enforcer_instant_ns = timespec_ns call.hyp_enforcer;
      hyp_enforcer_instant_ticks = to_ticks (timespec_ns call.hyp_enforcer);
      has_zsenforcement = not unenforced;
    }

-- the writes after the admission; `z` is what the variable Z, which nothing assigns, happens to hold
unfoldable pub create_instant : (ℕ → Timespec) → ℕ → Reserve → Reserve
create_instant to_timespec z r =
    let instant = if z == r.period_ns then u64 (z * 2) else z in
    record r {
      zsinstant_ns = instant;
      zsinstant = if r.has_zsenforcement then to_timespec instant else r.zsinstant;
    }

unfoldable pub create_reserve : Kernel → ℕ → ApiCall → Sched → Sched × ℤ
create_reserve k z call s0 =
    let (s1, ret) = getreserve s0 in
    elim ret [
      | negsuc n ↦ (s1, negsuc n)
      | pos i ↦
          let s2 =
            on i (create_instant k.ns_to_timespec z) (on i (create_times (ns2ticks s1) call) s1) in
          (record s2 { rm = (add_rm_queue s2.reserve_table s2.rm i).0 }, pos i)
    ]

-- 1 if all bytes fit into the sending buffer, 0 if not
unfoldable pub send_bytes : List ℕ → Sched → Sched × ℤ
send_bytes buffer s =
    let (serial', wrote) = serial_sending_buffer_write s.serial buffer in
    (record s { serial = serial' }, if wrote == length buffer then pos 1 else pos 0)

-- The bytes are sent only up to the deadline; after it the hypertask stays enabled, to act instead.
unfoldable pub send : Kernel → ℕ → List ℕ → Bool → Sched → Sched × ℤ
send k rid buffer finished s =
    if finished
    then (if leb s.kernel_entry_timestamp_ticks (s.reserve_table rid).current_job_deadline_ticks
        then (let (s', ret) = send_bytes buffer s in (wait_for_next_period k rid true s', ret))
        else (wait_for_next_period k rid false s, negsuc 1))
    else send_bytes buffer s

-- The locks are released meanwhile: `others` is what others do until the read starts or the reader
-- wakes up, and `asleep` what they do to the serial buffers while the reader sleeps.
unfoldable pub receive : (Sched → Sched) → (Serial → Serial) → ℕ → Sched → Sched × List ℕ
receive others asleep buf_len s0 =
    let s = others s0 in
    let (serial', bytes) = serial_receiving_buffer_read asleep s.serial buf_len in
    (record s { serial = serial' }, bytes)

-- #define HYPMTSCHEDULER_TIME_1SEC 19200000UL
abbrev pub hypmtscheduler_time_1sec : ℕ
hypmtscheduler_time_1sec = 19200000

-- the first of two hypertasks is created, and then the second; a handle is written on success
unfoldable pub test_create : Kernel → Sched → Sched
test_create k s0 =
    let s1 : Sched =
      elim (k.createhyptask s0.asked hypmtscheduler_time_1sec (2 * hypmtscheduler_time_1sec)
        (pos 10) 0) [ none ↦ ask s0 | some h ↦ record (ask s0) { hyptask_handle1 = h } ] in
    elim (k.createhyptask s1.asked (hypmtscheduler_time_1sec / 2) hypmtscheduler_time_1sec (pos 11)
      1) [ none ↦ ask s1 | some h ↦ record (ask s1) { hyptask_handle2 = h } ]

-- Option 0 creates two hypertasks and option 1 deletes them; the answers of the hypervisor to the
-- deletions are only reported.
unfoldable pub test_reserve : Kernel → ℤ → Sched → Sched × ℤ
test_reserve k (negsuc n) s = (s, pos 0)
test_reserve k (pos option) s =
    if option == 0
    then (test_create k s, pos 0)
    else if option == 1
    then (
      emit (delete_test_hyptask s.hyptask_handle2) (emit (delete_test_hyptask s.hyptask_handle1) s),
      pos 0,
    )
    else (s, pos 0)
