-- ===== src/Sched/Api.antt =====
-- The device of src/zsrmv.c through which programs call the scheduler: zsrm_write runs a command,
-- zsrm_read hands out the trace.
pub mod Laws
use mixed_trust_zsrmv_public.Base.{
  ℕ, zero, suc, ◌+◌, ◌-◌, ◌*◌, ◌/◌, ◌≡◌, Bool, true, false, ◌&&◌, ◌||◌, not, Option, none, some,
  List, [], ◌∷◌, ltb, leb, ◌==◌, if◌then◌else◌, u32, u64, length, is_negative_long,
}
use mixed_trust_zsrmv_public.Base.Int.{ℤ, pos, negsuc, ltb_ℤ, leb_ℤ, eqb_ℤ, pos_part}
use mixed_trust_zsrmv_public.Links.{max_reserves}
use mixed_trust_zsrmv_public.Reserve.{Timespec, zero_timespec, timespec_ns, Reserve, Table}
use mixed_trust_zsrmv_public.RmQueue.{add_rm_queue}
use mixed_trust_zsrmv_public.Serial.{
  Serial, serial_receiving_buffer_read, serial_sending_buffer_write,
}
use mixed_trust_zsrmv_public.Sched.{
  TraceRec, mavlinkserhb_initialize, delete_test_hyptask, Kernel, Sched, ask, emit, on, div,
  ticks2ns, ns2ticks, enter_kernel, add_trace_records,
}
use mixed_trust_zsrmv_public.Sched.Jobs.{wait_for_next_period, end_of_period, wait_for_next_release}
use mixed_trust_zsrmv_public.Sched.Life.{attach_reserve, delete_reserve}
use mixed_trust_zsrmv_public.Sched.Entries.{getreserve}
use mixed_trust_zsrmv_public.Sched.Commands.{
  get_wcet_ns, get_acet_ns, set_signal, capture_enforcement_signal, valid_rid, active_rid, ApiCall,
  Command, wait_period, create_rsv, attach_rsv, delete_rsv, cmd_get_wcet_ns, cmd_get_acet_ns,
  nowait_period, cmd_capture_enforcement_signal, get_trace_size, end_period, wait_release,
  send_serial, send_serial_finish, init_serial, recv_serial, cmd_test_reserve, sim_crash, unknown,
  Reply, reply, double, create_times, create_instant, create_reserve, send_bytes, send, receive,
  hypmtscheduler_time_1sec, test_create, test_reserve,
}

abbrev pub answer : Bool → Sched × ℤ → Sched × Reply
answer need_reschedule (s, ret) = (s, reply ret need_reschedule)

-- An access to reserve_table[rid]: `none` is one outside the table. No test of the code stands here.
unfoldable pub at_index : ℤ → (ℕ → Sched × Reply) → Option (Sched × Reply)
at_index (negsuc n) run = none
at_index (pos n) run = if ltb n max_reserves then some (run n) else none

-- the command, if the reserve is active; otherwise -1
unfoldable pub if_active : ℤ → (ℕ → Sched → Sched × Reply) → Sched → Option (Sched × Reply)
unfolding at_index
if_active rid run s =
    if active_rid s.reserve_table rid
    then at_index rid (λ i. run i s)
    else some (s, reply (negsuc 0) false)

unfoldable pub attach_command : Kernel → ℤ → ℕ → Sched → Sched × Reply
attach_command k pid rid s =
    if leb_ℤ pid (pos 0)
    then (s, reply (negsuc 0) false)
    else answer true (attach_reserve k rid pid s)

-- the switch over the commands
unfoldable pub run_command :
    Kernel
    → (Sched → Sched)
    → (Serial → Serial)
    → ℕ
    → Command
    → ApiCall
    → Sched
    → Option (Sched × Reply)
run_command k others asleep z sim_crash call s = some (s, reply (negsuc 0) false)
run_command k others asleep z cmd_test_reserve call s =
    some (answer false (test_reserve k call.rid s))
run_command k others asleep z init_serial call s =
    some (emit (mavlinkserhb_initialize (pos_part call.rid)) s, reply (pos 0) false)
run_command k others asleep z recv_serial call s =
    let (s', bytes) = receive others asleep call.buf_len s in
    some (s', record (reply (pos (length bytes)) true) { copied_bytes = bytes })
run_command k others asleep z send_serial call s = some (answer false (send_bytes call.buffer s))
run_command k others asleep z send_serial_finish call s =
    at_index call.rid (λ rid. answer true (send k rid call.buffer true s))
run_command k others asleep z end_period call s =
    if_active call.rid (λ rid s. (end_of_period k rid s, reply (pos 0) false)) s
run_command k others asleep z wait_release call s =
    if_active call.rid (λ rid s. (wait_for_next_release k rid s, reply (pos 0) true)) s
run_command k others asleep z get_trace_size call s = some (s, reply (pos s.trace_index) false)
run_command k others asleep z wait_period call s =
    if_active call.rid (λ rid s. (wait_for_next_period k rid true s, reply (pos 0) true)) s
run_command k others asleep z nowait_period call s =
    if_active call.rid (λ rid s. (wait_for_next_period k rid true s, reply (pos 0) true)) s
run_command k others asleep z create_rsv call s = some (answer false (create_reserve k z call s))
run_command k others asleep z attach_rsv call s = if_active call.rid (attach_command k call.pid) s
run_command k others asleep z delete_rsv call s =
    if valid_rid call.rid
    then at_index call.rid (λ rid. answer true (delete_reserve k rid s))
    else some (s, reply (negsuc 0) false)
run_command k others asleep z cmd_get_wcet_ns call s =
    if valid_rid call.rid
    then at_index call.rid (λ rid.
      (s, record (reply (pos 0) false) { copied_ns = some (get_wcet_ns (s.reserve_table rid)) }))
    else some (s, reply (pos 0) false)
run_command k others asleep z cmd_get_acet_ns call s = at_index call.rid (λ rid.
    (s, record (reply (pos 0) false) { copied_ns = some (get_acet_ns (s.reserve_table rid)) }))
run_command k others asleep z cmd_capture_enforcement_signal call s =
    if valid_rid call.rid
    then at_index call.rid
        (λ rid. answer false (capture_enforcement_signal (pos rid) call.pid call.priority s))
    else some (s, reply (negsuc 0) false)
run_command k others asleep z unknown call s = some (s, reply (negsuc 0) false)

-- A command that was copied from the caller, once the semaphore and the spin lock are taken.
unfoldable pub zsrm_write :
    Kernel
    → (Sched → Sched)
    → (Serial → Serial)
    → ℕ
    → Command
    → ApiCall
    → Sched
    → Option (Sched × Reply)
zsrm_write k others asleep z cmd call s = run_command k others asleep z cmd call (enter_kernel k s)

-- sizeof(struct api_call): 15 words of 32 bits besides rid, pid and cmd
abbrev pub api_call_size : ℕ
api_call_size = 72

-- What the semaphore's down_interruptible answers: taken, or an error -(n + 1).
pub data Down : Type 0 where
  taken : Down
  interrupted : ℕ → Down

-- The whole of zsrm_write for `count` bytes: `none` is a copy behind the end of the structure, which
-- nothing prevents. `copied` tells whether copy_from_user succeeds; -14 is -EFAULT.
unfoldable pub device_write :
    Kernel
    → (Sched → Sched)
    → (Serial → Serial)
    → ℕ
    → ℕ
    → Bool
    → Down
    → Command
    → ApiCall
    → Sched
    → Option (Sched × Reply)
device_write k others asleep z count false down cmd call s =
    if ltb api_call_size count then none else some (s, reply (negsuc 13) false)
device_write k others asleep z count true (interrupted n) cmd call s =
    if ltb api_call_size count then none else some (s, reply (negsuc n) false)
device_write k others asleep z count true taken cmd call s =
    if ltb api_call_size count then none else zsrm_write k others asleep z cmd call s

-- sizeof(struct trace_rec_t)
abbrev pub trace_rec_size : ℕ
trace_rec_size = 16

-- The number of bytes of trace_table that are copied to a caller with room for `size` bytes; the
-- trace is emptied, whether all of it was copied or not.
unfoldable pub zsrm_read : Kernel → ℕ → Sched → Sched × ℕ
zsrm_read k size s0 =
    let s : Sched = elim (k.dumpdebuglog s0.asked) [
      | none ↦ ask s0
      | some log ↦ add_trace_records log (ask s0)
    ] in
    (
      record s { trace_index = 0 },
      if leb (s.trace_index * trace_rec_size) size
          then s.trace_index * trace_rec_size
          else size / trace_rec_size * trace_rec_size,
    )
