-- ===== src/Sched/Budget.antt =====
-- Budgets in src/zsrmv.c: the enforcement timer, budget enforcement, and `start` and `stop`, which
-- put a reserve into the ready queue, take it out, and account for the time that the head ran.
pub mod Keeps
pub mod Enforce
pub mod Heads
pub mod Laws
use mixed_trust_zsrmv_public.Base.{
  ℕ, zero, suc, ◌+◌, ◌-◌, ◌*◌, ◌≡◌, Bool, true, false, ◌&&◌, ◌||◌, not, Option, none, some, List,
  [], ◌∷◌, ltb, leb, ◌==◌, if◌then◌else◌, u32, u64, sub_u64, update, points_to, Ptr, is_null,
}
use mixed_trust_zsrmv_public.Base.Int.{ℤ, pos, negsuc, ltb_ℤ}
use mixed_trust_zsrmv_public.Links.{Queue, max_reserves}
use mixed_trust_zsrmv_public.Reserve.{Timespec, ZsTimer, Reserve, Table}
use mixed_trust_zsrmv_public.Stack.{push_to_reschedule}
use mixed_trust_zsrmv_public.Sched.{
  TraceRec, WhichTimer, of_enforcement, of_zero_slack, of_period, of_start, Call, hrtimer_cancel,
  wake_up_sched_task, send_sig_info, Kernel, Meter, Sched, ask, emit, on, now, gettask, ticks2ns,
  ticks2ns1, add_trace_record, add_trace_records, add_timerq,
}
use mixed_trust_zsrmv_public.Sched.Ready.{in_readyq, enqueue, dequeue_behind, dequeue_head}

-- end - start is added up and counted, and the worst one is kept
unfoldable pub count_meter : ℕ → Meter → Meter
count_meter end_ticks m =
    let took = sub_u64 end_ticks m.start_timestamp_ticks in
    record {
      start_timestamp_ticks = m.start_timestamp_ticks;
      end_timestamp_ticks = end_ticks;
      cumm_ticks = u64 (m.cumm_ticks + took);
      num = u64 (suc m.num);
      wc_ticks = if ltb m.wc_ticks took then took else m.wc_ticks;
    }

-- start = end = 0
unfoldable pub reset_meter : Meter → Meter
reset_meter m = record m { start_timestamp_ticks = 0; end_timestamp_ticks = 0 }

unfoldable pub start_meter : ℕ → Meter → Meter
start_meter ticks m = record m { start_timestamp_ticks = ticks }

-- current_exectime_ticks - current_job_hypertasks_preemption_ticks
abbrev pub consumed_ticks : Reserve → ℕ
consumed_ticks r = sub_u64 r.current_exectime_ticks r.current_job_hypertasks_preemption_ticks

unfoldable pub set_enforcement_expiration : Timespec → Reserve → Reserve
set_enforcement_expiration t r = record r {
  enforcement_timer = record r.enforcement_timer { expiration = t };
}

-- The result is true (1) if the budget is used up, and then no timer is started.
unfoldable pub start_enforcement_timer : Kernel → ℕ → Sched → Sched × Bool
start_enforcement_timer k i s =
    let r = s.reserve_table i in
    if ltb (consumed_ticks r) r.exectime_ticks
    then (let rest_ns = ticks2ns1 s (sub_u64 r.exectime_ticks (consumed_ticks r)) in
        let s' = on i (set_enforcement_expiration (k.ns_to_timespec rest_ns)) s in
        (add_timerq i of_enforcement s', false))
    else (s, true)

-- a recorded start of a hypertask other than `rid` between two times
abbrev pub is_preemption : TraceRec → ℕ → ℕ → ℕ → Bool
is_preemption e rid from now_ticks =
    (leb from e.timestamp_ns && ltb e.timestamp_ns now_ticks)
    && (not (e.rid == rid) && (e.event_type == 58))

-- the loop from the index `i` on; each round moves the index on, so trace_index rounds are enough
unfoldable pub preemption_from : (ℕ → TraceRec) → ℕ → ℕ → ℕ → ℕ → ℕ → ℕ → ℕ → ℕ
preemption_from trace index rid from now_ticks zero i acc = acc
preemption_from trace index rid from now_ticks (suc left) i acc = elim (ltb i index) [
  | false ↦ acc
  | true ↦ elim (is_preemption (trace i) rid from now_ticks && ((trace (suc i)).event_type == 59)) [
    | true ↦
        preemption_from trace index rid from now_ticks left (i + 2)
          (u64 (acc + sub_u64 (trace (suc i)).timestamp_ns (trace i).timestamp_ns))
    | false ↦ preemption_from trace index rid from now_ticks left (suc i) acc
  ]
]

unfoldable pub calculate_hypertask_preemption_time_ticks : Sched → ℕ → ℕ → ℕ
unfolding preemption_from
calculate_hypertask_preemption_time_ticks s rid now_ticks =
    preemption_from s.trace_table s.trace_index rid
      (s.reserve_table rid).current_job_activation_ticks now_ticks s.trace_index 0 0

-- ((rid << 2) | (stop << 1) | periodic), on an int
abbrev pub bundle_rid_stop_periodic : ℕ → Bool → Bool → ℕ
bundle_rid_stop_periodic rid stop periodic =
    rid * 4 + (if stop then 2 else 0) + (if periodic then 1 else 0)

unfoldable pub record_preemption : ℕ → ℕ → Reserve → Reserve
record_preemption preemption_ticks entry_ticks r = record r {
  current_job_hypertasks_preemption_ticks = preemption_ticks;
  current_exectime_ticks = u64 (r.current_exectime_ticks + sub_u64 entry_ticks r.start_ticks);
  start_ticks = entry_ticks;
}

unfoldable pub cancel_zero_slack : ℕ → Sched → Sched
cancel_zero_slack rid s =
    if (s.reserve_table rid).has_zsenforcement then emit (hrtimer_cancel rid of_zero_slack) s else s

-- the signal to the task of a reserve whose enforcement signal is captured
unfoldable pub signal_task : Kernel → ℕ → Bool → Sched → Sched
signal_task k rid request_stop s =
    let r = s.reserve_table rid in
    elim (gettask k s rid) [
      | none ↦ ask s
      | some task ↦
          emit
            (send_sig_info task r.enforcement_signo
              (bundle_rid_stop_periodic rid request_stop (not r.end_of_period_marked)))
            (ask s)
    ]

-- the scheduler task is asked to stop the reserve
unfoldable pub ask_to_stop : ℕ → Sched → Sched
ask_to_stop rid s0 =
    let s = on rid (λ r. record r { request_stop = true }) s0 in
    emit wake_up_sched_task (record s { reschedule = (push_to_reschedule s.reschedule rid).0 })

unfoldable pub count_enforcement : Reserve → Reserve
count_enforcement r = record r { num_enforcements = u32 (suc r.num_enforcements) }

-- budget_enforcement once the budget is known to be used up
unfoldable pub enforce_budget : Kernel → ℕ → Bool → Sched → Sched
enforce_budget k rid request_stop s0 =
    let at = ticks2ns s0.kernel_entry_timestamp_ticks in
    let s = on rid count_enforcement (cancel_zero_slack rid (add_trace_record rid at 5 s0)) in
    if (s.reserve_table rid).enforcement_signal_captured
    then (if request_stop
        then signal_task k rid true s
        else add_trace_record rid at 6 (signal_task k rid false s))
    else if request_stop
    then ask_to_stop rid s
    else s

-- the correction for hypertasks that preempted the reserve; true if the budget is used up
unfoldable pub defer_enforcement : Kernel → ℕ → Sched → Sched × Bool
defer_enforcement k rid s =
    let entry = s.kernel_entry_timestamp_ticks in
    let preemption = calculate_hypertask_preemption_time_ticks s rid entry in
    if ltb (s.reserve_table rid).current_job_hypertasks_preemption_ticks preemption
    then start_enforcement_timer k rid (on rid (record_preemption preemption entry) s)
    else (s, true)

unfoldable pub budget_enforcement : Kernel → ℕ → Bool → Sched → Sched
budget_enforcement k rid request_stop s0 =
    let t = now k s0 in
    let s1 = ask (record s0 {
      enforcement = start_meter t s0.enforcement;
      hypercall = start_meter t s0.hypercall;
    }) in
    elim (k.dumpdebuglog s1.asked) [
      | none ↦ enforce_budget k rid request_stop (ask s1)
      | some log ↦
          let s2 = ask s1 in
          let s3 = ask (record s2 { hypercall = count_meter (now k s2) s2.hypercall }) in
          let (s4, expired) = defer_enforcement k rid (add_trace_records log s3) in
          if expired then enforce_budget k rid request_stop s4 else s4
    ]

-- stop_ticks = now; current_exectime_ticks += stop_ticks - start_ticks
unfoldable pub account : ℕ → Reserve → Reserve
account now_ticks r = record r {
  stop_ticks = now_ticks;
  current_exectime_ticks = u64 (r.current_exectime_ticks + sub_u64 now_ticks r.start_ticks);
}

unfoldable pub set_start_ticks : ℕ → Reserve → Reserve
set_start_ticks now_ticks r = record r { start_ticks = now_ticks }

-- the head stops running: its time is accounted for and its enforcement timer cancelled
unfoldable pub pause_head : ℕ → Ptr → Sched → Sched
pause_head now_ticks none s = s
pause_head now_ticks (some h) s =
    emit (hrtimer_cancel h of_enforcement) (on h (account now_ticks) s)

abbrev pub trace_preempted : Option ℕ → ℕ → Sched → Sched
trace_preempted none at s = s
trace_preempted (some old_rid) at s = add_trace_record old_rid at 3 s

abbrev pub rid_of : Table → Ptr → Option ℕ
rid_of table none = none
rid_of table (some h) = some (table h).rid

-- the accounting of `start` for the head of the new queue; `old` is the rid of the head that it
-- replaced
unfoldable pub run_started : Kernel → ℕ → Bool → Option ℕ → Ptr → Sched → Sched
run_started k now_ticks new_runner old none s = s
run_started k now_ticks new_runner old (some h) s =
    let (s', need_enforcement) = start_enforcement_timer k h (on h (set_start_ticks now_ticks) s) in
    let rid = (s'.reserve_table h).rid in
    let at = ticks2ns s'.kernel_entry_timestamp_ticks in
    if need_enforcement
    then budget_enforcement k rid true s'
    else if new_runner
    then add_trace_record rid at 4 (trace_preempted old at s')
    else s'

-- `start`, which start_stac only calls
unfoldable pub start : Kernel → ℕ → Sched → Sched
start k rid s0 =
    let now_ticks = now k s0 in
    let s = ask s0 in
    if leb 1 (in_readyq s.reserve_table s.readyq rid)
    then s
    else (let s1 = pause_head now_ticks s.readyq.head s in
        elim (enqueue s1.reserve_table s1.readyq rid s1.readyq.head) [
          | none ↦ s1
          | some q ↦
              run_started k now_ticks (points_to q.head rid)
                (if points_to q.head rid then rid_of s1.reserve_table s1.readyq.head else none)
                q.head (record s1 { readyq = q })
        ])

-- the accounting of `stop` for the head of the new queue
unfoldable pub run_next : Kernel → ℕ → Ptr → Sched → Sched
run_next k now_ticks none s = s
run_next k now_ticks (some h) s =
    let (s', need_enforcement) = start_enforcement_timer k h (on h (set_start_ticks now_ticks) s) in
    let rid = (s'.reserve_table h).rid in
    let s'' = if need_enforcement then budget_enforcement k rid true s' else s' in
    add_trace_record (s''.reserve_table h).rid (ticks2ns s''.kernel_entry_timestamp_ticks) 4 s''

-- `stop`, which stop_stac only calls
unfoldable pub stop : Kernel → ℕ → Sched → Sched
stop k rid s0 =
    let now_ticks = now k s0 in
    let s = ask s0 in
    if (in_readyq s.reserve_table s.readyq rid == 0) || leb max_reserves rid
    then s
    else if points_to s.readyq.head rid
    then (let s1 = add_trace_record rid (ticks2ns s.kernel_entry_timestamp_ticks) 3 s in
        let s2 = pause_head now_ticks s1.readyq.head s1 in
        let q = dequeue_head s2.readyq rid in
        run_next k now_ticks q.head (record s2 { readyq = q }))
    else record s { readyq = dequeue_behind s.readyq rid s.readyq.head }
