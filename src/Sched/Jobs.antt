-- ===== src/Sched/Jobs.antt =====
-- The life of a job in src/zsrmv.c: the start of a period, and the calls by which a task
-- waits for its next one.
pub mod Leaving
use mixed_trust_zsrmv_public.Base.{
  ℕ, zero, suc, ◌+◌, Bool, true, false, ◌&&◌, none, some, ltb, leb, ◌==◌, if◌then◌else◌, u32, u64,
  sub_u64, pred_u32, points_to, Ptr,
}
use mixed_trust_zsrmv_public.Base.Int.{ℤ, pos, ltb_ℤ, leb_ℤ, suc_ℤ, pred_ℤ}
use mixed_trust_zsrmv_public.Links.{Queue, max_reserves, visits}
use mixed_trust_zsrmv_public.Reserve.{Reserve, Table}
use mixed_trust_zsrmv_public.CritQueue.{pop_crit}
use mixed_trust_zsrmv_public.Sched.{
  of_enforcement, of_zero_slack, hrtimer_cancel, wake_up_process, set_tsk_need_resched,
  set_current_interruptible, disablehyptask, Kernel, Sched, ask, emit, on, now, gettask, ticks2ns,
  add_trace_record, add_timerq,
}
use mixed_trust_zsrmv_public.Sched.Budget.{
  count_meter, reset_meter, start_meter, budget_enforcement, cancel_zero_slack, start, stop,
}
use mixed_trust_zsrmv_public.Sched.Life.{delete_reserve}

unfoldable pub reset_counters : Reserve → Reserve
reset_counters r = record r {
  worst_exectime_ticks =
      if ltb r.worst_exectime_ticks r.current_exectime_ticks
      then r.current_exectime_ticks
      else r.worst_exectime_ticks;
  avg_exectime_ticks = u64 (r.avg_exectime_ticks + r.current_exectime_ticks);
  avg_exectime_ticks_measurements = u32 (suc r.avg_exectime_ticks_measurements);
  current_exectime_ns = 0;
  current_exectime_ticks = 0;
  in_critical_mode = false;
}

unfoldable pub reset_exectime_counters : ℕ → Sched → Sched
reset_exectime_counters rid s = on rid reset_counters s

-- the first writes of start_of_period, at the time of the timer interrupt
unfoldable pub activate_job : ℕ → Reserve → Reserve
activate_job entry r = record r {
  current_job_activation_ticks = entry;
  current_job_hypertasks_preemption_ticks = 0;
  current_job_deadline_ticks =
      if r.job_completed
      then u64 (entry + r.hyp_enforcer_instant_ticks)
      else r.current_job_deadline_ticks;
  job_completed = false;
}

-- the period ends before the task has waited for it: its budget is enforced and it is stopped
unfoldable pub end_overrun : Kernel → ℕ → Sched → Sched
end_overrun k rid s =
    if ltb_ℤ (pos 1) (s.reserve_table rid).start_period
    then (let s1 = emit (hrtimer_cancel rid of_enforcement) s in
        on rid (λ r. record r { start_period = pred_ℤ r.start_period })
          (stop k rid (budget_enforcement k rid false s1)))
    else s

-- the zero-slack timer is started again
unfoldable pub rearm_zero_slack : ℕ → Sched → Sched
rearm_zero_slack rid s =
    if (s.reserve_table rid).has_zsenforcement
    then add_timerq rid of_zero_slack (emit (hrtimer_cancel rid of_zero_slack) s)
    else s

unfoldable pub wake_and_start : Kernel → ℕ → ℕ → Sched → Sched
wake_and_start k task rid s =
    start k rid (emit (set_tsk_need_resched task) (emit (wake_up_process task) s))

-- num_period_wakeups++, of which only one is kept
unfoldable pub release : Reserve → Reserve
release r = record r {
  enforced = false;
  num_period_wakeups =
      if ltb 1 (u32 (suc r.num_period_wakeups)) then 1 else u32 (suc r.num_period_wakeups);
}

-- the task goes on if it waits for the period, which a non-periodic wait must have announced
unfoldable pub wake_for_period : Kernel → ℕ → ℕ → Sched → Sched
wake_for_period k task rid s =
    let r = s.reserve_table rid in
    let at = ticks2ns s.kernel_entry_timestamp_ticks in
    if r.non_periodic_wait
    then on rid (λ r. record r { num_wait_release = 0 })
        (if ltb 0 r.num_wait_release
          then wake_and_start k task rid (add_trace_record rid at 13 s)
          else add_trace_record rid at 14 s)
    else wake_and_start k task rid (add_trace_record rid at 12 s)

-- the two overhead measurements at the end of start_of_period
unfoldable pub measure_arrival : Kernel → ℕ → Sched → Sched
measure_arrival k rid s0 =
    let t = now k s0 in
    let s = ask s0 in
    if points_to s.readyq.head rid
    then record s {
      context_switch = reset_meter (count_meter t s.context_switch);
      arrival = reset_meter s.arrival;
    }
    else record s {
      arrival = reset_meter (count_meter t s.arrival);
      context_switch = reset_meter s.context_switch;
    }

-- a reserve below the system's criticality does not start; its arrival is measured on its own
unfoldable pub measure_blocked : Kernel → Sched → Sched
measure_blocked k s0 =
    let t = now k s0 in
    let s = ask s0 in
    let took = sub_u64 t s.arrival.start_timestamp_ticks in
    record s {
      blocked_arrival = record s.blocked_arrival {
        cumm_ticks = u64 (s.blocked_arrival.cumm_ticks + took);
        num = u64 (suc s.blocked_arrival.num);
      };
      arrival = reset_meter s.arrival;
    }

-- start_of_period for a task that is alive
unfoldable pub start_job : Kernel → ℕ → ℕ → Sched → Sched
start_job k task rid s0 =
    let s1 = on rid (λ r. record r { start_period = suc_ℤ r.start_period }) s0 in
    let s2 = rearm_zero_slack rid (reset_exectime_counters rid (end_overrun k rid s1)) in
    let s3 =
      on rid (λ r. record r { job_activation_count = u64 (suc r.job_activation_count) }) s2 in
    if ltb_ℤ (s3.reserve_table rid).criticality s3.sys_criticality
    then measure_blocked k s3
    else measure_arrival k rid (wake_for_period k task rid (on rid release s3))

unfoldable pub start_of_period : Kernel → ℕ → Sched → Sched
start_of_period k rid s0 =
    let t = now k s0 in
    let s1 = ask (record s0 {
      arrival = start_meter t s0.arrival;
      context_switch = start_meter t s0.context_switch;
    }) in
    let completed = (s1.reserve_table rid).job_completed in
    let s2 = on rid (activate_job s1.kernel_entry_timestamp_ticks) s1 in
    let s3 = if completed then ask s2 else s2 in
    if leb max_reserves rid then s3 else elim (gettask k s3 rid) [
      | none ↦ (delete_reserve k rid (ask s3)).0
      | some task ↦ start_job k task rid (ask s3)
    ]

-- the loop that lets blocked reserves go on
unfoldable pub wake_blocked : Kernel → ℕ → Sched → Sched
wake_blocked k zero s = s
wake_blocked k (suc left) s = elim s.crit_blockq.head [
  | none ↦ s
  | some t ↦ elim (leb_ℤ s.sys_criticality (s.reserve_table t).criticality) [
    | false ↦ s
    | true ↦
        let s1 = record s { crit_blockq = pop_crit s.crit_blockq } in
        wake_blocked k left (elim (gettask k s1 t) [
          | some task ↦ wake_and_start k task (s1.reserve_table t).rid (ask s1)
          | none ↦ (delete_reserve k (s1.reserve_table t).rid (ask s1)).0
        ])
  ]
]

-- the loop that takes reserves out of the queue of the blocked ones and leaves them asleep
unfoldable pub drop_blocked : Table → ℤ → ℕ → Queue → Queue
drop_blocked table sys_criticality zero q = q
drop_blocked table sys_criticality (suc left) q = elim q.head [
  | none ↦ q
  | some t ↦ elim (leb_ℤ sys_criticality (table t).criticality) [
    | false ↦ q
    | true ↦ drop_blocked table sys_criticality left (pop_crit q)
  ]
]

-- the criticality of the head of the stack of critical reserves, 0 if there is none
abbrev pub top_criticality : Table → Ptr → ℤ
top_criticality table none = pos 0
top_criticality table (some h) = (table h).criticality

-- the end of a job in critical mode
unfoldable pub leave_critical : Kernel → ℕ → Sched → Sched
leave_critical k rid s0 =
    if (s0.reserve_table rid).in_critical_mode
    then (let s1 = on rid (λ r. record r { in_critical_mode = false }) s0 in
        let q =
          if points_to s1.critical_reservesq.head rid
          then pop_crit s1.critical_reservesq
          else s1.critical_reservesq in
        let s2 = record s1 {
          critical_reservesq = q;
          sys_criticality = top_criticality s1.reserve_table q.head;
        } in
        let r = s2.reserve_table rid in
        if leb r.current_exectime_ticks r.nominal_exectime_ticks
        then wake_blocked k visits s2
        else record s2 {
          crit_blockq = drop_blocked s2.reserve_table s2.sys_criticality visits s2.crit_blockq;
        })
    else s0

unfoldable pub start_departure : Kernel → Sched → Sched
start_departure k s = ask (record s { departure = start_meter (now k s) s.departure })

unfoldable pub measure_departure : Kernel → Sched → Sched
measure_departure k s =
    ask (record s { departure = reset_meter (count_meter (now k s) s.departure) })

-- the parameter nowait is not used
unfoldable pub wait_for_next_period : Kernel → ℕ → Bool → Sched → Sched
wait_for_next_period k rid disable_hypertask s0 =
    let s1 = start_departure k (on rid (λ r. record r { job_completed = true }) s0) in
    let s2 = add_trace_record rid (ticks2ns s1.kernel_entry_timestamp_ticks) 1 s1 in
    let r = s2.reserve_table rid in
    let s3 =
      if r.hypertask_active && disable_hypertask
      then emit (disablehyptask r.hyptask_handle) s2
      else s2 in
    let s4 = on rid (λ r. record r { non_periodic_wait = false }) (cancel_zero_slack rid s3) in
    let s5 =
      on rid
        (λ r. record r { num_wfnp = u32 (suc r.num_wfnp); start_period = pred_ℤ r.start_period })
        (stop k rid s4) in
    on rid (λ r. record r { num_period_wakeups = pred_u32 r.num_period_wakeups })
      (emit set_current_interruptible (measure_departure k (leave_critical k rid s5)))

unfoldable pub end_of_period : Kernel → ℕ → Sched → Sched
end_of_period k rid s0 =
    let s1 = start_departure k s0 in
    let s2 = add_trace_record rid (ticks2ns s1.kernel_entry_timestamp_ticks) 8 s1 in
    let s3 =
      on rid
        (λ r. record r {
          num_wfnp = u32 (suc r.num_wfnp);
          non_periodic_wait = true;
          end_of_period_marked = true;
          start_period = pred_ℤ r.start_period;
        })
        (stop k rid (cancel_zero_slack rid s2)) in
    measure_departure k (leave_critical k rid s3)

-- num_period_wakeups is unsigned, so that `<= 0` says that it is zero
unfoldable pub wait_for_next_release : Kernel → ℕ → Sched → Sched
wait_for_next_release k rid s0 =
    let s = ask s0 in
    let r = s.reserve_table rid in
    let at = ticks2ns s.kernel_entry_timestamp_ticks in
    if r.end_of_period_marked
    then on rid
        (λ r. record r {
          end_of_period_marked = false;
          num_period_wakeups = pred_u32 r.num_period_wakeups;
        })
        (if r.num_period_wakeups == 0
          then on rid (λ r. record r { num_wait_release = u32 (suc r.num_wait_release) })
              (emit set_current_interruptible (add_trace_record rid at 10 s))
          else start k rid (add_trace_record rid at 11 s))
    else wait_for_next_period k rid true s
