-- ===== src/Sched/Entries.antt =====
-- The entries of reserve_table in src/zsrmv.c: init, init_reserve and getreserve.
pub mod Laws
use mixed_trust_zsrmv_public.Base.{
  ℕ, zero, suc, ◌+◌, ◌-◌, ◌*◌, ◌/◌, ◌≡◌, Bool, true, false, ◌&&◌, not, Option, none, some, ltb, leb,
  ◌==◌, if◌then◌else◌, u32, u64, points_to, is_null, Ptr, update,
}
use mixed_trust_zsrmv_public.Base.Int.{ℤ, pos, negsuc, ltb_ℤ, eqb_ℤ, pred_ℤ, pos_part}
use mixed_trust_zsrmv_public.Links.{Queue, max_reserves, visits}
use mixed_trust_zsrmv_public.Reserve.{
  Timespec, zero_timespec, TimerType, timer_enf, timer_zs_enf, timer_period, timer_start, ZsTimer,
  Reserve, Table, modify,
}
use mixed_trust_zsrmv_public.RmQueue.{RmQueue, del_rm_queue}
use mixed_trust_zsrmv_public.Stack.{Stack, push_to_activate}
use mixed_trust_zsrmv_public.Sched.{
  WhichTimer, of_enforcement, of_zero_slack, of_period, of_start, hrtimer_init, hrtimer_cancel,
  wake_up_active_task, sched_setscheduler_normal, Kernel, Sched, ask, emit, on, now, gettask,
  ticks2ns, add_trace_record, add_timerq,
}
use mixed_trust_zsrmv_public.Sched.Ready.{dequeue_behind}
use mixed_trust_zsrmv_public.Sched.Budget.{
  set_start_ticks, start_enforcement_timer, budget_enforcement, start, stop,
}

-- the fields that `init` writes; the loop does so for every reserve
unfoldable pub init_fields : ℕ → Reserve → Reserve
init_fields i r = record r {
  first_job_activation_ns = 0;
  job_activation_count = 0;
  current_job_activation_ticks = 0;
  current_job_hypertasks_preemption_ticks = 0;
  enforcement_type = 0;
  task_namespace = none;
  pid = negsuc 0;
  rid = i;
  enforcement_timer = record r.enforcement_timer { expiration = zero_timespec; rid = i };
  exectime_ns = 0;
  exectime_ticks = 0;
  current_exectime_ns = 0;
  current_exectime_ticks = 0;
  worst_exectime_ticks = 0;
  avg_exectime_ticks = 0;
  avg_exectime_ticks_measurements = 0;
  request_stop = false;
  period_timer = record r.period_timer { expiration = r.period; rid = i };
  zero_slack_timer = record r.zero_slack_timer { rid = i };
  in_critical_mode = false;
  enforced = false;
  criticality = pos 0;
  num_enforcements = 0;
  num_wfnp = 0;
  non_periodic_wait = false;
  end_of_period_marked = false;
  num_wait_release = 0;
  num_period_wakeups = 0;
  enforcement_signal_captured = false;
  attached = false;
  hypertask_active = false;
}

abbrev pub clear_links : ℕ → Queue → Queue
clear_links n q = record q { link = λ i. if ltb i n then none else q.link i }

unfoldable pub init : Sched → Sched
init s = record s {
  reserve_table =
      λ i. if ltb i max_reserves then init_fields i (s.reserve_table i) else s.reserve_table i;
  readyq = record { head = none; link = (clear_links max_reserves s.readyq).link };
  rm = record s.rm {
    queue = record { head = none; link = (clear_links max_reserves s.rm.queue).link };
  };
  critical_reservesq = clear_links max_reserves s.critical_reservesq;
  crit_blockq = clear_links max_reserves s.crit_blockq;
}

unfoldable pub init_reserve_fields : Reserve → Reserve
init_reserve_fields r = record r {
  first_job_activation_ns = 0;
  job_activation_count = 0;
  current_job_activation_ticks = 0;
  current_job_hypertasks_preemption_ticks = 0;
  task_namespace = none;
  num_wfnp = 0;
  non_periodic_wait = false;
  end_of_period_marked = false;
  num_wait_release = 0;
  num_enforcements = 0;
  worst_exectime_ticks = 0;
  avg_exectime_ticks = 0;
  avg_exectime_ticks_measurements = 0;
  num_period_wakeups = 0;
  enforcement_type = 0;
  enforcement_signal_captured = false;
  attached = false;
  start_period = pos 0;
  hypertask_active = false;
  has_hyptask = false;
  has_zsenforcement = false;
}

abbrev pub clear_link : ℕ → Queue → Queue
clear_link rid q = record q { link = update q.link rid none }

unfoldable pub init_reserve : ℕ → Sched → Sched
init_reserve rid s0 =
    let s = on rid init_reserve_fields s0 in
    emit (hrtimer_init rid of_zero_slack) (
      emit (hrtimer_init rid of_enforcement) (
        emit (hrtimer_init rid of_period) (record s {
          readyq = clear_link rid s.readyq;
          rm = record s.rm { queue = clear_link rid s.rm.queue };
          critical_reservesq = clear_link rid s.critical_reservesq;
          crit_blockq = clear_link rid s.crit_blockq;
        })))

-- the loop of getreserve, where `left` is MAX_RESERVES - i
unfoldable pub free_from : Table → ℕ → ℕ → Option ℕ
free_from table zero i = none
free_from table (suc left) i = elim (eqb_ℤ (table i).pid (negsuc 0)) [
  | true ↦ some i
  | false ↦ free_from table left (suc i)
]

-- The index of the reserve, or -1 if all are in use.
unfoldable pub getreserve : Sched → Sched × ℤ
unfolding free_from
getreserve s = elim (free_from s.reserve_table max_reserves 0) [
  | none ↦ (s, negsuc 0)
  | some i ↦ (init_reserve i (on i (λ r. record r { pid = pos 0 }) s), pos i)
]
