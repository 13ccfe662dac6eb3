-- ===== src/Sched/Life.antt =====
-- The life of a reserve in src/zsrmv.c: it is attached to a task and deleted; priorities follow the
-- rate-monotonic queue.
pub mod Laws
use mixed_trust_zsrmv_public.Base.{
  ℕ, zero, suc, ◌+◌, ◌-◌, ◌*◌, ◌/◌, ◌≡◌, Bool, true, false, ◌&&◌, not, Option, none, some, ltb, leb,
  ◌==◌, if◌then◌else◌, u32, u64, points_to, is_null, Ptr, update,
}
use mixed_trust_zsrmv_public.Base.Int.{ℤ, pos, negsuc, ltb_ℤ, eqb_ℤ, pred_ℤ, pos_part}
use mixed_trust_zsrmv_public.Links.{Queue, max_reserves, visits}
use mixed_trust_zsrmv_public.Reserve.{
  Timespec, zero_timespec, TimerType, timer_enf, timer_zs_enf, timer_period, timer_start, ZsTimer,
  Reserve, Table, modify,
}
use mixed_trust_zsrmv_public.RmQueue.{RmQueue, del_rm_queue}
use mixed_trust_zsrmv_public.Stack.{Stack, push_to_activate}
use mixed_trust_zsrmv_public.Sched.{
  WhichTimer, of_enforcement, of_zero_slack, of_period, of_start, hrtimer_init, hrtimer_cancel,
  wake_up_active_task, sched_setscheduler_normal, Kernel, Sched, ask, emit, on, now, gettask,
  ticks2ns, add_trace_record, add_timerq,
}
use mixed_trust_zsrmv_public.Sched.Ready.{dequeue_behind}
use mixed_trust_zsrmv_public.Sched.Budget.{
  set_start_ticks, start_enforcement_timer, budget_enforcement, start, stop,
}

-- #define MIN_PRIORITY 50
abbrev pub min_priority : ℕ
min_priority = 50

unfoldable pub set_priority : ℤ → Reserve → Reserve
set_priority p r = record r { priority = p }

-- the loop of calculate_rm_priorities
unfoldable pub priorities_from : (ℕ → Ptr) → ℕ → Ptr → ℤ → Table → Table
priorities_from link zero p topprio table = table
priorities_from link (suc left) none topprio table = table
priorities_from link (suc left) (some t) topprio table =
    priorities_from link left (link t) (pred_ℤ topprio) (modify table t (set_priority topprio))

-- MIN_PRIORITY + rm_queue_size
abbrev pub top_priority : ℤ → ℤ
top_priority (pos n) = pos (min_priority + n)
top_priority (negsuc n) =
    if leb (suc n) min_priority then pos (min_priority - suc n) else negsuc (n - min_priority)

unfoldable pub calculate_rm_priorities : RmQueue → Table → Table
calculate_rm_priorities rm table =
    priorities_from rm.queue.link visits rm.queue.head (top_priority rm.rm_queue_size) table

-- the loop of set_rm_priorities
unfoldable pub activate_from : Table → (ℕ → Ptr) → ℕ → Ptr → Stack → Stack
activate_from table link zero p s = s
activate_from table link (suc left) none s = s
activate_from table link (suc left) (some t) s =
    activate_from table link left (link t)
      (if ltb_ℤ (pos 0) (table t).pid then (push_to_activate s (table t).rid).0 else s)

unfoldable pub set_rm_priorities : Sched → Sched
set_rm_priorities s = emit wake_up_active_task (record s {
  activate = activate_from s.reserve_table s.rm.queue.link visits s.rm.queue.head s.activate;
})

-- an instant in units of the hypervisor's clock, on an unsigned 32-bit word
abbrev pub hyp_ticks : Timespec → ℕ
hyp_ticks t = u32 (t.tv_sec * 19200000 + t.tv_nsec / 1000000 * 19200)

unfoldable pub create_hypertask : Kernel → ℕ → Sched → Sched
create_hypertask k rid s =
    let r = s.reserve_table rid in
    if not r.hypertask_active && r.has_hyptask
    then elim (k.createhyptask s.asked (hyp_ticks r.hyp_enforcer_instant) (hyp_ticks r.period)
        r.priority rid) [
          | none ↦ ask s
          | some handle ↦
              let s1 = on rid (λ r. record r { hyptask_handle = handle }) (ask s) in
              let s2 = ask s1 in
              if k.guestjobstart s1.asked handle
              then on rid (λ r. record r { hypertask_active = true }) s2
              else s2
        ]
    else s

abbrev pub with_type : TimerType → ZsTimer → ZsTimer
with_type type t = record t { timer_type = type }

-- the first writes of attach_reserve, with init_exectime_counters
unfoldable pub attach_fields : ℤ → Option ℕ → Reserve → Reserve
attach_fields pid ns r = record r {
  start_period = pos 1;
  enforcement_timer = with_type timer_enf r.enforcement_timer;
  period_timer = record r.period_timer { timer_type = timer_period; expiration = r.period };
  zero_slack_timer = record r.zero_slack_timer {
    timer_type = timer_zs_enf;
    expiration = r.zsinstant;
  };
  start_timer = with_type timer_start r.start_timer;
  enforced = false;
  in_critical_mode = false;
  bound_to_cpu = false;
  current_exectime_ns = 0;
  current_exectime_ticks = 0;
  pid = pid;
  task_namespace = ns;
}

-- the record of the first activation
unfoldable pub first_activation : ℕ → ℕ → Reserve → Reserve
first_activation now_ns entry r = record r {
  first_job_activation_ns = now_ns;
  job_activation_count = u64 (suc r.job_activation_count);
  current_job_activation_ticks = entry;
  current_job_deadline_ticks = u64 (entry + r.hyp_enforcer_instant_ticks);
  job_completed = true;
}

-- attach_reserve for a task that is alive
unfoldable pub attach_task : Kernel → ℕ → ℤ → Option ℕ → Sched → Sched
attach_task k rid pid ns s0 =
    let s1 =
      on rid (attach_fields pid ns)
        (record s0 { readyq = record s0.readyq { link = update s0.readyq.link rid none } }) in
    let s2 =
      set_rm_priorities
        (record s1 { reserve_table = calculate_rm_priorities s1.rm s1.reserve_table }) in
    let s3 = add_timerq rid of_period (on rid (λ r. record r { attached = true }) s2) in
    let s4 =
      if (s3.reserve_table rid).has_zsenforcement then add_timerq rid of_zero_slack s3 else s3 in
    let s5 =
      create_hypertask k rid
        (add_trace_record rid (ticks2ns s4.kernel_entry_timestamp_ticks) 2 s4) in
    start k rid
      (on rid (first_activation (k.ktime_get_ns s5.asked) s5.kernel_entry_timestamp_ticks) (ask s5))

-- The result is 0, or -1 if there is no such task.
unfoldable pub attach_reserve : Kernel → ℕ → ℤ → Sched → Sched × ℤ
attach_reserve k rid pid s0 =
    let ns = k.task_active_pid_ns s0.asked in
    let s1 = ask s0 in
    elim (k.pid_task s1.asked pid ns) [
      | none ↦ (ask s1, negsuc 0)
      | some task ↦ (attach_task k rid pid ns (ask s1), pos 0)
    ]

-- the new head of the ready queue after the deletion of a dead task's reserve; the result is the
-- last task that delete_reserve has looked up
unfoldable pub run_after_delete : Kernel → ℕ → Ptr → Sched → Sched × Option ℕ
run_after_delete k now_ticks none s = (s, none)
run_after_delete k now_ticks (some h) s = elim (gettask k s h) [
  | none ↦ (ask s, none)
  | some task ↦
      let (s', need_enforcement) =
        start_enforcement_timer k h (on h (set_start_ticks now_ticks) (ask s)) in
      (
        if need_enforcement then budget_enforcement k (s'.reserve_table h).rid true s' else s',
        some task,
      )
]

-- the reserve of a dead task leaves the ready queue
unfoldable pub drop_dead : Kernel → ℕ → ℕ → Ptr → Sched → Sched × Option ℕ
drop_dead k now_ticks rid none s = (s, none)
drop_dead k now_ticks rid (some h) s =
    if h == rid
    then (let q : Queue = record {
      head = s.readyq.link rid;
      link = update s.readyq.link rid none;
    } in
        run_after_delete k now_ticks q.head (record s { readyq = q }))
    else (record s { readyq = dequeue_behind s.readyq rid (some h) }, none)

-- the timers and the hypertask of a reserve that is deleted
unfoldable pub cancel_all : Kernel → ℕ → Sched → Sched
cancel_all k rid s0 =
    let s1 = emit (hrtimer_cancel rid of_period) (emit (hrtimer_cancel rid of_enforcement) s0) in
    let s2 =
      if (s1.reserve_table rid).has_zsenforcement
      then emit (hrtimer_cancel rid of_zero_slack) s1
      else s1 in
    let r = s2.reserve_table rid in
    if r.hypertask_active
    then (if k.deletehyptask s2.asked r.hyptask_handle
        then on rid (λ r. record r { hypertask_active = false }) (ask s2)
        else ask s2)
    else s2

unfoldable pub set_normal : Option ℕ → Sched → Sched
set_normal none s = s
set_normal (some task) s = emit (sched_setscheduler_normal task) s

unfoldable pub delete_reserve : Kernel → ℕ → Sched → Sched × ℤ
delete_reserve k rid s0 =
    let now_ticks = now k s0 in
    let s1 = ask s0 in
    if leb max_reserves rid
    then (s1, negsuc 0)
    else (let (s2, last) : Sched × Option ℕ = elim (gettask k s1 rid) [
      | some task ↦ (stop k rid (ask s1), some task)
      | none ↦ drop_dead k now_ticks rid s1.readyq.head (ask s1)
    ] in
        let s3 = on rid (λ r. record r { pid = negsuc 0 }) (cancel_all k rid s2) in
        let s4 =
          set_normal last
            (record s3 { readyq = record s3.readyq { link = update s3.readyq.link rid none } }) in
        (record s4 { rm = del_rm_queue s4.rm rid }, pos 0))
