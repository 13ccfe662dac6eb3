-- ===== src/Sched/Tasks.antt =====
-- The timer interrupts and the two kernel tasks of src/zsrmv.c, which call the operations on jobs
-- and reserves.
pub mod Laws
use mixed_trust_zsrmv_public.Base.{
  ℕ, zero, suc, ◌+◌, ◌*◌, ◌≡◌, Bool, true, false, ◌&&◌, ◌||◌, not, Option, none, some, ltb, leb,
  ◌==◌, if◌then◌else◌, u64, sub_u64,
}
use mixed_trust_zsrmv_public.Base.Int.{ℤ, pos, negsuc, eqb_ℤ, pred_ℤ}
use mixed_trust_zsrmv_public.Links.{max_reserves}
use mixed_trust_zsrmv_public.Reserve.{
  timespec_ns, TimerType, unset, timer_enf, timer_zs_enf, timer_period, timer_start, ZsTimer,
  Reserve,
}
use mixed_trust_zsrmv_public.Stack.{push_to_reschedule, pop_to_reschedule, pop_to_activate}
use mixed_trust_zsrmv_public.Sched.{
  WhichTimer, hrtimer_start_abs, wake_up_process, wake_up_sched_task, set_tsk_need_resched,
  set_task_interruptible, set_cpus_allowed, sched_setscheduler_fifo, Kernel, Meter, Sched, ask,
  emit, on, now, gettask, enter_kernel, timer_of, set_absolute,
}
use mixed_trust_zsrmv_public.Sched.Budget.{
  count_meter, reset_meter, budget_enforcement, start, stop,
}
use mixed_trust_zsrmv_public.Sched.Life.{attach_reserve, delete_reserve}
use mixed_trust_zsrmv_public.Sched.Jobs.{start_of_period}
use mixed_trust_zsrmv_public.Sched.ZeroSlack.{zs_enforcement_of}

-- the switch over the type of the timer; true if the timer is to be started again
unfoldable pub dispatch_timer : Kernel → TimerType → ℕ → ℕ → Sched → Sched × Bool
dispatch_timer k timer_enf rid task s = (budget_enforcement k rid true s, false)
dispatch_timer k timer_period rid task s = (start_of_period k rid s, true)
dispatch_timer k timer_zs_enf rid task s = (zs_enforcement_of k rid s, false)
dispatch_timer k timer_start rid task s =
    let s1 = emit (set_tsk_need_resched task) (emit (wake_up_process task) s) in
    ((attach_reserve k rid (s1.reserve_table rid).pid s1).0, false)
dispatch_timer k unset rid task s = (s, false)

-- the handler for the timer `w` of reserve_table[i]
unfoldable pub timer_handler : Kernel → ℕ → WhichTimer → Sched → Sched × Bool
timer_handler k i w s0 =
    let s = enter_kernel k s0 in
    let timer = timer_of w (s.reserve_table i) in
    if leb max_reserves timer.rid || eqb_ℤ (s.reserve_table timer.rid).pid (negsuc 0)
    then (s, false)
    else elim (gettask k s timer.rid) [
      | some task ↦ dispatch_timer k timer.timer_type timer.rid task (ask s)
      | none ↦
          let s1 = on timer.rid (λ r. record r { request_stop = false }) (ask s) in
          (
            emit wake_up_sched_task
                (record s1 { reschedule = (push_to_reschedule s1.reschedule timer.rid).0 }),
            false,
          )
    ]

-- the periodic timer is started at the time of the next activation, counted from the first one
unfoldable pub restart_timer : ℕ → WhichTimer → Sched → Sched
restart_timer i w s0 =
    let s = on i (set_absolute w (timespec_ns (timer_of w (s0.reserve_table i)).expiration)) s0 in
    let timer = timer_of w (s.reserve_table i) in
    let r = s.reserve_table timer.rid in
    emit
      (hrtimer_start_abs i w
        (u64 (r.first_job_activation_ns + timer.absolute_expiration_ns * r.job_activation_count)))
      s

-- `locked` tells whether the spin lock was taken within the tries
unfoldable pub kernel_timer_handler : Kernel → Bool → ℕ → WhichTimer → Sched → Sched
kernel_timer_handler k locked i w s =
    if locked
    then (let (s', restart) = timer_handler k i w s in if restart then restart_timer i w s' else s')
    else s

-- the scheduler task stops a reserve for which that was requested
unfoldable pub stop_requested : Kernel → ℕ → Sched → Sched
stop_requested k rid s0 =
    let s1 = on rid (λ r. record r { request_stop = false }) s0 in
    if (s1.reserve_table rid).enforced
    then s1
    else (let s2 = on rid (λ r. record r { enforced = true }) s1 in
        elim (gettask k s2 rid) [
          | none ↦ (delete_reserve k rid (ask s2)).0
          | some task ↦ stop k rid (
              on rid (λ r. record r { start_period = pred_ℤ r.start_period })
                (emit (set_tsk_need_resched task) (emit (set_task_interruptible task) (ask s2))))
        ])

-- the scheduler task wakes up and starts any other reserve
unfoldable pub start_requested : Kernel → ℕ → Sched → Sched
start_requested k rid s0 = elim (gettask k s0 rid) [
  | none ↦ (delete_reserve k rid (ask s0)).0
  | some task ↦
      let s1 = ask s0 in
      let s2 = ask s1 in
      let s3 = if k.is_sleeping s1.asked task then emit (wake_up_process task) s2 else s2 in
      start k rid (emit (sched_setscheduler_fifo task (s0.reserve_table rid).priority) s3)
]

unfoldable pub reschedule_one : Kernel → ℕ → Sched → Sched
reschedule_one k rid s =
    if (s.reserve_table rid).request_stop then stop_requested k rid s else start_requested k rid s

-- The loop over the stack. Its body can push a reserve again, when the next one has no budget left,
-- so that the number of rounds is not bounded: `none` if the fuel is used up.
unfoldable pub reschedule_all : Kernel → ℕ → Sched → Option Sched
reschedule_all k zero s = none
reschedule_all k (suc fuel) s =
    let (stack, rid) = pop_to_reschedule s.reschedule in
    let s' = record s { reschedule = stack } in
    elim rid [ negsuc n ↦ some s' | pos i ↦ reschedule_all k fuel (reschedule_one k i s') ]

-- the enforcements that began with a timer interrupt end here
unfoldable pub measure_enforcement : Kernel → Sched → Sched
measure_enforcement k s =
    if s.enforcement.start_timestamp_ticks == 0
    then s
    else ask (record s { enforcement = reset_meter (count_meter (now k s) s.enforcement) })

unfoldable pub measure_zs_enforcement : Kernel → Sched → Sched
measure_zs_enforcement k s =
    let m = s.zs_enforcement in
    if m.start_timestamp_ticks == 0
    then s
    else ask (record s {
      zs_enforcement = reset_meter (record m {
        cumm_ticks = u64 (m.cumm_ticks + sub_u64 (now k s) m.start_timestamp_ticks);
        num = u64 (suc m.num);
      });
    })

-- one wake-up of the scheduler task
unfoldable pub scheduler_task : Kernel → ℕ → Sched → Option Sched
scheduler_task k fuel s = elim (reschedule_all k fuel (enter_kernel k s)) [
  | none ↦ none
  | some s' ↦ some (measure_zs_enforcement k (measure_enforcement k s'))
]

-- the activator task gives a reserve's task its priority, and binds it to the first processor
unfoldable pub activate_one : Kernel → ℕ → Sched → Sched
activate_one k rid s0 =
    let priority = (s0.reserve_table rid).priority in
    if leb max_reserves rid then s0 else elim (gettask k s0 rid) [
      | none ↦ ask s0
      | some task ↦
          let s = ask s0 in
          let s' =
            if (s.reserve_table rid).bound_to_cpu
            then s
            else emit (set_cpus_allowed task) (on rid (λ r. record r { bound_to_cpu = true }) s) in
          emit (sched_setscheduler_fifo task priority) s'
    ]

-- One wake-up of the activator task. The body pushes nothing, so one round for each item and one
-- for the empty stack are enough.
unfoldable pub activator_task : Kernel → ℕ → Sched → Option Sched
activator_task k zero s = none
activator_task k (suc fuel) s =
    let (stack, rid) = pop_to_activate s.activate in
    let s' = record s { activate = stack } in
    elim rid [ negsuc n ↦ some s' | pos i ↦ activator_task k fuel (activate_one k i s') ]
