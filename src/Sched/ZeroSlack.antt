-- ===== src/Sched/ZeroSlack.antt =====
-- Zero-slack enforcement in src/zsrmv.c: a job that overruns its zero-slack instant blocks the ready
-- reserves of a lower criticality.
pub mod Laws
use mixed_trust_zsrmv_public.Base.{
  ℕ, zero, suc, ◌+◌, ◌-◌, ◌≡◌, Bool, true, false, ◌&&◌, ◌||◌, not, Option, none, some, ltb, leb,
  ◌==◌, if◌then◌else◌, u32, u64, sub_u64, pred_u32, points_to, Ptr,
}
use mixed_trust_zsrmv_public.Base.Int.{ℤ, pos, negsuc, ltb_ℤ, leb_ℤ, suc_ℤ, pred_ℤ}
use mixed_trust_zsrmv_public.Links.{Queue, max_reserves, visits}
use mixed_trust_zsrmv_public.Reserve.{Reserve, Table}
use mixed_trust_zsrmv_public.CritQueue.{add_crit_stack, add_crit_blocked, pop_crit}
use mixed_trust_zsrmv_public.Stack.{push_to_reschedule}
use mixed_trust_zsrmv_public.Sched.{
  of_enforcement, of_zero_slack, hrtimer_cancel, wake_up_sched_task, wake_up_process,
  set_tsk_need_resched, set_current_interruptible, disablehyptask, Kernel, Meter, Sched, ask, emit,
  on, now, gettask, ticks2ns, add_trace_record, add_timerq,
}
use mixed_trust_zsrmv_public.Sched.Budget.{
  count_meter, reset_meter, start_meter, budget_enforcement, cancel_zero_slack, start, stop,
}
use mixed_trust_zsrmv_public.Sched.Life.{delete_reserve}

unfoldable pub asked_to_stop : Reserve → Reserve
asked_to_stop r = record r { request_stop = true }

unfoldable pub critical : Reserve → Reserve
critical r = record r { in_critical_mode = true }

-- a ready reserve of a lower criticality: the scheduler task is to stop it, and it is blocked
unfoldable pub block_reserve : ℕ → Sched → Sched
block_reserve i s0 =
    let s = on i asked_to_stop s0 in
    record s {
      reschedule = (push_to_reschedule s.reschedule (s.reserve_table i).rid).0;
      crit_blockq = (add_crit_blocked s.reserve_table s.crit_blockq i).0;
    }

-- the loop over the ready queue; the result tells whether the scheduler task is to be called
unfoldable pub block_lower : ℕ → Ptr → Sched × Bool → Sched × Bool
block_lower zero p out = out
block_lower (suc left) none out = out
block_lower (suc left) (some i) (s, call_scheduler) =
    let next = s.readyq.link i in
    block_lower left next (
      if ltb_ℤ (s.reserve_table i).criticality s.sys_criticality
      then (block_reserve i s, true)
      else (s, call_scheduler))

-- a reserve that overruns its zero-slack instant raises the system's criticality to its own
unfoldable pub enter_critical : ℕ → Sched → Sched
enter_critical rid s0 =
    let s = on rid critical s0 in
    record s {
      sys_criticality = (s.reserve_table rid).criticality;
      critical_reservesq = (add_crit_stack s.reserve_table s.critical_reservesq rid).0;
    }

unfoldable pub zs_enforcement_of : Kernel → ℕ → Sched → Sched
zs_enforcement_of k rid s0 =
    let s = ask (record s0 { zs_enforcement = start_meter (now k s0) s0.zs_enforcement }) in
    let r = s.reserve_table rid in
    if r.enforced || ltb_ℤ r.criticality s.sys_criticality
    then record s { zs_enforcement = start_meter 0 s.zs_enforcement }
    else (let (s', call_scheduler) =
          block_lower visits s.readyq.head (enter_critical rid s, false) in
        if call_scheduler then emit wake_up_sched_task s' else s')
