-- ===== src/Sched/Invariant/Jobs.antt =====
-- The operations of src/zsrmv.c on jobs keep the invariant of the scheduler.
use mixed_trust_zsrmv_public.Base.{
  ℕ, ◌<◌, ◌≡◌, refl, inl, inr, Bool, true, false, arith, leb, Bool-cases, Option-cases,
  if◌then◌else◌,
}
use mixed_trust_zsrmv_public.Links.{max_reserves}
use mixed_trust_zsrmv_public.Reserve.{Reserve}
use mixed_trust_zsrmv_public.Sched.{
  of_zero_slack, Call, Kernel, Meter, Sched, ask, emit, on, now, gettask, add_trace_record,
}
use mixed_trust_zsrmv_public.Sched.Budget.{cancel_zero_slack, start_meter}
use mixed_trust_zsrmv_public.Sched.Budget.Keeps.{
  on-Keeps, emit-Keeps, ask-Keeps, add_trace_record-Keeps, add_timerq-Keeps,
}
use mixed_trust_zsrmv_public.Sched.Budget.Enforce.{
  cancel_zero_slack-Keeps, budget_enforcement-Keeps,
}
use mixed_trust_zsrmv_public.Sched.Jobs.{
  reset_counters, reset_exectime_counters, activate_job, end_overrun, rearm_zero_slack, release,
  wake_for_period, measure_arrival, measure_blocked, start_job, start_of_period, start_departure,
  measure_departure, wait_for_next_period, end_of_period, wait_for_next_release,
}
use mixed_trust_zsrmv_public.Sched.Invariant.{
  Sound, Keeps-Sound, same-Sound, start-Sound, stop-Sound,
}
use mixed_trust_zsrmv_public.Sched.Invariant.Life.{delete_reserve-Sound}
use mixed_trust_zsrmv_public.Sched.Invariant.Blocked.{wake_and_start-Sound, leave_critical-Sound}

-- a write to other fields of a reserve than its priority and its index
pub on-Sound :
    (i : ℕ) (f : Reserve → Reserve) (s : Sched)
    → ((r : Reserve) → (f r).priority ≡ r.priority)
    → ((r : Reserve) → (f r).rid ≡ r.rid)
    → Sound s
    → Sound (on i f s)
on-Sound i f s p q h = Keeps-Sound s (on i f s) (on-Keeps i f s p q) h

pub emit-Sound : (c : Call) (s : Sched) → Sound s → Sound (emit c s)
emit-Sound c s h = Keeps-Sound s (emit c s) (emit-Keeps c s) h

pub ask-Sound : (s : Sched) → Sound s → Sound (ask s)
ask-Sound s h = Keeps-Sound s (ask s) (ask-Keeps s) h

pub trace-Sound : (rid ts e : ℕ) (s : Sched) → Sound s → Sound (add_trace_record rid ts e s)
trace-Sound rid ts e s h =
    Keeps-Sound s (add_trace_record rid ts e s) (add_trace_record-Keeps rid ts e s) h

pub if-Sound : (b : Bool) (x y : Sched) → Sound x → Sound y → Sound (if b then x else y)
if-Sound true x y h g = h
if-Sound false x y h g = g

module _ (k : Kernel) where
  start_departure-Sound : (s : Sched) → Sound s → Sound (start_departure k s)
  unfolding start_departure ask
  start_departure-Sound s h = same-Sound s _ refl refl refl refl h

  measure_departure-Sound : (s : Sched) → Sound s → Sound (measure_departure k s)
  unfolding measure_departure ask
  measure_departure-Sound s h = same-Sound s _ refl refl refl refl h

  cancelled-Sound : (rid : ℕ) (s : Sched) → Sound s → Sound (cancel_zero_slack rid s)
  cancelled-Sound rid s h =
      Keeps-Sound s (cancel_zero_slack rid s) (cancel_zero_slack-Keeps rid s) h

  pub wait_for_next_period-Sound :
      (rid : ℕ) (b : Bool) (s : Sched)
      → rid < max_reserves
      → Sound s
      → Sound (wait_for_next_period k rid b s)
  unfolding wait_for_next_period
  wait_for_next_period-Sound rid b s0 l h =
      let h1 = start_departure-Sound _ (on-Sound rid _ s0 (λ r. refl) (λ r. refl) h) in
      let h2 = trace-Sound rid _ 1 _ h1 in
      let h3 = if-Sound _ _ _ (emit-Sound _ _ h2) h2 in
      let h4 = on-Sound rid _ _ (λ r. refl) (λ r. refl) (cancelled-Sound rid _ h3) in
      let h5 = on-Sound rid _ _ (λ r. refl) (λ r. refl) (stop-Sound k rid _ l h4) in
      on-Sound rid _ _ (λ r. refl) (λ r. refl)
        (emit-Sound _ _ (measure_departure-Sound _ (leave_critical-Sound k rid _ h5)))

  pub end_of_period-Sound :
      (rid : ℕ) (s : Sched) → rid < max_reserves → Sound s → Sound (end_of_period k rid s)
  unfolding end_of_period
  end_of_period-Sound rid s0 l h =
      let h2 = trace-Sound rid _ 8 _ (start_departure-Sound s0 h) in
      let h3 =
        on-Sound rid _ _ (λ r. refl) (λ r. refl)
          (stop-Sound k rid _ l (cancelled-Sound rid _ h2)) in
      measure_departure-Sound _ (leave_critical-Sound k rid _ h3)

  pub wait_for_next_release-Sound :
      (rid : ℕ) (s : Sched) → rid < max_reserves → Sound s → Sound (wait_for_next_release k rid s)
  unfolding wait_for_next_release
  wait_for_next_release-Sound rid s0 l h =
      let h1 = ask-Sound s0 h in
      if-Sound _ _ _
        (on-Sound rid _ _ (λ r. refl) (λ r. refl)
          (if-Sound _ _ _
            (on-Sound rid _ _ (λ r. refl) (λ r. refl) (emit-Sound _ _ (trace-Sound rid _ 10 _ h1)))
            (start-Sound k rid _ l (trace-Sound rid _ 11 _ h1))))
        (wait_for_next_period-Sound rid true _ l h1)

  end_overrun-Sound :
      (rid : ℕ) (s : Sched) → rid < max_reserves → Sound s → Sound (end_overrun k rid s)
  unfolding end_overrun
  end_overrun-Sound rid s l h =
      if-Sound _ _ _
        (on-Sound rid _ _ (λ r. refl) (λ r. refl)
          (stop-Sound k rid _ l
            (Keeps-Sound _ _ (budget_enforcement-Keeps k rid l false _) (emit-Sound _ s h))))
        h

  rearm_zero_slack-Sound : (rid : ℕ) (s : Sched) → Sound s → Sound (rearm_zero_slack rid s)
  unfolding rearm_zero_slack
  rearm_zero_slack-Sound rid s h =
      if-Sound _ _ _ (Keeps-Sound _ _ (add_timerq-Keeps rid of_zero_slack _) (emit-Sound _ s h)) h

  wake_for_period-Sound :
      (task rid : ℕ) (s : Sched)
      → rid < max_reserves
      → Sound s
      → Sound (wake_for_period k task rid s)
  unfolding wake_for_period
  wake_for_period-Sound task rid s l h =
      if-Sound _ _ _
        (on-Sound rid _ _ (λ r. refl) (λ r. refl)
          (if-Sound _ _ _ (wake_and_start-Sound k task rid _ l (trace-Sound rid _ 13 s h))
            (trace-Sound rid _ 14 s h)))
        (wake_and_start-Sound k task rid _ l (trace-Sound rid _ 12 s h))

  measured-Sound :
      (a c : Meter) (s : Sched) → Sound s → Sound (record s { arrival = a; context_switch = c })
  measured-Sound a c s h = same-Sound s _ refl refl refl refl h

  measure_arrival-Sound : (rid : ℕ) (s : Sched) → Sound s → Sound (measure_arrival k rid s)
  unfolding measure_arrival
  measure_arrival-Sound rid s h =
      let h1 = ask-Sound s h in if-Sound _ _ _ (measured-Sound _ _ _ h1) (measured-Sound _ _ _ h1)

  measure_blocked-Sound : (s : Sched) → Sound s → Sound (measure_blocked k s)
  unfolding measure_blocked
  measure_blocked-Sound s h = same-Sound (ask s) _ refl refl refl refl (ask-Sound s h)

  start_job-Sound :
      (task rid : ℕ) (s : Sched) → rid < max_reserves → Sound s → Sound (start_job k task rid s)
  unfolding start_job reset_exectime_counters reset_counters release
  start_job-Sound task rid s0 l h =
      let h1 = on-Sound rid _ s0 (λ r. refl) (λ r. refl) h in
      let h2 =
        rearm_zero_slack-Sound rid _
          (on-Sound rid _ _ (λ r. refl) (λ r. refl) (end_overrun-Sound rid _ l h1)) in
      let h3 = on-Sound rid _ _ (λ r. refl) (λ r. refl) h2 in
      if-Sound _ _ _ (measure_blocked-Sound _ h3) (
        measure_arrival-Sound rid _
          (wake_for_period-Sound task rid _ l (on-Sound rid _ _ (λ r. refl) (λ r. refl) h3)))

  -- the state of start_of_period once the job is activated
  abbrev arrived : Sched → Sched
  arrived s0 = ask (record s0 {
    arrival = start_meter (now k s0) s0.arrival;
    context_switch = start_meter (now k s0) s0.context_switch;
  })

  abbrev activated : ℕ → Sched → Sched
  activated rid s0 =
      let s2 = on rid (activate_job (arrived s0).kernel_entry_timestamp_ticks) (arrived s0) in
      if ((arrived s0).reserve_table rid).job_completed then ask s2 else s2

  activated-Sound : (rid : ℕ) (s : Sched) → Sound s → Sound (activated rid s)
  unfolding activate_job
  activated-Sound rid s h =
      let h1 = ask-Sound _ (measured-Sound _ _ s h) in
      let h2 = on-Sound rid _ _ (λ r. refl) (λ r. refl) h1 in if-Sound _ _ _ (ask-Sound _ h2) h2

  pub start_of_period-Sound : (rid : ℕ) (s : Sched) → Sound s → Sound (start_of_period k rid s)
  unfolding start_of_period
  start_of_period-Sound rid s h =
      let h3 = activated-Sound rid s h in
      let s3 = activated rid s in
      elim (Bool-cases (leb max_reserves rid)) [
        | inl b ↦ rw b h3
        | inr b ↦
            let l : rid < max_reserves = ground arith in
            elim (Option-cases (gettask k s3 rid)) [
              | inl e ↦
                  rw b (
                    rw (e, start_of_period) (delete_reserve-Sound k rid (ask s3) (ask-Sound s3 h3)))
              | inr (task, e) ↦
                  rw b (
                    rw (e, start_of_period) (start_job-Sound task rid (ask s3) l (ask-Sound s3 h3)))
            ]
      ]
