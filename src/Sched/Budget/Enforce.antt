-- ===== src/Sched/Budget/Enforce.antt =====
-- Budget enforcement in src/zsrmv.c leaves the ready queue alone: it only asks the scheduler task
-- to stop the reserve.
use mixed_trust_zsrmv_public.Base.{
  ℕ, ◌<◌, refl, inl, inr, Bool, true, false, ltb, Bool-cases, Option-cases,
}
use mixed_trust_zsrmv_public.Links.{max_reserves}
use mixed_trust_zsrmv_public.Stack.{push_to_reschedule}
use mixed_trust_zsrmv_public.Sched.{
  of_zero_slack, hrtimer_cancel, Kernel, Sched, ask, on, now, gettask, add_trace_record,
  add_trace_records, ticks2ns,
}
use mixed_trust_zsrmv_public.Sched.Budget.{
  cancel_zero_slack, signal_task, ask_to_stop, count_enforcement, enforce_budget, defer_enforcement,
  record_preemption, budget_enforcement, calculate_hypertask_preemption_time_ticks, start_meter,
  count_meter,
}
use mixed_trust_zsrmv_public.Sched.Budget.Keeps.{
  Keeps, push_to_reschedule-below, Keeps-refl, Keeps-trans, on-Keeps, emit-Keeps, ask-Keeps,
  add_trace_record-Keeps, add_trace_records-Keeps, start_enforcement_timer-Keeps,
}

pub cancel_zero_slack-Keeps : (rid : ℕ) (s : Sched) → Keeps s (cancel_zero_slack rid s)
unfolding cancel_zero_slack
cancel_zero_slack-Keeps rid s = elim (Bool-cases (s.reserve_table rid).has_zsenforcement) [
  | inl b ↦ rw b (emit-Keeps (hrtimer_cancel rid of_zero_slack) s)
  | inr b ↦ rw b (Keeps-refl s)
]

signal_task-Keeps : (k : Kernel) (rid : ℕ) (b : Bool) (s : Sched) → Keeps s (signal_task k rid b s)
unfolding signal_task
signal_task-Keeps k rid b s = elim (Option-cases (gettask k s rid)) [
  | inl e ↦ rw (e, signal_task) (ask-Keeps s)
  | inr (task, e) ↦ rw (e, signal_task) (Keeps-trans s _ _ (ask-Keeps s) (emit-Keeps _ (ask s)))
]

ask_to_stop-Keeps : (rid : ℕ) (s : Sched) → rid < max_reserves → Keeps s (ask_to_stop rid s)
unfolding ask_to_stop
ask_to_stop-Keeps rid s l =
    let h = on-Keeps rid (λ r. record r { request_stop = true }) s (λ r. refl) (λ r. refl) in
    let s1 = on rid (λ r. record r { request_stop = true }) s in
    let s2 = record s1 { reschedule = (push_to_reschedule s1.reschedule rid).0 } in
    let pushed : Keeps s1 s2 = record {
      readyq = refl;
      crit_blockq = refl;
      pending = λ b. push_to_reschedule-below s1.reschedule rid b l;
      priority = λ i. refl;
      rid = λ i. refl;
    } in
    Keeps-trans s s1 _ h (Keeps-trans s1 s2 _ pushed (emit-Keeps _ s2))

module _ (k : Kernel) (rid : ℕ) (l : rid < max_reserves) where
  enforce_budget-Keeps : (b : Bool) (s : Sched) → Keeps s (enforce_budget k rid b s)
  unfolding enforce_budget count_enforcement
  enforce_budget-Keeps b s0 =
      let at = ticks2ns s0.kernel_entry_timestamp_ticks in
      let s1 = add_trace_record rid at 5 s0 in
      let s2 = cancel_zero_slack rid s1 in
      let s = on rid count_enforcement s2 in
      let upto : Keeps s0 s =
        Keeps-trans s0 s2 s
          (Keeps-trans s0 s1 s2 (add_trace_record-Keeps rid at 5 s0)
            (cancel_zero_slack-Keeps rid s1))
          (on-Keeps rid count_enforcement s2 (λ r. refl) (λ r. refl)) in
      elim (Bool-cases (s.reserve_table rid).enforcement_signal_captured) [
        | inl c ↦ elim (Bool-cases b) [
          | inl d ↦ rw (c, d) (Keeps-trans s0 s _ upto (signal_task-Keeps k rid true s))
          | inr d ↦
              rw (c, d)
                (Keeps-trans s0 s _ upto (
                  Keeps-trans s _ _ (signal_task-Keeps k rid false s)
                    (add_trace_record-Keeps rid at 6 _)))
        ]
        | inr c ↦ elim (Bool-cases b) [
          | inl d ↦ rw (c, d) (Keeps-trans s0 s _ upto (ask_to_stop-Keeps rid s l))
          | inr d ↦ rw (c, d) upto
        ]
      ]

  defer_enforcement-Keeps : (s : Sched) → Keeps s (defer_enforcement k rid s).0
  unfolding defer_enforcement record_preemption
  defer_enforcement-Keeps s =
      let entry = s.kernel_entry_timestamp_ticks in
      let preemption = calculate_hypertask_preemption_time_ticks s rid entry in
      elim (Bool-cases
        (ltb (s.reserve_table rid).current_job_hypertasks_preemption_ticks preemption)) [
          | inl b ↦ rw b (
              Keeps-trans s _ _
                (on-Keeps rid (record_preemption preemption entry) s (λ r. refl) (λ r. refl))
                (start_enforcement_timer-Keeps k rid _))
          | inr b ↦ rw b (Keeps-refl s)
        ]

  abbrev entered : Sched → Sched
  entered s = ask (record s {
    enforcement = start_meter (now k s) s.enforcement;
    hypercall = start_meter (now k s) s.hypercall;
  })

  entered-Keeps : (s : Sched) → Keeps s (entered s)
  unfolding ask
  entered-Keeps s = record {
    readyq = refl;
    crit_blockq = refl;
    pending = λ h. h;
    priority = λ i. refl;
    rid = λ i. refl;
  }

  abbrev measured : Sched → Sched
  measured s = ask (record s { hypercall = count_meter (now k s) s.hypercall })

  measured-Keeps : (s : Sched) → Keeps s (measured s)
  unfolding ask
  measured-Keeps s = record {
    readyq = refl;
    crit_blockq = refl;
    pending = λ h. h;
    priority = λ i. refl;
    rid = λ i. refl;
  }

  pub budget_enforcement-Keeps : (b : Bool) (s : Sched) → Keeps s (budget_enforcement k rid b s)
  unfolding budget_enforcement ask
  budget_enforcement-Keeps b s0 =
      let s1 = entered s0 in
      let first : Keeps s0 (ask s1) = Keeps-trans s0 s1 _ (entered-Keeps s0) (ask-Keeps s1) in
      elim (Option-cases (k.dumpdebuglog s1.asked)) [
        | inl e ↦
            rw (e, budget_enforcement)
              (Keeps-trans s0 (ask s1) _ first (enforce_budget-Keeps b (ask s1)))
        | inr (log, e) ↦
            let s3 = measured (ask s1) in
            let s4 = add_trace_records log s3 in
            let d = defer_enforcement k rid s4 in
            let upto : Keeps s0 d.0 = Keeps-trans s0 (ask s1) _ first (
              Keeps-trans (ask s1) s3 _ (measured-Keeps (ask s1)) (
                Keeps-trans s3 s4 _ (add_trace_records-Keeps log s3)
                  (defer_enforcement-Keeps s4))) in
            elim (Bool-cases d.1) [
              | inl c ↦
                  rw (e, budget_enforcement)
                    (rw c (Keeps-trans s0 d.0 _ upto (enforce_budget-Keeps b d.0)))
              | inr c ↦ rw (e, budget_enforcement) (rw c upto)
            ]
      ]
