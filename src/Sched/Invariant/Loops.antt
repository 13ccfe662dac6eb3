-- ===== src/Sched/Invariant/Loops.antt =====
-- The scheduler task, the activator task and the handler of the timers of src/zsrmv.c keep the
-- invariant of the scheduler.
use mixed_trust_zsrmv_public.Base.{
  ℕ, zero, suc, ◌<◌, refl, inl, inr, Bool, true, false, Option, none, some, leb, Bool-cases,
  Option-cases,
}
use mixed_trust_zsrmv_public.Base.Int.{ℤ, pos, negsuc}
use mixed_trust_zsrmv_public.Links.{max_reserves}
use mixed_trust_zsrmv_public.Stack.{Stack, pop_to_reschedule, pop_to_activate}
use mixed_trust_zsrmv_public.Stack.Laws.{PoppedIn, pop_to_reschedule-PoppedIn}
use mixed_trust_zsrmv_public.Sched.{WhichTimer, Kernel, Sched, ask, on, gettask, enter_kernel}
use mixed_trust_zsrmv_public.Sched.Budget.Keeps.{set_absolute-priority, set_absolute-rid}
use mixed_trust_zsrmv_public.Sched.Tasks.{
  restart_timer, kernel_timer_handler, stop_requested, start_requested, reschedule_one,
  reschedule_all, measure_enforcement, measure_zs_enforcement, scheduler_task, activate_one,
  activator_task,
}
use mixed_trust_zsrmv_public.Sched.Invariant.{
  Sound, Keeps-Sound, same-Sound, start-Sound, stop-Sound,
}
use mixed_trust_zsrmv_public.Sched.Invariant.Life.{delete_reserve-Sound}
use mixed_trust_zsrmv_public.Sched.Invariant.Jobs.{on-Sound, emit-Sound, ask-Sound, if-Sound}
use mixed_trust_zsrmv_public.Sched.Invariant.Tasks.{
  NotStarting, timer_handler-Sound, enter_kernel-Sound,
}

-- a result, if there is one, satisfies the invariant
abbrev pub SoundIf : Option Sched → Type 0
SoundIf none = Unit
SoundIf (some s) = Sound s

restart_timer-Sound : (i : ℕ) (w : WhichTimer) (s : Sched) → Sound s → Sound (restart_timer i w s)
unfolding restart_timer
restart_timer-Sound i w s h =
    emit-Sound _ _ (on-Sound i _ s (set_absolute-priority w _) (set_absolute-rid w _) h)

module _ (k : Kernel) where
  pub kernel_timer_handler-Sound :
      (locked : Bool) (i : ℕ) (w : WhichTimer) (s : Sched)
      → NotStarting k i w s
      → Sound s
      → Sound (kernel_timer_handler k locked i w s)
  unfolding kernel_timer_handler
  kernel_timer_handler-Sound false i w s n h = h
  kernel_timer_handler-Sound true i w s n h =
      let h' = timer_handler-Sound k i w s n h in if-Sound _ _ _ (restart_timer-Sound i w _ h') h'

  stop_requested-Sound :
      (rid : ℕ) (s : Sched) → rid < max_reserves → Sound s → Sound (stop_requested k rid s)
  unfolding stop_requested
  stop_requested-Sound rid s0 l h =
      let s1 = on rid (λ r. record r { request_stop = false }) s0 in
      let h1 : Sound s1 = on-Sound rid _ s0 (λ r. refl) (λ r. refl) h in
      let s2 = on rid (λ r. record r { enforced = true }) s1 in
      let h2 : Sound s2 = on-Sound rid _ s1 (λ r. refl) (λ r. refl) h1 in
      elim (Bool-cases (s1.reserve_table rid).enforced) [
        | inl b ↦ rw b h1
        | inr b ↦ elim (Option-cases (gettask k s2 rid)) [
          | inl e ↦
              rw b (rw (e, stop_requested) (delete_reserve-Sound k rid (ask s2) (ask-Sound s2 h2)))
          | inr (task, e) ↦ rw b (
              rw (e, stop_requested)
                (stop-Sound k rid _ l (
                  on-Sound rid _ _ (λ r. refl) (λ r. refl)
                    (emit-Sound _ _ (emit-Sound _ _ (ask-Sound s2 h2))))))
        ]
      ]

  start_requested-Sound :
      (rid : ℕ) (s : Sched) → rid < max_reserves → Sound s → Sound (start_requested k rid s)
  unfolding start_requested
  start_requested-Sound rid s0 l h =
      let h1 = ask-Sound s0 h in
      let h2 = ask-Sound (ask s0) h1 in
      elim (Option-cases (gettask k s0 rid)) [
        | inl e ↦ rw (e, start_requested) (delete_reserve-Sound k rid (ask s0) h1)
        | inr (task, e) ↦
            rw (e, start_requested)
              (start-Sound k rid _ l (emit-Sound _ _ (if-Sound _ _ _ (emit-Sound _ _ h2) h2)))
      ]

  reschedule_one-Sound :
      (rid : ℕ) (s : Sched) → rid < max_reserves → Sound s → Sound (reschedule_one k rid s)
  unfolding reschedule_one
  reschedule_one-Sound rid s l h =
      if-Sound _ _ _ (stop_requested-Sound rid s l h) (start_requested-Sound rid s l h)

  popped-Sound :
      (s : Sched) (stack : Stack)
      → ((j : ℕ) → stack.stack j < max_reserves)
      → Sound s
      → Sound (record s { reschedule = stack })
  popped-Sound s stack l h =
      Keeps-Sound s _
        (record {
          readyq = refl;
          crit_blockq = refl;
          pending = λ p. l;
          priority = λ i. refl;
          rid = λ i. refl;
        })
        h

  -- the round after the pop `r`
  abbrev rescheduled : (Sched → Option Sched) → Sched → Stack × ℤ → Option Sched
  rescheduled more s r = elim r.1 [
    | negsuc n ↦ some (record s { reschedule = r.0 })
    | pos i ↦ more (reschedule_one k i (record s { reschedule = r.0 }))
  ]

  rescheduled-Sound :
      (more : Sched → Option Sched) (s : Sched) (r : Stack × ℤ)
      → ((s : Sched) → Sound s → SoundIf (more s))
      → PoppedIn r
      → Sound s
      → SoundIf (rescheduled more s r)
  rescheduled-Sound more s (stack, negsuc n) ih b h = popped-Sound s stack b h
  rescheduled-Sound more s (stack, pos i) ih b h =
      ih (reschedule_one k i (record s { reschedule = stack }))
        (reschedule_one-Sound i (record s { reschedule = stack }) b.1 (popped-Sound s stack b.0 h))

  reschedule_all-Sound : (fuel : ℕ) (s : Sched) → Sound s → SoundIf (reschedule_all k fuel s)
  unfolding reschedule_all
  reschedule_all-Sound zero s h = tt
  reschedule_all-Sound (suc fuel) s h =
      rescheduled-Sound (reschedule_all k fuel) s (pop_to_reschedule s.reschedule)
        (λ s h. reschedule_all-Sound fuel s h) (pop_to_reschedule-PoppedIn s.reschedule h.pending) h

  measure_enforcement-Sound : (s : Sched) → Sound s → Sound (measure_enforcement k s)
  unfolding measure_enforcement
  measure_enforcement-Sound s h =
      if-Sound _ _ _ h (ask-Sound _ (same-Sound s _ refl refl refl refl h))

  measure_zs_enforcement-Sound : (s : Sched) → Sound s → Sound (measure_zs_enforcement k s)
  unfolding measure_zs_enforcement
  measure_zs_enforcement-Sound s h =
      if-Sound _ _ _ h (ask-Sound _ (same-Sound s _ refl refl refl refl h))

  pub scheduler_task-Sound : (fuel : ℕ) (s : Sched) → Sound s → SoundIf (scheduler_task k fuel s)
  unfolding scheduler_task
  scheduler_task-Sound fuel s h =
      let h1 = reschedule_all-Sound fuel (enter_kernel k s) (enter_kernel-Sound k s h) in
      elim (Option-cases (reschedule_all k fuel (enter_kernel k s))) [
        | inl e ↦ rw (e, scheduler_task) tt
        | inr (s', e) ↦
            let h2 : Sound s' = rw e at h1 in
            rw (e, scheduler_task)
              (measure_zs_enforcement-Sound _ (measure_enforcement-Sound s' h2))
      ]

  activate_one-Sound : (rid : ℕ) (s : Sched) → Sound s → Sound (activate_one k rid s)
  unfolding activate_one
  activate_one-Sound rid s h =
      let h1 = ask-Sound s h in
      elim (Bool-cases (leb max_reserves rid)) [
        | inl b ↦ rw b h
        | inr b ↦ elim (Option-cases (gettask k s rid)) [
          | inl e ↦ rw b (rw (e, activate_one) h1)
          | inr (task, e) ↦ rw b (
              rw (e, activate_one)
                (emit-Sound _ _ (
                  if-Sound _ _ _ h1
                    (emit-Sound _ _ (on-Sound rid _ (ask s) (λ r. refl) (λ r. refl) h1)))))
        ]
      ]

  -- the round after the pop `r`
  abbrev activated : (Sched → Option Sched) → Sched → Stack × ℤ → Option Sched
  activated more s r = elim r.1 [
    | negsuc n ↦ some (record s { activate = r.0 })
    | pos i ↦ more (activate_one k i (record s { activate = r.0 }))
  ]

  activated-Sound :
      (more : Sched → Option Sched) (s : Sched) (r : Stack × ℤ)
      → ((s : Sched) → Sound s → SoundIf (more s))
      → Sound s
      → SoundIf (activated more s r)
  activated-Sound more s (stack, negsuc n) ih h = same-Sound s _ refl refl refl refl h
  activated-Sound more s (stack, pos i) ih h =
      ih (activate_one k i (record s { activate = stack }))
        (activate_one-Sound i _ (same-Sound s _ refl refl refl refl h))

  pub activator_task-Sound : (fuel : ℕ) (s : Sched) → Sound s → SoundIf (activator_task k fuel s)
  unfolding activator_task
  activator_task-Sound zero s h = tt
  activator_task-Sound (suc fuel) s h =
      activated-Sound (activator_task k fuel) s (pop_to_activate s.activate)
        (λ s h. activator_task-Sound fuel s h) h
