-- ===== src/Sched/Invariant/Tasks.antt =====
-- Zero-slack enforcement, the timer interrupts and the two kernel tasks of src/zsrmv.c keep the
-- invariant of the scheduler.
use mathlib.Core.Path.{subst}
use mixed_trust_zsrmv_public.Base.{
  ℕ, zero, suc, ◌<◌, ◌≡◌, ◌≢◌, refl, inl, inr, Bool, true, false, ◌||◌, none, some, List, [], ◌∷◌,
  arith, leb, Bool-cases, Option-cases, Ptr, ap, sym, if◌then◌else◌, All,
}
use mixed_trust_zsrmv_public.Base.Int.{negsuc, ltb_ℤ, eqb_ℤ}
use mixed_trust_zsrmv_public.Links.{Queue, max_reserves, visits}
use mixed_trust_zsrmv_public.Links.Seg.{Seg}
use mixed_trust_zsrmv_public.CritQueue.{add_crit_blocked}
use mixed_trust_zsrmv_public.CritQueue.Range.{add_crit_blocked-QueueIn}
use mixed_trust_zsrmv_public.RmQueue.Order.{IsReserve}
use mixed_trust_zsrmv_public.Reserve.{
  TimerType, unset, timer_enf, timer_zs_enf, timer_period, timer_start,
}
use mixed_trust_zsrmv_public.Stack.{push_to_reschedule}
use mixed_trust_zsrmv_public.Sched.{
  WhichTimer, wake_up_sched_task, Kernel, Sched, ask, on, now, gettask, enter_kernel, timer_of,
}
use mixed_trust_zsrmv_public.Sched.Budget.{start_meter}
use mixed_trust_zsrmv_public.Sched.Budget.Keeps.{push_to_reschedule-below}
use mixed_trust_zsrmv_public.Sched.Budget.Enforce.{budget_enforcement-Keeps}
use mixed_trust_zsrmv_public.Sched.ZeroSlack.{
  asked_to_stop, critical, block_reserve, block_lower, enter_critical, zs_enforcement_of,
}
use mixed_trust_zsrmv_public.Sched.Tasks.{dispatch_timer, timer_handler}
use mixed_trust_zsrmv_public.Sched.Invariant.{Sound, Keeps-Sound, same-Sound}
use mixed_trust_zsrmv_public.Sched.Invariant.Blocked.{QueueIn-Sound}
use mixed_trust_zsrmv_public.Sched.Invariant.Jobs.{
  on-Sound, emit-Sound, ask-Sound, if-Sound, start_of_period-Sound,
}

-- a push of an index in range
pushed-Sound :
    (rid : ℕ) (s : Sched)
    → rid < max_reserves
    → Sound s
    → Sound (record s { reschedule = (push_to_reschedule s.reschedule rid).0 })
pushed-Sound rid s l h =
    Keeps-Sound s _
      (record {
        readyq = refl;
        crit_blockq = refl;
        pending = λ p. push_to_reschedule-below s.reschedule rid p l;
        priority = λ i. refl;
        rid = λ i. refl;
      })
      h

block_reserve-Sound : (i : ℕ) (s : Sched) → i < max_reserves → Sound s → Sound (block_reserve i s)
unfolding block_reserve asked_to_stop
block_reserve-Sound i s0 l h =
    let s = on i asked_to_stop s0 in
    let h1 : Sound s = on-Sound i asked_to_stop s0 (λ r. refl) (λ r. refl) h in
    let l' : (s.reserve_table i).rid < max_reserves = rw (h1.rids i l) l in
    let h2 = pushed-Sound (s.reserve_table i).rid s l' h1 in
    QueueIn-Sound _ (add_crit_blocked s.reserve_table s.crit_blockq i).0
      (add_crit_blocked-QueueIn s.reserve_table i l s.crit_blockq h1.blocked) h2

block_reserve-readyq : (i : ℕ) (s : Sched) → (block_reserve i s).readyq ≡ s.readyq
unfolding block_reserve on
block_reserve-readyq i s = refl

-- the nodes of a way are in range
abbrev AllIn : List ℕ → Type 0
AllIn = All (λ i. i < max_reserves)

All-AllIn : (s : Sched) (xs : List ℕ) → All (IsReserve s.reserve_table) xs → AllIn xs
All-AllIn s [] h = tt
All-AllIn s (x ∷ xs) h = (h.0.0, All-AllIn s xs h.1)

abbrev lowered : ℕ → Sched → Bool → Sched × Bool
lowered i s c =
    if ltb_ℤ (s.reserve_table i).criticality s.sys_criticality
    then (block_reserve i s, true)
    else (s, c)

lowered-Sound :
    (i : ℕ) (s : Sched) (c : Bool) → i < max_reserves → Sound s → Sound (lowered i s c).0
lowered-Sound i s c l h =
    elim (Bool-cases (ltb_ℤ (s.reserve_table i).criticality s.sys_criticality)) [
      | inl b ↦ rw b (block_reserve-Sound i s l h)
      | inr b ↦ rw b h
    ]

lowered-readyq : (i : ℕ) (s : Sched) (c : Bool) → (lowered i s c).0.readyq ≡ s.readyq
lowered-readyq i s c = elim (Bool-cases (ltb_ℤ (s.reserve_table i).criticality s.sys_criticality)) [
  | inl b ↦ rw b (block_reserve-readyq i s)
  | inr b ↦ rw b refl
]

block_lower-Sound :
    (left : ℕ) (p : Ptr) (s : Sched) (c : Bool) (xs : List ℕ)
    → Seg s.readyq.link p xs
    → AllIn xs
    → Sound s
    → Sound (block_lower left p (s, c)).0
unfolding block_lower
block_lower-Sound zero p s c xs g a h = h
block_lower-Sound (suc left) none s c xs g a h = h
block_lower-Sound (suc left) (some t) s c [] g a h = cc
block_lower-Sound (suc left) (some t) s c (x ∷ xs) g a h =
    subst (λ p. Sound (block_lower (suc left) p (s, c)).0) (sym g.0)
      (let r = lowered x s c in
        let rest : Seg r.0.readyq.link (s.readyq.link x) xs =
          subst (λ q. Seg q.link (s.readyq.link x) xs) (sym (lowered-readyq x s c)) g.1 in
        block_lower-Sound left (s.readyq.link x) r.0 r.1 xs rest a.1 (lowered-Sound x s c a.0 h))

enter_critical-Sound : (rid : ℕ) (s : Sched) → Sound s → Sound (enter_critical rid s)
unfolding enter_critical critical
enter_critical-Sound rid s h =
    same-Sound (on rid critical s) _ refl refl refl refl
      (on-Sound rid critical s (λ r. refl) (λ r. refl) h)

enter_critical-readyq : (rid : ℕ) (s : Sched) → (enter_critical rid s).readyq ≡ s.readyq
unfolding enter_critical on
enter_critical-readyq rid s = refl

critical_looped-Sound :
    (rid : ℕ) (s : Sched)
    → Sound s
    → Sound (block_lower visits s.readyq.head (enter_critical rid s, false)).0
critical_looped-Sound rid s h =
    let e = enter_critical rid s in
    let h' = enter_critical-Sound rid s h in
    let chain : Seg e.readyq.link s.readyq.head h'.waiting =
      subst (λ p. Seg e.readyq.link p h'.waiting)
        (ap (λ (q : Queue). q.head) (enter_critical-readyq rid s)) h'.ready.chain in
    block_lower-Sound visits s.readyq.head e false h'.waiting chain
      (All-AllIn e h'.waiting h'.ready.reserves) h'

module _ (k : Kernel) where
  pub zs_enforcement_of-Sound : (rid : ℕ) (s : Sched) → Sound s → Sound (zs_enforcement_of k rid s)
  unfolding zs_enforcement_of
  zs_enforcement_of-Sound rid s0 h =
      let s : Sched =
        ask (record s0 { zs_enforcement = start_meter (now k s0) s0.zs_enforcement }) in
      let h1 : Sound s = ask-Sound _ (same-Sound s0 _ refl refl refl refl h) in
      let looped = critical_looped-Sound rid s h1 in
      if-Sound _ _ _ (same-Sound s _ refl refl refl refl h1)
        (if-Sound _ _ _ (emit-Sound wake_up_sched_task _ looped) looped)

  dispatch_timer-Sound :
      (type : TimerType) (rid task : ℕ) (s : Sched)
      → rid < max_reserves
      → type ≢ timer_start
      → Sound s
      → Sound (dispatch_timer k type rid task s).0
  unfolding dispatch_timer
  dispatch_timer-Sound timer_enf rid task s l n h =
      Keeps-Sound s _ (budget_enforcement-Keeps k rid l true s) h
  dispatch_timer-Sound timer_period rid task s l n h = start_of_period-Sound k rid s h
  dispatch_timer-Sound timer_zs_enf rid task s l n h = zs_enforcement_of-Sound rid s h
  dispatch_timer-Sound timer_start rid task s l n h = absurd (n refl)
  dispatch_timer-Sound unset rid task s l n h = h

  pub enter_kernel-Sound : (s : Sched) → Sound s → Sound (enter_kernel k s)
  unfolding enter_kernel
  enter_kernel-Sound s h = same-Sound s _ refl refl refl refl h

  -- the timer is not that of a reserve that is still to be attached
  abbrev pub NotStarting : ℕ → WhichTimer → Sched → Type 0
  NotStarting i w s = (timer_of w (s.reserve_table i)).timer_type ≢ timer_start

  pub timer_handler-Sound :
      (i : ℕ) (w : WhichTimer) (s : Sched)
      → NotStarting i w s
      → Sound s
      → Sound (timer_handler k i w s).0
  unfolding timer_handler enter_kernel
  timer_handler-Sound i w s0 n h =
      let s = enter_kernel k s0 in
      let h1 = enter_kernel-Sound s0 h in
      let rid = (timer_of w (s.reserve_table i)).rid in
      elim (Bool-cases (leb max_reserves rid || eqb_ℤ (s.reserve_table rid).pid (negsuc 0))) [
        | inl b ↦ rw b h1
        | inr b ↦
            let l : rid < max_reserves = ground arith in
            elim (Option-cases (gettask k s rid)) [
              | inr (task, e) ↦ rw b (
                  rw (e, timer_handler)
                    (dispatch_timer-Sound (timer_of w (s.reserve_table i)).timer_type rid task
                      (ask s) l n (ask-Sound s h1)))
              | inl e ↦ rw b (
                  rw (e, timer_handler)
                    (emit-Sound wake_up_sched_task _ (
                      pushed-Sound rid _ l
                        (on-Sound rid _ (ask s) (λ r. refl) (λ r. refl) (ask-Sound s h1)))))
            ]
      ]
