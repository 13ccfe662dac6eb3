-- ===== src/Sched/Invariant/Blocked.antt =====
-- The operations of src/zsrmv.c on the blocked reserves keep the invariant of the scheduler.
use mathlib.Core.Path.{subst}
use mixed_trust_zsrmv_public.Base.{
  ℕ, zero, suc, ◌<◌, refl, inl, inr, false, none, some, leb, Bool-cases, Option-cases,
  if◌then◌else◌, points_to,
}
use mixed_trust_zsrmv_public.Base.Int.{ℤ, leb_ℤ}
use mixed_trust_zsrmv_public.Links.{Queue, max_reserves, visits}
use mixed_trust_zsrmv_public.Reserve.{Table}
use mixed_trust_zsrmv_public.CritQueue.{pop_crit}
use mixed_trust_zsrmv_public.CritQueue.Range.{InTable, QueueIn, pop_crit-QueueIn}
use mixed_trust_zsrmv_public.Sched.{
  Kernel, Sched, ask, emit, on, gettask, wake_up_process, set_tsk_need_resched,
}
use mixed_trust_zsrmv_public.Sched.Budget.Keeps.{
  Keeps, Keeps-trans, on-Keeps, emit-Keeps, ask-Keeps,
}
use mixed_trust_zsrmv_public.Sched.Life.{delete_reserve}
use mixed_trust_zsrmv_public.Sched.Jobs.{
  wake_and_start, wake_blocked, drop_blocked, top_criticality, leave_critical,
}
use mixed_trust_zsrmv_public.Sched.Invariant.{Sound, Keeps-Sound, start-Sound}
use mixed_trust_zsrmv_public.Sched.Invariant.Life.{delete_reserve-Sound}

pub QueueIn-Sound :
    (s : Sched) (q : Queue) → QueueIn q → Sound s → Sound (record s { crit_blockq = q })
QueueIn-Sound s q b h = record {
  rids = h.rids;
  pending = h.pending;
  blocked = b;
  waiting = h.waiting;
  ready = h.ready;
}

drop_blocked-QueueIn :
    (table : Table) (c : ℤ) (left : ℕ) (q : Queue)
    → QueueIn q
    → QueueIn (drop_blocked table c left q)
unfolding drop_blocked
drop_blocked-QueueIn table c zero q b = b
drop_blocked-QueueIn table c (suc left) q b = elim (Option-cases q.head) [
  | inl e ↦ rw (e, drop_blocked) b
  | inr (t, e) ↦ elim (Bool-cases (leb_ℤ c (table t).criticality)) [
    | inr d ↦ rw (e, drop_blocked) (rw (d, drop_blocked) b)
    | inl d ↦
        rw (e, drop_blocked)
          (rw (d, drop_blocked)
            (drop_blocked-QueueIn table c left (pop_crit q) (pop_crit-QueueIn q b)))
  ]
]

pub wake_and_start-Sound :
    (k : Kernel) (task rid : ℕ) (s : Sched)
    → rid < max_reserves
    → Sound s
    → Sound (wake_and_start k task rid s)
unfolding wake_and_start
wake_and_start-Sound k task rid s l h =
    let s1 = emit (wake_up_process task) s in
    let s2 = emit (set_tsk_need_resched task) s1 in
    start-Sound k rid s2 l
      (Keeps-Sound s1 s2 (emit-Keeps _ s1) (Keeps-Sound s s1 (emit-Keeps _ s) h))

module _ (k : Kernel) where
  -- what becomes of the blocked reserve `t`, once it is out of the queue
  abbrev woken : ℕ → Sched → Sched
  woken t s = elim (gettask k s t) [
    | some task ↦ wake_and_start k task (s.reserve_table t).rid (ask s)
    | none ↦ (delete_reserve k (s.reserve_table t).rid (ask s)).0
  ]

  woken-Sound : (t : ℕ) (s : Sched) → t < max_reserves → Sound s → Sound (woken t s)
  woken-Sound t s l h =
      let h' = Keeps-Sound s (ask s) (ask-Keeps s) h in
      let l' : (s.reserve_table t).rid < max_reserves = rw (h.rids t l) l in
      elim (Option-cases (gettask k s t)) [
        | inl e ↦ rw (e, woken) (delete_reserve-Sound k (s.reserve_table t).rid (ask s) h')
        | inr (task, e) ↦
            rw (e, woken) (wake_and_start-Sound k task (s.reserve_table t).rid (ask s) l' h')
      ]

  pub wake_blocked-Sound : (left : ℕ) (s : Sched) → Sound s → Sound (wake_blocked k left s)
  unfolding wake_blocked
  wake_blocked-Sound zero s h = h
  wake_blocked-Sound (suc left) s h = elim (Option-cases s.crit_blockq.head) [
    | inl e ↦ rw (e, wake_blocked) h
    | inr (t, e) ↦ elim (Bool-cases (leb_ℤ s.sys_criticality (s.reserve_table t).criticality)) [
      | inr d ↦ rw (e, wake_blocked) (rw (d, wake_blocked) h)
      | inl d ↦
          let s1 = record s { crit_blockq = pop_crit s.crit_blockq } in
          let h1 =
            QueueIn-Sound s (pop_crit s.crit_blockq) (pop_crit-QueueIn s.crit_blockq h.blocked) h in
          let l : t < max_reserves = subst InTable e h.blocked.head in
          rw (e, wake_blocked)
            (rw (d, wake_blocked) (wake_blocked-Sound left (woken t s1) (woken-Sound t s1 l h1)))
    ]
  ]

  pub leave_critical-Sound : (rid : ℕ) (s : Sched) → Sound s → Sound (leave_critical k rid s)
  unfolding leave_critical
  leave_critical-Sound rid s0 h = elim (Bool-cases (s0.reserve_table rid).in_critical_mode) [
    | inr b ↦ rw b h
    | inl b ↦
        let s1 = on rid (λ r. record r { in_critical_mode = false }) s0 in
        let q =
          if points_to s1.critical_reservesq.head rid
          then pop_crit s1.critical_reservesq
          else s1.critical_reservesq in
        let s2 = record s1 {
          critical_reservesq = q;
          sys_criticality = top_criticality s1.reserve_table q.head;
        } in
        let k1 : Keeps s0 s1 = on-Keeps rid _ s0 (λ r. refl) (λ r. refl) in
        let k2 : Keeps s1 s2 = record {
          readyq = refl;
          crit_blockq = refl;
          pending = λ p. p;
          priority = λ i. refl;
          rid = λ i. refl;
        } in
        let h2 = Keeps-Sound s0 s2 (Keeps-trans s0 s1 s2 k1 k2) h in
        let r = s2.reserve_table rid in
        elim (Bool-cases (leb r.current_exectime_ticks r.nominal_exectime_ticks)) [
          | inl c ↦ rw (b, c) (wake_blocked-Sound visits s2 h2)
          | inr c ↦
              rw (b, c)
                (QueueIn-Sound s2
                  (drop_blocked s2.reserve_table s2.sys_criticality visits s2.crit_blockq)
                  (drop_blocked-QueueIn s2.reserve_table s2.sys_criticality visits s2.crit_blockq
                    h2.blocked)
                  h2)
        ]
  ]
