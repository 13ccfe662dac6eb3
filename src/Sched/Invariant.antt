-- ===== src/Sched/Invariant.antt =====
-- The invariant of the scheduler in src/zsrmv.c: the ready queue stands for a list sorted by
-- priority, and all indices that the queues and the stack hand to the operations are in range.
pub mod Drop
pub mod Life
pub mod Blocked
pub mod Jobs
pub mod Tasks
pub mod Loops
pub mod Commands
pub mod Steps
use mathlib.Core.Path.{subst}
use mixed_trust_zsrmv_public.Base.{
  ℕ, ◌<◌, ◌≡◌, refl, inl, inr, Bool, true, false, none, some, List, [], ◌∷◌, arith, Bool-cases, Ptr,
  ◌∙◌, ap, sym, if◌then◌else◌, ◌==◌, has, points_to,
}
use mixed_trust_zsrmv_public.Links.{Queue, max_reserves}
use mixed_trust_zsrmv_public.Links.Remove.{erase}
use mixed_trust_zsrmv_public.CritQueue.Range.{QueueIn}
use mixed_trust_zsrmv_public.RmQueue.Order.{IsReserve}
use mixed_trust_zsrmv_public.Sched.{Kernel, Sched, ask, now, add_trace_record, ticks2ns}
use mixed_trust_zsrmv_public.Sched.Ready.{enqueue, dequeue_behind, dequeue_head}
use mixed_trust_zsrmv_public.Sched.Ready.Order.{ready_insert}
use mixed_trust_zsrmv_public.Sched.Ready.Laws.{enqueue-IsReady}
use mixed_trust_zsrmv_public.Sched.Budget.{start, stop}
use mixed_trust_zsrmv_public.Sched.Budget.Keeps.{Keeps, Keeps-trans, ask-Keeps, Pending}
use mixed_trust_zsrmv_public.Sched.Budget.Heads.{Readies, Keeps-Readies, Except, Keeps-Except}
use mixed_trust_zsrmv_public.Sched.Budget.Laws.{
  start-Readies, stop-Readies, start-Except, stop-Except,
}

pub record Sound (s : Sched) : Type 0 where
  pub rids : (i : ℕ) → i < max_reserves → (s.reserve_table i).rid ≡ i
  pub pending : Pending s
  pub blocked : QueueIn s.crit_blockq
  pub waiting : List ℕ
  pub ready : Readies s waiting

pub Except-Sound : (s s' : Sched) (ys : List ℕ) → Except s s' → Readies s' ys → Sound s → Sound s'
Except-Sound s s' ys e r h = record {
  rids = λ i l. e.rid i ∙ h.rids i l;
  pending = e.pending h.pending;
  blocked = subst QueueIn (sym e.crit_blockq) h.blocked;
  waiting = ys;
  ready = r;
}

pub Keeps-Sound : (s s' : Sched) → Keeps s s' → Sound s → Sound s'
Keeps-Sound s s' k h =
    Except-Sound s s' h.waiting (Keeps-Except s s' k) (Keeps-Readies s s' h.waiting k h.ready) h

-- the invariant is about four fields of the state
pub same-Sound :
    (s s' : Sched)
    → s'.readyq ≡ s.readyq
    → s'.crit_blockq ≡ s.crit_blockq
    → s'.reschedule ≡ s.reschedule
    → s'.reserve_table ≡ s.reserve_table
    → Sound s
    → Sound s'
same-Sound s s' q b p t h =
    Keeps-Sound s s'
      (record {
        readyq = q;
        crit_blockq = b;
        pending = λ l i. rw p (l i);
        priority = λ i. rw t refl;
        rid = λ i. rw t refl;
      })
      h

pub start-Sound :
    (k : Kernel) (rid : ℕ) (s : Sched) → rid < max_reserves → Sound s → Sound (start k rid s)
start-Sound k rid s l h =
    let i : IsReserve s.reserve_table rid = (l, h.rids rid l) in
    Except-Sound s (start k rid s) _ (start-Except k rid s h.waiting h.ready i)
      (start-Readies k rid s h.waiting h.ready i) h

pub stop-Sound :
    (k : Kernel) (rid : ℕ) (s : Sched) → rid < max_reserves → Sound s → Sound (stop k rid s)
stop-Sound k rid s l h =
    Except-Sound s (stop k rid s) _ (stop-Except k rid s h.waiting h.ready l)
      (stop-Readies k rid s h.waiting h.ready l) h
