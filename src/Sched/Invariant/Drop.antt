-- ===== src/Sched/Invariant/Drop.antt =====
-- How the reserve of a task that is dead leaves the ready queue in src/zsrmv.c.
use mathlib.Core.Path.{subst, fun_ext}
use mixed_trust_zsrmv_public.Base.{
  ℕ, ◌<◌, ◌≡◌, refl, inl, inr, true, false, Option, none, some, List, [], ◌∷◌, Bool-cases,
  Option-cases, Ptr, ◌∙◌, ap, sym, if◌then◌else◌, ◌==◌, has, points_to, update, ==→eq,
}
use mixed_trust_zsrmv_public.Links.{Queue, max_reserves}
use mixed_trust_zsrmv_public.Links.Remove.{erase}
use mixed_trust_zsrmv_public.Sched.{
  of_enforcement, of_period, of_zero_slack, hrtimer_cancel, Kernel, Sched, ask, emit, on, gettask,
}
use mixed_trust_zsrmv_public.Sched.Ready.{dequeue_behind, dequeue_head}
use mixed_trust_zsrmv_public.Sched.Ready.Order.{IsReady}
use mixed_trust_zsrmv_public.Sched.Ready.Leave.{dequeue, dequeue_any-IsReady}
use mixed_trust_zsrmv_public.Sched.Budget.{start_enforcement_timer, set_start_ticks}
use mixed_trust_zsrmv_public.Sched.Budget.Keeps.{
  Keeps, Keeps-refl, Keeps-trans, on-Keeps, emit-Keeps, ask-Keeps, start_enforcement_timer-Keeps,
}
use mixed_trust_zsrmv_public.Sched.Budget.Enforce.{budget_enforcement-Keeps}
use mixed_trust_zsrmv_public.Sched.Budget.Heads.{
  Readies, Keeps-Readies, HeadInRange, head-HeadInRange, Except, Keeps-Except, Keeps-readyq-Except,
}
use mixed_trust_zsrmv_public.Sched.Life.{run_after_delete, drop_dead, cancel_all, set_normal}

-- the ready queue after an operation that takes the reserve out of it
pub record Without (rid : ℕ) (xs : List ℕ) (s s' : Sched) : Type 0 where
  pub except : Except s s'
  pub ready : Readies s' (erase rid xs)

Except-trans : (a b c : Sched) → Except a b → Except b c → Except a c
Except-trans a b c h g = record {
  crit_blockq = g.crit_blockq ∙ h.crit_blockq;
  pending = λ p. g.pending (h.pending p);
  priority = λ i. g.priority i ∙ h.priority i;
  rid = λ i. g.rid i ∙ h.rid i;
}

pub Without-Keeps :
    (rid : ℕ) (xs : List ℕ) (a b c : Sched) → Without rid xs a b → Keeps b c → Without rid xs a c
Without-Keeps rid xs a b c w k = record {
  except = Except-trans a b c w.except (Keeps-Except b c k);
  ready = Keeps-Readies b c (erase rid xs) k w.ready;
}

pub Keeps-Without :
    (rid : ℕ) (xs : List ℕ) (a b c : Sched) → Keeps a b → Without rid xs b c → Without rid xs a c
Keeps-Without rid xs a b c k w = record {
  except = Except-trans a b c (Keeps-Except a b k) w.except;
  ready = w.ready;
}

pub cancel_all-Keeps : (k : Kernel) (rid : ℕ) (s : Sched) → Keeps s (cancel_all k rid s)
unfolding cancel_all
cancel_all-Keeps k rid s0 =
    let s1 = emit (hrtimer_cancel rid of_period) (emit (hrtimer_cancel rid of_enforcement) s0) in
    let first : Keeps s0 s1 = Keeps-trans s0 _ s1 (emit-Keeps _ s0) (emit-Keeps _ _) in
    let s2 =
      if (s1.reserve_table rid).has_zsenforcement
      then emit (hrtimer_cancel rid of_zero_slack) s1
      else s1 in
    let second : Keeps s1 s2 = elim (Bool-cases (s1.reserve_table rid).has_zsenforcement) [
      | inl b ↦ rw b (emit-Keeps _ s1)
      | inr b ↦ rw b (Keeps-refl s1)
    ] in
    let upto : Keeps s0 s2 = Keeps-trans s0 s1 s2 first second in
    elim (Bool-cases (s2.reserve_table rid).hypertask_active) [
      | inr b ↦ rw b upto
      | inl b ↦ elim (Bool-cases (k.deletehyptask s2.asked (s2.reserve_table rid).hyptask_handle)) [
        | inr c ↦ rw (b, c) (Keeps-trans s0 s2 _ upto (ask-Keeps s2))
        | inl c ↦
            rw (b, c)
              (Keeps-trans s0 s2 _ upto (
                Keeps-trans s2 (ask s2) _ (ask-Keeps s2)
                  (on-Keeps rid _ (ask s2) (λ r. refl) (λ r. refl))))
      ]
    ]

pub set_normal-Keeps : (last : Option ℕ) (s : Sched) → Keeps s (set_normal last s)
unfolding set_normal
set_normal-Keeps none s = Keeps-refl s
set_normal-Keeps (some task) s = emit-Keeps _ s

run_after_delete-Keeps :
    (k : Kernel) (now_ticks : ℕ) (p : Ptr) (s : Sched)
    → HeadInRange s.reserve_table p
    → Keeps s (run_after_delete k now_ticks p s).0
unfolding run_after_delete set_start_ticks
run_after_delete-Keeps k now_ticks none s l = Keeps-refl s
run_after_delete-Keeps k now_ticks (some h) s l = elim (Option-cases (gettask k s h)) [
  | inl e ↦ rw (e, run_after_delete) (ask-Keeps s)
  | inr (task, e) ↦
      let s1 = on h (set_start_ticks now_ticks) (ask s) in
      let t = start_enforcement_timer k h s1 in
      let upto : Keeps s t.0 = Keeps-trans s (ask s) t.0 (ask-Keeps s) (
        Keeps-trans (ask s) s1 t.0 (on-Keeps h _ (ask s) (λ r. refl) (λ r. refl))
          (start_enforcement_timer-Keeps k h s1)) in
      let in_range : (t.0.reserve_table h).rid < max_reserves = rw (upto.rid h) l in
      elim (Bool-cases t.1) [
        | inl b ↦
            rw (e, run_after_delete)
              (rw b (
                Keeps-trans s t.0 _ upto
                  (budget_enforcement-Keeps k (t.0.reserve_table h).rid in_range true t.0)))
        | inr b ↦ rw (e, run_after_delete) (rw b upto)
      ]
]

module _ (k : Kernel) (now_ticks rid : ℕ) (s : Sched) where
  -- the state with the reserve out of the head of the queue, or from behind it
  queue_changed :
      (q : Queue) (xs : List ℕ)
      → IsReady s.reserve_table q (erase rid xs)
      → Without rid xs s (record s { readyq = q })
  queue_changed q xs w = record {
    except = Keeps-readyq-Except s s _ q (Keeps-refl s) (Keeps-refl _);
    ready = w;
  }

  dropped_head :
      (q : Queue) (xs : List ℕ)
      → IsReady s.reserve_table q (erase rid xs)
      → Without rid xs s (run_after_delete k now_ticks q.head (record s { readyq = q })).0
  dropped_head q xs w =
      Without-Keeps rid xs s (record s { readyq = q }) _ (queue_changed q xs w)
        (run_after_delete-Keeps k now_ticks q.head (record s { readyq = q })
          (head-HeadInRange s.reserve_table q (erase rid xs) w))

  pub drop_dead-Without :
      (xs : List ℕ) → Readies s xs → Without rid xs s (drop_dead k now_ticks rid s.readyq.head s).0
  unfolding drop_dead dequeue_head
  drop_dead-Without [] v =
      subst (λ p. Without rid [] s (drop_dead k now_ticks rid p s).0) (sym v.chain)
        (record { except = Keeps-Except s s (Keeps-refl s); ready = v })
  drop_dead-Without (x ∷ xs) v =
      let w = dequeue_any-IsReady s.reserve_table rid s.readyq x xs v in
      subst (λ p. Without rid (x ∷ xs) s (drop_dead k now_ticks rid p s).0) (sym v.chain.0)
        (elim (Bool-cases (x == rid)) [
          | inl b ↦
              let at : points_to s.readyq.head rid ≡ true = rw v.chain.0 b in
              let same : dequeue s.reserve_table rid s.readyq ≡ dequeue_head s.readyq rid =
                rw at refl in
              rw b (
                dropped_head (dequeue_head s.readyq rid) (x ∷ xs)
                  (subst (λ q. IsReady s.reserve_table q (erase rid (x ∷ xs))) same w))
          | inr b ↦
              let at : points_to s.readyq.head rid ≡ false = rw v.chain.0 b in
              let same : dequeue s.reserve_table rid s.readyq
                  ≡ dequeue_behind s.readyq rid (some x) =
                rw at (ap (dequeue_behind s.readyq rid) v.chain.0) in
              rw b (
                queue_changed (dequeue_behind s.readyq rid (some x)) (x ∷ xs)
                  (subst (λ q. IsReady s.reserve_table q (erase rid (x ∷ xs))) same w))
        ])

-- a write of NULL to the link of a reserve that is out of the queue
pub cut_link :
    (rid : ℕ) (xs : List ℕ) (a b : Sched)
    → Without rid xs a b
    → has rid (erase rid xs) ≡ false
    → Without rid xs a
        (record b { readyq = record b.readyq { link = update b.readyq.link rid none } })
cut_link rid xs a b w out =
    let idle = w.ready.idle rid out in
    let same : update b.readyq.link rid none ≡ b.readyq.link = fun_ext λ i.
      elim (Bool-cases (rid == i)) [
        | inl e ↦ rw e (sym (subst (λ (j : ℕ). b.readyq.link j ≡ none) (==→eq rid i e) idle))
        | inr e ↦ rw e refl
      ] in
    record {
      except = Except-trans a b _ w.except (
          Keeps-readyq-Except b b _ (record b.readyq { link = update b.readyq.link rid none })
            (Keeps-refl b) (Keeps-refl _));
      ready =
          subst (λ f. IsReady b.reserve_table (record b.readyq { link = f }) (erase rid xs))
            (sym same) w.ready;
    }
