-- ===== src/Sched/Budget/Heads.antt =====
-- What `start` and `stop` of src/zsrmv.c do around the change of the ready queue: the accounting for
-- its head, and what all of it leaves alone.
use mathlib.Core.Path.{subst}
use mixed_trust_zsrmv_public.Base.{
  ℕ, ◌<◌, ◌≡◌, refl, inl, inr, Bool, true, none, some, List, [], ◌∷◌, Bool-cases, Ptr, ◌∙◌, sym,
  All,
}
use mixed_trust_zsrmv_public.Base.Int.{ℤ}
use mixed_trust_zsrmv_public.Links.{Queue, max_reserves}
use mixed_trust_zsrmv_public.Reserve.{Table}
use mixed_trust_zsrmv_public.RmQueue.Order.{IsReserve}
use mixed_trust_zsrmv_public.Sched.{of_enforcement, hrtimer_cancel, Kernel, Sched, on, ticks2ns}
use mixed_trust_zsrmv_public.Sched.Ready.Order.{ready_insert, AtMost, IsSorted, IsReady}
use mixed_trust_zsrmv_public.Sched.Budget.{
  start_enforcement_timer, account, set_start_ticks, pause_head, trace_preempted, run_started,
  run_next,
}
use mixed_trust_zsrmv_public.Sched.Budget.Keeps.{
  Keeps, Pending, Keeps-refl, Keeps-trans, on-Keeps, emit-Keeps, add_trace_record-Keeps,
  start_enforcement_timer-Keeps,
}
use mixed_trust_zsrmv_public.Sched.Budget.Enforce.{budget_enforcement-Keeps}

-- the ready queue stands for the list `xs`
abbrev pub Readies : Sched → List ℕ → Type 0
Readies s xs = IsReady s.reserve_table s.readyq xs

module _ (t t' : Table) (priority : (i : ℕ) → (t' i).priority ≡ (t i).priority) where
  AtMost-same : (a b : ℤ) (xs : List ℕ) → b ≡ a → AtMost t a xs → AtMost t' b xs
  AtMost-same a b [] e h = tt
  AtMost-same a b (x ∷ xs) e h = (rw (priority x) (rw e h.0), AtMost-same a b xs e h.1)

  IsSorted-same : (xs : List ℕ) → IsSorted t xs → IsSorted t' xs
  IsSorted-same [] h = tt
  IsSorted-same (x ∷ xs) h = (AtMost-same _ _ xs (priority x) h.0, IsSorted-same xs h.1)

  pub ready_insert-same : (r : ℕ) (xs : List ℕ) → ready_insert t' r xs ≡ ready_insert t r xs
  unfolding ready_insert
  ready_insert-same r [] = refl
  ready_insert-same r (x ∷ xs) =
      rw (priority x) (rw (priority r) (rw (ready_insert-same r xs) refl))

All-same :
    (t t' : Table)
    → ((i : ℕ) → (t' i).rid ≡ (t i).rid)
    → (xs : List ℕ) → All (IsReserve t) xs
    → All (IsReserve t') xs
All-same t t' rid [] h = tt
All-same t t' rid (x ∷ xs) h = ((h.0.0, rid x ∙ h.0.1), All-same t t' rid xs h.1)

pub Keeps-Readies : (s s' : Sched) (xs : List ℕ) → Keeps s s' → Readies s xs → Readies s' xs
Keeps-Readies s s' xs h v =
    subst (λ q. IsReady s'.reserve_table q xs) (sym h.readyq)
      (record {
        chain = v.chain;
        distinct = v.distinct;
        reserves = All-same s.reserve_table s'.reserve_table h.rid xs v.reserves;
        sorted = IsSorted-same s.reserve_table s'.reserve_table h.priority xs v.sorted;
        idle = v.idle;
      })

-- what `start` and `stop` leave alone
pub record Except (s s' : Sched) : Type 0 where
  pub crit_blockq : s'.crit_blockq ≡ s.crit_blockq
  pub pending : Pending s → Pending s'
  pub priority : (i : ℕ) → (s'.reserve_table i).priority ≡ (s.reserve_table i).priority
  pub rid : (i : ℕ) → (s'.reserve_table i).rid ≡ (s.reserve_table i).rid

pub Keeps-Except : (s s' : Sched) → Keeps s s' → Except s s'
Keeps-Except s s' h = record {
  crit_blockq = h.crit_blockq;
  pending = h.pending;
  priority = h.priority;
  rid = h.rid;
}

-- a change of the ready queue between
pub Keeps-readyq-Except :
    (a b c : Sched) (q : Queue) → Keeps a b → Keeps (record b { readyq = q }) c → Except a c
Keeps-readyq-Except a b c q h g = record {
  crit_blockq = g.crit_blockq ∙ h.crit_blockq;
  pending = λ p. g.pending (h.pending p);
  priority = λ i. g.priority i ∙ h.priority i;
  rid = λ i. g.rid i ∙ h.rid i;
}

-- a reserve that a queue may start with
abbrev pub HeadInRange : Table → Ptr → Type 0
HeadInRange table none = Unit
HeadInRange table (some h) = (table h).rid < max_reserves

pub head-HeadInRange :
    (table : Table) (q : Queue) (xs : List ℕ) → IsReady table q xs → HeadInRange table q.head
head-HeadInRange table q [] v = subst (HeadInRange table) (sym v.chain) tt
head-HeadInRange table q (x ∷ xs) v =
    let l : (table x).rid < max_reserves = rw v.reserves.0.1 v.reserves.0.0 in
    subst (HeadInRange table) (sym v.chain.0) l

pub pause_head-Keeps : (now_ticks : ℕ) (p : Ptr) (s : Sched) → Keeps s (pause_head now_ticks p s)
unfolding pause_head account
pause_head-Keeps now_ticks none s = Keeps-refl s
pause_head-Keeps now_ticks (some h) s =
    Keeps-trans s _ _ (on-Keeps h (account now_ticks) s (λ r. refl) (λ r. refl))
      (emit-Keeps (hrtimer_cancel h of_enforcement) _)

trace_preempted-Keeps : (p : Ptr) (at : ℕ) (s : Sched) → Keeps s (trace_preempted p at s)
trace_preempted-Keeps none at s = Keeps-refl s
trace_preempted-Keeps (some i) at s = add_trace_record-Keeps i at 3 s

module _ (k : Kernel) (now_ticks : ℕ) where
  abbrev timed : ℕ → Sched → Sched × Bool
  timed h s = start_enforcement_timer k h (on h (set_start_ticks now_ticks) s)

  timed-Keeps : (h : ℕ) (s : Sched) → Keeps s (timed h s).0
  unfolding set_start_ticks
  timed-Keeps h s =
      Keeps-trans s _ _ (on-Keeps h (set_start_ticks now_ticks) s (λ r. refl) (λ r. refl))
        (start_enforcement_timer-Keeps k h _)

  timed-in :
      (h : ℕ) (s : Sched)
      → (s.reserve_table h).rid < max_reserves
      → ((timed h s).0.reserve_table h).rid < max_reserves
  timed-in h s l = let e = (timed-Keeps h s).rid h in rw e l

  pub run_started-Keeps :
      (new_runner : Bool) (old p : Ptr) (s : Sched)
      → HeadInRange s.reserve_table p
      → Keeps s (run_started k now_ticks new_runner old p s)
  unfolding run_started
  run_started-Keeps new_runner old none s l = Keeps-refl s
  run_started-Keeps new_runner old (some h) s l =
      let s' = (timed h s).0 in
      let at = ticks2ns s'.kernel_entry_timestamp_ticks in
      elim (Bool-cases (timed h s).1) [
        | inl b ↦ rw b (
            Keeps-trans s s' _ (timed-Keeps h s)
              (budget_enforcement-Keeps k (s'.reserve_table h).rid (timed-in h s l) true s'))
        | inr b ↦ elim (Bool-cases new_runner) [
          | inl c ↦
              rw (b, c)
                (Keeps-trans s s' _ (timed-Keeps h s) (
                  Keeps-trans s' _ _ (trace_preempted-Keeps old at s')
                    (add_trace_record-Keeps (s'.reserve_table h).rid at 4 _)))
          | inr c ↦ rw (b, c) (timed-Keeps h s)
        ]
      ]

  pub run_next-Keeps :
      (p : Ptr) (s : Sched) → HeadInRange s.reserve_table p → Keeps s (run_next k now_ticks p s)
  unfolding run_next
  run_next-Keeps none s l = Keeps-refl s
  run_next-Keeps (some h) s l =
      let s' = (timed h s).0 in
      elim (Bool-cases (timed h s).1) [
        | inl b ↦ rw b (
            Keeps-trans s s' _ (timed-Keeps h s) (
              Keeps-trans s' _ _
                (budget_enforcement-Keeps k (s'.reserve_table h).rid (timed-in h s l) true s')
                (add_trace_record-Keeps _ _ 4 _)))
        | inr b ↦ rw b (Keeps-trans s s' _ (timed-Keeps h s) (add_trace_record-Keeps _ _ 4 s'))
      ]
