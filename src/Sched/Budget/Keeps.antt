-- ===== src/Sched/Budget/Keeps.antt =====
-- What the accounting of budgets in src/zsrmv.c leaves alone: the ready queue, and the priorities
-- and the indices of the reserves.
use mixed_trust_zsrmv_public.Base.{
  ℕ, ◌<◌, ◌≡◌, refl, ◌==◌, inl, inr, Bool, true, false, List, [], ◌∷◌, ltb, leb, Bool-cases, ◌∙◌,
  if◌then◌else◌,
}
use mixed_trust_zsrmv_public.Base.Int.{pos, suc_ℤ, ltb_ℤ, pos_part}
use mixed_trust_zsrmv_public.Links.{max_reserves}
use mixed_trust_zsrmv_public.Reserve.{Reserve, modify_field}
use mixed_trust_zsrmv_public.Stack.{Stack, push_to_reschedule}
use mixed_trust_zsrmv_public.Sched.{
  TraceRec, WhichTimer, of_enforcement, of_zero_slack, of_period, of_start, Call, Kernel, Sched,
  ask, emit, on, add_trace_record, add_trace_records, add_timerq, arm_relative_timer,
  trace_buffer_size, set_absolute,
}
use mixed_trust_zsrmv_public.Sched.Budget.{
  consumed_ticks, start_enforcement_timer, set_enforcement_expiration,
}

-- what the scheduler task is to look at are indices in range
abbrev pub Pending : Sched → Type 0
Pending s = (i : ℕ) → s.reschedule.stack i < max_reserves

pub record Keeps (s s' : Sched) : Type 0 where
  pub readyq : s'.readyq ≡ s.readyq
  pub crit_blockq : s'.crit_blockq ≡ s.crit_blockq
  pub pending : Pending s → Pending s'
  pub priority : (i : ℕ) → (s'.reserve_table i).priority ≡ (s.reserve_table i).priority
  pub rid : (i : ℕ) → (s'.reserve_table i).rid ≡ (s.reserve_table i).rid

pub push_to_reschedule-below :
    (s : Stack) (rid : ℕ)
    → ((i : ℕ) → s.stack i < max_reserves)
    → rid < max_reserves
    → (i : ℕ) → (push_to_reschedule s rid).0.stack i < max_reserves
unfolding push_to_reschedule
push_to_reschedule-below s rid h l i = elim (Bool-cases (ltb_ℤ (suc_ℤ s.top) (pos max_reserves))) [
  | inl e ↦ elim (Bool-cases (pos_part (suc_ℤ s.top) == i)) [
    | inl b ↦ rw e (rw b l)
    | inr b ↦ rw e (rw b (h i))
  ]
  | inr e ↦ rw e (h i)
]

pub Keeps-refl : (s : Sched) → Keeps s s
Keeps-refl s = record {
  readyq = refl;
  crit_blockq = refl;
  pending = λ h. h;
  priority = λ i. refl;
  rid = λ i. refl;
}

pub Keeps-trans : (a b c : Sched) → Keeps a b → Keeps b c → Keeps a c
Keeps-trans a b c h g = record {
  readyq = g.readyq ∙ h.readyq;
  crit_blockq = g.crit_blockq ∙ h.crit_blockq;
  pending = λ b. g.pending (h.pending b);
  priority = λ i. g.priority i ∙ h.priority i;
  rid = λ i. g.rid i ∙ h.rid i;
}

pub on-Keeps :
    (i : ℕ) (f : Reserve → Reserve) (s : Sched)
    → ((r : Reserve) → (f r).priority ≡ r.priority)
    → ((r : Reserve) → (f r).rid ≡ r.rid)
    → Keeps s (on i f s)
unfolding on
on-Keeps i f s p q = record {
  readyq = refl;
  crit_blockq = refl;
  pending = λ h. h;
  priority = λ j. modify_field s.reserve_table i j f (λ r. r.priority) p;
  rid = λ j. modify_field s.reserve_table i j f (λ r. r.rid) q;
}

pub emit-Keeps : (c : Call) (s : Sched) → Keeps s (emit c s)
unfolding emit
emit-Keeps c s = record {
  readyq = refl;
  crit_blockq = refl;
  pending = λ h. h;
  priority = λ i. refl;
  rid = λ i. refl;
}

pub ask-Keeps : (s : Sched) → Keeps s (ask s)
unfolding ask
ask-Keeps s = record {
  readyq = refl;
  crit_blockq = refl;
  pending = λ h. h;
  priority = λ i. refl;
  rid = λ i. refl;
}

if-Keeps : (b : Bool) (s x y : Sched) → Keeps s x → Keeps s y → Keeps s (if b then x else y)
if-Keeps true s x y h g = h
if-Keeps false s x y h g = g

pub add_trace_record-Keeps : (rid ts e : ℕ) (s : Sched) → Keeps s (add_trace_record rid ts e s)
unfolding add_trace_record
add_trace_record-Keeps rid ts e s = elim (Bool-cases (leb trace_buffer_size s.trace_index)) [
  | inl b ↦ rw b (Keeps-refl s)
  | inr b ↦ rw b (record {
    readyq = refl;
    crit_blockq = refl;
    pending = λ h. h;
    priority = λ i. refl;
    rid = λ i. refl;
  })
]

pub add_trace_records-Keeps : (es : List TraceRec) (s : Sched) → Keeps s (add_trace_records es s)
unfolding add_trace_records
add_trace_records-Keeps [] s = Keeps-refl s
add_trace_records-Keeps (e ∷ es) s =
    Keeps-trans s _ _ (add_trace_record-Keeps e.rid e.timestamp_ns e.event_type s)
      (add_trace_records-Keeps es (add_trace_record e.rid e.timestamp_ns e.event_type s))

pub set_absolute-priority :
    (w : WhichTimer) (n : ℕ) (r : Reserve) → (set_absolute w n r).priority ≡ r.priority
unfolding set_absolute
set_absolute-priority of_enforcement n r = refl
set_absolute-priority of_zero_slack n r = refl
set_absolute-priority of_period n r = refl
set_absolute-priority of_start n r = refl

pub set_absolute-rid : (w : WhichTimer) (n : ℕ) (r : Reserve) → (set_absolute w n r).rid ≡ r.rid
unfolding set_absolute
set_absolute-rid of_enforcement n r = refl
set_absolute-rid of_zero_slack n r = refl
set_absolute-rid of_period n r = refl
set_absolute-rid of_start n r = refl

pub add_timerq-Keeps : (i : ℕ) (w : WhichTimer) (s : Sched) → Keeps s (add_timerq i w s)
unfolding add_timerq arm_relative_timer
add_timerq-Keeps i w s =
    Keeps-trans s _ _ (on-Keeps i _ s (set_absolute-priority w _) (set_absolute-rid w _))
      (emit-Keeps _ _)

pub start_enforcement_timer-Keeps :
    (k : Kernel) (i : ℕ) (s : Sched) → Keeps s (start_enforcement_timer k i s).0
unfolding start_enforcement_timer set_enforcement_expiration
start_enforcement_timer-Keeps k i s =
    elim (Bool-cases
      (ltb (consumed_ticks (s.reserve_table i)) (s.reserve_table i).exectime_ticks)) [
        | inl b ↦ rw b (
            Keeps-trans s _ _ (on-Keeps i _ s (λ r. refl) (λ r. refl))
              (add_timerq-Keeps i of_enforcement _))
        | inr b ↦ rw b (Keeps-refl s)
      ]
