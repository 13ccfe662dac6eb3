-- ===== src/Sched/Budget/Laws.antt =====
-- `start` and `stop` of src/zsrmv.c: the ready queue stays sorted by priority through all of their
-- accounting and enforcement.
use mathlib.Core.Path.{subst}
use mixed_trust_zsrmv_public.Base.{
  ℕ, ◌<◌, ◌≡◌, refl, inl, inr, Bool, true, false, none, some, List, arith, leb, Bool-cases, ◌∙◌, ap,
  sym, if◌then◌else◌, ◌==◌, has, points_to,
}
use mixed_trust_zsrmv_public.Links.{Queue, max_reserves}
use mixed_trust_zsrmv_public.Links.Remove.{erase, erase_absent}
use mixed_trust_zsrmv_public.RmQueue.Order.{IsReserve}
use mixed_trust_zsrmv_public.Sched.{Kernel, Sched, ask, now, add_trace_record, ticks2ns}
use mixed_trust_zsrmv_public.Sched.Ready.{in_readyq, enqueue, dequeue_behind, dequeue_head}
use mixed_trust_zsrmv_public.Sched.Ready.Order.{ready_insert, IsReady}
use mixed_trust_zsrmv_public.Sched.Ready.Laws.{enqueue-IsReady}
use mixed_trust_zsrmv_public.Sched.Ready.Leave.{in_readyq-member_count, dequeue-IsReady}
use mixed_trust_zsrmv_public.Sched.Budget.{pause_head, rid_of, run_started, run_next, start, stop}
use mixed_trust_zsrmv_public.Sched.Budget.Keeps.{
  Keeps, Keeps-refl, Keeps-trans, ask-Keeps, add_trace_record-Keeps,
}
use mixed_trust_zsrmv_public.Sched.Budget.Heads.{
  Except, Keeps-Except, Keeps-Readies, Keeps-readyq-Except, Readies, head-HeadInRange,
  pause_head-Keeps, ready_insert-same, run_next-Keeps, run_started-Keeps,
}

module _ (k : Kernel) (rid : ℕ) (s0 : Sched) (xs : List ℕ) (v : Readies s0 xs) where
  abbrev paused : Sched
  paused = pause_head (now k s0) (ask s0).readyq.head (ask s0)

  abbrev run : Queue → Sched
  run q =
      run_started k (now k s0) (points_to q.head rid)
        (if points_to q.head rid then rid_of paused.reserve_table paused.readyq.head else none)
        q.head (record paused { readyq = q })

  asked-Readies : Readies (ask s0) xs
  asked-Readies = Keeps-Readies s0 (ask s0) xs (ask-Keeps s0) v

  paused-Keeps : Keeps s0 paused
  paused-Keeps = Keeps-trans s0 (ask s0) _ (ask-Keeps s0) (pause_head-Keeps (now k s0) _ (ask s0))

  start-same : has rid xs ≡ true → start k rid s0 ≡ ask s0
  unfolding start
  start-same h =
      let there : leb 1 (in_readyq (ask s0).reserve_table (ask s0).readyq rid) ≡ true =
        rw (in_readyq-member_count _ _ xs rid asked-Readies) (rw h refl) in
      rw there refl

  start-run :
      (q : Queue)
      → has rid xs ≡ false
      → enqueue paused.reserve_table paused.readyq rid paused.readyq.head ≡ some q
      → start k rid s0 ≡ run q
  unfolding start
  start-run q h e =
      let out : leb 1 (in_readyq (ask s0).reserve_table (ask s0).readyq rid) ≡ false =
        rw (in_readyq-member_count _ _ xs rid asked-Readies) (rw h refl) in
      rw (out, start) (rw e refl)

  -- If the ready queue is sorted by priority and stands for a list of reserves, then starting a
  -- reserve leaves it so: it stands for the list with the reserve inserted by priority, behind
  -- those of the same priority, or for the same list if the reserve was in it, whatever the
  -- accounting, the hypervisor's log and budget enforcement do.
  pub start-Readies :
      IsReserve s0.reserve_table rid
      → Readies (start k rid s0) (if has rid xs then xs else ready_insert s0.reserve_table rid xs)
  start-Readies i = elim (Bool-cases (has rid xs)) [
    | inl h ↦ rw h (subst (λ s. Readies s xs) (sym (start-same h)) asked-Readies)
    | inr h ↦
        let keeps = paused-Keeps in
        let (q, e, w) =
          enqueue-IsReady paused.reserve_table rid paused.readyq xs
            (Keeps-Readies s0 paused xs keeps v) (i.0, keeps.rid rid ∙ i.1) h in
        let after =
          Keeps-Readies (record paused { readyq = q }) (run q)
            (ready_insert paused.reserve_table rid xs)
            (run_started-Keeps k (now k s0) _ _ q.head _
              (head-HeadInRange paused.reserve_table q _ w))
            w in
        rw h (
          subst (λ s. Readies s (ready_insert s0.reserve_table rid xs)) (sym (start-run q h e))
            (subst (Readies (run q))
              (ready_insert-same s0.reserve_table paused.reserve_table keeps.priority rid xs)
              after))
  ]

  pub start-Except : IsReserve s0.reserve_table rid → Except s0 (start k rid s0)
  start-Except i = elim (Bool-cases (has rid xs)) [
    | inl h ↦
        subst (λ s. Except s0 s) (sym (start-same h)) (Keeps-Except s0 (ask s0) (ask-Keeps s0))
    | inr h ↦
        let keeps = paused-Keeps in
        let (q, e, w) =
          enqueue-IsReady paused.reserve_table rid paused.readyq xs
            (Keeps-Readies s0 paused xs keeps v) (i.0, keeps.rid rid ∙ i.1) h in
        let heads = head-HeadInRange paused.reserve_table q _ w in
        subst (λ s. Except s0 s) (sym (start-run q h e))
          (Keeps-readyq-Except s0 paused (run q) q keeps
            (run_started-Keeps k (now k s0) _ _ q.head _ heads))
  ]

  abbrev traced : Sched
  traced = add_trace_record rid (ticks2ns (ask s0).kernel_entry_timestamp_ticks) 3 (ask s0)

  abbrev halted : Sched
  halted = pause_head (now k s0) traced.readyq.head traced

  abbrev run_rest : Queue → Sched
  run_rest q = run_next k (now k s0) q.head (record halted { readyq = q })

  halted-Keeps : Keeps s0 halted
  halted-Keeps = Keeps-trans s0 (ask s0) _ (ask-Keeps s0) (
      Keeps-trans (ask s0) traced _ (add_trace_record-Keeps rid _ 3 (ask s0))
        (pause_head-Keeps (now k s0) _ traced))

  abbrev stops : Bool → Sched
  stops at_head =
      if at_head
      then run_rest (dequeue_head halted.readyq rid)
      else record (ask s0) { readyq = dequeue_behind (ask s0).readyq rid (ask s0).readyq.head }

  stop-same : has rid xs ≡ false → stop k rid s0 ≡ ask s0
  unfolding stop
  stop-same h =
      let absent : (in_readyq (ask s0).reserve_table (ask s0).readyq rid == 0) ≡ true =
        rw (in_readyq-member_count _ _ xs rid asked-Readies) (rw h refl) in
      rw absent refl

  stop-stops :
      has rid xs ≡ true
      → rid < max_reserves
      → stop k rid s0 ≡ stops (points_to (ask s0).readyq.head rid)
  unfolding stop
  stop-stops h i =
      let there : (in_readyq (ask s0).reserve_table (ask s0).readyq rid == 0) ≡ false =
        rw (in_readyq-member_count _ _ xs rid asked-Readies) (rw h refl) in
      let small : leb max_reserves rid ≡ false = ground arith in rw (there, small) refl

  -- the queue behind a head that stops
  halted_queue-IsReady :
      has rid xs ≡ true
      → points_to (ask s0).readyq.head rid ≡ true
      → IsReady halted.reserve_table (dequeue_head halted.readyq rid) (erase rid xs)
  halted_queue-IsReady h b =
      let keeps = halted-Keeps in
      let same : halted.readyq ≡ (ask s0).readyq = keeps.readyq ∙ sym (ask-Keeps s0).readyq in
      let at : points_to halted.readyq.head rid ≡ true = ap (λ q. points_to q.head rid) same ∙ b in
      subst (λ q. IsReady halted.reserve_table q (erase rid xs)) (rw at refl)
        (dequeue-IsReady halted.reserve_table rid halted.readyq xs
          (Keeps-Readies s0 halted xs keeps v) h)

  -- If the ready queue is sorted by priority and stands for a list of reserves, then stopping a
  -- reserve with an index in range leaves it so: it stands for the list without the reserve, and
  -- reserves outside the list are linked to nothing.
  pub stop-Readies : rid < max_reserves → Readies (stop k rid s0) (erase rid xs)
  stop-Readies i = elim (Bool-cases (has rid xs)) [
    | inr h ↦
        subst (λ s. Readies s (erase rid xs)) (sym (stop-same h))
          (rw (erase_absent rid xs h) asked-Readies)
    | inl h ↦
        subst (λ s. Readies s (erase rid xs)) (sym (stop-stops h i))
          (elim (Bool-cases (points_to (ask s0).readyq.head rid)) [
            | inl b ↦
                let q = dequeue_head halted.readyq rid in
                let w = halted_queue-IsReady h b in
                rw b (
                  Keeps-Readies (record halted { readyq = q }) (run_rest q) (erase rid xs)
                    (run_next-Keeps k (now k s0) q.head _
                      (head-HeadInRange halted.reserve_table q _ w))
                    w)
            | inr b ↦
                let w =
                  dequeue-IsReady (ask s0).reserve_table rid (ask s0).readyq xs asked-Readies h in
                rw b (subst (λ q. IsReady (ask s0).reserve_table q (erase rid xs)) (rw b refl) w)
          ])
  ]

  pub stop-Except : rid < max_reserves → Except s0 (stop k rid s0)
  stop-Except i = elim (Bool-cases (has rid xs)) [
    | inr h ↦ subst (λ s. Except s0 s) (sym (stop-same h)) (Keeps-Except s0 (ask s0) (ask-Keeps s0))
    | inl h ↦
        subst (λ s. Except s0 s) (sym (stop-stops h i))
          (elim (Bool-cases (points_to (ask s0).readyq.head rid)) [
            | inl b ↦
                let q = dequeue_head halted.readyq rid in
                let w = halted_queue-IsReady h b in
                rw b (
                  Keeps-readyq-Except s0 halted (run_rest q) q halted-Keeps (
                    run_next-Keeps k (now k s0) q.head _
                      (head-HeadInRange halted.reserve_table q _ w)))
            | inr b ↦ rw b (Keeps-readyq-Except s0 (ask s0) _ _ (ask-Keeps s0) (Keeps-refl _))
          ])
  ]
