-- ===== src/Sched/Tasks/Laws.antt =====
-- The activator task of src/zsrmv.c empties its stack.
use mixed_trust_zsrmv_public.Base.{
  ℕ, zero, suc, ◌<◌, ◌≡◌, refl, inl, inr, some, List, [], ◌∷◌, arith, leb, Bool-cases, Option-cases,
  ◌∙◌, length,
}
use mixed_trust_zsrmv_public.Base.Int.{pos, negsuc}
use mixed_trust_zsrmv_public.Links.{max_reserves}
use mixed_trust_zsrmv_public.Stack.{Stack, pop_to_activate}
use mixed_trust_zsrmv_public.Stack.Laws.{IsStack, pop_to_activate-Popped}
use mixed_trust_zsrmv_public.Sched.{Kernel, Sched, ask, emit, on, gettask}
use mixed_trust_zsrmv_public.Sched.Tasks.{activate_one, activator_task}

activate_one-activate :
    (k : Kernel) (rid : ℕ) (s : Sched) → (activate_one k rid s).activate ≡ s.activate
unfolding activate_one ask emit on
activate_one-activate k rid s = elim (Bool-cases (leb max_reserves rid)) [
  | inl b ↦ rw b refl
  | inr b ↦ elim (Option-cases (gettask k s rid)) [
    | inl e ↦ rw (b, activate_one) (rw e refl)
    | inr (task, e) ↦ elim (Bool-cases (s.reserve_table rid).bound_to_cpu) [
      | inl c ↦ rw (b, activate_one) (rw e (rw c refl))
      | inr c ↦ rw (b, activate_one) (rw e (rw c refl))
    ]
  ]
]

module _ (k : Kernel) where
  abbrev rest : ℕ → Sched → ℕ → Stack → Sched
  rest fuel s i stack = activate_one k i (record s { activate = stack })

  task-empty :
      (fuel : ℕ) (s : Sched) (n : ℕ)
      → (pop_to_activate s.activate).1 ≡ negsuc n
      → activator_task k (suc fuel) s
        ≡ some (record s { activate = (pop_to_activate s.activate).0 })
  unfolding activator_task
  task-empty fuel s n e = rw (e, activator_task) refl

  task-next :
      (fuel : ℕ) (s : Sched) (i : ℕ)
      → (pop_to_activate s.activate).1 ≡ pos i
      → activator_task k (suc fuel) s
        ≡ activator_task k fuel
            (activate_one k i (record s { activate = (pop_to_activate s.activate).0 }))
  unfolding activator_task
  task-next fuel s i e = rw (e, activator_task) refl

  -- If the stack of the activator task holds a list of items, then more rounds than items are
  -- enough for the task to end, and it leaves an empty stack.
  pub activator_task-IsStack :
      (fuel : ℕ) (s : Sched) (xs : List ℕ)
      → IsStack s.activate xs
      → length xs < fuel
      → (s' : Sched) × (activator_task k fuel s ≡ some s') × IsStack s'.activate []
  activator_task-IsStack zero s xs h l = absurd (omega arith)
  activator_task-IsStack (suc fuel) s [] h l =
      let (same, none_left) = pop_to_activate-Popped s.activate [] h in
      (
        record s { activate = (pop_to_activate s.activate).0 },
        task-empty fuel s 0 none_left,
        rw same h,
      )
  activator_task-IsStack (suc fuel) s (x ∷ xs) h l =
      let (left, item) = pop_to_activate-Popped s.activate (x ∷ xs) h in
      let s1 = activate_one k x (record s { activate = (pop_to_activate s.activate).0 }) in
      let held : IsStack s1.activate xs = rw (activate_one-activate k x _) left in
      let (s', e, w) = activator_task-IsStack fuel s1 xs held (omega arith) in
      (s', task-next fuel s x item ∙ e, w)
