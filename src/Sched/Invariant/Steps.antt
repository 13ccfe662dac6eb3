-- ===== src/Sched/Invariant/Steps.antt =====
-- The scheduler of src/zsrmv.c as a system of steps, once its reserves are set up: interrupts of the
-- timers, wake-ups of the two kernel tasks, and system calls, in any order.
use mathlib.Core.Path.{subst}
use mixed_trust_zsrmv_public.Base.{
  ℕ, ◌≤◌, ◌≡◌, refl, inl, inr, Bool, true, false, none, some, [], arith, ltb, lt→ltb, Bool-cases,
  sym,
}
use mixed_trust_zsrmv_public.Links.{max_reserves}
use mixed_trust_zsrmv_public.CritQueue.Range.{InTable}
use mixed_trust_zsrmv_public.Serial.{Serial}
use mixed_trust_zsrmv_public.Sched.{WhichTimer, Kernel, Sched}
use mixed_trust_zsrmv_public.Sched.Entries.{init, init_fields}
use mixed_trust_zsrmv_public.Sched.Tasks.{kernel_timer_handler, scheduler_task, activator_task}
use mixed_trust_zsrmv_public.Sched.Commands.{Command, ApiCall, Reply}
use mixed_trust_zsrmv_public.Sched.Api.{zsrm_read, Down, device_write}
use mixed_trust_zsrmv_public.Sched.Invariant.{Sound}
use mixed_trust_zsrmv_public.Sched.Invariant.Tasks.{NotStarting}
use mixed_trust_zsrmv_public.Sched.Invariant.Loops.{
  SoundIf, kernel_timer_handler-Sound, scheduler_task-Sound, activator_task-Sound,
}
use mixed_trust_zsrmv_public.Sched.Invariant.Commands.{
  sets_up, SoundReply, device_write-Sound, zsrm_read-Sound,
}

-- One step. What others do while a command has released the locks are steps of their own.
pub data Step (k : Kernel) : Sched → Sched → Type 0 where
  timer :
      (locked : Bool) (i : ℕ) (w : WhichTimer) (s : Sched)
      → NotStarting k i w s
      → Step k s (kernel_timer_handler k locked i w s)
  scheduling : (fuel : ℕ) (s s' : Sched) → scheduler_task k fuel s ≡ some s' → Step k s s'
  activation : (fuel : ℕ) (s s' : Sched) → activator_task k fuel s ≡ some s' → Step k s s'
  command :
      (asleep : Serial → Serial) (z : ℕ) (call : ApiCall) (count : ℕ) (copied : Bool) (down : Down)
      (cmd : Command) (s s' : Sched) (reply : Reply)
      → sets_up cmd ≡ false
      → device_write k (λ s. s) asleep z count copied down cmd call s ≡ some (s', reply)
      → Step k s s'
  reading : (size : ℕ) (s : Sched) → Step k s (zsrm_read k size s).0

pub data Reach (k : Kernel) (s : Sched) : Sched → Type 0 where
  here : Reach k s s
  next : {a b : Sched} → Reach k s a → Step k a b → Reach k s b

Step-Sound : (k : Kernel) (s s' : Sched) → Step k s s' → Sound s → Sound s'
Step-Sound k a b (timer locked i w s n) h = kernel_timer_handler-Sound k locked i w s n h
Step-Sound k a b (scheduling fuel s s' e) h = subst SoundIf e (scheduler_task-Sound k fuel s h)
Step-Sound k a b (activation fuel s s' e) h = subst SoundIf e (activator_task-Sound k fuel s h)
Step-Sound k a b (command asleep z call count copied down cmd s s' reply up e) h =
    subst SoundReply e (device_write-Sound k asleep z call count copied down cmd s up h)
Step-Sound k a b (reading size s) h = zsrm_read-Sound k size s h

-- Whatever steps are taken, in whatever order, the invariant stays: the ready queue stands for a
-- list of distinct reserves that is sorted by priority, reserves outside it are linked to nothing,
-- each entry of the table has its index as rid, and the queue of blocked reserves and the stack of
-- the scheduler task hold indices in range. The steps are timer interrupts other than the start of
-- a reserve, wake-ups of the two kernel tasks that end within their fuel, all commands but the
-- creation of a reserve and the attachment of a task, and reads of the trace.
pub Reach-Sound : (k : Kernel) (s s' : Sched) → Reach k s s' → Sound s → Sound s'
Reach-Sound k s s' here h = h
Reach-Sound k s s' (next {a} {b} r t) h = Step-Sound k a b t (Reach-Sound k s a r h)

-- what the memory of the module holds before `init`: zeros, as far as it matters
pub record Zeroed (s : Sched) : Type 0 where
  pub stack : (i : ℕ) → s.reschedule.stack i ≡ 0
  pub blocked : (i : ℕ) → s.crit_blockq.link i ≡ none
  pub no_blocked : s.crit_blockq.head ≡ none
  pub beyond : (i : ℕ) → max_reserves ≤ i → s.readyq.link i ≡ none

init-Sound : (s : Sched) → Zeroed s → Sound (init s)
unfolding init init_fields
init-Sound s z = record {
  rids = λ i l. let e : ltb i 100 ≡ true = lt→ltb i 100 l in rw e refl;
  pending = λ i. rw (z.stack i) (omega arith);
  blocked = record {
    head = subst InTable (sym z.no_blocked) tt;
    link = λ i. elim (Bool-cases (ltb i 100)) [
      | inl e ↦ rw e tt
      | inr e ↦ rw e (subst InTable (sym (z.blocked i)) tt)
    ];
  };
  waiting = [];
  ready = record {
    chain = refl;
    distinct = tt;
    reserves = tt;
    sorted = tt;
    idle = λ i out. elim (Bool-cases (ltb i 100)) [
      | inl e ↦ rw e refl
      | inr e ↦ rw e (z.beyond i (ground arith))
    ];
  };
}
