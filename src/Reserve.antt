-- ===== src/Reserve.antt =====
-- The data of the scheduler: `struct zs_timer` and `struct reserve` of src/zsrmv.h. The four
-- pointer fields of a reserve (`next`, `rm_next`, `crit_next`, `crit_block_next`) are the links of
-- the queues (Links.antt). The fields of the Frama-C ghost code (STAC_FRAMAC_STUBS), the field `next` of a timer, `start_ns`
-- and `stop_ns`, which the scheduler does not read, are left out, and so is the `struct hrtimer`
-- inside a timer: its operations are the kernel's and are recorded as calls (Sched.antt).
use mathlib.Core.Path.{fun_ext}
use mixed_trust_zsrmv_public.Base.{
  ℕ, ◌+◌, ◌*◌, ◌≡◌, refl, inl, inr, Bool, false, Option, none, u32, long_to_u64, ◌==◌,
  if◌then◌else◌, Bool-cases, eq→==,
}
use mixed_trust_zsrmv_public.Base.Int.{ℤ, pos}

-- `struct timespec`: two words of type `long`
pub record Timespec : Type 0 where
  pub tv_sec : ℕ
  pub tv_nsec : ℕ

-- ts.tv_sec * 1000000000L + ts.tv_nsec, which is computed on `long` and then converted
unfoldable pub timespec_ns : Timespec → ℕ
timespec_ns t = long_to_u64 (u32 (t.tv_sec * 1000000000 + t.tv_nsec))

-- the values of timer_type; `unset` is any other
pub data TimerType : Type 0 where
  unset timer_enf timer_zs_enf timer_period timer_start : TimerType

pub record ZsTimer : Type 0 where
  pub rid : ℕ
  pub timer_type : TimerType
  pub expiration : Timespec
  pub absolute_expiration_ns : ℕ

pub record Reserve : Type 0 where
  pub task_namespace : Option ℕ
  pub pid : ℤ
  pub rid : ℕ
  pub first_job_activation_ns : ℕ
  pub job_activation_count : ℕ
  pub current_job_activation_ticks : ℕ
  pub current_job_deadline_ticks : ℕ
  pub job_completed : Bool
  pub current_job_hypertasks_preemption_ticks : ℕ
  pub current_exectime_ns : ℕ
  pub exectime_ns : ℕ
  pub nominal_exectime_ns : ℕ
  pub exectime_in_rm_ns : ℕ
  pub start_ticks : ℕ
  pub stop_ticks : ℕ
  pub current_exectime_ticks : ℕ
  pub exectime_ticks : ℕ
  pub nominal_exectime_ticks : ℕ
  pub worst_exectime_ticks : ℕ
  pub avg_exectime_ticks : ℕ
  pub avg_exectime_ticks_measurements : ℕ
  pub num_period_wakeups : ℕ
  pub num_enforcements : ℕ
  pub num_wfnp : ℕ
  pub num_wait_release : ℕ
  pub non_periodic_wait : Bool
  pub end_of_period_marked : Bool
  pub enforcement_type : ℕ
  pub period : Timespec
  pub zsinstant : Timespec
  pub hyp_enforcer_instant : Timespec
  pub hyp_enforcer_instant_ns : ℕ
  pub hyp_enforcer_instant_ticks : ℕ
  pub zsinstant_ns : ℕ
  pub period_ns : ℕ
  pub period_ticks : ℕ
  pub execution_time : Timespec
  pub nominal_execution_time : Timespec
  pub has_zsenforcement : Bool
  pub hypertask_active : Bool
  pub has_hyptask : Bool
  pub hyptask_handle : ℕ
  pub priority : ℤ
  pub criticality : ℤ
  pub in_critical_mode : Bool
  pub enforced : Bool
  pub bound_to_cpu : Bool
  pub period_timer : ZsTimer
  pub enforcement_timer : ZsTimer
  pub zero_slack_timer : ZsTimer
  pub start_timer : ZsTimer
  pub request_stop : Bool
  pub enforcement_signal_captured : Bool
  pub enforcement_signal_receiver_pid : ℤ
  pub enforcement_signo : ℤ
  pub attached : Bool
  pub start_period : ℤ

-- reserve_table, by index
abbrev pub Table : Type 0
Table = ℕ → Reserve

abbrev pub zero_timespec : Timespec
zero_timespec = record { tv_sec = 0; tv_nsec = 0 }

abbrev pub zero_timer : ZsTimer
zero_timer = record {
  rid = 0;
  timer_type = unset;
  expiration = zero_timespec;
  absolute_expiration_ns = 0;
}

-- a reserve of the zeroed memory that the module is loaded with
abbrev pub zero_reserve : Reserve
zero_reserve = record {
  task_namespace = none;
  pid = pos 0;
  rid = 0;
  first_job_activation_ns = 0;
  job_activation_count = 0;
  current_job_activation_ticks = 0;
  current_job_deadline_ticks = 0;
  job_completed = Bool.false;
  current_job_hypertasks_preemption_ticks = 0;
  current_exectime_ns = 0;
  exectime_ns = 0;
  nominal_exectime_ns = 0;
  exectime_in_rm_ns = 0;
  start_ticks = 0;
  stop_ticks = 0;
  current_exectime_ticks = 0;
  exectime_ticks = 0;
  nominal_exectime_ticks = 0;
  worst_exectime_ticks = 0;
  avg_exectime_ticks = 0;
  avg_exectime_ticks_measurements = 0;
  num_period_wakeups = 0;
  num_enforcements = 0;
  num_wfnp = 0;
  num_wait_release = 0;
  non_periodic_wait = Bool.false;
  end_of_period_marked = Bool.false;
  enforcement_type = 0;
  period = zero_timespec;
  zsinstant = zero_timespec;
  hyp_enforcer_instant = zero_timespec;
  hyp_enforcer_instant_ns = 0;
  hyp_enforcer_instant_ticks = 0;
  zsinstant_ns = 0;
  period_ns = 0;
  period_ticks = 0;
  execution_time = zero_timespec;
  nominal_execution_time = zero_timespec;
  has_zsenforcement = Bool.false;
  hypertask_active = Bool.false;
  has_hyptask = Bool.false;
  hyptask_handle = 0;
  priority = pos 0;
  criticality = pos 0;
  in_critical_mode = Bool.false;
  enforced = Bool.false;
  bound_to_cpu = Bool.false;
  period_timer = zero_timer;
  enforcement_timer = zero_timer;
  zero_slack_timer = zero_timer;
  start_timer = zero_timer;
  request_stop = Bool.false;
  enforcement_signal_captured = Bool.false;
  enforcement_signal_receiver_pid = pos 0;
  enforcement_signo = pos 0;
  attached = Bool.false;
  start_period = pos 0;
}

-- a write to fields of reserve_table[i]
unfoldable pub modify : Table → ℕ → (Reserve → Reserve) → Table
modify table i f j = if i == j then f (table j) else table j

pub modify_self : (table : Table) (i : ℕ) (f : Reserve → Reserve) → modify table i f i ≡ f (table i)
unfolding modify
modify_self table i f = rw (eq→== i i refl)

pub modify_ne :
    (table : Table) (i j : ℕ) (f : Reserve → Reserve)
    → (i == j) ≡ false
    → modify table i f j ≡ table j
unfolding modify
modify_ne table i j f e = rw e

pub modify-modify :
    (table : Table) (i : ℕ) (f g : Reserve → Reserve)
    → modify (modify table i f) i g ≡ modify table i (λ r. g (f r))
unfolding modify
modify-modify table i f g = fun_ext λ j. elim (Bool-cases (i == j)) [ inl e ↦ rw e | inr e ↦ rw e ]

-- a field that the write leaves alone is the same in every reserve
pub modify_field {ℓ} :
    {A : Type ℓ} (table : Table) (i j : ℕ) (f : Reserve → Reserve) (field : Reserve → A)
    → ((r : Reserve) → field (f r) ≡ field r)
    → field (modify table i f j) ≡ field (table j)
unfolding modify
modify_field table i j f field same = elim (Bool-cases (i == j)) [
  | inl e ↦ rw e (same (table j))
  | inr e ↦ rw e
]
