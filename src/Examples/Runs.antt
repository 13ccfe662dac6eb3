-- ===== src/Examples/Runs.antt =====
-- Runs of the scheduler in a small state: the theorems on its operations at concrete reserves.
use mixed_trust_zsrmv_public.Base.{
  ℕ, ◌+◌, ◌-◌, ◌*◌, ◌≡◌, refl, true, false, none, some, [], ◌∷◌, arith, if◌then◌else◌, ◌==◌, has,
}
use mixed_trust_zsrmv_public.Base.Int.{ℤ, pos, negsuc}
use mixed_trust_zsrmv_public.Links.{Queue, empty_queue}
use mixed_trust_zsrmv_public.Reserve.{Table, zero_reserve, zero_timespec}
use mixed_trust_zsrmv_public.RmQueue.Order.{IsRmQueue}
use mixed_trust_zsrmv_public.Ring.{Ring}
use mixed_trust_zsrmv_public.Stack.{empty_stack}
use mixed_trust_zsrmv_public.Stack.Laws.{IsStack}
use mixed_trust_zsrmv_public.Sched.{Kernel, Meter, Sched, enter_kernel, add_trace_records}
use mixed_trust_zsrmv_public.Sched.Ready.{in_readyq}
use mixed_trust_zsrmv_public.Sched.Ready.Order.{ready_insert}
use mixed_trust_zsrmv_public.Sched.Ready.Leave.{in_readyq-member_count}
use mixed_trust_zsrmv_public.Sched.Budget.{start, stop}
use mixed_trust_zsrmv_public.Sched.Budget.Heads.{Readies}
use mixed_trust_zsrmv_public.Sched.Budget.Laws.{start-Readies, stop-Readies}
use mixed_trust_zsrmv_public.Sched.Life.{calculate_rm_priorities}
use mixed_trust_zsrmv_public.Sched.Life.Laws.{Prioritised, calculate_rm_priorities-Prioritised}
use mixed_trust_zsrmv_public.Sched.Entries.{getreserve}
use mixed_trust_zsrmv_public.Sched.Entries.Laws.{Taken, getreserve-Taken}
use mixed_trust_zsrmv_public.Sched.ZeroSlack.{zs_enforcement_of}
use mixed_trust_zsrmv_public.Sched.ZeroSlack.Laws.{Enforced, zs_enforcement_of-Enforced}
use mixed_trust_zsrmv_public.Sched.Tasks.{activator_task}
use mixed_trust_zsrmv_public.Sched.Tasks.Laws.{activator_task-IsStack}
use mixed_trust_zsrmv_public.Sched.Commands.{wait_period, cmd_get_acet_ns, ApiCall, reply}
use mixed_trust_zsrmv_public.Sched.Api.{at_index, run_command, zsrm_write}
use mixed_trust_zsrmv_public.Sched.Api.Laws.{
  FitsTrace, unchecked, Outside, free, of_wait_period, zsrm_write-refused, zsrm_write-checked,
  add_trace_records-FitsTrace,
}

abbrev pub kernel : Kernel
kernel = record {
  read_cntpct = λ n. 1000 * n;
  pid_task = λ n pid ns. some 7;
  is_sleeping = λ n task. true;
  task_active_pid_ns = λ n. none;
  dumpdebuglog = λ n. none;
  guestjobstart = λ n handle. true;
  deletehyptask = λ n handle. true;
  createhyptask = λ n first period priority id. some 1;
  ktime_get_ns = λ n. 1000 * n;
  ns_to_timespec = λ ns. record { tv_sec = 0; tv_nsec = ns };
}

abbrev meter : Meter
meter = record {
  start_timestamp_ticks = 0;
  end_timestamp_ticks = 0;
  cumm_ticks = 0;
  num = 0;
  wc_ticks = 0;
}

-- priorities fall with the index, criticalities grow with it
abbrev tasks : Table
tasks i = record zero_reserve {
  rid = i;
  pid = if i == 9 then negsuc 0 else pos (100 + i);
  period_ns = 10 + 10 * i;
  exectime_ticks = 5000;
  priority = pos (60 - i);
  criticality = pos i;
}

-- the reserves 0 and 2 in a queue
abbrev two : Queue
two = record { head = some 0; link = λ i. if i == 0 then some 2 else none }

abbrev ring : Ring
ring = record { buffer = λ i. 0; reading_index = 0; writing_index = 0 }

abbrev pub state : Sched
state = record {
  reserve_table = tasks;
  readyq = two;
  rm = record { queue = two; rm_queue_size = pos 2 };
  critical_reservesq = empty_queue;
  crit_blockq = empty_queue;
  sys_criticality = pos 0;
  reschedule = empty_stack;
  activate = record { stack = λ i. i; top = pos 1 };
  serial = record {
    receiving = ring;
    serial_data_dropped = false;
    reader_wakeups = 0;
    sending = ring;
    sender_wakeups = 0;
  };
  kernel_entry_timestamp_ticks = 0;
  ticksperus = 19;
  trace_table = λ i. record { timestamp_ns = 0; event_type = 0; rid = 0 };
  trace_index = 0;
  hypercall = meter;
  context_switch = meter;
  enforcement = meter;
  zs_enforcement = meter;
  arrival = meter;
  blocked_arrival = meter;
  departure = meter;
  hyptask_handle1 = 0;
  hyptask_handle2 = 0;
  asked = 0;
  calls = [];
}

two-idle : (i : ℕ) → has i (0 ∷ 2 ∷ []) ≡ false → two.link i ≡ none
two-idle i h = ground arith

pub state-Readies : Readies state (0 ∷ 2 ∷ [])
state-Readies = record {
  chain = (refl, (refl, refl));
  distinct = (refl, (refl, tt));
  reserves = ((omega arith, refl), ((omega arith, refl), tt));
  sorted = ((omega arith, tt), (tt, tt));
  idle = two-idle;
}

start-Readies_example : Readies (start kernel 1 state) (ready_insert tasks 1 (0 ∷ 2 ∷ []))
start-Readies_example = start-Readies kernel 1 state (0 ∷ 2 ∷ []) state-Readies (omega arith, refl)

stop-Readies_example : Readies (stop kernel 0 state) (2 ∷ [])
stop-Readies_example = stop-Readies kernel 0 state (0 ∷ 2 ∷ []) state-Readies (omega arith)

in_readyq-member_count_example : in_readyq tasks two 2 ≡ 1
in_readyq-member_count_example = in_readyq-member_count tasks two (0 ∷ 2 ∷ []) 2 state-Readies

zs_enforcement_of-Enforced_example :
    Enforced 1 state (0 ∷ 2 ∷ []) (zs_enforcement_of kernel 1 state)
zs_enforcement_of-Enforced_example =
    zs_enforcement_of-Enforced kernel 1 state (0 ∷ 2 ∷ []) state-Readies refl

state-IsRmQueue : IsRmQueue tasks state.rm (0 ∷ 2 ∷ [])
state-IsRmQueue = record {
  chain = (refl, (refl, refl));
  distinct = (refl, (refl, tt));
  reserves = ((omega arith, refl), ((omega arith, refl), tt));
  sorted = ((omega arith, tt), (tt, tt));
  size = refl;
}

calculate_rm_priorities-Prioritised_example :
    Prioritised tasks (pos 52) (0 ∷ 2 ∷ []) (calculate_rm_priorities state.rm tasks)
calculate_rm_priorities-Prioritised_example =
    calculate_rm_priorities-Prioritised tasks state.rm (0 ∷ 2 ∷ []) state-IsRmQueue

getreserve-Taken_example : Taken state (getreserve state)
getreserve-Taken_example = getreserve-Taken state

state-IsStack : IsStack state.activate (1 ∷ 0 ∷ [])
state-IsStack = record { items = (refl, (refl, tt)); top = refl; fits = omega arith }

activator_task-IsStack_example :
    (s' : Sched) × (activator_task kernel 3 state ≡ some s') × IsStack s'.activate []
activator_task-IsStack_example =
    activator_task-IsStack kernel 3 state (1 ∷ 0 ∷ []) state-IsStack (omega arith)

abbrev pub call_on : ℤ → ApiCall
call_on rid = record {
  rid = rid;
  pid = pos 0;
  period = zero_timespec;
  zsinstant = zero_timespec;
  exec = zero_timespec;
  nominal_exec = zero_timespec;
  hyp_enforcer = zero_timespec;
  priority = pos 0;
  criticality = pos 0;
  buffer = [];
  buf_len = 0;
}

zsrm_write-refused_example :
    zsrm_write kernel (λ s. s) (λ s. s) 0 wait_period (call_on (pos 9)) state
    ≡ some (enter_kernel kernel state, reply (negsuc 0) false)
zsrm_write-refused_example =
    zsrm_write-refused kernel (λ s. s) (λ s. s) 0 (call_on (pos 9)) true wait_period state
      of_wait_period (free 9 refl refl)

acet_outside :
    zsrm_write kernel (λ s. s) (λ s. s) 0 cmd_get_acet_ns (call_on (pos 100)) state ≡ none
unfolding zsrm_write run_command at_index
acet_outside = refl

zsrm_write-checked_example : (unchecked cmd_get_acet_ns ≡ true) × Outside (pos 100)
zsrm_write-checked_example =
    zsrm_write-checked kernel (λ s. s) (λ s. s) 0 (call_on (pos 100)) cmd_get_acet_ns state
      acet_outside

add_trace_records-FitsTrace_example :
    FitsTrace (add_trace_records (record { timestamp_ns = 5; event_type = 58; rid = 3 } ∷ []) state)
add_trace_records-FitsTrace_example =
    add_trace_records-FitsTrace (record { timestamp_ns = 5; event_type = 58; rid = 3 } ∷ []) state
      (omega arith)
