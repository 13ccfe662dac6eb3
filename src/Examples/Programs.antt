-- ===== src/Examples/Programs.antt =====
-- The user library at a small ring of handlers.
use mixed_trust_zsrmv_public.Base.{
  ℕ, ◌+◌, ◌≡◌, refl, not, true, false, none, some, [], ◌∷◌, arith, if◌then◌else◌, ◌==◌,
}
use mixed_trust_zsrmv_public.Base.Int.{pos}
use mixed_trust_zsrmv_public.Reserve.{zero_timespec}
use mixed_trust_zsrmv_public.Sched.{Sched, send_sig_info}
use mixed_trust_zsrmv_public.Sched.Budget.{signal_task, bundle_rid_stop_periodic}
use mixed_trust_zsrmv_public.Sched.Commands.{ApiCall}
use mixed_trust_zsrmv_public.Client.Handlers.{
  Handler, Handlers, add_threaded_signal_handler_record, del_threaded_signal_handler_record,
}
use mixed_trust_zsrmv_public.Client.Handlers.Segment.{IsRing}
use mixed_trust_zsrmv_public.Client.Handlers.Add.{
  Relinked, add_threaded_signal_handler_record-Relinked,
}
use mixed_trust_zsrmv_public.Client.Handlers.Remove.{del_threaded_signal_handler_record-Relinked}
use mixed_trust_zsrmv_public.Client.Signal.{
  Client, System, extract_rid, extract_stop, extract_periodic, zsv_user_enforcement_handler_wrapper,
  zsv_fork_enforcement_handler, zsv_stop_enforcement_handler,
}
use mixed_trust_zsrmv_public.Client.Signal.Laws.{extract-bundle, Served, signal_task-Served}
use mixed_trust_zsrmv_public.Client.Signal.Register.{
  entry, Registered, zsv_fork_enforcement_handler-Registered,
}
use mixed_trust_zsrmv_public.Client.Signal.Stale.{Stale, zsv_stop_enforcement_handler-Stale}
use mixed_trust_zsrmv_public.Client.Trace.{zsv_write_trace}
use mixed_trust_zsrmv_public.Client.Trace.Laws.{Printed, zsv_write_trace-Printed}
use mixed_trust_zsrmv_public.Examples.Runs.{kernel, state}

abbrev handler_of : ℕ → Handler
handler_of a = record {
  rid = pos a;
  zsv_user_enforcement_handler = 50 + a;
  zsv_user_enforcement_handler_param = 0;
  zsv_enforcement_schedfd = pos 3;
}

-- the records 2 and 4, for the reserves 2 and 4
abbrev ring_of_two : Handlers
ring_of_two = record {
  head = some 2;
  recs = handler_of;
  next = λ a. if a == 2 then some 4 else some 2;
  prev = λ a. if a == 2 then some 4 else some 2;
}

ring_of_two-IsRing : IsRing ring_of_two (2 ∷ 4 ∷ [])
ring_of_two-IsRing = (refl, ((refl, refl), (refl, refl)), (refl, (refl, tt)))

abbrev program : Client
program = record { handlers = ring_of_two; freed = []; installed = true; effects = [] }

abbrev system : System
system = record {
  sigaction = λ c. true;
  malloc = λ c. some 9;
  write = λ request c. pos 0;
  handler = λ h p rid c. c;
  left_by_free = λ a c. (handler_of 0, none, none);
}

abbrev unset : ApiCall
unset = record {
  rid = pos 77;
  pid = pos 77;
  period = zero_timespec;
  zsinstant = zero_timespec;
  exec = zero_timespec;
  nominal_exec = zero_timespec;
  hyp_enforcer = zero_timespec;
  priority = pos 77;
  criticality = pos 77;
  buffer = [];
  buf_len = 77;
}

add_threaded_signal_handler_record-Relinked_example :
    Relinked ring_of_two (9 ∷ 4 ∷ 2 ∷ []) (add_threaded_signal_handler_record 9 ring_of_two)
add_threaded_signal_handler_record-Relinked_example =
    add_threaded_signal_handler_record-Relinked ring_of_two (2 ∷ 4 ∷ []) 9 ring_of_two-IsRing refl

del_threaded_signal_handler_record-Relinked_example :
    Relinked ring_of_two (4 ∷ []) (del_threaded_signal_handler_record 2 ring_of_two)
del_threaded_signal_handler_record-Relinked_example =
    del_threaded_signal_handler_record-Relinked ring_of_two (2 ∷ 4 ∷ []) 2 ring_of_two-IsRing refl

extract-bundle_example :
    (extract_rid (pos (bundle_rid_stop_periodic 5 true false)) ≡ pos 5)
    × (extract_stop (pos (bundle_rid_stop_periodic 5 true false)) ≡ true)
    × (extract_periodic (pos (bundle_rid_stop_periodic 5 true false)) ≡ false)
extract-bundle_example = extract-bundle 5 true false

signal_task-Served_example :
    (b : ℕ) × ((signal_task kernel 2 true state).calls
      ≡ send_sig_info 7 (state.reserve_table 2).enforcement_signo b ∷ state.calls)
    × Served unset
        (handler_of 2)
        true
        (not (state.reserve_table 2).end_of_period_marked)
        (pos 2)
        program
        (zsv_user_enforcement_handler_wrapper system unset 5 (pos b) program)
signal_task-Served_example =
    signal_task-Served kernel 2 7 true state system unset 5 2 (2 ∷ 4 ∷ []) program refl
      ring_of_two-IsRing (omega arith) refl (λ h p rid c. refl)

zsv_fork_enforcement_handler-Registered_example :
    Registered 5
      (pos 6)
      (entry (pos 6) 60 1 (pos 3))
      (9 ∷ 4 ∷ 2 ∷ [])
      (zsv_fork_enforcement_handler system unset 5 (pos 800) (pos 34) (pos 3) (pos 6) 60 1 program)
zsv_fork_enforcement_handler-Registered_example =
    zsv_fork_enforcement_handler-Registered system unset 5 (pos 800) (pos 34) (pos 3) (pos 6) 60 1
      (2 ∷ 4 ∷ []) program 9 ring_of_two-IsRing (omega arith) refl refl

zsv_stop_enforcement_handler-Stale_example :
    Stale (pos 4) 4 program (zsv_stop_enforcement_handler system unset 5 (pos 34) (pos 4) program)
zsv_stop_enforcement_handler-Stale_example =
    zsv_stop_enforcement_handler-Stale system unset 5 (pos 34) (pos 4) 4 (2 ∷ 4 ∷ []) program
      ring_of_two-IsRing (omega arith) refl refl

abbrev traced : Sched
traced = record state { trace_index = 40 }

zsv_write_trace-Printed_example :
    Printed traced (zsv_write_trace kernel (λ s. s) (λ t. t) 0 unset true (λ s. s) (pos 3) traced)
zsv_write_trace-Printed_example =
    zsv_write_trace-Printed kernel (λ s. s) (λ t. t) 0 unset (pos 3) traced (omega arith)
