-- ===== src/Sched/Api/Laws.antt =====
-- The commands of src/zsrmv.c check the reserve that they are given, and the trace stays in bounds.
use mixed_trust_zsrmv_public.Base.{
  ℕ, ◌≤◌, ◌≡◌, ◌≢◌, ltb, refl, inl, inr, Bool, true, false, none, some, List, [], ◌∷◌, arith, leb,
  Bool-cases, if◌then◌else◌,
}
use mixed_trust_zsrmv_public.Base.Int.{ℤ, pos, negsuc}
use mixed_trust_zsrmv_public.Links.{max_reserves}
use mixed_trust_zsrmv_public.Reserve.{Table}
use mixed_trust_zsrmv_public.Serial.{Serial}
use mixed_trust_zsrmv_public.Sched.{
  TraceRec, Kernel, Sched, trace_buffer_size, add_trace_record, add_trace_records, enter_kernel,
}
use mixed_trust_zsrmv_public.Sched.Commands.{
  Command, wait_period, create_rsv, attach_rsv, delete_rsv, cmd_get_wcet_ns, cmd_get_acet_ns,
  nowait_period, cmd_capture_enforcement_signal, get_trace_size, end_period, wait_release,
  send_serial, send_serial_finish, init_serial, recv_serial, cmd_test_reserve, sim_crash, unknown,
  ApiCall, Reply, reply, valid_rid, active_rid,
}
use mixed_trust_zsrmv_public.Sched.Api.{if_active, at_index, run_command, zsrm_write}

-- A reserve that a command may not be given: its index is negative or behind the table or, for a
-- command that needs a reserve in use, its entry is free.
pub data Unfit (table : Table) (in_use : Bool) : ℤ → Type 0 where
  negative : (n : ℕ) → Unfit table in_use (negsuc n)
  beyond : (n : ℕ) → max_reserves ≤ n → Unfit table in_use (pos n)
  free : (n : ℕ) → in_use ≡ true → (table n).pid ≡ negsuc 0 → Unfit table in_use (pos n)

-- The commands on a reserve: those on its current job and the attachment of a task need one in use,
-- and those that end it or ask for its signal an index in range.
pub data OnReserve : Bool → Command → Type 0 where
  of_wait_period : OnReserve true wait_period
  of_nowait_period : OnReserve true nowait_period
  of_end_period : OnReserve true end_period
  of_wait_release : OnReserve true wait_release
  of_attach_rsv : OnReserve true attach_rsv
  of_delete_rsv : OnReserve false delete_rsv
  of_capture : OnReserve false cmd_capture_enforcement_signal

-- the commands that use the index of a reserve without a check
abbrev pub unchecked : Command → Bool
unchecked send_serial_finish = true
unchecked cmd_get_acet_ns = true
unchecked _ = false

abbrev pub Outside : ℤ → Type 0
Outside (negsuc n) = Unit
Outside (pos n) = max_reserves ≤ n

Unfit-valid_rid : (table : Table) (rid : ℤ) → Unfit table false rid → valid_rid rid ≡ false
unfolding valid_rid
Unfit-valid_rid table rid (negative n) = ground arith
Unfit-valid_rid table rid (beyond n l) = ground arith
Unfit-valid_rid table rid (free n e f) = cc

Unfit-active_rid : (table : Table) (rid : ℤ) → Unfit table true rid → active_rid table rid ≡ false
unfolding active_rid valid_rid
Unfit-active_rid table rid (negative n) = ground arith
Unfit-active_rid table rid (beyond n l) = ground arith
Unfit-active_rid table rid (free n e f) = ground arith

at_index-none : (rid : ℤ) (run : ℕ → Sched × Reply) → at_index rid run ≡ none → Outside rid
unfolding at_index
at_index-none (negsuc n) run e = tt
at_index-none (pos n) run e = ground arith

-- what the driver's test lets through is in the table
valid_rid-inside :
    (rid : ℤ) (run : ℕ → Sched × Reply)
    → valid_rid rid ≡ true
    → (r : Sched × Reply) × (at_index rid run ≡ some r)
unfolding valid_rid at_index
valid_rid-inside (negsuc n) run e = absurd (ground arith)
valid_rid-inside (pos n) run e =
    let inside : ltb n max_reserves ≡ true = ground arith in (run n, rw inside refl)

if_valid-some :
    (b : Bool) (rid : ℤ) (run : ℕ → Sched × Reply) (y : Sched × Reply)
    → (b ≡ true → valid_rid rid ≡ true)
    → (if b then at_index rid run else some y) ≢ none
if_valid-some true rid run y h e = let (r, eq) = valid_rid-inside rid run (h refl) in cc
if_valid-some false rid run y h e = cc

active_rid-valid : (table : Table) (rid : ℤ) → active_rid table rid ≡ true → valid_rid rid ≡ true
unfolding active_rid
active_rid-valid table rid e = ground arith

if_active-some :
    (rid : ℤ) (run : ℕ → Sched → Sched × Reply) (s : Sched) → if_active rid run s ≢ none
unfolding if_active
if_active-some rid run s =
    if_valid-some (active_rid s.reserve_table rid) rid (λ i. run i s) _
      (active_rid-valid s.reserve_table rid)

if_active-refused :
    (rid : ℤ) (run : ℕ → Sched → Sched × Reply) (s : Sched)
    → Unfit s.reserve_table true rid
    → if_active rid run s ≡ some (s, reply (negsuc 0) false)
unfolding if_active
if_active-refused rid run s h = rw (Unfit-active_rid s.reserve_table rid h) refl

module _ (k : Kernel) (others : Sched → Sched) (asleep : Serial → Serial) (z : ℕ)
    (call : ApiCall) where
  run_command-refused :
      (in_use : Bool) (cmd : Command) (s : Sched)
      → OnReserve in_use cmd
      → Unfit s.reserve_table in_use call.rid
      → run_command k others asleep z cmd call s ≡ some (s, reply (negsuc 0) false)
  unfolding run_command
  run_command-refused in_use cmd s of_wait_period h = if_active-refused call.rid _ s h
  run_command-refused in_use cmd s of_nowait_period h = if_active-refused call.rid _ s h
  run_command-refused in_use cmd s of_end_period h = if_active-refused call.rid _ s h
  run_command-refused in_use cmd s of_wait_release h = if_active-refused call.rid _ s h
  run_command-refused in_use cmd s of_attach_rsv h = if_active-refused call.rid _ s h
  run_command-refused in_use cmd s of_delete_rsv h =
      rw (Unfit-valid_rid s.reserve_table call.rid h) refl
  run_command-refused in_use cmd s of_capture h =
      rw (Unfit-valid_rid s.reserve_table call.rid h) refl

  -- A command that waits for a period or a release, ends a period or attaches a task, given an
  -- index that is negative, behind the table or of a free entry, and one that deletes a reserve or
  -- asks for its signal, given an index that is negative or behind the table, returns -1 and
  -- changes nothing but what the entry into the kernel changes.
  pub zsrm_write-refused :
      (in_use : Bool) (cmd : Command) (s : Sched)
      → OnReserve in_use cmd
      → Unfit s.reserve_table in_use call.rid
      → zsrm_write k others asleep z cmd call s ≡ some (enter_kernel k s, reply (negsuc 0) false)
  unfolding zsrm_write enter_kernel
  zsrm_write-refused in_use cmd s o h = run_command-refused in_use cmd (enter_kernel k s) o h

  if_valid-checked :
      (run : ℕ → Sched × Reply) (y : Sched × Reply)
      → (if valid_rid call.rid then at_index call.rid run else some y) ≢ none
  if_valid-checked run y = if_valid-some (valid_rid call.rid) call.rid run y (λ e. e)

  run_command-checked :
      (cmd : Command) (s : Sched)
      → run_command k others asleep z cmd call s ≡ none
      → (unchecked cmd ≡ true) × Outside call.rid
  unfolding run_command
  run_command-checked wait_period s e = absurd (if_active-some call.rid _ s e)
  run_command-checked nowait_period s e = absurd (if_active-some call.rid _ s e)
  run_command-checked end_period s e = absurd (if_active-some call.rid _ s e)
  run_command-checked wait_release s e = absurd (if_active-some call.rid _ s e)
  run_command-checked attach_rsv s e = absurd (if_active-some call.rid _ s e)
  run_command-checked create_rsv s e = cc
  run_command-checked delete_rsv s e = absurd (if_valid-checked _ _ e)
  run_command-checked cmd_get_wcet_ns s e = absurd (if_valid-checked _ _ e)
  run_command-checked cmd_get_acet_ns s e = (refl, at_index-none call.rid _ e)
  run_command-checked cmd_capture_enforcement_signal s e = absurd (if_valid-checked _ _ e)
  run_command-checked get_trace_size s e = cc
  run_command-checked send_serial s e = cc
  run_command-checked send_serial_finish s e = (refl, at_index-none call.rid _ e)
  run_command-checked init_serial s e = cc
  run_command-checked recv_serial s e = cc
  run_command-checked cmd_test_reserve s e = cc
  run_command-checked sim_crash s e = cc
  run_command-checked unknown s e = cc

  -- A command accesses the entry of its reserve outside the table only if it is GET_ACET_NS or
  -- SEND_SERIAL_FINISH with a negative index or one behind the table: the tests of all others let
  -- only indices in the table through.
  pub zsrm_write-checked :
      (cmd : Command) (s : Sched)
      → zsrm_write k others asleep z cmd call s ≡ none
      → (unchecked cmd ≡ true) × Outside call.rid
  unfolding zsrm_write
  zsrm_write-checked cmd s e = run_command-checked cmd (enter_kernel k s) e

-- the recorded entries fit into trace_table
abbrev pub FitsTrace : Sched → Type 0
FitsTrace s = s.trace_index ≤ trace_buffer_size

add_trace_record-FitsTrace :
    (rid ts e : ℕ) (s : Sched) → FitsTrace s → FitsTrace (add_trace_record rid ts e s)
unfolding add_trace_record
add_trace_record-FitsTrace rid ts e s h = elim (Bool-cases (leb trace_buffer_size s.trace_index)) [
  | inl b ↦ rw b h
  | inr b ↦ rw b (ground arith)
]

-- If the recorded entries fit into the trace, they still do after a log of the hypervisor of any
-- length has been copied into it.
pub add_trace_records-FitsTrace :
    (es : List TraceRec) (s : Sched) → FitsTrace s → FitsTrace (add_trace_records es s)
unfolding add_trace_records
add_trace_records-FitsTrace [] s h = h
add_trace_records-FitsTrace (e ∷ es) s h =
    add_trace_records-FitsTrace es (add_trace_record e.rid e.timestamp_ns e.event_type s)
      (add_trace_record-FitsTrace e.rid e.timestamp_ns e.event_type s h)
