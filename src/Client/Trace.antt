-- ===== src/Client/Trace.antt =====
-- zsv_write_trace of lib/libzsv.c, which prints the trace of the scheduler to a file.
pub mod Laws
use mixed_trust_zsrmv_public.Base.{
  ℕ, zero, suc, ◌+◌, ◌/◌, Bool, true, false, Option, none, some, List, [], ◌∷◌, ltb, if◌then◌else◌,
}
use mixed_trust_zsrmv_public.Base.Int.{ℤ, pos, negsuc}
use mixed_trust_zsrmv_public.Serial.{Serial}
use mixed_trust_zsrmv_public.Sched.{TraceRec, Kernel, Sched}
use mixed_trust_zsrmv_public.Sched.Commands.{ApiCall}
use mixed_trust_zsrmv_public.Sched.Api.{trace_rec_size, zsrm_read}
use mixed_trust_zsrmv_public.Client.Requests.{zsv_get_trace_size, serve}

-- for (i = 0; i < traces_read; i++): what is printed of the records from `i` on
unfoldable pub print_from : (ℕ → Option TraceRec) → ℕ → ℕ → List (Option TraceRec)
print_from tracep i zero = []
print_from tracep i (suc left) = tracep i ∷ print_from tracep (suc i) left

-- The memory after a read of `bytes` bytes of the trace: `none` is a record that the read did not
-- write, which holds what malloc left there.
unfoldable pub memory_after : Sched → ℕ → ℕ → Option TraceRec
memory_after s bytes i = if ltb i (bytes / trace_rec_size) then some (s.trace_table i) else none

-- what a call returns: `none` is a call that ends without a value
abbrev pub Returned : Type 0
Returned = Option ℤ

-- the read, with room for `size` bytes, and the loop over what it returned
unfoldable pub read_and_print : Kernel → ℕ → Sched → Sched × Returned × List (Option TraceRec)
read_and_print k size s =
    let (s', traces_read) = zsrm_read k size s in
    (s', none, print_from (memory_after s' traces_read) 0 traces_read)

-- What the call returns, and the printed lines. `allocated` tells whether malloc succeeds, and
-- `meanwhile` is what others do to the scheduler between the two system calls.
unfoldable pub zsv_write_trace :
    Kernel
    → (Sched → Sched)
    → (Serial → Serial)
    → ℕ
    → ApiCall
    → Bool
    → (Sched → Sched)
    → ℤ
    → Sched
    → Option (Sched × Returned × List (Option TraceRec))
zsv_write_trace k others asleep z unset allocated meanwhile fd s0 =
    elim (serve k others asleep z (zsv_get_trace_size unset fd) s0) [
      | none ↦ none
      | some (s, reply) ↦ elim reply.ret [
        | negsuc n ↦ some (s, none, [])
        | pos size ↦ some (
            if ltb 0 size
            then (if allocated
                then read_and_print k size (meanwhile s)
                else (s, some (negsuc 0), []))
            else (s, none, []))
      ]
    ]
