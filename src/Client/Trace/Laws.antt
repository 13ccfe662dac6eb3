-- ===== src/Client/Trace/Laws.antt =====
-- How much of the trace zsv_write_trace prints.
use mathlib.Core.Path.{subst, sym}
use mixed_trust_zsrmv_public.Base.{
  ℕ, zero, suc, ◌+◌, ◌-◌, ◌*◌, ◌/◌, ◌≤◌, ◌<◌, ◌≡◌, refl, inl, inr, true, false, Option, none, some,
  List, [], ◌∷◌, ◌++◌, arith, ltb, leb, lt→ltb, Bool-cases, Option-cases, ◌∙◌, ap,
}
use mixed_trust_zsrmv_public.Base.Int.{ℤ}
use mixed_trust_zsrmv_public.Serial.{Serial}
use mixed_trust_zsrmv_public.Sched.{
  TraceRec, Kernel, Sched, trace_buffer_size, add_trace_record, add_trace_records, ask,
  enter_kernel,
}
use mixed_trust_zsrmv_public.Sched.Commands.{ApiCall}
use mixed_trust_zsrmv_public.Sched.Api.{run_command, zsrm_write, zsrm_read}
use mixed_trust_zsrmv_public.Client.Requests.{serve, zsv_get_trace_size}
use mixed_trust_zsrmv_public.Client.Trace.{
  Returned, print_from, memory_after, read_and_print, zsv_write_trace,
}

-- the entries of a table from `i` on, as lines
abbrev pub lines : (ℕ → TraceRec) → ℕ → ℕ → List (Option TraceRec)
lines table i zero = []
lines table i (suc n) = some (table i) ∷ lines table (suc i) n

abbrev pub unwritten : ℕ → List (Option TraceRec)
unwritten zero = []
unwritten (suc n) = none ∷ unwritten n

-- the trace only grows: its entries stay and none is lost
record Grown (s s' : Sched) : Type 0 where
  longer : s.trace_index ≤ s'.trace_index
  same : (i : ℕ) → i < s.trace_index → s'.trace_table i ≡ s.trace_table i

add_trace_record-Grown : (rid ts e : ℕ) (s : Sched) → Grown s (add_trace_record rid ts e s)
unfolding add_trace_record
add_trace_record-Grown rid ts e s = elim (Bool-cases (leb trace_buffer_size s.trace_index)) [
  | inl b ↦ rw b (record { longer = omega arith; same = λ i l. refl })
  | inr b ↦ rw b (record { longer = omega arith; same = λ i l. ground arith })
]

add_trace_records-Grown : (es : List TraceRec) (s : Sched) → Grown s (add_trace_records es s)
unfolding add_trace_records
add_trace_records-Grown [] s = record { longer = omega arith; same = λ i l. refl }
add_trace_records-Grown (e ∷ es) s =
    let s1 = add_trace_record e.rid e.timestamp_ns e.event_type s in
    let one = add_trace_record-Grown e.rid e.timestamp_ns e.event_type s in
    let more = add_trace_records-Grown es s1 in
    record {
      longer = omega (arith, one.longer, more.longer);
      same = λ i l. more.same i (omega (arith, one.longer)) ∙ one.same i l;
    }

print_unwritten :
    (tracep : ℕ → Option TraceRec) (i n : ℕ)
    → ((j : ℕ) → i ≤ j → tracep j ≡ none)
    → print_from tracep i n ≡ unwritten n
unfolding print_from
print_unwritten tracep i zero h = refl
print_unwritten tracep i (suc n) h =
    ground (arith, h i (omega arith), print_unwritten tracep (suc i) n (λ j l. h j (omega arith)))

print_lines :
    (tracep : ℕ → Option TraceRec) (table : ℕ → TraceRec) (i n m : ℕ)
    → ((j : ℕ) → j < i + n → tracep j ≡ some (table j))
    → ((j : ℕ) → i + n ≤ j → tracep j ≡ none)
    → print_from tracep i (n + m) ≡ lines table i n ++ unwritten m
unfolding print_from
print_lines tracep table i zero m h h' =
    ground (arith, print_unwritten tracep i m (λ j l. h' j (omega arith)))
print_lines tracep table i (suc n) m h h' =
    let here : tracep i ≡ some (table i) = h i (omega arith) in
    let rest =
      print_lines tracep table (suc i) n m (λ j l. h j (omega arith)) (λ j l. h' j (omega arith)) in
    let e : suc n + m ≡ suc (n + m) = omega arith in
    rw e (rw here (ap (λ l. some (table i) ∷ l) rest))

-- a read with room for as many bytes as there are entries
record ReadShort (s : Sched) (n : ℕ) (r : Sched × ℕ) : Type 0 where
  bytes : r.1 ≡ n / 16 * 16
  emptied : r.0.trace_index ≡ 0
  same : (i : ℕ) → i < n → r.0.trace_table i ≡ s.trace_table i

zsrm_read-ReadShort :
    (k : Kernel) (n : ℕ) (s : Sched) → 0 < n → n ≤ s.trace_index → ReadShort s n (zsrm_read k n s)
unfolding zsrm_read ask
zsrm_read-ReadShort k n s h l = elim (Option-cases (k.dumpdebuglog s.asked)) [
  | inl e ↦ rw e (record { bytes = ground arith; emptied = refl; same = λ i b. refl })
  | inr (log, e) ↦
      let grown = add_trace_records-Grown log (ask s) in
      let longer = grown.longer in
      rw e (record {
        bytes = ground arith;
        emptied = refl;
        same = λ i b. grown.same i (omega (arith, l));
      })
]

-- The call ended without a value, printed the first entries of the trace, one for each 16 of them, and then lines
-- from memory that nothing has written, and left the trace empty.
abbrev pub Printed : Sched → Option (Sched × Returned × List (Option TraceRec)) → Type 0
Printed s none = ⊥
Printed s (some (s', ret, printed)) =
    (ret ≡ none)
    × (printed
        ≡ lines s.trace_table 0 (s.trace_index / 16)
          ++ unwritten (s.trace_index / 16 * 16 - s.trace_index / 16))
    × (s'.trace_index ≡ 0)

print_memory :
    (s' : Sched) (table : ℕ → TraceRec) (n bytes : ℕ)
    → bytes ≡ n / 16 * 16
    → ((i : ℕ) → i < n → s'.trace_table i ≡ table i)
    → print_from (memory_after s' bytes) 0 bytes
      ≡ lines table 0 (n / 16) ++ unwritten (n / 16 * 16 - n / 16)
unfolding memory_after
print_memory s' table n bytes e same =
    let split : bytes ≡ n / 16 + (n / 16 * 16 - n / 16) = omega arith in
    let within : bytes / 16 ≡ n / 16 = omega arith in
    subst
      (λ b.
        print_from (memory_after s' bytes) 0 b
        ≡ lines table 0 (n / 16) ++ unwritten (n / 16 * 16 - n / 16))
      (sym split)
      (print_lines (memory_after s' bytes) table 0 (n / 16) (n / 16 * 16 - n / 16)
        (λ j l.
          let b : ltb j (bytes / 16) ≡ true = lt→ltb j (bytes / 16) (omega arith) in
          rw b (ap (λ (r : TraceRec). some r) (same j (omega arith))))
        (λ j l. let b : ltb j (bytes / 16) ≡ false = ground arith in rw b refl))

read_and_print-Printed :
    (k : Kernel) (s0 s : Sched)
    → 0 < s0.trace_index
    → s.trace_index ≡ s0.trace_index
    → s.trace_table ≡ s0.trace_table
    → Printed s0 (some (read_and_print k s0.trace_index s))
unfolding read_and_print
read_and_print-Printed k s0 s h e t =
    let n = s0.trace_index in
    let short = zsrm_read-ReadShort k n s h (omega arith) in
    let r = zsrm_read k n s in
    (
      refl,
      print_memory r.0 s0.trace_table n r.1 short.bytes
          (λ i l. short.same i l ∙ ap (λ (f : ℕ → TraceRec). f i) t),
      short.emptied,
    )

-- A trace with entries is printed, with memory allocated and nothing done by others between the two
-- system calls. The number of entries is taken for the room in bytes, and the number of bytes read
-- for that of entries: the first sixteenth of the entries, rounded down, is printed in order, then
-- 15 lines of unwritten memory for each entry printed, the trace is emptied, and the call ends
-- without a value.
pub zsv_write_trace-Printed :
    (k : Kernel) (others : Sched → Sched) (asleep : Serial → Serial) (z : ℕ) (unset : ApiCall)
    → (fd : ℤ) (s : Sched) → 0 < s.trace_index
    → Printed s (zsv_write_trace k others asleep z unset true (λ s. s) fd s)
unfolding zsv_write_trace serve zsrm_write run_command enter_kernel zsv_get_trace_size
zsv_write_trace-Printed k others asleep z unset fd s h =
    let some_entries : ltb 0 s.trace_index ≡ true = lt→ltb 0 s.trace_index h in
    rw some_entries (read_and_print-Printed k s (enter_kernel k s) h refl refl)
