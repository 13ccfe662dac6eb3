-- ===== src/Examples.antt =====
-- Runs of the model on small task sets: the theorems at concrete reserves, queues and buffers.
mod Runs
mod Lines
mod Programs
mod Steps
use mixed_trust_zsrmv_public.Base.{
  ℕ, ◌+◌, ◌-◌, ◌*◌, ◌≡◌, refl, Bool, true, false, none, some, [], ◌∷◌, arith, if◌then◌else◌, ◌==◌,
  u64,
}
use mixed_trust_zsrmv_public.Base.Int.{pos}
use mixed_trust_zsrmv_public.Links.{Queue}
use mixed_trust_zsrmv_public.Reserve.{Table, zero_reserve}
use mixed_trust_zsrmv_public.RmQueue.{RmQueue, add_rm_queue, del_rm_queue}
use mixed_trust_zsrmv_public.RmQueue.Order.{IsRmQueue, rm_insert}
use mixed_trust_zsrmv_public.RmQueue.Laws.{add_rm_queue-IsRmQueue}
use mixed_trust_zsrmv_public.RmQueue.Remove.{del_rm_queue-IsRmQueue}
use mixed_trust_zsrmv_public.RmQueue.Twice.{cut_at, Cut, add_rm_queue-Cut}
use mixed_trust_zsrmv_public.CritQueue.{add_crit_blocked, add_crit_stack}
use mixed_trust_zsrmv_public.CritQueue.Order.{IsCritQueue, crit_insert}
use mixed_trust_zsrmv_public.CritQueue.Laws.{add_crit_blocked-IsCritQueue}
use mixed_trust_zsrmv_public.CritQueue.Twice.{Looped, add_crit_blocked-Looped}
use mixed_trust_zsrmv_public.Ring.{Ring}
use mixed_trust_zsrmv_public.Serial.{
  Serial, serial_receiving_buffer_write, serial_receiving_buffer_read, serial_sending_buffer_write,
  serial_sending_buffer_read,
}
use mixed_trust_zsrmv_public.Serial.Laws.{
  Carries, Read, serial_receiving_buffer_write-Carries, serial_receiving_buffer_read-Read,
  serial_sending_buffer_write-Carries, serial_sending_buffer_read-Read,
}
use mixed_trust_zsrmv_public.Stack.{Stack, push_to_reschedule, pop_to_reschedule}
use mixed_trust_zsrmv_public.Stack.Laws.{
  IsStack, Pushed, Popped, push_to_reschedule-Pushed, pop_to_reschedule-Popped,
}
use mixed_trust_zsrmv_public.Admission.{
  value, admit, get_response_time_crit_ns, response_round, get_rm_interference, get_next_in_set,
  is_higher_prio_higher_crit,
}
use mixed_trust_zsrmv_public.Admission.Sets.{Next, get_next_in_set-Next}
use mixed_trust_zsrmv_public.Admission.Demand.{HavePeriods}
use mixed_trust_zsrmv_public.Admission.Response.{
  IsResponse, crit_demand, rm_demand, response_round-crit_demand, get_rm_interference-rm_demand,
  get_response_time_crit_ns-value,
}
use mixed_trust_zsrmv_public.Admission.Verdict.{Verdict, admit-Verdict}

-- reserves whose periods grow and whose criticalities fall with their index
abbrev tasks : Table
tasks i = record zero_reserve {
  rid = i;
  pid = pos (100 + i);
  period_ns = 10 + 10 * i;
  exectime_ns = 2 + i;
  nominal_exectime_ns = 1 + i;
  criticality = pos (5 - i);
}

tasks-HavePeriods : HavePeriods tasks 3
tasks-HavePeriods i h used = omega arith

admit-Verdict_example :
    (table : Table) × (ok : Bool) × (z : ℕ) × (admit tasks 3 1 ≡ value (table, ok, z))
    × Verdict tasks 3 1 tasks-HavePeriods table ok z
admit-Verdict_example = admit-Verdict tasks 3 1 tasks-HavePeriods

get_response_time_crit_ns-value_example :
    (r : ℕ) × (get_response_time_crit_ns tasks 3 1 ≡ value r) × IsResponse tasks 3 1 r
get_response_time_crit_ns-value_example =
    get_response_time_crit_ns-value tasks 3 1 tasks-HavePeriods

response_round-crit_demand_example :
    response_round tasks 3 1 7 ≡ value (u64 (crit_demand tasks 3 1 7))
response_round-crit_demand_example = response_round-crit_demand tasks 3 1 tasks-HavePeriods 7

get_rm_interference-rm_demand_example :
    get_rm_interference tasks 3 2 15 ≡ value (u64 (rm_demand tasks 3 2 15))
get_rm_interference-rm_demand_example = get_rm_interference-rm_demand tasks 3 2 tasks-HavePeriods 15

get_next_in_set-Next_example :
    Next tasks 2 is_higher_prio_higher_crit 0 3
      (get_next_in_set tasks (pos 0) 3 2 is_higher_prio_higher_crit)
get_next_in_set-Next_example = get_next_in_set-Next tasks 2 is_higher_prio_higher_crit 0 3

-- the reserves 0 and 2 in a queue
abbrev two : Queue
two = record { head = some 0; link = λ i. if i == 0 then some 2 else none }

abbrev rm_two : RmQueue
rm_two = record { queue = two; rm_queue_size = pos 2 }

rm_two-IsRmQueue : IsRmQueue tasks rm_two (0 ∷ 2 ∷ [])
rm_two-IsRmQueue = record {
  chain = (refl, (refl, refl));
  distinct = (refl, (refl, tt));
  reserves = ((omega arith, refl), ((omega arith, refl), tt));
  sorted = ((omega arith, tt), (tt, tt));
  size = refl;
}

add_rm_queue-IsRmQueue_example :
    ((add_rm_queue tasks rm_two 1).1 ≡ true)
    × IsRmQueue tasks (add_rm_queue tasks rm_two 1).0 (rm_insert tasks 1 (0 ∷ 2 ∷ []))
add_rm_queue-IsRmQueue_example =
    add_rm_queue-IsRmQueue tasks rm_two 1 (0 ∷ 2 ∷ []) rm_two-IsRmQueue (omega arith, refl) refl

del_rm_queue-IsRmQueue_example : IsRmQueue tasks (del_rm_queue rm_two 2) (0 ∷ [])
del_rm_queue-IsRmQueue_example = del_rm_queue-IsRmQueue tasks rm_two 2 (0 ∷ 2 ∷ []) rm_two-IsRmQueue

add_rm_queue-Cut_example : Cut tasks rm_two 0 (0 ∷ []) (add_rm_queue tasks rm_two 0)
unfolding cut_at
add_rm_queue-Cut_example = add_rm_queue-Cut tasks rm_two 0 (0 ∷ 2 ∷ []) rm_two-IsRmQueue refl

two-IsCritQueue : IsCritQueue tasks two (0 ∷ 2 ∷ [])
two-IsCritQueue = record {
  chain = (refl, (refl, refl));
  distinct = (refl, (refl, tt));
  reserves = ((omega arith, refl), ((omega arith, refl), tt));
  sorted = ((omega arith, tt), (tt, tt));
}

add_crit_blocked-IsCritQueue_example :
    ((add_crit_blocked tasks two 1).1 ≡ true)
    × IsCritQueue tasks (add_crit_blocked tasks two 1).0 (crit_insert tasks 1 (0 ∷ 2 ∷ []))
add_crit_blocked-IsCritQueue_example =
    add_crit_blocked-IsCritQueue tasks 1 two (0 ∷ 2 ∷ []) two-IsCritQueue (omega arith, refl) refl

add_crit_blocked-Looped_example : Looped tasks 2 (add_crit_blocked tasks two 2)
add_crit_blocked-Looped_example =
    add_crit_blocked-Looped tasks 2 two 0 [] [] (refl, (refl, refl)) (omega arith, tt)
      ((omega arith, refl), tt) (omega arith, refl) refl (omega arith)

abbrev hello : Ring
hello = record { buffer = λ i. 104 + i; reading_index = 0; writing_index = 2 }

abbrev port : Serial
port = record {
  receiving = hello;
  serial_data_dropped = false;
  reader_wakeups = 0;
  sending = hello;
  sender_wakeups = 0;
}

port-Carries : Carries port (104 ∷ 105 ∷ []) (104 ∷ 105 ∷ [])
port-Carries = record {
  received = record {
    reading_in_range = omega arith;
    fits = omega arith;
    writing = refl;
    slots = (refl, (refl, tt));
  };
  to_send = record {
    reading_in_range = omega arith;
    fits = omega arith;
    writing = refl;
    slots = (refl, (refl, tt));
  };
}

serial_receiving_buffer_write-Carries_example :
    let (s', wrote) = serial_receiving_buffer_write port (7 ∷ []) in
    Carries s' (104 ∷ 105 ∷ 7 ∷ []) (104 ∷ 105 ∷ [])
    × (wrote ≡ 1)
    × (s'.serial_data_dropped ≡ false)
serial_receiving_buffer_write-Carries_example =
    serial_receiving_buffer_write-Carries port (104 ∷ 105 ∷ []) (104 ∷ 105 ∷ []) port-Carries
      (7 ∷ [])

serial_receiving_buffer_read-Read_example :
    Read (105 ∷ []) (104 ∷ 105 ∷ []) (104 ∷ []) (serial_receiving_buffer_read (λ s. s) port 1)
serial_receiving_buffer_read-Read_example =
    serial_receiving_buffer_read-Read (λ s. s) port (104 ∷ 105 ∷ []) (104 ∷ 105 ∷ [])
      (104 ∷ 105 ∷ []) (104 ∷ 105 ∷ []) 1 port-Carries port-Carries

serial_sending_buffer_write-Carries_example :
    let (s', wrote) = serial_sending_buffer_write port (7 ∷ []) in
    Carries s' (104 ∷ 105 ∷ []) (104 ∷ 105 ∷ 7 ∷ []) × (wrote ≡ 1)
serial_sending_buffer_write-Carries_example =
    serial_sending_buffer_write-Carries port (104 ∷ 105 ∷ []) (104 ∷ 105 ∷ []) port-Carries (7 ∷ [])

serial_sending_buffer_read-Read_example :
    let (s', read) = serial_sending_buffer_read port 1 in
    Carries s' (104 ∷ 105 ∷ []) (105 ∷ []) × (read ≡ 104 ∷ [])
serial_sending_buffer_read-Read_example =
    serial_sending_buffer_read-Read port (104 ∷ 105 ∷ []) (104 ∷ 105 ∷ []) 1 port-Carries

abbrev pending : Stack
pending = record { stack = λ i. 8 + i; top = pos 1 }

pending-IsStack : IsStack pending (9 ∷ 8 ∷ [])
pending-IsStack = record { items = (refl, (refl, tt)); top = refl; fits = omega arith }

push_to_reschedule-Pushed_example : Pushed pending 4 (9 ∷ 8 ∷ []) (push_to_reschedule pending 4)
push_to_reschedule-Pushed_example = push_to_reschedule-Pushed pending (9 ∷ 8 ∷ []) pending-IsStack 4

pop_to_reschedule-Popped_example : Popped pending (9 ∷ 8 ∷ []) (pop_to_reschedule pending)
pop_to_reschedule-Popped_example = pop_to_reschedule-Popped pending (9 ∷ 8 ∷ []) pending-IsStack
