-- ===== src/Examples/Lines.antt =====
-- The serial tasks and busy_timestamped at concrete answers of the system.
use mixed_trust_zsrmv_public.Base.{
  ℕ, ◌≡◌, refl, true, false, none, some, [], ◌∷◌, arith, if◌then◌else◌, ◌==◌, leb,
}
use mixed_trust_zsrmv_public.Reserve.{Timespec}
use mixed_trust_zsrmv_public.Ring.{Ring}
use mixed_trust_zsrmv_public.Serial.{serial_sending_buffer_write}
use mixed_trust_zsrmv_public.Serial.Laws.{Carries}
use mixed_trust_zsrmv_public.Serial.Tasks.{Answers, Task, receiver_round, receive_from}
use mixed_trust_zsrmv_public.Serial.Tasks.Sending.{Willing}
use mixed_trust_zsrmv_public.Serial.Tasks.Drain.{Drained, after_rounds, handed_over-Drained}
use mixed_trust_zsrmv_public.Serial.Tasks.Receiving.{
  Received, receiver_round-stuck, receive_from-Received,
}

-- reception is stopped at every other question
abbrev line : Answers
line = record {
  kthread_should_stop = λ n. false;
  serial_is_reception_stopped = λ n. leb n 3;
  mavlinkserhb_recv = λ n. if n == 0 then some (5 ∷ 6 ∷ [], false) else some (7 ∷ [], true);
}

-- a module that exits
abbrev exiting : Answers
exiting = record line { kthread_should_stop = λ n. true }

abbrev empty_ring : Ring
empty_ring = record { buffer = λ i. 0; reading_index = 0; writing_index = 0 }

abbrev idle_task : Task
idle_task = record {
  serial = record {
    receiving = empty_ring;
    serial_data_dropped = false;
    reader_wakeups = 0;
    sending = empty_ring;
    sender_wakeups = 0;
  };
  sent = [];
  sleeps = 0;
  rts = false;
  asked = 0;
}

idle_task-Carries : Carries idle_task.serial [] []
idle_task-Carries = record {
  received = record {
    reading_in_range = omega arith;
    fits = omega arith;
    writing = refl;
    slots = tt;
  };
  to_send = record {
    reading_in_range = omega arith;
    fits = omega arith;
    writing = refl;
    slots = tt;
  };
}

line-Willing : Willing line 3
line-Willing = record { runs = λ n. refl; resumes = λ n. (2, omega arith, ground arith) }

handed_over-Drained_example : Drained [] [] (1 ∷ 2 ∷ 3 ∷ []) (
    after_rounds line 3 14 11 (record idle_task {
      serial = (serial_sending_buffer_write idle_task.serial (1 ∷ 2 ∷ 3 ∷ [])).0;
    }))
handed_over-Drained_example =
    handed_over-Drained line 3 line-Willing 13 idle_task [] [] (1 ∷ 2 ∷ 3 ∷ []) (omega arith)
      idle_task-Carries (omega arith)

receiver_round-stuck_example : receiver_round exiting 50 idle_task ≡ none
receiver_round-stuck_example = receiver_round-stuck exiting 50 idle_task (λ n l. refl)

receive_from-Received_example : Received (5 ∷ 6 ∷ 7 ∷ []) [] (receive_from line 2 idle_task)
receive_from-Received_example =
    receive_from-Received line ((5 ∷ 6 ∷ []) ∷ (7 ∷ []) ∷ []) 2 idle_task [] [] (refl, (refl, refl))
      idle_task-Carries (omega arith) (omega arith)

abbrev clock : ℕ → Timespec
clock n = record { tv_sec = n; tv_nsec = 0 }
