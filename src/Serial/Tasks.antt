-- ===== src/Serial/Tasks.antt =====
-- The two kernel tasks of src/zsrmv.c that move bytes between the serial buffers and the
-- hypervisor's serial line. What the system answers is a parameter (Answers): each answer depends on
-- how many questions were asked before. Statistics that only reports read are left out.
pub mod Sending
pub mod Drain
pub mod Receiving
use mixed_trust_zsrmv_public.Base.{
  ℕ, zero, suc, ◌+◌, Bool, true, false, Option, none, some, List, [], ◌∷◌, ◌++◌, ltb, if◌then◌else◌,
  length, take, drop,
}
use mixed_trust_zsrmv_public.Serial.{
  Serial, serial_receiving_buffer_write, serial_sending_buffer_read,
}

-- `mavlinkserhb_recv` gives the bytes that were read and whether the line is exhausted, or fails.
pub record Answers : Type 0 where
  pub kthread_should_stop : ℕ → Bool
  pub serial_is_reception_stopped : ℕ → Bool
  pub mavlinkserhb_recv : ℕ → Option (List ℕ × Bool)

-- `sent` are the batches that were given to mavlinkserhb_send, oldest first; `rts` is the pin that
-- stops the other side's transmission
pub record Task : Type 0 where
  pub serial : Serial
  pub sent : List (List ℕ)
  pub sleeps : ℕ
  pub rts : Bool
  pub asked : ℕ

-- while (serial_is_reception_stopped() && !kthread_should_stop()) usleep_range(590, 600): the number
-- of questions afterwards, or `none` if the fuel is used up
unfoldable pub wait_for_reception : Answers → ℕ → ℕ → Option ℕ
wait_for_reception a zero n = none
wait_for_reception a (suc polls) n = elim (a.serial_is_reception_stopped n) [
  | false ↦ some (suc n)
  | true ↦ elim (a.kthread_should_stop (suc n)) [
    | true ↦ some (suc (suc n))
    | false ↦ wait_for_reception a polls (suc (suc n))
  ]
]

-- (read - sending_index > 8) ? 8 : (read - sending_index), where `bytes` are those from the index on
abbrev pub batch_size : List ℕ → ℕ
batch_size bytes = if ltb 8 (length bytes) then 8 else length bytes

unfoldable pub send_batch : List ℕ → ℕ → Task → Task
send_batch bytes n t = record t { sent = t.sent ++ take (batch_size bytes) bytes ∷ []; asked = n }

-- while (sending_index < read && !kthread_should_stop()): the batches
unfoldable pub send_from : Answers → ℕ → ℕ → List ℕ → Task → Option Task
send_from a polls zero bytes t = none
send_from a polls (suc rounds) [] t = some t
send_from a polls (suc rounds) (b ∷ bs) t = elim (a.kthread_should_stop t.asked) [
  | true ↦ some (record t { asked = suc t.asked })
  | false ↦ elim (wait_for_reception a polls (suc t.asked)) [
    | none ↦ none
    | some n ↦
        send_from a polls rounds (drop (batch_size (b ∷ bs)) (b ∷ bs)) (send_batch (b ∷ bs) n t)
  ]
]

-- set_current_state(TASK_INTERRUPTIBLE); schedule()
unfoldable pub sleep : Task → Task
sleep t = record t { sleeps = suc t.sleeps }

-- one round of the loop of serial_sending_task: a read of 100 bytes, and its batches or a sleep
unfoldable pub sending_round : Answers → ℕ → ℕ → Task → Option Task
sending_round a polls rounds t =
    let (serial', bytes) = serial_sending_buffer_read t.serial 100 in
    let t' = record t { serial = serial' } in
    if ltb 0 (length bytes) then send_from a polls rounds bytes t' else some (sleep t')

-- while (sending_task_active && !kthread_should_stop()), as long as the module does not exit, which
-- clears sending_task_active
unfoldable pub sending_loop : Answers → ℕ → ℕ → ℕ → Task → Option Task
sending_loop a polls rounds zero t = none
sending_loop a polls rounds (suc fuel) t = elim (a.kthread_should_stop t.asked) [
  | true ↦ some (record t { asked = suc t.asked })
  | false ↦ elim (sending_round a polls rounds (record t { asked = suc t.asked })) [
    | none ↦ none
    | some t' ↦ sending_loop a polls rounds fuel t'
  ]
]

-- while (!kthread_should_stop()) around it
unfoldable pub serial_sending_task : Answers → ℕ → ℕ → ℕ → Task → Option Task
serial_sending_task a polls rounds zero t = none
serial_sending_task a polls rounds (suc fuel) t = elim (a.kthread_should_stop t.asked) [
  | true ↦ some (record t { asked = suc t.asked })
  | false ↦ elim (sending_loop a polls rounds fuel (record t { asked = suc t.asked })) [
    | none ↦ none
    | some t' ↦ serial_sending_task a polls rounds fuel t'
  ]
]

-- the bytes of one mavlinkserhb_recv go into the receiving buffer
unfoldable pub store : List ℕ → Task → Task
store bytes t =
    if ltb 0 (length bytes)
    then record t { serial = (serial_receiving_buffer_write t.serial bytes).0 }
    else t

-- one read of the line; a failure counts as exhausted
unfoldable pub receive_one : Answers → Task → Bool × Task
receive_one a t = elim (a.mavlinkserhb_recv t.asked) [
  | none ↦ (true, record t { asked = suc t.asked })
  | some (bytes, exhausted) ↦ (exhausted, store bytes (record t { asked = suc t.asked }))
]

-- do ... while (!readbufferexhausted || kthread_should_stop())
unfoldable pub receive_from : Answers → ℕ → Task → Option Task
receive_from a zero t = none
receive_from a (suc rounds) t =
    let (exhausted, t1) = receive_one a t in
    elim exhausted [
      | false ↦ receive_from a rounds t1
      | true ↦ elim (a.kthread_should_stop t1.asked) [
        | true ↦ receive_from a rounds (record t1 { asked = suc t1.asked })
        | false ↦ some (record t1 { asked = suc t1.asked })
      ]
    ]

-- one round of serial_receiver_task, with the other side's transmission stopped meanwhile
unfoldable pub receiver_round : Answers → ℕ → Task → Option Task
receiver_round a rounds t = elim (receive_from a rounds (record t { rts = true })) [
  | none ↦ none
  | some t1 ↦
      let t2 = record t1 { rts = false; asked = suc t1.asked } in
      some (if a.kthread_should_stop t1.asked then t2 else sleep t2)
]

-- while (!kthread_should_stop())
unfoldable pub serial_receiver_task : Answers → ℕ → ℕ → Task → Option Task
serial_receiver_task a rounds zero t = none
serial_receiver_task a rounds (suc fuel) t = elim (a.kthread_should_stop t.asked) [
  | true ↦ some (record t { asked = suc t.asked })
  | false ↦ elim (receiver_round a rounds (record t { asked = suc t.asked })) [
    | none ↦ none
    | some t' ↦ serial_receiver_task a rounds fuel t'
  ]
]
