-- ===== src/Sched/Invariant/Commands.antt =====
-- The commands of src/zsrmv.c, but for those that set up a reserve, keep the invariant of the
-- scheduler.
use mixed_trust_zsrmv_public.Base.{
  ℕ, ◌*◌, ◌<◌, ◌≡◌, refl, inl, inr, Bool, true, false, Option, none, some, List, arith, leb, ltb,
  ◌==◌, Bool-cases, Option-cases, if◌then◌else◌,
}
use mixed_trust_zsrmv_public.Base.Int.{ℤ, pos, negsuc, pos_part}
use mixed_trust_zsrmv_public.Links.{max_reserves}
use mixed_trust_zsrmv_public.Serial.{Serial}
use mixed_trust_zsrmv_public.Sched.{Kernel, Sched, ask, enter_kernel, add_trace_records}
use mixed_trust_zsrmv_public.Sched.Budget.Keeps.{add_trace_records-Keeps}
use mixed_trust_zsrmv_public.Sched.Commands.{
  Command, wait_period, create_rsv, attach_rsv, delete_rsv, cmd_get_wcet_ns, cmd_get_acet_ns,
  nowait_period, cmd_capture_enforcement_signal, get_trace_size, end_period, wait_release,
  send_serial, send_serial_finish, init_serial, recv_serial, cmd_test_reserve, sim_crash, unknown,
  ApiCall, Reply, reply, set_signal, capture_enforcement_signal, valid_rid, active_rid, send_bytes,
  send, receive, test_create, test_reserve, hypmtscheduler_time_1sec,
}
use mixed_trust_zsrmv_public.Sched.Api.{
  if_active, at_index, run_command, zsrm_write, zsrm_read, Down, taken, interrupted, device_write,
  api_call_size,
}
use mixed_trust_zsrmv_public.Sched.Invariant.{Sound, Keeps-Sound, same-Sound}
use mixed_trust_zsrmv_public.Sched.Invariant.Life.{delete_reserve-Sound}
use mixed_trust_zsrmv_public.Sched.Invariant.Jobs.{
  on-Sound, emit-Sound, ask-Sound, wait_for_next_period-Sound, end_of_period-Sound,
  wait_for_next_release-Sound,
}
use mixed_trust_zsrmv_public.Sched.Invariant.Tasks.{enter_kernel-Sound}

-- the commands that create a reserve or attach a task to it
abbrev pub sets_up : Command → Bool
sets_up create_rsv = true
sets_up attach_rsv = true
sets_up _ = false

-- the state after a command, if there is one, satisfies the invariant
abbrev pub SoundReply : Option (Sched × Reply) → Type 0
SoundReply none = Unit
SoundReply (some r) = Sound r.0

at_index-Sound :
    (rid : ℤ) (run : ℕ → Sched × Reply)
    → (pos_part rid < max_reserves → Sound (run (pos_part rid)).0)
    → SoundReply (at_index rid run)
unfolding at_index
at_index-Sound (negsuc n) run f = tt
at_index-Sound (pos n) run f = elim (Bool-cases (ltb n max_reserves)) [
  | inl b ↦ rw b (f (ground arith))
  | inr b ↦ rw b tt
]

if_valid-Sound :
    (b : Bool) (rid : ℤ) (run : ℕ → Sched × Reply) (y : Sched × Reply)
    → (pos_part rid < max_reserves → Sound (run (pos_part rid)).0)
    → Sound y.0
    → SoundReply (if b then at_index rid run else some y)
if_valid-Sound true rid run y f h = at_index-Sound rid run f
if_valid-Sound false rid run y f h = h

if_active-Sound :
    (rid : ℤ) (run : ℕ → Sched → Sched × Reply) (s : Sched)
    → (pos_part rid < max_reserves → Sound s → Sound (run (pos_part rid) s).0)
    → Sound s
    → SoundReply (if_active rid run s)
unfolding if_active
if_active-Sound rid run s f h =
    if_valid-Sound (active_rid s.reserve_table rid) rid (λ i. run i s) _ (λ l. f l h) h

capture-Sound :
    (rid pid signo : ℤ) (s : Sched) → Sound s → Sound (capture_enforcement_signal rid pid signo s).0
unfolding capture_enforcement_signal set_signal
capture-Sound (negsuc n) pid signo s h = h
capture-Sound (pos rid) pid signo s h = elim (Bool-cases (leb max_reserves rid)) [
  | inl b ↦ rw b h
  | inr b ↦ rw b (on-Sound rid _ s (λ r. refl) (λ r. refl) h)
]

send_bytes-Sound : (bytes : List ℕ) (s : Sched) → Sound s → Sound (send_bytes bytes s).0
unfolding send_bytes
send_bytes-Sound bytes s h = same-Sound s _ refl refl refl refl h

module _ (k : Kernel) where
  send-Sound :
      (rid : ℕ) (bytes : List ℕ) (s : Sched)
      → rid < max_reserves
      → Sound s
      → Sound (send k rid bytes true s).0
  unfolding send
  send-Sound rid bytes s l h =
      elim (Bool-cases
        (leb s.kernel_entry_timestamp_ticks (s.reserve_table rid).current_job_deadline_ticks)) [
          | inl b ↦ rw b (wait_for_next_period-Sound k rid true _ l (send_bytes-Sound bytes s h))
          | inr b ↦ rw b (wait_for_next_period-Sound k rid false s l h)
        ]

  handle-Sound :
      (o : Option ℕ) (s : Sched) (f : ℕ → Sched)
      → Sound s
      → ((n : ℕ) → Sound (f n))
      → let r : Sched = elim o [ none ↦ s | some n ↦ f n ] in Sound r
  handle-Sound none s f h g = h
  handle-Sound (some n) s f h g = g n

  test_create-Sound : (s : Sched) → Sound s → Sound (test_create k s)
  unfolding test_create
  test_create-Sound s0 h =
      let second = 2 * hypmtscheduler_time_1sec in
      let o1 = k.createhyptask s0.asked hypmtscheduler_time_1sec second (pos 10) 0 in
      let h1 =
        handle-Sound o1 (ask s0) (λ n. record (ask s0) { hyptask_handle1 = n }) (ask-Sound s0 h)
          (λ n. same-Sound (ask s0) _ refl refl refl refl (ask-Sound s0 h)) in
      let s1 : Sched = elim o1 [
        | none ↦ ask s0
        | some n ↦ record (ask s0) { hyptask_handle1 = n }
      ] in
      handle-Sound _ (ask s1) (λ n. record (ask s1) { hyptask_handle2 = n }) (ask-Sound s1 h1)
        (λ n. same-Sound (ask s1) _ refl refl refl refl (ask-Sound s1 h1))

  test_reserve-Sound : (option : ℤ) (s : Sched) → Sound s → Sound (test_reserve k option s).0
  unfolding test_reserve
  test_reserve-Sound (negsuc n) s h = h
  test_reserve-Sound (pos option) s h = elim (Bool-cases (option == 0)) [
    | inl b ↦ rw b (test_create-Sound s h)
    | inr b ↦ elim (Bool-cases (option == 1)) [
      | inl c ↦ rw (b, c) (emit-Sound _ _ (emit-Sound _ s h))
      | inr c ↦ rw (b, c) h
    ]
  ]

module _ (k : Kernel) (asleep : Serial → Serial) (z : ℕ) (call : ApiCall) where
  -- a command while nobody else acts
  abbrev alone : Command → Sched → Option (Sched × Reply)
  alone cmd s = run_command k (λ s. s) asleep z cmd call s

  run_command-Sound :
      (cmd : Command) (s : Sched) → sets_up cmd ≡ false → Sound s → SoundReply (alone cmd s)
  unfolding run_command receive
  run_command-Sound wait_period s e h =
      if_active-Sound call.rid _ s (λ l h. wait_for_next_period-Sound k _ true s l h) h
  run_command-Sound nowait_period s e h =
      if_active-Sound call.rid _ s (λ l h. wait_for_next_period-Sound k _ true s l h) h
  run_command-Sound end_period s e h =
      if_active-Sound call.rid _ s (λ l h. end_of_period-Sound k _ s l h) h
  run_command-Sound wait_release s e h =
      if_active-Sound call.rid _ s (λ l h. wait_for_next_release-Sound k _ s l h) h
  run_command-Sound attach_rsv s e h = absurd cc
  run_command-Sound create_rsv s e h = absurd cc
  run_command-Sound delete_rsv s e h =
      if_valid-Sound (valid_rid call.rid) call.rid _ _
        (λ l. delete_reserve-Sound k (pos_part call.rid) s h) h
  run_command-Sound cmd_get_wcet_ns s e h =
      if_valid-Sound (valid_rid call.rid) call.rid _ _ (λ l. h) h
  run_command-Sound cmd_get_acet_ns s e h = at_index-Sound call.rid _ (λ l. h)
  run_command-Sound cmd_capture_enforcement_signal s e h =
      if_valid-Sound (valid_rid call.rid) call.rid _ _
        (λ l. capture-Sound (pos (pos_part call.rid)) call.pid call.priority s h) h
  run_command-Sound get_trace_size s e h = h
  run_command-Sound send_serial s e h = send_bytes-Sound call.buffer s h
  run_command-Sound send_serial_finish s e h =
      at_index-Sound call.rid _ (λ l. send-Sound k (pos_part call.rid) call.buffer s l h)
  run_command-Sound init_serial s e h = emit-Sound _ s h
  run_command-Sound recv_serial s e h = same-Sound s _ refl refl refl refl h
  run_command-Sound cmd_test_reserve s e h = test_reserve-Sound k call.rid s h
  run_command-Sound sim_crash s e h = h
  run_command-Sound unknown s e h = h

  zsrm_write-Sound :
      (cmd : Command) (s : Sched)
      → sets_up cmd ≡ false
      → Sound s
      → SoundReply (zsrm_write k (λ s. s) asleep z cmd call s)
  unfolding zsrm_write
  zsrm_write-Sound cmd s e h = run_command-Sound cmd (enter_kernel k s) e (enter_kernel-Sound k s h)

  within :
      (b : Bool) (x : Option (Sched × Reply)) → SoundReply x → SoundReply (if b then none else x)
  within true x h = tt
  within false x h = h

  pub device_write-Sound :
      (count : ℕ) (copied : Bool) (down : Down) (cmd : Command) (s : Sched)
      → sets_up cmd ≡ false
      → Sound s
      → SoundReply (device_write k (λ s. s) asleep z count copied down cmd call s)
  unfolding device_write
  device_write-Sound count false down cmd s e h =
      within (ltb api_call_size count) (some (s, reply (negsuc 13) false)) h
  device_write-Sound count true (interrupted n) cmd s e h =
      within (ltb api_call_size count) (some (s, reply (negsuc n) false)) h
  device_write-Sound count true taken cmd s e h =
      within (ltb api_call_size count) (zsrm_write k (λ s. s) asleep z cmd call s)
        (zsrm_write-Sound cmd s e h)

pub zsrm_read-Sound : (k : Kernel) (size : ℕ) (s : Sched) → Sound s → Sound (zsrm_read k size s).0
unfolding zsrm_read
zsrm_read-Sound k size s h = elim (Option-cases (k.dumpdebuglog s.asked)) [
  | inl e ↦ rw (e, zsrm_read) (same-Sound (ask s) _ refl refl refl refl (ask-Sound s h))
  | inr (log, e) ↦
      let logged = add_trace_records log (ask s) in
      let h1 = Keeps-Sound (ask s) logged (add_trace_records-Keeps log (ask s)) (ask-Sound s h) in
      rw (e, zsrm_read) (same-Sound logged _ refl refl refl refl h1)
]
