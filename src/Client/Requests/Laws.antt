-- ===== src/Client/Requests/Laws.antt =====
-- The scheduler reads no field of a request that the library leaves unset.
use mixed_trust_zsrmv_public.Base.{ℕ, ◌≡◌, refl, List}
use mixed_trust_zsrmv_public.Base.Int.{ℤ}
use mixed_trust_zsrmv_public.Reserve.{Timespec}
use mixed_trust_zsrmv_public.Serial.{Serial}
use mixed_trust_zsrmv_public.Sched.{Kernel, Sched}
use mixed_trust_zsrmv_public.Sched.Commands.{ApiCall, create_reserve, create_times}
use mixed_trust_zsrmv_public.Sched.Api.{run_command, zsrm_write}
use mixed_trust_zsrmv_public.Client.Requests.{
  Request, zsv_create_reserve, zsv_attach_reserve, zsv_get_wcet_ns, zsv_get_trace_size,
  zsv_get_acet_ns, zsv_wait_period, zsv_wait_release, zsv_end_period, zsv_nowait_period,
  zsv_delete_reserve, zsv_capture_budget_enforcement_signal, zsv_test_reserve, zsv_mtserial_init,
  zsv_mtserial_recv, zsv_mtserial_send, zsv_mtserial_send_finish, zsv_simulate_crash, serve,
}

module _ (k : Kernel) (others : Sched → Sched) (asleep : Serial → Serial) (z : ℕ)
    (before before' : ApiCall) (s : Sched) (fd : ℤ) where
  -- the request has the same effect and reply whatever the memory of the call held
  abbrev pub Same : (ApiCall → Request) → Type 0
  Same request =
      serve k others asleep z (request before) s ≡ serve k others asleep z (request before') s

  -- Whatever the memory of `struct api_call` held before the library filled in its fields, the
  -- creation of a reserve leaves the scheduler in the same state with the same reply.
  pub zsv_create_reserve-Same :
      (period zsinstant hyp_enforcer exec nominal_exec : Timespec) (priority criticality : ℤ)
      → Same (λ unset.
        zsv_create_reserve unset fd period zsinstant hyp_enforcer exec nominal_exec priority
          criticality)
  unfolding serve zsrm_write run_command create_reserve create_times zsv_create_reserve
  zsv_create_reserve-Same period zsinstant hyp_enforcer exec nominal_exec priority criticality =
      refl

  -- The same holds of the other requests: attaching and deleting a reserve, waiting for a period or
  -- a release, ending a period, capturing the enforcement signal, reading the execution times, the
  -- size of the trace, testing, and initialising, reading and writing the serial line.
  pub requests-Same :
      (rid pid signo : ℤ) (buffer : List ℕ) (length : ℕ)
      → Same (λ unset. zsv_attach_reserve unset fd pid rid)
        × Same (λ unset. zsv_delete_reserve unset fd rid)
        × Same (λ unset. zsv_wait_period unset fd rid)
        × Same (λ unset. zsv_nowait_period unset fd rid)
        × Same (λ unset. zsv_wait_release unset fd rid)
        × Same (λ unset. zsv_end_period unset fd rid)
        × Same (λ unset. zsv_capture_budget_enforcement_signal unset fd rid pid signo)
        × Same (λ unset. zsv_get_wcet_ns unset fd rid)
        × Same (λ unset. zsv_get_acet_ns unset fd rid)
        × Same (λ unset. zsv_get_trace_size unset fd)
        × Same (λ unset. zsv_test_reserve unset fd rid)
        × Same (λ unset. zsv_mtserial_init unset fd rid)
        × Same (λ unset. zsv_mtserial_recv unset fd rid buffer length)
        × Same (λ unset. zsv_mtserial_send unset fd rid buffer length)
        × Same (λ unset. zsv_mtserial_send_finish unset fd rid buffer length)
        × Same (λ unset. zsv_simulate_crash unset fd)
  unfolding serve zsrm_write run_command zsv_attach_reserve zsv_delete_reserve zsv_wait_period
      zsv_nowait_period zsv_wait_release zsv_end_period zsv_capture_budget_enforcement_signal
      zsv_get_wcet_ns zsv_get_acet_ns zsv_get_trace_size zsv_test_reserve zsv_mtserial_init
      zsv_mtserial_recv zsv_mtserial_send zsv_mtserial_send_finish zsv_simulate_crash
  requests-Same rid pid signo buffer length = (
    refl, refl, refl, refl, refl, refl, refl, refl, refl, refl, refl, refl, refl, refl, refl, refl,
  )
