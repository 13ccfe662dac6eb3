-- ===== src/Client/Requests.antt =====
-- The calls of lib/libzsv.c that pass one command to the scheduler. Each fills in some fields of a
-- `struct api_call` on the stack, `unset` being what the memory held before, and writes it to the
-- open device. zsv_open_scheduler and zsv_close_scheduler only open and close the device.
pub mod Laws
use mixed_trust_zsrmv_public.Base.{ℕ, Option, none, some, List}
use mixed_trust_zsrmv_public.Base.Int.{ℤ}
use mixed_trust_zsrmv_public.Reserve.{Timespec}
use mixed_trust_zsrmv_public.Serial.{Serial}
use mixed_trust_zsrmv_public.Sched.{Kernel, Sched}
use mixed_trust_zsrmv_public.Sched.Commands.{
  Command, wait_period, create_rsv, attach_rsv, delete_rsv, cmd_get_wcet_ns, cmd_get_acet_ns,
  nowait_period, cmd_capture_enforcement_signal, get_trace_size, end_period, wait_release,
  send_serial, send_serial_finish, init_serial, recv_serial, sim_crash, cmd_test_reserve, ApiCall,
  Reply,
}
use mixed_trust_zsrmv_public.Sched.Api.{zsrm_write}

-- write(schedfd, &call, sizeof(call))
pub record Request : Type 0 where
  pub schedfd : ℤ
  pub cmd : Command
  pub call : ApiCall

abbrev with_rid : ApiCall → ℤ → ApiCall
with_rid unset rid = record unset { rid = rid }

-- the buffer stands for the `length` bytes at its address
abbrev with_buffer : ApiCall → ℤ → List ℕ → ℕ → ApiCall
with_buffer unset rid buffer length = record unset { rid = rid; buffer = buffer; buf_len = length }

unfoldable pub zsv_create_reserve :
    ApiCall
    → ℤ
    → (period zsinstant hyp_enforcer exec nominal_exec : Timespec) → (priority criticality : ℤ)
    → Request
zsv_create_reserve unset fd period zsinstant hyp_enforcer exec nominal_exec priority criticality =
    record {
      schedfd = fd;
      cmd = create_rsv;
      call = record unset {
        period = period;
        zsinstant = zsinstant;
        hyp_enforcer = hyp_enforcer;
        exec = exec;
        nominal_exec = nominal_exec;
        priority = priority;
        criticality = criticality;
      };
    }

unfoldable pub zsv_attach_reserve : ApiCall → ℤ → (pid rid : ℤ) → Request
zsv_attach_reserve unset fd pid rid = record {
  schedfd = fd;
  cmd = attach_rsv;
  call = record unset { pid = pid; rid = rid };
}

unfoldable pub zsv_get_wcet_ns : ApiCall → ℤ → ℤ → Request
zsv_get_wcet_ns unset fd rid = record {
  schedfd = fd;
  cmd = cmd_get_wcet_ns;
  call = with_rid unset rid;
}

unfoldable pub zsv_get_trace_size : ApiCall → ℤ → Request
zsv_get_trace_size unset fd = record { schedfd = fd; cmd = get_trace_size; call = unset }

unfoldable pub zsv_get_acet_ns : ApiCall → ℤ → ℤ → Request
zsv_get_acet_ns unset fd rid = record {
  schedfd = fd;
  cmd = cmd_get_acet_ns;
  call = with_rid unset rid;
}

unfoldable pub zsv_wait_period : ApiCall → ℤ → ℤ → Request
zsv_wait_period unset fd rid = record { schedfd = fd; cmd = wait_period; call = with_rid unset rid }

unfoldable pub zsv_wait_release : ApiCall → ℤ → ℤ → Request
zsv_wait_release unset fd rid = record {
  schedfd = fd;
  cmd = wait_release;
  call = with_rid unset rid;
}

unfoldable pub zsv_end_period : ApiCall → ℤ → ℤ → Request
zsv_end_period unset fd rid = record { schedfd = fd; cmd = end_period; call = with_rid unset rid }

unfoldable pub zsv_nowait_period : ApiCall → ℤ → ℤ → Request
zsv_nowait_period unset fd rid = record {
  schedfd = fd;
  cmd = nowait_period;
  call = with_rid unset rid;
}

unfoldable pub zsv_delete_reserve : ApiCall → ℤ → ℤ → Request
zsv_delete_reserve unset fd rid = record {
  schedfd = fd;
  cmd = delete_rsv;
  call = with_rid unset rid;
}

-- the number of the signal goes in the field for the priority
unfoldable pub zsv_capture_budget_enforcement_signal : ApiCall → ℤ → (rid pid signo : ℤ) → Request
zsv_capture_budget_enforcement_signal unset fd rid pid signo = record {
  schedfd = fd;
  cmd = cmd_capture_enforcement_signal;
  call = record unset { pid = pid; rid = rid; priority = signo };
}

unfoldable pub zsv_test_reserve : ApiCall → ℤ → ℤ → Request
zsv_test_reserve unset fd option = record {
  schedfd = fd;
  cmd = cmd_test_reserve;
  call = with_rid unset option;
}

unfoldable pub zsv_mtserial_init : ApiCall → ℤ → ℤ → Request
zsv_mtserial_init unset fd bauds = record {
  schedfd = fd;
  cmd = init_serial;
  call = with_rid unset bauds;
}

unfoldable pub zsv_mtserial_recv : ApiCall → ℤ → ℤ → List ℕ → ℕ → Request
zsv_mtserial_recv unset fd rid buffer length = record {
  schedfd = fd;
  cmd = recv_serial;
  call = with_buffer unset rid buffer length;
}

unfoldable pub zsv_mtserial_send : ApiCall → ℤ → ℤ → List ℕ → ℕ → Request
zsv_mtserial_send unset fd rid buffer length = record {
  schedfd = fd;
  cmd = send_serial;
  call = with_buffer unset rid buffer length;
}

unfoldable pub zsv_mtserial_send_finish : ApiCall → ℤ → ℤ → List ℕ → ℕ → Request
zsv_mtserial_send_finish unset fd rid buffer length = record {
  schedfd = fd;
  cmd = send_serial_finish;
  call = with_buffer unset rid buffer length;
}

unfoldable pub zsv_simulate_crash : ApiCall → ℤ → Request
zsv_simulate_crash unset fd = record { schedfd = fd; cmd = sim_crash; call = unset }

-- what the scheduler does with a request that is written to its device
unfoldable pub serve :
    Kernel → (Sched → Sched) → (Serial → Serial) → ℕ → Request → Sched → Option (Sched × Reply)
serve k others asleep z request s = zsrm_write k others asleep z request.cmd request.call s
