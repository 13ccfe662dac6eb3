-- ===== src/Examples/Steps.antt =====
-- Steps of the scheduler from a small state, and the deletion of a reserve in it.
use mixed_trust_zsrmv_public.Base.{◌≡◌, refl, true, none, some, [], ◌∷◌, arith, ◌==◌, if◌then◌else◌}
use mixed_trust_zsrmv_public.Base.Int.{pos, negsuc}
use mixed_trust_zsrmv_public.Sched.{Sched, enter_kernel}
use mixed_trust_zsrmv_public.Sched.Budget.Heads.{Readies}
use mixed_trust_zsrmv_public.Sched.Jobs.{wait_for_next_period, leave_critical}
use mixed_trust_zsrmv_public.Sched.Jobs.Leaving.{Left, leave_critical-Left}
use mixed_trust_zsrmv_public.Sched.Life.{delete_reserve}
use mixed_trust_zsrmv_public.Sched.Commands.{wait_period, reply, valid_rid, active_rid}
use mixed_trust_zsrmv_public.Sched.Api.{
  if_active, at_index, run_command, zsrm_write, zsrm_read, taken, device_write,
}
use mixed_trust_zsrmv_public.Sched.Invariant.{Sound}
use mixed_trust_zsrmv_public.Sched.Invariant.Life.{delete_reserve-Readies}
use mixed_trust_zsrmv_public.Sched.Invariant.Steps.{Step, command, reading, here, next, Reach-Sound}
use mixed_trust_zsrmv_public.Examples.Runs.{kernel, state, state-Readies, call_on}

state-Sound : Sound state
state-Sound = record {
  rids = λ i l. refl;
  pending = λ i. omega arith;
  blocked = record { head = tt; link = λ i. tt };
  waiting = 0 ∷ 2 ∷ [];
  ready = state-Readies;
}

-- the task of reserve 0 waits for its next period
abbrev waited : Sched
waited = wait_for_next_period kernel 0 true (enter_kernel kernel state)

waited-Step : Step kernel state waited
unfolding device_write zsrm_write run_command if_active at_index active_rid valid_rid enter_kernel
waited-Step =
    command (λ s. s) 0 (call_on (pos 0)) 72 true taken wait_period state waited (reply (pos 0) true)
      refl refl

-- and then the trace is read
abbrev traced : Sched
traced = (zsrm_read kernel 64 waited).0

Reach-Sound_example : Sound traced
Reach-Sound_example =
    Reach-Sound kernel state traced (next (next here waited-Step) (reading 64 waited)) state-Sound

delete_reserve-Readies_example :
    Readies (delete_reserve kernel 0 state).0 (2 ∷ [])
    × (((delete_reserve kernel 0 state).0.reserve_table 0).pid ≡ negsuc 0)
delete_reserve-Readies_example =
    delete_reserve-Readies kernel 0 state (0 ∷ 2 ∷ []) (omega arith) state-Readies

-- reserve 3 is in critical mode above reserve 1, and the reserves 2 and 0 are blocked
abbrev overrun : Sched
overrun = record state {
  reserve_table =
      λ i. record (state.reserve_table i) { in_critical_mode = i == 3; current_exectime_ticks = 9 };
  critical_reservesq = record { head = some 3; link = λ i. if i == 3 then some 1 else none };
  crit_blockq = record { head = some 2; link = λ i. if i == 2 then some 0 else none };
  sys_criticality = pos 3;
}

leave_critical-Left_example : Left overrun 3 (1 ∷ []) (2 ∷ 0 ∷ []) (leave_critical kernel 3 overrun)
leave_critical-Left_example =
    leave_critical-Left kernel 3 overrun (1 ∷ []) (2 ∷ 0 ∷ []) refl (omega arith)
      (record {
        chain = (refl, (refl, refl));
        distinct = (refl, (refl, tt));
        reserves = omega arith;
        sorted = omega arith;
      })
      (record {
        chain = (refl, (refl, refl));
        distinct = (refl, (refl, tt));
        reserves = omega arith;
        sorted = omega arith;
      })
      (omega arith)
