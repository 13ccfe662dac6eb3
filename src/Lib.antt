-- ===== src/Lib.antt =====
-- The mixed-trust zero-slack rate-monotonic scheduler, a Linux kernel module that schedules reserves
-- (a task with a period, a budget and a criticality) together with tasks of a hypervisor.
--
-- The program's parts and the files that model them:
--
-- * src/zsrmv.h, the data: Reserve.antt. The pointer fields by which reserves are linked are kept by
--   the queues of Links.antt, as functions from the index of a reserve to an optional index.
-- * src/zsrmv.c, the queue of all reserves by period (add_rm_queue, del_rm_queue): RmQueue.antt.
-- * src/zsrmv.c, the stack of critical reserves and the queue of the reserves that these block
--   (add_crit_stack, add_crit_blocked): CritQueue.antt.
-- * src/zsrmv.c, the stacks through which interrupt handlers ask the scheduler task and the activator
--   task to look at a reserve (push_to_reschedule and the like): Stack.antt.
-- * src/zsrmv.c, the circular buffers of the serial port (serial_receiving_buffer_write and the
--   like): Ring.antt for the loops on one buffer, Serial.antt for the driver's four operations.
-- * src/admission.c, the admission test and the response time analysis: Admission.antt.
-- * src/zsrmv.c, the scheduler: Sched.antt has the global state, the trace, the clocks and the timers;
--   Sched/Ready.antt the ready queue; Sched/Budget.antt start, stop and budget_enforcement;
--   Sched/Jobs.antt start_of_period, wait_for_next_period, end_of_period and wait_for_next_release;
--   Sched/ZeroSlack.antt zs_enforcement (zs_enforcement_of); Sched/Entries.antt init and getreserve;
--   Sched/Life.antt the priorities, attach_reserve and delete_reserve; Sched/Tasks.antt the timer
--   interrupts and the scheduler and activator tasks; Sched/Commands.antt what the commands do, and
--   Sched/Api.antt zsrm_write (device_write) and zsrm_read.
-- * src/zsrmv.c, the tasks that move bytes between the serial buffers and the hypervisor's line
--   (serial_sending_task, serial_receiver_task): Serial/Tasks.antt.
-- * lib/libzsv.c, the library that user programs call: Client.antt, with the ring of signal handlers
--   in Client/Handlers.antt, the requests to the device in Client/Requests.antt, the enforcement
--   signal in Client/Signal.antt, zsv_write_trace in Client/Trace.antt and busy_timestamped in
--   Client/Busy.antt. `serve` passes a request to the model of zsrm_write.
-- * Sched/Invariant.antt states the invariant of the scheduler and Sched/Invariant/Steps.antt its steps.
-- * Examples.antt and its children apply the theorems to small task sets, programs and lines.
-- * Base.antt passes on library names and holds tests, lists, integers and machine words.
--
-- Timer interrupts, the two kernel tasks and commands change one state, Sched: an interrupt pushes
-- reserves to the stacks, the tasks pop them and start or stop the reserves, and a command runs
-- between two interrupts. What the Linux kernel and the hypervisor answer is a parameter, Kernel; what
-- is asked of them is recorded in the state. The macros are those of the source as it stands:
-- __ZS_USE_SYSTSC__ is defined, __ZSV_SECURE_TASK_BOOTSTRAP__ and ZSV_SIMULATE_CRASH are not.
--
-- Numbers: `unsigned long long` is a natural number below 2^64 with the wrap-around written out,
-- `long` and `unsigned long` have 32 bits, as on the ARM target. Queue searches are bounded by
-- MAX_RESERVES + 1 visits in the source, and by the same number here. The loops of the admission test
-- run on fuel: tablesize + 1 rounds for a task set, since each round moves its index on;
-- period_ns + 2 rounds for a response time, which grows in each round but the last and is within the
-- period; period_ns + 3 rounds for the search of the zero-slack instant, for the same reason.
-- The loop of the scheduler task runs on fuel and can use it up, since its body can push reserves
-- again; the loop of the activator task needs one round more than its stack has items. The search of
-- the ring of handlers needs as many rounds as there are records, and 100 bytes are sent in at most 13
-- batches; a wait for the serial line has a number of polls, and the line goes on within them.
-- Semaphores and the spin lock make each operation one step.
--
-- Not modelled: calculate_start_time (which needs __ZSV_SECURE_TASK_BOOTSTRAP__), the module's
-- registration and device glue, the reports by printk, the reads of the cycle counters, the copies of
-- the hypervisor's libraries and the programs that test or measure: they are calls into other code with
-- little logic of their own, or not compiled.
pub mod Base
pub mod Links
pub mod Reserve
pub mod RmQueue
pub mod CritQueue
pub mod Admission
pub mod Ring
pub mod Serial
pub mod Stack
pub mod Sched
pub mod Client
pub mod Examples
