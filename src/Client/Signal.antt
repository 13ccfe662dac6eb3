-- ===== src/Client/Signal.antt =====
-- The budget enforcement signal in lib/libzsv.c: how a task registers a handler for it, and what
-- runs when it arrives. The system and the user's handlers are parameters (System), which answer
-- for the state of the library in which they are called.
pub mod Laws
pub mod Register
pub mod Stale
use mixed_trust_zsrmv_public.Base.{
  ℕ, zero, suc, ◌+◌, ◌-◌, ◌*◌, ◌/◌, ◌%◌, Bool, true, false, ◌&&◌, not, Option, none, some, List, [],
  ◌∷◌, if◌then◌else◌, Ptr, update, ◌==◌,
}
use mixed_trust_zsrmv_public.Base.Int.{ℤ, pos, negsuc, ltb_ℤ}
use mixed_trust_zsrmv_public.Sched.Commands.{ApiCall}
use mixed_trust_zsrmv_public.Client.Handlers.{
  Handler, Handlers, get_threaded_signal_handler_record, add_threaded_signal_handler_record,
}
use mixed_trust_zsrmv_public.Client.Requests.{
  Request, zsv_wait_period, zsv_wait_release, zsv_capture_budget_enforcement_signal,
}

-- EXTRACT_RID(b): b >> 2, which keeps the sign
unfoldable pub extract_rid : ℤ → ℤ
extract_rid (pos b) = pos (b / 4)
extract_rid (negsuc b) = negsuc (b / 4)

-- EXTRACT_STOP(b): (b >> 1) & 1; the bits of -(b + 1) are those of b, flipped
unfoldable pub extract_stop : ℤ → Bool
extract_stop (pos b) = (b / 2 % 2) == 1
extract_stop (negsuc b) = (b / 2 % 2) == 0

-- EXTRACT_PERIODIC(b): b & 1
unfoldable pub extract_periodic : ℤ → Bool
extract_periodic (pos b) = (b % 2) == 1
extract_periodic (negsuc b) = (b % 2) == 0

-- what the library does outside itself, newest first
pub data Effect : Type 0 where
  run_handler : ℕ → ℕ → ℤ → Effect
  write : Request → Effect

-- `freed` are the addresses of records that were given back, newest first; `installed` tells
-- whether the wrapper below is the action of the signal.
pub record Client : Type 0 where
  pub handlers : Handlers
  pub freed : List ℕ
  pub installed : Bool
  pub effects : List Effect

-- sigaction succeeds or not; malloc gives an address or NULL; a write to the device gives its
-- result; a user's handler does to the library's state what it does; free leaves anything in the
-- memory of the record that it is given.
pub record System : Type 0 where
  pub sigaction : Client → Bool
  pub malloc : Client → Ptr
  pub write : Request → Client → ℤ
  pub handler : ℕ → ℕ → ℤ → Client → Client
  pub left_by_free : ℕ → Client → Handler × Ptr × Ptr

unfoldable pub did : Effect → Client → Client
did e c = record c { effects = e ∷ c.effects }

unfoldable pub call_handler : System → Handler → ℤ → Client → Client
call_handler os r rid c =
    let h = r.zsv_user_enforcement_handler in
    let p = r.zsv_user_enforcement_handler_param in os.handler h p rid (did (run_handler h p rid) c)

-- the wait for the next period, or release, when the task is to stop
unfoldable pub wait_if : ApiCall → Bool → Bool → ℤ → ℤ → Client → Client
wait_if unset request_stop periodic fd rid c =
    if request_stop
    then did
        (write (if periodic then zsv_wait_period unset fd rid else zsv_wait_release unset fd rid)) c
    else c

-- the handler of the record, and then the wait on the device that the record names by then
unfoldable pub serve_signal : System → ApiCall → ℕ → Bool → Bool → ℤ → Client → Client
serve_signal os unset a request_stop periodic rid c0 =
    let c = call_handler os (c0.handlers.recs a) rid c0 in
    wait_if unset request_stop periodic (c.handlers.recs a).zsv_enforcement_schedfd rid c

-- `none` is a search that does not end or reaches NULL; a reserve without a record is only reported
unfoldable pub zsv_user_enforcement_handler_wrapper :
    System → ApiCall → ℕ → ℤ → Client → Option Client
zsv_user_enforcement_handler_wrapper os unset fuel bundle c =
    let rid = extract_rid bundle in
    elim (get_threaded_signal_handler_record fuel c.handlers rid) [
      | none ↦ none
      | some none ↦ some c
      | some (some a) ↦
          some (serve_signal os unset a (extract_stop bundle) (extract_periodic bundle) rid c)
    ]

-- the fields of a record, written once it is in the list
abbrev pub set_handler : ℕ → ℤ → ℕ → ℕ → ℤ → Handlers → Handlers
set_handler a rid handler param fd s = record s {
  recs = update s.recs a (record {
    rid = rid;
    zsv_user_enforcement_handler = handler;
    zsv_user_enforcement_handler_param = param;
    zsv_enforcement_schedfd = fd;
  });
}

-- The record for the reserve, which is added to the list if there is none: `none` inside is a
-- malloc that fails, and outside a list that is broken.
unfoldable pub find_or_add : System → ℕ → ℤ → Client → Option (Option ℕ × Client)
find_or_add os fuel rid c = elim (get_threaded_signal_handler_record fuel c.handlers rid) [
  | none ↦ none
  | some (some a) ↦ some (some a, c)
  | some none ↦ elim (os.malloc c) [
    | none ↦ some (none, c)
    | some a ↦ elim (add_threaded_signal_handler_record a c.handlers) [
      | none ↦ none
      | some handlers' ↦ some (some a, record c { handlers = handlers' })
    ]
  ]
]

-- the system calls at the end of zsv_fork_enforcement_handler, where tid is gettid()
unfoldable pub register : System → ApiCall → ℤ → ℤ → ℤ → ℤ → Client → Client × ℤ
register os unset fd rid tid signo c =
    if os.sigaction c
    then (let c1 = record c { installed = true } in
        let request = zsv_capture_budget_enforcement_signal unset fd rid tid signo in
        (did (write request) c1, if ltb_ℤ (os.write request c1) (pos 0) then negsuc 0 else pos 0))
    else (c, negsuc 0)

unfoldable pub zsv_fork_enforcement_handler :
    System → ApiCall → ℕ → ℤ → ℤ → (fd rid : ℤ) → (handler param : ℕ) → Client → Option (Client × ℤ)
zsv_fork_enforcement_handler os unset fuel tid signo fd rid handler param c =
    elim (find_or_add os fuel rid c) [
      | none ↦ none
      | some (none, c1) ↦ some (c1, negsuc 0)
      | some (some a, c1) ↦ some (
          register os unset fd rid tid signo
            (record c1 { handlers = set_handler a rid handler param fd c1.handlers }))
    ]

-- free(rec): the fields and the links of the record hold what free left there
unfoldable pub free_record : System → ℕ → Client → Client
free_record os a c =
    let (rec, next, prev) = os.left_by_free a c in
    let s = c.handlers in
    record c {
      freed = a ∷ c.freed;
      handlers = record s {
        recs = update s.recs a rec;
        next = update s.next a next;
        prev = update s.prev a prev;
      };
    }

-- the record is given back, after the scheduler was told to send no more signals
unfoldable pub drop_handler : System → ApiCall → ℤ → ℤ → ℕ → Client → Client
drop_handler os unset signo rid a c =
    let fd = (c.handlers.recs a).zsv_enforcement_schedfd in
    let c1 = did (write (zsv_capture_budget_enforcement_signal unset fd rid (negsuc 0) signo)) c in
    free_record os a c1

unfoldable pub zsv_stop_enforcement_handler :
    System → ApiCall → ℕ → ℤ → ℤ → Client → Option (Client × ℤ)
zsv_stop_enforcement_handler os unset fuel signo rid c =
    if os.sigaction c
    then (let c1 = record c { installed = false } in
        elim (get_threaded_signal_handler_record fuel c1.handlers rid) [
          | none ↦ none
          | some none ↦ some (c1, pos 0)
          | some (some a) ↦ some (drop_handler os unset signo rid a c1, pos 0)
        ])
    else some (c, negsuc 0)
