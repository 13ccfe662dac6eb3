-- ===== src/Client/Signal/Laws.antt =====
-- The enforcement signal from the scheduler's side to the user's handler.
use mixed_trust_zsrmv_public.Base.{
  ℕ, suc, ◌<◌, ◌≡◌, refl, Bool, true, false, not, Option, none, some, ap, ◌∙◌, List, [], ◌∷◌, ◌++◌,
  arith, length,
}
use mixed_trust_zsrmv_public.Base.Int.{ℤ, pos}
use mixed_trust_zsrmv_public.Sched.{Kernel, Sched, gettask, send_sig_info, ask, emit}
use mixed_trust_zsrmv_public.Sched.Budget.{bundle_rid_stop_periodic, signal_task}
use mixed_trust_zsrmv_public.Sched.Commands.{ApiCall}
use mixed_trust_zsrmv_public.Client.Handlers.{Handler, get_threaded_signal_handler_record}
use mixed_trust_zsrmv_public.Client.Handlers.Segment.{IsRing}
use mixed_trust_zsrmv_public.Client.Handlers.Find.{first_for, get-first_for}
use mixed_trust_zsrmv_public.Client.Requests.{zsv_wait_period, zsv_wait_release}
use mixed_trust_zsrmv_public.Client.Signal.{
  extract_rid, extract_stop, extract_periodic, Effect, run_handler, write, Client, System, did,
  call_handler, wait_if, serve_signal, zsv_user_enforcement_handler_wrapper,
}

-- What the scheduler packs into the value of a signal, an index of a reserve and two flags, the
-- library reads back from it.
pub extract-bundle :
    (rid : ℕ) (stop periodic : Bool)
    → (extract_rid (pos (bundle_rid_stop_periodic rid stop periodic)) ≡ pos rid)
      × (extract_stop (pos (bundle_rid_stop_periodic rid stop periodic)) ≡ stop)
      × (extract_periodic (pos (bundle_rid_stop_periodic rid stop periodic)) ≡ periodic)
unfolding extract_rid extract_stop extract_periodic
extract-bundle rid true true = (ground arith, ground arith, ground arith)
extract-bundle rid true false = (ground arith, ground arith, ground arith)
extract-bundle rid false true = (ground arith, ground arith, ground arith)
extract-bundle rid false false = (ground arith, ground arith, ground arith)

-- the wait that a task is asked for
abbrev pub wait_effect : ApiCall → Bool → Bool → ℤ → ℤ → List Effect
wait_effect unset false periodic fd rid = []
wait_effect unset true true fd rid = write (zsv_wait_period unset fd rid) ∷ []
wait_effect unset true false fd rid = write (zsv_wait_release unset fd rid) ∷ []

-- The wrapper ended, ran the handler of record `r` for the reserve and then waited as asked.
abbrev pub Served : ApiCall → Handler → Bool → Bool → ℤ → Client → Option Client → Type 0
Served unset r stop periodic rid c none = ⊥
Served unset r stop periodic rid c (some c') =
    (c'.effects
      ≡ wait_effect unset stop periodic r.zsv_enforcement_schedfd rid
        ++ run_handler r.zsv_user_enforcement_handler r.zsv_user_enforcement_handler_param rid
          ∷ c.effects)
    × (c'.handlers ≡ c.handlers)

serve_signal-Served :
    (os : System) (unset : ApiCall) (a : ℕ) (stop periodic : Bool) (rid : ℤ) (c : Client)
    → ((h p : ℕ) (rid : ℤ) (c : Client) → os.handler h p rid c ≡ c)
    → Served unset
        (c.handlers.recs a)
        stop
        periodic
        rid
        c
        (some (serve_signal os unset a stop periodic rid c))
unfolding serve_signal call_handler wait_if did
serve_signal-Served os unset a true true rid c quiet = rw (quiet _ _ rid _) (refl, refl)
serve_signal-Served os unset a true false rid c quiet = rw (quiet _ _ rid _) (refl, refl)
serve_signal-Served os unset a false periodic rid c quiet = rw (quiet _ _ rid _) (refl, refl)

wrapper_found :
    (os : System) (unset : ApiCall) (fuel : ℕ) (a rid : ℕ) (stop periodic : Bool) (c : Client)
    → get_threaded_signal_handler_record fuel c.handlers (pos rid) ≡ some (some a)
    → zsv_user_enforcement_handler_wrapper os unset fuel
        (pos (bundle_rid_stop_periodic rid stop periodic))
        c
      ≡ some (serve_signal os unset a stop periodic (pos rid) c)
unfolding zsv_user_enforcement_handler_wrapper
wrapper_found os unset fuel a rid stop periodic c found =
    let (e, e1, e2) = extract-bundle rid stop periodic in
    rw (e, zsv_user_enforcement_handler_wrapper)
      (rw (found, zsv_user_enforcement_handler_wrapper) (rw (e, e1, e2) refl))

-- The scheduler sends an enforcement signal to a task that it finds, and the library has a
-- well-formed ring whose first record for the reserve is `a`, with fuel for the ring. Then the
-- value that the scheduler sends makes the library run the handler of that record for that reserve
-- and, provided that no user's handler changes the library, only after it wait: for the next period
-- if a stop is requested and the end of the period is not marked, for the next release if a stop is
-- requested and it is marked, and not at all otherwise.
pub signal_task-Served :
    (k : Kernel) (rid task : ℕ) (stop : Bool) (s : Sched)
    → (os : System) (unset : ApiCall) (fuel a : ℕ) (xs : List ℕ) (c : Client)
    → gettask k s rid ≡ some task
    → IsRing c.handlers xs
    → length xs < suc fuel
    → first_for c.handlers.recs (pos rid) xs ≡ some a
    → ((h p : ℕ) (rid : ℤ) (c : Client) → os.handler h p rid c ≡ c)
    → (b : ℕ) × ((signal_task k rid stop s).calls
        ≡ send_sig_info task (s.reserve_table rid).enforcement_signo b ∷ s.calls)
      × Served unset
          (c.handlers.recs a)
          stop
          (not (s.reserve_table rid).end_of_period_marked)
          (pos rid)
          c
          (zsv_user_enforcement_handler_wrapper os unset fuel (pos b) c)
unfolding signal_task emit ask
signal_task-Served k rid task stop s os unset fuel a xs c alive h l first quiet =
    let periodic = not (s.reserve_table rid).end_of_period_marked in
    let found : get_threaded_signal_handler_record fuel c.handlers (pos rid) ≡ some (some a) =
      get-first_for c.handlers xs (pos rid) fuel h l ∙ ap (λ p. some p) first in
    (
      bundle_rid_stop_periodic rid stop periodic,
      rw (alive, signal_task) refl,
      rw (wrapper_found os unset fuel a rid stop periodic c found)
          (serve_signal-Served os unset a stop periodic (pos rid) c quiet),
    )
