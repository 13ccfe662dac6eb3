-- ===== src/Admission/Response.antt =====
-- getResponseTimeCritNs of src/admission.c: the loop ends, and a response time within the period
-- is one at which the demand is met.
use mixed_trust_zsrmv_public.Base.{
  ℕ, zero, suc, ◌+◌, ◌-◌, ◌<◌, ◌≤◌, ◌≡◌, refl, ◌⊎◌, inl, inr, true, false, ◌&&◌, ltb, leb, u64,
  sub_u64, arith, Bool-cases, ◌==◌, ap, ◌∙◌,
}
use mixed_trust_zsrmv_public.Reserve.{Table}
use mixed_trust_zsrmv_public.Admission.{
  Outcome, value, ◌>>=◌, response_round, response_loop, next_response, get_response_time_crit_ns,
  get_rm_interference, is_higher_prio_higher_crit, is_lower_prio_higher_crit,
  is_higher_prio_same_crit, is_higher_prio_lower_crit, get_exec_time_higher_prio_higher_crit,
  get_exec_time_higher_prio_same_crit, get_exec_time_lower_prio_higher_crit, nominal, worst,
}
use mixed_trust_zsrmv_public.Admission.Demand.{HavePeriods, demand, add_interference-demand}

module _ (rsvtable : Table) (tablesize new : ℕ) where
  -- what the reserve needs in critical mode
  abbrev pub own_demand : ℕ
  own_demand = sub_u64 (rsvtable new).exectime_ns (rsvtable new).exectime_in_rm_ns

  -- what it and the tasks that can interfere with it in critical mode demand in a window
  unfoldable pub crit_demand : ℕ → ℕ
  crit_demand t =
      own_demand
      + demand rsvtable new is_higher_prio_higher_crit get_exec_time_higher_prio_higher_crit t
          tablesize 0
      + demand rsvtable new is_lower_prio_higher_crit get_exec_time_lower_prio_higher_crit t
          tablesize 0
      + demand rsvtable new is_higher_prio_same_crit get_exec_time_higher_prio_same_crit t tablesize
          0

  -- what the tasks of a higher rate demand in a window in rate-monotonic mode
  unfoldable pub rm_demand : ℕ → ℕ
  rm_demand t =
      demand rsvtable new is_higher_prio_higher_crit nominal t tablesize 0
      + demand rsvtable new is_higher_prio_lower_crit worst t tablesize 0
      + demand rsvtable new is_higher_prio_same_crit worst t tablesize 0

  -- The windows of the iteration: what the reserve needs itself, and then the demand of the window
  -- before.
  unfoldable pub crit_window : ℕ → ℕ
  unfolding crit_demand
  crit_window zero = own_demand
  crit_window (suc n) = u64 (crit_demand (crit_window n))

  -- The response time: the demand of the first window that has room for its demand or whose demand
  -- is not within the period.
  pub record IsResponse (r : ℕ) : Type 0 where
    pub rounds : ℕ
    pub demanded : r ≡ crit_window (suc rounds)
    pub met : (r ≤ crit_window rounds) ⊎ ((rsvtable new).period_ns < r)
    pub first :
        (m : ℕ)
        → m < rounds
        → (crit_window m < crit_window (suc m)) × (crit_window (suc m) ≤ (rsvtable new).period_ns)

  module _ (p : HavePeriods rsvtable tablesize) where
    -- If every entry in use has a period, a round of the response time iteration computes, modulo
    -- 2^64, the demand in critical mode of the window that it starts from: the reserve's own and
    -- that of the three task sets.
    pub response_round-crit_demand :
        (t : ℕ) → response_round rsvtable tablesize new t ≡ value (u64 (crit_demand t))
    unfolding response_round crit_demand
    response_round-crit_demand t =
        let a = own_demand in
        let b = u64 (
          a
          + demand rsvtable new is_higher_prio_higher_crit get_exec_time_higher_prio_higher_crit t
              tablesize 0) in
        let c = u64 (
          b
          + demand rsvtable new is_lower_prio_higher_crit get_exec_time_lower_prio_higher_crit t
              tablesize 0) in
        rw
          (add_interference-demand rsvtable new is_higher_prio_higher_crit
            get_exec_time_higher_prio_higher_crit t tablesize a p (omega arith))
          (rw
            (add_interference-demand rsvtable new is_lower_prio_higher_crit
              get_exec_time_lower_prio_higher_crit t tablesize b p (omega arith))
            (rw
              (add_interference-demand rsvtable new is_higher_prio_same_crit
                get_exec_time_higher_prio_same_crit t tablesize c p (omega arith))
              (ap value (omega arith))))

    -- If every entry in use has a period, the interference in rate-monotonic mode is, modulo 2^64,
    -- the demand in the window of the three task sets of a higher rate.
    pub get_rm_interference-rm_demand :
        (t : ℕ) → get_rm_interference rsvtable tablesize new t ≡ value (u64 (rm_demand t))
    unfolding get_rm_interference rm_demand
    get_rm_interference-rm_demand t =
        let b = u64 (0 + demand rsvtable new is_higher_prio_higher_crit nominal t tablesize 0) in
        let c = u64 (b + demand rsvtable new is_higher_prio_lower_crit worst t tablesize 0) in
        rw
          (add_interference-demand rsvtable new is_higher_prio_higher_crit nominal t tablesize 0 p
            (omega arith))
          (rw
            (add_interference-demand rsvtable new is_higher_prio_lower_crit worst t tablesize b p
              (omega arith))
            (rw
              (add_interference-demand rsvtable new is_higher_prio_same_crit worst t tablesize c p
                (omega arith))
              (ap value (omega arith))))

    loop-next :
        (fuel t : ℕ)
        → response_loop rsvtable tablesize new (suc fuel) t
          ≡ next_response
              (rsvtable new).period_ns
              (response_loop rsvtable tablesize new fuel)
              t
              (u64 (crit_demand t))
    unfolding response_loop
    loop-next fuel t =
        ap
          (λ o.
            o
            >>= next_response (rsvtable new).period_ns (response_loop rsvtable tablesize new fuel)
                t)
          (response_round-crit_demand t)

    next-on :
        (period : ℕ) (loop : ℕ → Outcome ℕ) (t r : ℕ)
        → (ltb t r && leb r period) ≡ true
        → next_response period loop t r ≡ loop r
    unfolding next_response
    next-on period loop t r e = rw (e, next_response) refl

    next-off :
        (period : ℕ) (loop : ℕ → Outcome ℕ) (t r : ℕ)
        → (ltb t r && leb r period) ≡ false
        → next_response period loop t r ≡ value r
    unfolding next_response
    next-off period loop t r e = rw (e, next_response) refl

    Earlier : ℕ → Type 0
    Earlier n =
        (m : ℕ)
        → m < n
        → (crit_window m < crit_window (suc m)) × (crit_window (suc m) ≤ (rsvtable new).period_ns)

    Earlier-suc :
        (n : ℕ)
        → Earlier n
        → (crit_window n < crit_window (suc n)) × (crit_window (suc n) ≤ (rsvtable new).period_ns)
        → Earlier (suc n)
    unfolding Earlier
    Earlier-suc n e h m l = elim (Bool-cases (m == n)) [
      | inl b ↦ let same : m ≡ n = ground arith in rw same h
      | inr b ↦ e m (ground arith)
    ]

    response_loop-value :
        (fuel n : ℕ)
        → Earlier n
        → (rsvtable new).period_ns + 1 - crit_window n < fuel
        → (r : ℕ) × (response_loop rsvtable tablesize new fuel (crit_window n) ≡ value r)
          × IsResponse r
    unfolding Earlier crit_window
    response_loop-value zero n earlier h = absurd (omega arith)
    response_loop-value (suc fuel) n earlier h =
        let t = crit_window n in
        let r = u64 (crit_demand t) in
        elim (Bool-cases (ltb t r && leb r (rsvtable new).period_ns)) [
          | inl on ↦
              let next : Earlier (suc n) = Earlier-suc n earlier (ground arith) in
              let (r', eq, is) = response_loop-value fuel (suc n) next (ground arith) in
              (r', loop-next fuel t ∙ next-on _ _ t r on ∙ eq, is)
          | inr off ↦ (
            r,
            loop-next fuel t ∙ next-off _ _ t r off,
            record { rounds = n; demanded = refl; met = ground arith; first = earlier },
          )
        ]

    -- If every entry in use has a period, the response time in critical mode is always computed. In
    -- the sequence of windows that begins with what the reserve needs itself and goes on with the
    -- demand, modulo 2^64, of the window before, it is the demand of the first window that has room
    -- for it or whose demand exceeds the period.
    pub get_response_time_crit_ns-value :
        (r : ℕ) × (get_response_time_crit_ns rsvtable tablesize new ≡ value r) × IsResponse r
    unfolding get_response_time_crit_ns crit_window Earlier
    get_response_time_crit_ns-value =
        response_loop-value ((rsvtable new).period_ns + 2) 0 (λ m l. absurd (omega arith))
          (omega arith)
