-- ===== src/Admission/Rounds.antt =====
-- The rounds of the loop of `admit` in src/admission.c: each keeps the table, but for the execution
-- time in rate-monotonic mode, and the loop ends.
use mathlib.Core.Path.{subst}
use mixed_trust_zsrmv_public.Base.{
  ℕ, zero, suc, ◌+◌, ◌-◌, ◌<◌, ◌≤◌, ◌≡◌, refl, inl, inr, ◌&&◌, ltb, leb, u64, arith, Bool-cases,
  sym, ap, ◌∙◌, leb→le, leb→le,
}
use mixed_trust_zsrmv_public.Reserve.{Table}
use mixed_trust_zsrmv_public.Admission.{value, Admit, set_in_rm, use_slack, admit_round, admit_loop}
use mixed_trust_zsrmv_public.Admission.Demand.{HavePeriods}
use mixed_trust_zsrmv_public.Admission.Response.{get_response_time_crit_ns-value}
use mixed_trust_zsrmv_public.Admission.Attempts.{
  Moved, some_of_it, all_of_it, Attempt, fails, fits, Attempts, done, again,
}
use mixed_trust_zsrmv_public.Admission.Slack.{
  set_in_rm-set_in_rm, in_rm-period, in_rm-exectime, set_in_rm-HavePeriods, find_slack-Found,
  next-on, next-off,
}

module _ (rsvtable : Table) (tablesize new : ℕ) (p : HavePeriods rsvtable tablesize) where
  abbrev period : ℕ
  period = (rsvtable new).period_ns

  abbrev exectime : ℕ
  exectime = (rsvtable new).exectime_ns

  -- The test writes nothing but the execution time in rate-monotonic mode, and keeps that within
  -- the execution time.
  pub record Tested (s : Admit) : Type 0 where
    pub in_rm : ℕ
    pub within : in_rm ≤ exectime
    pub table : s.rsvtable ≡ set_in_rm rsvtable new in_rm

  abbrev Kept : Admit → Admit → Type 0
  Kept s u = Tested u × (u.z ≤ period) × Moved tablesize new s u

  use_slack-Tested : (s : Admit) → Tested s → s.z ≤ period → Kept s (use_slack new s)
  unfolding use_slack
  use_slack-Tested s t h =
      let r = s.rsvtable new in
      let n = u64 (r.exectime_in_rm_ns + s.slack) in
      let cap : r.exectime_ns ≡ exectime = rw t.table (in_rm-exectime rsvtable new t.in_rm new) in
      let same : r.period_ns ≡ period = rw t.table (in_rm-period rsvtable new t.in_rm new) in
      let again : (k : ℕ) → set_in_rm s.rsvtable new k ≡ set_in_rm rsvtable new k =
        λ k. ap (λ q. set_in_rm q new k) t.table ∙ set_in_rm-set_in_rm rsvtable new t.in_rm k in
      elim (Bool-cases (ltb (u64 (s.slack + r.exectime_in_rm_ns)) r.exectime_ns)) [
        | inl b ↦
            subst (Kept s)
              (sym (
                let eq : use_slack new s ≡ record s { rsvtable = set_in_rm s.rsvtable new n } =
                  rw b refl in
                eq))
              (
                record { in_rm = n; within = ground arith; table = again n },
                h,
                some_of_it (ground arith) refl,
              )
        | inr b ↦
            subst (Kept s)
              (sym (
                let eq : use_slack new s ≡ record s {
                  rsvtable = set_in_rm s.rsvtable new r.exectime_ns;
                  z = r.period_ns;
                } =
                  rw b refl in
                eq))
              (
                record { in_rm = r.exectime_ns; within = omega arith; table = again r.exectime_ns },
                omega arith,
                all_of_it (ground arith) refl,
              )
      ]

  -- what a round of the loop leaves behind
  pub record Round (u : Admit) : Type 0 where
    pub tested : Tested u
    pub bounded : u.resp ≤ period → u.z ≤ period

  pub admit_round-Round :
      (s : Admit)
      → Tested s
      → (u : Admit) × (admit_round tablesize new s ≡ value u) × Round u × Attempt tablesize new s u
  unfolding admit_round
  admit_round-Round s t =
      let held : HavePeriods s.rsvtable tablesize =
        rw t.table (set_in_rm-HavePeriods rsvtable new t.in_rm tablesize p) in
      let (r, eq, is) = get_response_time_crit_ns-value s.rsvtable tablesize new held in
      let same : (s.rsvtable new).period_ns ≡ period =
        rw t.table (in_rm-period rsvtable new t.in_rm new) in
      let s' : Admit = record s { resp = r } in
      let tested : Tested s' = record { in_rm = t.in_rm; within = t.within; table = t.table } in
      elim (Bool-cases (leb r (s.rsvtable new).period_ns)) [
        | inl b ↦
            let (u, found, f) = find_slack-Found tablesize new s' held (leb→le _ _ b) in
            let tested' : Tested u = record {
              in_rm = t.in_rm;
              within = t.within;
              table = f.table ∙ t.table;
            } in
            let (kept, z, moved) = use_slack-Tested u tested' (omega (arith, f.z, same)) in
            (
              use_slack new u,
              rw eq (rw b (rw found refl)),
              record { tested = kept; bounded = λ h. z },
              fits r u is (leb→le _ _ b) f.slack moved,
            )
        | inr b ↦ (
          s',
          rw eq (rw b refl),
          record { tested = tested; bounded = λ h. absurd (ground arith) },
          fails r is (ground arith) refl,
        )
      ]

  pub admit_loop-Round :
      (fuel prev_z : ℕ) (s : Admit)
      → Round s
      → period + 1 - prev_z < fuel
      → (u : Admit) × (admit_loop tablesize new fuel prev_z s ≡ value u)
        × Round u
        × Attempts tablesize new u prev_z s
  unfolding admit_loop
  admit_loop-Round zero prev_z s i h = absurd (omega arith)
  admit_loop-Round (suc fuel) prev_z s i h =
      let same : (s.rsvtable new).period_ns ≡ period =
        rw i.tested.table (in_rm-period rsvtable new i.tested.in_rm new) in
      elim (Bool-cases (leb s.resp (s.rsvtable new).period_ns && ltb prev_z s.z)) [
        | inl on ↦
            let (t, eq, i', one) = admit_round-Round s i.tested in
            let small = i.bounded (ground arith) in
            let (u, eq', i'', more) = admit_loop-Round fuel s.z t i' (ground arith) in
            (
              u,
              next-on tablesize new prev_z (admit_loop tablesize new fuel) s t on eq ∙ eq',
              i'',
              again (ground arith) (ground arith) one more,
            )
        | inr off ↦ (
          s,
          next-off tablesize new prev_z (admit_loop tablesize new fuel) s off,
          i,
          done (ground arith) refl,
        )
      ]
