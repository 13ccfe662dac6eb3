-- ===== src/Admission/Verdict.antt =====
-- What a call of `admit` of src/admission.c returns.
use mixed_trust_zsrmv_public.Base.{ℕ, suc, ◌+◌, ◌≤◌, ◌≡◌, refl, Bool, true, leb, arith, ap, ◌∙◌}
use mixed_trust_zsrmv_public.Reserve.{Table}
use mixed_trust_zsrmv_public.Admission.{Outcome, value, ◌>>=◌, Admit, set_in_rm, admit, admit_loop}
use mixed_trust_zsrmv_public.Admission.Demand.{HavePeriods}
use mixed_trust_zsrmv_public.Admission.Attempts.{Attempts, again}
use mixed_trust_zsrmv_public.Admission.Slack.{in_rm-period, next-on}
use mixed_trust_zsrmv_public.Admission.Rounds.{Tested, Round, admit_round-Round, admit_loop-Round}

module _ (rsvtable : Table) (tablesize new : ℕ) (p : HavePeriods rsvtable tablesize) where
  abbrev pub at_start : Admit
  at_start = record { rsvtable = set_in_rm rsvtable new 0; resp = 0; z = 1; slack = 0 }

  -- the table that the test leaves, its answer and the zero-slack instant
  pub record Verdict (table : Table) (ok : Bool) (z : ℕ) : Type 0 where
    pub in_rm : ℕ
    pub within : in_rm ≤ (rsvtable new).exectime_ns
    pub writes : table ≡ set_in_rm rsvtable new in_rm
    pub last : Admit
    pub attempts : Attempts tablesize new last 0 at_start
    pub left : (table ≡ last.rsvtable) × (z ≡ last.z)
    pub answers : ok ≡ leb last.resp (rsvtable new).period_ns
    pub bounded : ok ≡ true → z ≤ (rsvtable new).period_ns

  abbrev answer : Admit → Outcome (Table × Bool × ℕ)
  answer s = value (s.rsvtable, leb s.resp (s.rsvtable new).period_ns, s.z)

  Round-Verdict :
      (s : Admit)
      → Round rsvtable tablesize new p s
      → Attempts tablesize new s 0 at_start
      → Verdict s.rsvtable (leb s.resp (s.rsvtable new).period_ns) s.z
  Round-Verdict s i a =
      let same : (s.rsvtable new).period_ns ≡ (rsvtable new).period_ns =
        rw i.tested.table (in_rm-period rsvtable new i.tested.in_rm new) in
      record {
        in_rm = i.tested.in_rm;
        within = i.tested.within;
        writes = i.tested.table;
        last = s;
        attempts = a;
        left = (refl, refl);
        answers = ap (leb s.resp) same;
        bounded = λ e. i.bounded (ground arith);
      }

  -- If every entry in use has a period, the admission test always ends with an answer. It writes
  -- nothing but the execution time in rate-monotonic mode of the reserve under test, and keeps that
  -- within the execution time. What it leaves and answers is that of a sequence of attempts, from
  -- no execution time in rate-monotonic mode on: each takes the response time in critical mode and,
  -- if that is within the period, the slack that the demand in rate-monotonic mode leaves (if that
  -- demand uses exactly all, what is left beyond the interference in critical mode or else the
  -- slack of before), which it moves into rate-monotonic mode as far as the execution time goes;
  -- the sequence ends where a response time is not within the period or the zero-slack instant has
  -- not grown. The reserve is admitted exactly if the last response time is within the period, and
  -- then the zero-slack instant is too.
  pub admit-Verdict :
      (table : Table) × (ok : Bool) × (z : ℕ) × (admit rsvtable tablesize new
        ≡ value (table, ok, z))
      × Verdict table ok z
  unfolding admit admit_loop
  admit-Verdict =
      let tested : Tested rsvtable tablesize new p at_start = record {
        in_rm = 0;
        within = omega arith;
        table = refl;
      } in
      let (t, eq, i, one) = admit_round-Round rsvtable tablesize new p at_start tested in
      let (u, eq', j, more) =
        admit_loop-Round rsvtable tablesize new p ((rsvtable new).period_ns + 2) 1 t i
          (omega arith) in
      let fuel : (rsvtable new).period_ns + 3 ≡ suc ((rsvtable new).period_ns + 2) = omega arith in
      let on =
        next-on tablesize new 0 (admit_loop tablesize new ((rsvtable new).period_ns + 2)) at_start t
          (ground arith) eq in
      (
        u.rsvtable,
        leb u.resp (u.rsvtable new).period_ns,
        u.z,
        ap (λ n. admit_loop tablesize new n 0 at_start >>= answer) fuel
            ∙ ap (λ o. o >>= answer) (on ∙ eq'),
        Round-Verdict u j (again (ground arith) (omega arith) one more),
      )
