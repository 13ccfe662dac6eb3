-- ===== src/Admission/Slack.antt =====
-- `admit` of src/admission.c: the slack that a round finds, and the writes to the table.
use mixed_trust_zsrmv_public.Base.{
  ℕ, ◌+◌, ◌-◌, ◌≤◌, ◌≡◌, refl, inl, inr, true, false, ◌&&◌, ltb, leb, ◌==◌, u64, sub_u64, arith,
  Bool-cases, leb→le, leb→le,
}
use mixed_trust_zsrmv_public.Base.Int.{negsuc, eqb_ℤ}
use mixed_trust_zsrmv_public.Reserve.{Table, modify-modify, modify_field}
use mixed_trust_zsrmv_public.Admission.{
  Outcome, value, Admit, with_in_rm, set_in_rm, window, find_slack, admit_round, next_admit,
}
use mixed_trust_zsrmv_public.Admission.Demand.{HavePeriods}
use mixed_trust_zsrmv_public.Admission.Attempts.{Slack, left, beyond, stuck, short}
use mixed_trust_zsrmv_public.Admission.Response.{rm_demand, get_rm_interference-rm_demand}

pub set_in_rm-set_in_rm :
    (t : Table) (new m n : ℕ) → set_in_rm (set_in_rm t new m) new n ≡ set_in_rm t new n
unfolding with_in_rm
set_in_rm-set_in_rm t new m n = modify-modify t new (with_in_rm m) (with_in_rm n)

-- the fields that the test writes no more than once are those of the table that it was given
module _ (t : Table) (new n : ℕ) where
  pub in_rm-period : (j : ℕ) → (set_in_rm t new n j).period_ns ≡ (t j).period_ns
  unfolding with_in_rm
  in_rm-period j = modify_field t new j (with_in_rm n) (λ r. r.period_ns) (λ r. refl)

  pub in_rm-exectime : (j : ℕ) → (set_in_rm t new n j).exectime_ns ≡ (t j).exectime_ns
  unfolding with_in_rm
  in_rm-exectime j = modify_field t new j (with_in_rm n) (λ r. r.exectime_ns) (λ r. refl)

  in_rm-pid : (j : ℕ) → (set_in_rm t new n j).pid ≡ (t j).pid
  unfolding with_in_rm
  in_rm-pid j = modify_field t new j (with_in_rm n) (λ r. r.pid) (λ r. refl)

  pub set_in_rm-HavePeriods :
      (tablesize : ℕ) → HavePeriods t tablesize → HavePeriods (set_in_rm t new n) tablesize
  set_in_rm-HavePeriods tablesize p i h u =
      let used : eqb_ℤ (t i).pid (negsuc 0) ≡ false = rw (← in_rm-pid i) u in
      rw (in_rm-period i) (p i h used)

-- What the computation of the slack leaves alone, the bound on Z, and the slack.
pub record Found (tablesize new : ℕ) (s : Admit) (period : ℕ) (u : Admit) : Type 0 where
  pub table : u.rsvtable ≡ s.rsvtable
  pub resp : u.resp ≡ s.resp
  pub z : u.z ≤ period
  pub slack : Slack tablesize new s u

module _ (tablesize new : ℕ) where
  pub find_slack-Found :
      (s : Admit)
      → HavePeriods s.rsvtable tablesize
      → s.resp ≤ (s.rsvtable new).period_ns
      → (u : Admit) × (find_slack tablesize new s ≡ value u)
        × Found tablesize new s (s.rsvtable new).period_ns u
  unfolding find_slack
  find_slack-Found s p h =
      let r = s.rsvtable new in
      let z = r.period_ns - s.resp in
      let interf = u64 (rm_demand s.rsvtable tablesize new z) in
      let used = u64 (interf + r.exectime_in_rm_ns) in
      let z' = u64 (z + window r s.resp) in
      let eq = get_rm_interference-rm_demand s.rsvtable tablesize new p z in
      let bound : z ≤ r.period_ns = omega arith in
      elim (Bool-cases (ltb used z)) [
        | inl b ↦ (
          record s { z = z; slack = sub_u64 (sub_u64 z interf) r.exectime_in_rm_ns },
          rw eq (rw b refl),
          record { table = refl; resp = refl; z = bound; slack = left (ground arith) refl },
        )
        | inr b ↦ elim (Bool-cases (z == used)) [
          | inl c ↦ elim (Bool-cases (leb z' r.period_ns)) [
            | inl d ↦
                let interf1 = u64 (rm_demand s.rsvtable tablesize new z') in
                let eq' = get_rm_interference-rm_demand s.rsvtable tablesize new p z' in
                elim (Bool-cases
                  (leb interf1 (sub_u64 s.resp (sub_u64 r.exectime_ns r.exectime_in_rm_ns)))) [
                    | inl g ↦ (
                      record s { z = z'; slack = sub_u64 (sub_u64 z' interf1) r.exectime_in_rm_ns },
                      rw eq (rw (b, c, d) (rw eq' (rw g refl))),
                      record {
                        table = refl;
                        resp = refl;
                        z = leb→le _ _ d;
                        slack = beyond (ground arith) (leb→le _ _ d) (leb→le _ _ g) refl;
                      },
                    )
                    | inr g ↦ (
                      record s { z = z },
                      rw eq (rw (b, c, d) (rw eq' (rw g refl))),
                      record {
                        table = refl;
                        resp = refl;
                        z = bound;
                        slack = stuck (ground arith) (inr (ground arith)) refl;
                      },
                    )
                  ]
            | inr d ↦ (
              record s { z = z },
              rw eq (rw (b, c, d) refl),
              record {
                table = refl;
                resp = refl;
                z = bound;
                slack = stuck (ground arith) (inl (ground arith)) refl;
              },
            )
          ]
          | inr c ↦ (
            record s { z = z; slack = 0 },
            rw eq (rw (b, c) refl),
            record { table = refl; resp = refl; z = bound; slack = short (ground arith) refl },
          )
        ]
      ]

module _ (tablesize new prev_z : ℕ) (loop : ℕ → Admit → Outcome Admit) (s : Admit) where
  pub next-on :
      (t : Admit)
      → (leb s.resp (s.rsvtable new).period_ns && ltb prev_z s.z) ≡ true
      → admit_round tablesize new s ≡ value t
      → next_admit tablesize new prev_z loop s ≡ loop s.z t
  unfolding next_admit
  next-on t on eq = rw (on, next_admit) (rw eq refl)

  pub next-off :
      (leb s.resp (s.rsvtable new).period_ns && ltb prev_z s.z) ≡ false
      → next_admit tablesize new prev_z loop s ≡ value s
  unfolding next_admit
  next-off off = rw (off, next_admit) refl
