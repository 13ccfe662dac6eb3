-- ===== src/Admission/Demand.antt =====
-- What the loops over a task set in src/admission.c add up: the demand of the set in a window.
use mixed_trust_zsrmv_public.Base.{
  ℕ, zero, suc, ◌+◌, ◌-◌, ◌*◌, ◌/◌, ◌%◌, ◌^◌, ◌<◌, ◌≤◌, ◌≡◌, refl, inl, inr, true, false, ltb,
  if◌then◌else◌, u32, u64, arith, Bool-cases, sym, ap, ◌∙◌,
}
use mixed_trust_zsrmv_public.Base.Int.{ℤ, pos, negsuc, eqb_ℤ}
use mixed_trust_zsrmv_public.Reserve.{Reserve, Table}
use mixed_trust_zsrmv_public.Admission.{
  Outcome, value, Test, passed_over, skip, get_next_in_set, num_arrivals, interference_loop,
  add_selected, add_interference,
}

-- the jobs of period p that arrive in a window of length t
abbrev pub arrivals : ℕ → ℕ → ℕ
arrivals t p = u32 (t / p + (if ltb 0 (t % p) then 1 else 0))

num_arrivals-value : (t p : ℕ) → 0 < p → num_arrivals t p ≡ value (arrivals t p)
unfolding num_arrivals
num_arrivals-value t zero h = absurd (omega arith)
num_arrivals-value t (suc p) h = refl

-- every entry of the table that is in use has a period
abbrev pub HavePeriods : Table → ℕ → Type 0
HavePeriods rsvtable tablesize =
    (i : ℕ) → i < tablesize → eqb_ℤ (rsvtable i).pid (negsuc 0) ≡ false → 0 < (rsvtable i).period_ns

module _ (rsvtable : Table) (new : ℕ) (in_set : Test) (exec : Reserve → ℕ) (t : ℕ) where
  -- the execution time that the entry `i` demands in the window
  unfoldable pub entry_demand : ℕ → ℕ
  entry_demand i =
      if passed_over rsvtable new in_set i
      then 0
      else arrivals t (rsvtable i).period_ns * exec (rsvtable i)

  -- the sum over `left` entries from `i` on
  unfoldable pub demand : ℕ → ℕ → ℕ
  demand zero i = 0
  demand (suc left) i = entry_demand i + demand left (suc i)

  next-stop :
      (tablesize i : ℕ)
      → tablesize ≡ i + 0
      → get_next_in_set rsvtable (pos i) tablesize new in_set ≡ (negsuc 0, pos i)
  unfolding get_next_in_set
  next-stop tablesize i e =
      let d : tablesize - i ≡ 0 = omega arith in
      let b : ltb i tablesize ≡ false = ground arith in rw (d, get_next_in_set) (rw b refl)

  next-over :
      (tablesize left i : ℕ)
      → tablesize ≡ i + suc left
      → passed_over rsvtable new in_set i ≡ true
      → get_next_in_set rsvtable (pos i) tablesize new in_set
        ≡ get_next_in_set rsvtable (pos (suc i)) tablesize new in_set
  unfolding get_next_in_set
  next-over tablesize left i e over =
      let d : tablesize - i ≡ suc left = omega arith in
      let d' : tablesize - suc i ≡ left = omega arith in
      rw (d, d', get_next_in_set) (rw (over, skip) refl)

  next-here :
      (tablesize left i : ℕ)
      → tablesize ≡ i + suc left
      → passed_over rsvtable new in_set i ≡ false
      → get_next_in_set rsvtable (pos i) tablesize new in_set ≡ (pos i, pos (suc i))
  unfolding get_next_in_set
  next-here tablesize left i e here =
      let d : tablesize - i ≡ suc left = omega arith in
      let b : ltb i tablesize ≡ true = ground arith in
      rw (d, get_next_in_set) (rw (here, skip) (rw b refl))

  -- one round of the loop, by the pair that the search returns
  loop-at :
      (tablesize fuel acc : ℕ) (idx : ℤ) (found : ℤ × ℤ)
      → get_next_in_set rsvtable idx tablesize new in_set ≡ found
      → interference_loop rsvtable tablesize new in_set exec t (suc fuel) idx acc
        ≡ add_selected rsvtable exec t acc
            (interference_loop rsvtable tablesize new in_set exec t fuel)
            found
  unfolding interference_loop
  loop-at tablesize fuel acc idx found e =
      ap
        (add_selected rsvtable exec t acc
          (interference_loop rsvtable tablesize new in_set exec t fuel))
        e

  add_selected-here :
      (i acc : ℕ) (loop : ℤ → ℕ → Outcome ℕ) (next : ℤ)
      → 0 < (rsvtable i).period_ns
      → passed_over rsvtable new in_set i ≡ false
      → add_selected rsvtable exec t acc loop (pos i, next) ≡ loop next (u64 (acc + entry_demand i))
  unfolding add_selected entry_demand
  add_selected-here i acc loop next p here = rw (num_arrivals-value t _ p, here) refl

  interference_loop-demand :
      (tablesize : ℕ)
      → HavePeriods rsvtable tablesize
      → (left fuel i acc : ℕ) → tablesize ≡ i + left
      → left ≤ fuel
      → acc < 2 ^ 64
      → interference_loop rsvtable tablesize new in_set exec t (suc fuel) (pos i) acc
        ≡ value (u64 (acc + demand left i))
  unfolding demand add_selected
  interference_loop-demand tablesize p zero fuel i acc e f small =
      loop-at tablesize fuel acc (pos i) (negsuc 0, pos i) (next-stop tablesize i e)
      ∙ ap value (omega arith)
  interference_loop-demand tablesize p (suc left) zero i acc e f small = absurd (omega arith)
  interference_loop-demand tablesize p (suc left) (suc fuel) i acc e f small =
      elim (Bool-cases (passed_over rsvtable new in_set i)) [
        | inl over ↦
            let none_here : entry_demand i ≡ 0 = unfold entry_demand in rw over in
            loop-at tablesize (suc fuel) acc (pos i) _ (next-over tablesize left i e over)
            ∙ sym (loop-at tablesize (suc fuel) acc (pos (suc i)) _ refl)
            ∙ interference_loop-demand tablesize p left (suc fuel) (suc i) acc (omega arith)
                (omega arith) small
            ∙ ap value (omega (arith, none_here))
        | inr here ↦
            loop-at tablesize (suc fuel) acc (pos i) _ (next-here tablesize left i e here)
            ∙ add_selected-here i acc
                (interference_loop rsvtable tablesize new in_set exec t (suc fuel)) (pos (suc i))
                (p i (omega arith) (ground arith)) here
            ∙ interference_loop-demand tablesize p left fuel (suc i) (u64 (acc + entry_demand i))
                (omega arith) (omega arith) (omega arith)
            ∙ ap value (omega arith)
      ]

  -- The loop over a task set adds the demand of its members in the table, modulo 2^64.
  pub add_interference-demand :
      (tablesize acc : ℕ)
      → HavePeriods rsvtable tablesize
      → acc < 2 ^ 64
      → add_interference rsvtable tablesize new in_set exec t acc
        ≡ value (u64 (acc + demand tablesize 0))
  unfolding add_interference
  add_interference-demand tablesize acc p small =
      interference_loop-demand tablesize p tablesize tablesize 0 acc (omega arith) (omega arith)
        small
