-- ===== src/Admission/Sets.antt =====
-- The enumeration of a task set by getNextInSet of src/admission.c, and the interference that its
-- callers add up.
use mixed_trust_zsrmv_public.Base.{
  ℕ, zero, suc, ◌+◌, ◌-◌, ◌<◌, ◌≤◌, ◌≡◌, refl, inl, inr, true, false, ltb, ◌==◌, arith, Bool-cases,
}
use mixed_trust_zsrmv_public.Base.Int.{ℤ, pos, negsuc}
use mixed_trust_zsrmv_public.Reserve.{Table}
use mixed_trust_zsrmv_public.Admission.{Test, passed_over, skip, get_next_in_set}

module _ (rsvtable : Table) (new : ℕ) (in_set : Test) where
  -- The entry `j` is the first from `i` on that is not passed over, below the bound.
  pub record Selected (i bound j : ℕ) : Type 0 where
    pub from : i ≤ j
    pub below : j < bound
    pub member : passed_over rsvtable new in_set j ≡ false
    pub first : (k : ℕ) → i ≤ k → k < j → passed_over rsvtable new in_set k ≡ true

  -- where a search over `left` entries from `i` ends
  record Skipped (i left j : ℕ) : Type 0 where
    from : i ≤ j
    to : j ≤ i + left
    stop : j < i + left → passed_over rsvtable new in_set j ≡ false
    first : (k : ℕ) → i ≤ k → k < j → passed_over rsvtable new in_set k ≡ true

  skip-Skipped : (left i : ℕ) → Skipped i left (skip rsvtable new in_set left i)
  unfolding skip
  skip-Skipped zero i = record {
    from = omega arith;
    to = omega arith;
    stop = λ h. absurd (omega arith);
    first = λ k h l. absurd (omega arith);
  }
  skip-Skipped (suc left) i = elim (Bool-cases (passed_over rsvtable new in_set i)) [
    | inl e ↦
        let r = skip-Skipped left (suc i) in
        rw (e, skip)
          (record {
            from = omega arith;
            to = omega arith;
            stop = λ h. r.stop (omega arith);
            first = λ k h l. elim (Bool-cases (i == k)) [
              | inl b ↦ let same : i ≡ k = ground arith in rw (← same) e
              | inr b ↦ r.first k (ground arith) l
            ];
          })
    | inr e ↦
        rw (e, skip)
          (record {
            from = omega arith;
            to = omega arith;
            stop = λ h. e;
            first = λ k h l. absurd (omega arith);
          })
  ]

  -- The result of a search from `i`: the first member of the set from there on and the index
  -- behind it, or -1 if there is none up to the end of the table.
  abbrev pub Next : ℕ → ℕ → ℤ × ℤ → Type 0
  Next i tablesize (pos j, next) = Selected i tablesize j × (next ≡ pos (suc j))
  Next i tablesize (negsuc n, next) =
      (n ≡ 0) × ((k : ℕ) → i ≤ k → k < tablesize → passed_over rsvtable new in_set k ≡ true)

  -- The search for the next member of a task set returns the first one from its start that is in
  -- the set, in use and not the reserve under test, together with the index behind it; it returns
  -- none only if there is none.
  pub get_next_in_set-Next :
      (i tablesize : ℕ) → Next i tablesize (get_next_in_set rsvtable (pos i) tablesize new in_set)
  unfolding get_next_in_set
  get_next_in_set-Next i tablesize =
      let r = skip-Skipped (tablesize - i) i in
      let j = skip rsvtable new in_set (tablesize - i) i in
      elim (Bool-cases (ltb j tablesize)) [
        | inl b ↦
            rw (b, get_next_in_set)
              (
                record {
                  from = r.from;
                  below = ground arith;
                  member = r.stop (ground arith);
                  first = r.first;
                },
                refl,
              )
        | inr b ↦ rw (b, get_next_in_set) (refl, λ k h l. r.first k h (ground arith))
      ]
