-- ===== src/Sched/Entries/Laws.antt =====
-- getreserve of src/zsrmv.c takes the first free entry.
use mathlib.Core.Path.{subst}
use mixed_trust_zsrmv_public.Base.{
  ℕ, zero, suc, ◌+◌, ◌<◌, ◌≤◌, ◌≡◌, refl, inl, inr, Bool, true, false, Option, none, some, arith,
  ◌==◌, Bool-cases, Option-cases, sym, ap, ◌∙◌, ==→eq,
}
use mixed_trust_zsrmv_public.Base.Int.{ℤ, pos, negsuc, eqb_ℤ}
use mixed_trust_zsrmv_public.Links.{max_reserves}
use mixed_trust_zsrmv_public.Reserve.{Table, modify, modify_self, modify_ne}
use mixed_trust_zsrmv_public.Sched.{Sched, emit, on}
use mixed_trust_zsrmv_public.Sched.Entries.{
  free_from, getreserve, init_reserve, init_reserve_fields,
}

abbrev pub is_free : Table → ℕ → Bool
is_free table i = eqb_ℤ (table i).pid (negsuc 0)

-- the first free index from `i` on, or none if there is none
abbrev Free : Table → ℕ → ℕ → Option ℕ → Type 0
Free table i n none = (j : ℕ) → i ≤ j → j < n → is_free table j ≡ false
Free table i n (some m) =
    (m < n) × (is_free table m ≡ true) × ((j : ℕ) → i ≤ j → j < m → is_free table j ≡ false)

Free-suc :
    (table : Table) (i n : ℕ) (o : Option ℕ)
    → is_free table i ≡ false
    → Free table (suc i) n o
    → Free table i n o
Free-suc table i n none e h = λ j l u. elim (Bool-cases (i == j)) [
  | inl b ↦ subst (λ k. is_free table k ≡ false) (==→eq i j b) e
  | inr b ↦ h j (ground arith) u
]
Free-suc table i n (some m) e (below, free, first) = (
  below,
  free,
  λ j l u. elim (Bool-cases (i == j)) [
    | inl b ↦ subst (λ k. is_free table k ≡ false) (==→eq i j b) e
    | inr b ↦ first j (ground arith) u
  ],
)

free_from-Free :
    (table : Table) (left i n : ℕ) → n ≡ i + left → Free table i n (free_from table left i)
unfolding free_from
free_from-Free table zero i n e = λ j l u. absurd (omega arith)
free_from-Free table (suc left) i n e = elim (Bool-cases (is_free table i)) [
  | inl b ↦ rw (b, free_from) (omega arith, b, λ j l u. absurd (omega arith))
  | inr b ↦
      rw (b, free_from)
        (Free-suc table i n (free_from table left (suc i)) b
          (free_from-Free table left (suc i) n (omega arith)))
]

-- what getreserve does: it takes the first free entry and writes no other, or finds all in use
abbrev pub Taken : Sched → Sched × ℤ → Type 0
Taken s (s', negsuc n) =
    (s' ≡ s) × (n ≡ 0) × ((j : ℕ) → j < max_reserves → is_free s.reserve_table j ≡ false)
Taken s (s', pos i) =
    (i < max_reserves)
    × (is_free s.reserve_table i ≡ true)
    × ((j : ℕ) → j < i → is_free s.reserve_table j ≡ false)
    × ((s'.reserve_table i).pid ≡ pos 0)
    × ((j : ℕ) → (i == j) ≡ false → s'.reserve_table j ≡ s.reserve_table j)

take_entry : ℕ → Sched → Sched
take_entry i s = init_reserve i (on i (λ r. record r { pid = pos 0 }) s)

take_entry-pid : (i : ℕ) (s : Sched) → ((take_entry i s).reserve_table i).pid ≡ pos 0
unfolding take_entry init_reserve on emit init_reserve_fields
take_entry-pid i s =
    let t = modify s.reserve_table i (λ r. record r { pid = pos 0 }) in
    ap (λ r. r.pid) (modify_self t i init_reserve_fields)
    ∙ ap (λ r. r.pid) (modify_self s.reserve_table i (λ r. record r { pid = pos 0 }))

take_entry-other :
    (i j : ℕ) (s : Sched) → (i == j) ≡ false → (take_entry i s).reserve_table j ≡ s.reserve_table j
unfolding take_entry init_reserve on emit
take_entry-other i j s h =
    let t = modify s.reserve_table i (λ r. record r { pid = pos 0 }) in
    modify_ne t i j init_reserve_fields h
    ∙ modify_ne s.reserve_table i j (λ r. record r { pid = pos 0 }) h

-- A new reserve is the first free entry of the table: its process identifier is set to 0 and no
-- other entry is written. The result is -1, and the state is left as it was, only if all entries
-- are in use.
pub getreserve-Taken : (s : Sched) → Taken s (getreserve s)
unfolding getreserve take_entry
getreserve-Taken s =
    let found = free_from-Free s.reserve_table max_reserves 0 max_reserves refl in
    elim (Option-cases (free_from s.reserve_table max_reserves 0)) [
      | inl e ↦
          let none_free = subst (Free s.reserve_table 0 max_reserves) e found in
          subst (Taken s)
            (sym (let eq : getreserve s ≡ (s, negsuc 0) = rw (e, getreserve) refl in eq))
            (refl, refl, λ j l. none_free j (omega arith) l)
      | inr (i, e) ↦
          let (below, free, first) = subst (Free s.reserve_table 0 max_reserves) e found in
          subst (Taken s)
            (sym (let eq : getreserve s ≡ (take_entry i s, pos i) = rw (e, getreserve) refl in eq))
            (
              below,
              free,
              λ j l. first j (omega arith) l,
              take_entry-pid i s,
              λ j h. take_entry-other i j s h,
            )
    ]
