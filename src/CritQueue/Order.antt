-- ===== src/CritQueue/Order.antt =====
-- The list that a criticality queue of src/zsrmv.c stands for, sorted by falling criticality, and
-- insertion into it.
use mixed_trust_zsrmv_public.Base.{
  ℕ, ◌≡◌, refl, inl, inr, false, List, [], ◌∷◌, arith, has, Distinct, All, if◌then◌else◌,
  Bool-cases,
}
use mixed_trust_zsrmv_public.Base.Int.{ℤ, ltb_ℤ, ◌≤ℤ◌}
use mixed_trust_zsrmv_public.Links.{Queue}
use mixed_trust_zsrmv_public.Links.Seg.{Seg}
use mixed_trust_zsrmv_public.Links.Insert.{insert_after}
use mixed_trust_zsrmv_public.Reserve.{Table}
use mixed_trust_zsrmv_public.RmQueue.Order.{IsReserve}
use mixed_trust_zsrmv_public.CritQueue.{crit_before}

-- behind a node: in front of the first reserve of the same or a lower criticality
abbrev pub insert_behind : Table → ℕ → List ℕ → List ℕ
insert_behind table r [] = r ∷ []
insert_behind table r (y ∷ ys) =
    if ltb_ℤ (table r).criticality (table y).criticality
    then y ∷ insert_behind table r ys
    else r ∷ y ∷ ys

-- in a queue: in front of the first reserve if that one's criticality is lower
unfoldable pub crit_insert : Table → ℕ → List ℕ → List ℕ
crit_insert table r [] = r ∷ []
crit_insert table r (x ∷ xs) =
    if ltb_ℤ (table x).criticality (table r).criticality
    then r ∷ x ∷ xs
    else x ∷ insert_behind table r xs

abbrev pub AtMost : Table → ℤ → List ℕ → Type 0
AtMost table c = All (λ y. (table y).criticality ≤ℤ c)

abbrev pub IsSorted : Table → List ℕ → Type 0
IsSorted table [] = Unit
IsSorted table (x ∷ xs) = AtMost table (table x).criticality xs × IsSorted table xs

pub record IsCritQueue (table : Table) (q : Queue) (xs : List ℕ) : Type 0 where
  pub chain : Seg q.link q.head xs
  pub distinct : Distinct xs
  pub reserves : All (IsReserve table) xs
  pub sorted : IsSorted table xs

pub insert_after-insert_behind :
    (table : Table) (r x : ℕ) (xs : List ℕ)
    → All (IsReserve table) (x ∷ xs)
    → (table r).rid ≡ r
    → has r (x ∷ xs) ≡ false
    → insert_after (crit_before table r) r x xs ≡ insert_behind table r xs
insert_after-insert_behind table r x [] h e out = refl
insert_after-insert_behind table r x (y ∷ ys) h e out =
    elim (Bool-cases (ltb_ℤ (table r).criticality (table y).criticality)) [
      | inl b ↦ ground (arith, insert_after-insert_behind table r y ys)
      | inr b ↦ ground arith
    ]

All-insert_behind :
    (P : ℕ → Type 0) (table : Table) (r : ℕ) (xs : List ℕ)
    → P r
    → All P xs
    → All P (insert_behind table r xs)
All-insert_behind P table r [] p h = (p, tt)
All-insert_behind P table r (x ∷ xs) p h =
    elim (Bool-cases (ltb_ℤ (table r).criticality (table x).criticality)) [
      | inl e ↦ rw (e, All) (h.0, All-insert_behind P table r xs p h.1)
      | inr e ↦ rw (e, All) (p, h)
    ]

AtMost-trans :
    (table : Table) (a b : ℤ) (xs : List ℕ) → b ≤ℤ a → AtMost table b xs → AtMost table a xs
AtMost-trans table a b [] h t = tt
AtMost-trans table a b (x ∷ xs) h t = (omega arith, AtMost-trans table a b xs h t.1)

insert_behind-IsSorted :
    (table : Table) (r : ℕ) (xs : List ℕ)
    → IsSorted table xs
    → IsSorted table (insert_behind table r xs)
insert_behind-IsSorted table r [] s = (tt, tt)
insert_behind-IsSorted table r (x ∷ xs) s =
    elim (Bool-cases (ltb_ℤ (table r).criticality (table x).criticality)) [
      | inl e ↦
          rw (e, IsSorted)
            (
              All-insert_behind (λ y. (table y).criticality ≤ℤ (table x).criticality) table r xs
                  (ground arith) s.0,
              insert_behind-IsSorted table r xs s.1,
            )
      | inr e ↦ rw (e, IsSorted) ((ground arith, AtMost-trans table _ _ xs (ground arith) s.0), s)
    ]

pub crit_insert-IsSorted :
    (table : Table) (r : ℕ) (xs : List ℕ)
    → IsSorted table xs
    → IsSorted table (crit_insert table r xs)
unfolding crit_insert
crit_insert-IsSorted table r [] s = (tt, tt)
crit_insert-IsSorted table r (x ∷ xs) s =
    elim (Bool-cases (ltb_ℤ (table x).criticality (table r).criticality)) [
      | inl e ↦ rw (e, IsSorted) ((ground arith, AtMost-trans table _ _ xs (ground arith) s.0), s)
      | inr e ↦
          rw (e, IsSorted)
            (
              All-insert_behind (λ y. (table y).criticality ≤ℤ (table x).criticality) table r xs
                  (ground arith) s.0,
              insert_behind-IsSorted table r xs s.1,
            )
    ]

pub All-crit_insert :
    (P : ℕ → Type 0) (table : Table) (r : ℕ) (xs : List ℕ)
    → P r
    → All P xs
    → All P (crit_insert table r xs)
unfolding crit_insert
All-crit_insert P table r [] p h = (p, tt)
All-crit_insert P table r (x ∷ xs) p h =
    elim (Bool-cases (ltb_ℤ (table x).criticality (table r).criticality)) [
      | inl e ↦ rw (e, All) (p, h)
      | inr e ↦ rw (e, All) (h.0, All-insert_behind P table r xs p h.1)
    ]

has-insert_behind :
    (table : Table) (r : ℕ) (xs : List ℕ) (a : ℕ)
    → has a (insert_behind table r xs) ≡ has a (r ∷ xs)
has-insert_behind table r [] a = refl
has-insert_behind table r (x ∷ xs) a = ground (arith, has-insert_behind table r xs a)

Distinct-insert_behind :
    (table : Table) (r : ℕ) (xs : List ℕ)
    → Distinct xs
    → has r xs ≡ false
    → Distinct (insert_behind table r xs)
Distinct-insert_behind table r [] d h = (refl, tt)
Distinct-insert_behind table r (x ∷ xs) d h =
    elim (Bool-cases (ltb_ℤ (table r).criticality (table x).criticality)) [
      | inl e ↦
          rw (e, Distinct)
            (
              ground (arith, has-insert_behind table r xs x),
              Distinct-insert_behind table r xs d.1 (ground arith),
            )
      | inr e ↦ rw (e, Distinct) (h, d)
    ]

pub Distinct-crit_insert :
    (table : Table) (r : ℕ) (xs : List ℕ)
    → Distinct xs
    → has r xs ≡ false
    → Distinct (crit_insert table r xs)
unfolding crit_insert
Distinct-crit_insert table r [] d h = (refl, tt)
Distinct-crit_insert table r (x ∷ xs) d h =
    elim (Bool-cases (ltb_ℤ (table x).criticality (table r).criticality)) [
      | inl e ↦ rw (e, Distinct) (h, d)
      | inr e ↦
          rw (e, Distinct)
            (
              ground (arith, has-insert_behind table r xs x),
              Distinct-insert_behind table r xs d.1 (ground arith),
            )
    ]
