-- ===== src/Sched/Ready/Order.antt =====
-- The ready queue of src/zsrmv.c as a list: falling priorities, first in first out among equals.
use mixed_trust_zsrmv_public.Base.{
  ℕ, ◌≡◌, refl, inl, inr, false, none, List, [], ◌∷◌, arith, ◌==◌, has, Distinct, All, Bool-cases,
  if◌then◌else◌,
}
use mixed_trust_zsrmv_public.Base.Int.{ℤ, ltb_ℤ, ◌≤ℤ◌}
use mixed_trust_zsrmv_public.Links.{Queue}
use mixed_trust_zsrmv_public.Links.Seg.{Seg}
use mixed_trust_zsrmv_public.Links.Insert.{insert_after}
use mixed_trust_zsrmv_public.Links.Remove.{erase}
use mixed_trust_zsrmv_public.Reserve.{Table}
use mixed_trust_zsrmv_public.RmQueue.Order.{IsReserve, All-erase}
use mixed_trust_zsrmv_public.Sched.Ready.{ready_before}

unfoldable pub ready_insert : Table → ℕ → List ℕ → List ℕ
ready_insert table r [] = r ∷ []
ready_insert table r (x ∷ xs) =
    if ltb_ℤ (table x).priority (table r).priority then r ∷ x ∷ xs else x ∷ ready_insert table r xs

abbrev pub AtMost : Table → ℤ → List ℕ → Type 0
AtMost table p = All (λ y. (table y).priority ≤ℤ p)

-- priorities do not rise along the list
abbrev pub IsSorted : Table → List ℕ → Type 0
IsSorted table [] = Unit
IsSorted table (x ∷ xs) = AtMost table (table x).priority xs × IsSorted table xs

-- The queue stands for the list `xs`, and the reserves outside it are linked to nothing.
pub record IsReady (table : Table) (q : Queue) (xs : List ℕ) : Type 0 where
  pub chain : Seg q.link q.head xs
  pub distinct : Distinct xs
  pub reserves : All (IsReserve table) xs
  pub sorted : IsSorted table xs
  pub idle : (i : ℕ) → has i xs ≡ false → q.link i ≡ none

pub All-ready_insert :
    (P : ℕ → Type 0) (table : Table) (r : ℕ) (xs : List ℕ)
    → P r
    → All P xs
    → All P (ready_insert table r xs)
unfolding ready_insert
All-ready_insert P table r [] p h = (p, tt)
All-ready_insert P table r (x ∷ xs) p h =
    elim (Bool-cases (ltb_ℤ (table x).priority (table r).priority)) [
      | inl e ↦ rw (e, All) (p, h)
      | inr e ↦ rw (e, All) (h.0, All-ready_insert P table r xs p h.1)
    ]

AtMost-trans :
    (table : Table) (a b : ℤ) (xs : List ℕ) → a ≤ℤ b → AtMost table a xs → AtMost table b xs
AtMost-trans table a b [] h s = tt
AtMost-trans table a b (x ∷ xs) h s = (omega (arith, s.0), AtMost-trans table a b xs h s.1)

pub ready_insert-IsSorted :
    (table : Table) (r : ℕ) (xs : List ℕ)
    → IsSorted table xs
    → IsSorted table (ready_insert table r xs)
unfolding ready_insert
ready_insert-IsSorted table r [] s = (tt, tt)
ready_insert-IsSorted table r (x ∷ xs) s =
    elim (Bool-cases (ltb_ℤ (table x).priority (table r).priority)) [
      | inl e ↦ rw (e, IsSorted) ((ground arith, AtMost-trans table _ _ xs (ground arith) s.0), s)
      | inr e ↦
          rw (e, IsSorted)
            (
              All-ready_insert (λ y. (table y).priority ≤ℤ (table x).priority) table r xs
                  (ground arith) s.0,
              ready_insert-IsSorted table r xs s.1,
            )
    ]

pub erase-IsSorted :
    (table : Table) (r : ℕ) (xs : List ℕ) → IsSorted table xs → IsSorted table (erase r xs)
erase-IsSorted table r [] s = tt
erase-IsSorted table r (x ∷ xs) s = elim (Bool-cases (x == r)) [
  | inl e ↦ rw (e, IsSorted) s.1
  | inr e ↦
      rw (e, IsSorted)
        (
          All-erase (λ y. (table y).priority ≤ℤ (table x).priority) r xs s.0,
          erase-IsSorted table r xs s.1,
        )
]

-- the search stops where the list insertion does
pub insert_after-ready_insert :
    (table : Table) (r x : ℕ) (xs : List ℕ)
    → All (IsReserve table) (x ∷ xs)
    → has r (x ∷ xs) ≡ false
    → insert_after (ready_before table r) r x xs ≡ ready_insert table r xs
unfolding ready_insert
insert_after-ready_insert table r x [] h out = refl
insert_after-ready_insert table r x (y ∷ ys) h out =
    elim (Bool-cases (ltb_ℤ (table y).priority (table r).priority)) [
      | inl b ↦ ground arith
      | inr b ↦ ground (arith, insert_after-ready_insert table r y ys)
    ]

pub has-ready_insert :
    (table : Table) (r : ℕ) (xs : List ℕ) (a : ℕ) → has a (ready_insert table r xs) ≡ has a (r ∷ xs)
unfolding ready_insert
has-ready_insert table r [] a = refl
has-ready_insert table r (x ∷ xs) a = ground (arith, has-ready_insert table r xs a)

pub Distinct-ready_insert :
    (table : Table) (r : ℕ) (xs : List ℕ)
    → Distinct xs
    → has r xs ≡ false
    → Distinct (ready_insert table r xs)
unfolding ready_insert
Distinct-ready_insert table r [] d h = (refl, tt)
Distinct-ready_insert table r (x ∷ xs) d h =
    elim (Bool-cases (ltb_ℤ (table x).priority (table r).priority)) [
      | inl e ↦ rw (e, Distinct) (h, d)
      | inr e ↦
          rw (e, Distinct)
            (
              ground (arith, has-ready_insert table r xs x),
              Distinct-ready_insert table r xs d.1 (ground arith),
            )
    ]
