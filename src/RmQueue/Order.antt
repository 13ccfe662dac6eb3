-- ===== src/RmQueue/Order.antt =====
-- The order that rm_head stands for: reserves by period, first come first served among equals.
use mixed_trust_zsrmv_public.Base.{
  ℕ, zero, suc, ◌<◌, ◌≤◌, ◌≡◌, refl, inl, inr, false, List, [], ◌∷◌, arith, ltb, ◌==◌, has,
  Distinct, All, length, if◌then◌else◌, Bool-cases,
}
use mixed_trust_zsrmv_public.Base.Int.{pos}
use mixed_trust_zsrmv_public.Links.{max_reserves}
use mixed_trust_zsrmv_public.Links.Seg.{Seg}
use mixed_trust_zsrmv_public.Links.Insert.{insert_after}
use mixed_trust_zsrmv_public.Links.Remove.{erase, length-erase, Distinct-erase}
use mixed_trust_zsrmv_public.Reserve.{Table}
use mixed_trust_zsrmv_public.RmQueue.{RmQueue, rm_before}

-- insertion into a list by period, behind all reserves of the same period
unfoldable pub rm_insert : Table → ℕ → List ℕ → List ℕ
rm_insert table r [] = r ∷ []
rm_insert table r (x ∷ xs) =
    if ltb (table r).period_ns (table x).period_ns then r ∷ x ∷ xs else x ∷ rm_insert table r xs

-- periods do not fall along the list
abbrev pub IsSorted : Table → List ℕ → Type 0
IsSorted table [] = Unit
IsSorted table (x ∷ xs) =
    All (λ y. (table x).period_ns ≤ (table y).period_ns) xs × IsSorted table xs

-- indices of the table, each with its own index as its rid
abbrev pub IsReserve : Table → ℕ → Type 0
IsReserve table i = (i < max_reserves) × ((table i).rid ≡ i)

-- The queue stands for the list `xs`.
pub record IsRmQueue (table : Table) (s : RmQueue) (xs : List ℕ) : Type 0 where
  pub chain : Seg s.queue.link s.queue.head xs
  pub distinct : Distinct xs
  pub reserves : All (IsReserve table) xs
  pub sorted : IsSorted table xs
  pub size : s.rm_queue_size ≡ pos (length xs)

pub All-rm_insert :
    (P : ℕ → Type 0) (table : Table) (r : ℕ) (xs : List ℕ)
    → P r
    → All P xs
    → All P (rm_insert table r xs)
unfolding rm_insert
All-rm_insert P table r [] p h = (p, tt)
All-rm_insert P table r (x ∷ xs) p h =
    elim (Bool-cases (ltb (table r).period_ns (table x).period_ns)) [
      | inl e ↦ rw (e, All) (p, h)
      | inr e ↦ rw (e, All) (h.0, All-rm_insert P table r xs p h.1)
    ]

All-le_trans :
    (table : Table) (a b : ℕ) (xs : List ℕ)
    → a ≤ b
    → All (λ y. b ≤ (table y).period_ns) xs
    → All (λ y. a ≤ (table y).period_ns) xs
All-le_trans table a b [] h t = tt
All-le_trans table a b (x ∷ xs) h t = (omega arith, All-le_trans table a b xs h t.1)

pub rm_insert-IsSorted :
    (table : Table) (r : ℕ) (xs : List ℕ)
    → IsSorted table xs
    → IsSorted table (rm_insert table r xs)
unfolding rm_insert
rm_insert-IsSorted table r [] s = (tt, tt)
rm_insert-IsSorted table r (x ∷ xs) s =
    elim (Bool-cases (ltb (table r).period_ns (table x).period_ns)) [
      | inl e ↦ rw (e, IsSorted) ((ground arith, All-le_trans table _ _ xs (ground arith) s.0), s)
      | inr e ↦
          rw (e, IsSorted)
            (
              All-rm_insert (λ y. (table x).period_ns ≤ (table y).period_ns) table r xs
                  (ground arith) s.0,
              rm_insert-IsSorted table r xs s.1,
            )
    ]

pub All-erase : (P : ℕ → Type 0) (r : ℕ) (xs : List ℕ) → All P xs → All P (erase r xs)
All-erase P r [] h = tt
All-erase P r (x ∷ xs) h = elim (Bool-cases (x == r)) [
  | inl e ↦ rw (e, All) h.1
  | inr e ↦ rw (e, All) (h.0, All-erase P r xs h.1)
]

pub erase-IsSorted :
    (table : Table) (r : ℕ) (xs : List ℕ) → IsSorted table xs → IsSorted table (erase r xs)
erase-IsSorted table r [] s = tt
erase-IsSorted table r (x ∷ xs) s = elim (Bool-cases (x == r)) [
  | inl e ↦ rw (e, IsSorted) s.1
  | inr e ↦
      rw (e, IsSorted)
        (
          All-erase (λ y. (table x).period_ns ≤ (table y).period_ns) r xs s.0,
          erase-IsSorted table r xs s.1,
        )
]

-- the search stops where the list insertion does
pub insert_after-rm_insert :
    (table : Table) (r x : ℕ) (xs : List ℕ)
    → All (IsReserve table) (x ∷ xs)
    → (table r).rid ≡ r
    → has r (x ∷ xs) ≡ false
    → insert_after (rm_before table r) r x xs ≡ rm_insert table r xs
unfolding rm_insert
insert_after-rm_insert table r x [] h e out = refl
insert_after-rm_insert table r x (y ∷ ys) h e out =
    elim (Bool-cases (ltb (table r).period_ns (table y).period_ns)) [
      | inl b ↦ ground arith
      | inr b ↦ ground (arith, insert_after-rm_insert table r y ys)
    ]

-- distinct indices below n are at most n
pub length_of_Distinct : (n : ℕ) (xs : List ℕ) → Distinct xs → All (λ i. i < n) xs → length xs ≤ n
length_of_Distinct zero [] d h = omega arith
length_of_Distinct zero (x ∷ xs) d h = absurd (omega arith)
length_of_Distinct (suc n) xs d h = elim (Bool-cases (has n xs)) [
  | inl e ↦ ground (
    arith,
    length-erase n xs,
    length_of_Distinct n (erase n xs) (Distinct-erase n xs d) (below n xs d h),
  )
  | inr e ↦ ground (arith, length_of_Distinct n xs d (below_absent n xs h e))
]
  where
    below_absent :
        (n : ℕ) (ys : List ℕ) → All (λ i. i < suc n) ys → has n ys ≡ false → All (λ i. i < n) ys
    below_absent n [] h e = tt
    below_absent n (y ∷ ys) h e = (ground arith, below_absent n ys h.1 (ground arith))

    below :
        (n : ℕ) (ys : List ℕ)
        → Distinct ys
        → All (λ i. i < suc n) ys
        → All (λ i. i < n) (erase n ys)
    below n [] d h = tt
    below n (y ∷ ys) d h = elim (Bool-cases (y == n)) [
      | inl e ↦ rw (e, All) (below_absent n ys h.1 (ground arith))
      | inr e ↦ rw (e, All) (ground arith, below n ys d.1 h.1)
    ]

pub has-rm_insert :
    (table : Table) (r : ℕ) (xs : List ℕ) (a : ℕ) → has a (rm_insert table r xs) ≡ has a (r ∷ xs)
unfolding rm_insert
has-rm_insert table r [] a = refl
has-rm_insert table r (x ∷ xs) a = ground (arith, has-rm_insert table r xs a)

pub Distinct-rm_insert :
    (table : Table) (r : ℕ) (xs : List ℕ)
    → Distinct xs
    → has r xs ≡ false
    → Distinct (rm_insert table r xs)
unfolding rm_insert
Distinct-rm_insert table r [] d h = (refl, tt)
Distinct-rm_insert table r (x ∷ xs) d h =
    elim (Bool-cases (ltb (table r).period_ns (table x).period_ns)) [
      | inl e ↦ rw (e, Distinct) (h, d)
      | inr e ↦
          rw (e, Distinct)
            (
              ground (arith, has-rm_insert table r xs x),
              Distinct-rm_insert table r xs d.1 (ground arith),
            )
    ]

pub length-rm_insert :
    (table : Table) (r : ℕ) (xs : List ℕ) → length (rm_insert table r xs) ≡ suc (length xs)
unfolding rm_insert
length-rm_insert table r [] = refl
length-rm_insert table r (x ∷ xs) = ground (arith, length-rm_insert table r xs)
