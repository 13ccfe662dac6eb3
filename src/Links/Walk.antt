-- ===== src/Links/Walk.antt =====
-- The search loop of the queue operations against the list that the queue stands for.
use mixed_trust_zsrmv_public.Base.{
  ℕ, zero, suc, ◌<◌, ◌≡◌, inl, inr, Bool, true, false, List, [], ◌∷◌, arith, Ptr, ◌==◌, has, length,
  Bool-cases,
}
use mixed_trust_zsrmv_public.Links.{walk}
use mixed_trust_zsrmv_public.Links.Seg.{Seg}

-- the node at which the search stops, when it starts at `x` with `ys` behind it
abbrev pub stop_at : (ℕ → ℕ → Bool) → ℕ → List ℕ → ℕ
stop_at go x [] = x
stop_at go x (y ∷ ys) = elim (go x y) [ true ↦ stop_at go y ys | false ↦ x ]

-- the bound on the visits is not met before the search ends
pub walk-stop_at :
    (f : ℕ → Ptr) (go : ℕ → ℕ → Bool) (left x : ℕ) (ys : List ℕ)
    → Seg f (f x) ys
    → length ys < left
    → ((walk f go left x).0 ≡ stop_at go x ys) × (0 < (walk f go left x).1)
unfolding walk
walk-stop_at f go zero x ys s h = absurd (omega arith)
walk-stop_at f go (suc left) x [] s h = ground arith
walk-stop_at f go (suc left) x (y ∷ ys) s h = elim (Bool-cases (go x y)) [
  | inl e ↦ ground (arith, walk-stop_at f go left y ys s.1)
  | inr e ↦ ground arith
]

pub has-stop_at : (go : ℕ → ℕ → Bool) (x : ℕ) (ys : List ℕ) → has (stop_at go x ys) (x ∷ ys) ≡ true
has-stop_at go x [] = ground arith
has-stop_at go x (y ∷ ys) = elim (Bool-cases (go x y)) [
  | inl e ↦ ground (arith, has-stop_at go y ys)
  | inr e ↦ ground arith
]

pub stop_at-ne :
    (go : ℕ → ℕ → Bool) (x : ℕ) (ys : List ℕ) (a : ℕ)
    → has a (x ∷ ys) ≡ false
    → (stop_at go x ys == a) ≡ false
stop_at-ne go x [] a h = ground arith
stop_at-ne go x (y ∷ ys) a h = elim (Bool-cases (go x y)) [
  | inl e ↦ ground (arith, stop_at-ne go y ys a)
  | inr e ↦ ground arith
]
