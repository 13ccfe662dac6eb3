-- ===== src/CritQueue/Twice.antt =====
-- add_crit_blocked of src/zsrmv.c on a reserve that is blocked already and does not head the queue:
-- the search stops in front of the reserve itself, so the guard on the rids does not see it.
use mathlib.Core.Path.{subst}
use mixed_trust_zsrmv_public.Base.{
  ℕ, zero, suc, ◌<◌, ◌≡◌, Bool, true, false, none, some, List, [], ◌∷◌, ◌++◌, arith, ◌==◌, has, All,
  length, Ptr, update, sym, ==_symm,
}
use mixed_trust_zsrmv_public.Base.Int.{ltb_ℤ, ◌<ℤ◌}
use mixed_trust_zsrmv_public.Links.{Queue, visits, walk}
use mixed_trust_zsrmv_public.Links.Seg.{Seg}
use mixed_trust_zsrmv_public.Reserve.{Table}
use mixed_trust_zsrmv_public.RmQueue.Order.{IsReserve}
use mixed_trust_zsrmv_public.RmQueue.Laws.{rid_ne}
use mixed_trust_zsrmv_public.Links.Remove.{ne_of_has}
use mixed_trust_zsrmv_public.CritQueue.{crit_before, add_behind, add_to, add_crit_blocked}

-- all criticalities of `xs` are above that of `r`
abbrev pub Above : Table → ℕ → List ℕ → Type 0
Above table r = All (λ y. (table r).criticality <ℤ (table y).criticality)

-- Behind the list `x ∷ xs` the search meets `r`, and stops at the last node before it.
walk-before :
    (table : Table) (f : ℕ → Ptr) (r : ℕ) (left x : ℕ) (xs : List ℕ)
    → Seg f (f x) (xs ++ r ∷ [])
    → Above table r xs
    → All (IsReserve table) (x ∷ xs)
    → IsReserve table r
    → has r (x ∷ xs) ≡ false
    → length xs < left
    → let w = walk f (crit_before table r) left x in
      (f w.0 ≡ some r) × (has w.0 (x ∷ xs) ≡ true) × (0 < w.1)
unfolding walk
walk-before table f r zero x xs c a h i out n = absurd (omega arith)
walk-before table f r (suc left) x [] c a h i out n = ground arith
walk-before table f r (suc left) x (y ∷ ys) c a h i out n =
    let on : crit_before table r x y ≡ true = ground arith in
    ground (arith, walk-before table f r left y ys c.1 a.1 h.1 i)

Seg-prefix :
    (f : ℕ → Ptr) (p : Ptr) (r : ℕ) (xs ys : List ℕ)
    → Seg f p (xs ++ r ∷ ys)
    → has r xs ≡ false
    → Seg (update f r none) p (xs ++ r ∷ [])
Seg-prefix f p r [] ys c out = (c.0, ground arith)
Seg-prefix f p r (x ∷ xs) ys c out =
    let at : update f r none x ≡ f x = ground arith in
    (
      c.0,
      subst (λ p. Seg (update f r none) p (xs ++ r ∷ [])) (sym at)
          (Seg-prefix f (f x) r xs ys c.1 (ground arith)),
    )

module _ (table : Table) (r : ℕ) where
  -- the reserve `r` is its own successor, and the call has reported success
  abbrev pub Looped : Queue × Bool → Type 0
  Looped out = (out.1 ≡ true) × (out.0.link r ≡ some r)

  add_behind-Looped :
      (q : Queue) (t left : ℕ)
      → ((table r).rid == (table t).rid) ≡ false
      → 0 < left
      → q.link t ≡ some r
      → (t == r) ≡ false
      → Looped (add_behind table q r (t, left))
  unfolding add_behind
  add_behind-Looped q t left e h l ne =
      let room : (left == 0) ≡ false = ground arith in rw (room, e) (ground arith)

  add_to-Looped :
      (f : ℕ → Ptr) (p : Ptr) (x : ℕ) (xs ys : List ℕ)
      → Seg f p ((x ∷ xs) ++ r ∷ ys)
      → Above table r (x ∷ xs)
      → All (IsReserve table) (x ∷ xs)
      → IsReserve table r
      → has r (x ∷ xs) ≡ false
      → length xs < visits
      → Looped (add_to table (record { head = p; link = update f r none }) r p)
  unfolding add_to
  add_to-Looped f none x xs ys c a h i out n = cc
  add_to-Looped f (some x') x xs ys c a h i out n =
      subst (λ p. Looped (add_to table (record { head = p; link = update f r none }) r p)) (sym c.0)
        (let first : ltb_ℤ (table x).criticality (table r).criticality ≡ false = ground arith in
          let at : update f r none x ≡ f x = ground arith in
          let front : Seg (update f r none) (update f r none x) (xs ++ r ∷ []) =
            subst (λ p. Seg (update f r none) p (xs ++ r ∷ [])) (sym at)
              (Seg-prefix f (f x) r xs ys c.1 (ground arith)) in
          let (next, inside, room) =
            walk-before table (update f r none) r visits x xs front a.1 h i out n in
          let w = walk (update f r none) (crit_before table r) visits x in
          let other = rid_ne table r w.0 (x ∷ xs) h i.1 out inside in
          rw first (
            add_behind-Looped (record { head = some x; link = update f r none }) w.0 w.1
              (==_symm _ _ other) room next (==_symm _ _ (ne_of_has w.0 r (x ∷ xs) inside out))))

  -- Blocking again a reserve that is blocked behind at most 101 others of higher criticality
  -- reports success, and makes the reserve its own successor.
  pub add_crit_blocked-Looped :
      (q : Queue) (x : ℕ) (xs ys : List ℕ)
      → Seg q.link q.head ((x ∷ xs) ++ r ∷ ys)
      → Above table r (x ∷ xs)
      → All (IsReserve table) (x ∷ xs)
      → IsReserve table r
      → has r (x ∷ xs) ≡ false
      → length xs < visits
      → Looped (add_crit_blocked table q r)
  unfolding add_crit_blocked
  add_crit_blocked-Looped q x xs ys c a h i out n =
      add_to-Looped q.link q.head x xs ys c a h i out n
