-- ===== src/Sched/Life/Laws.antt =====
-- calculate_rm_priorities of src/zsrmv.c gives the shorter period the higher priority.
use mathlib.Core.Path.{subst}
use mixed_trust_zsrmv_public.Base.{
  ℕ, zero, suc, ◌+◌, ◌≤◌, ◌≡◌, refl, false, none, some, List, [], ◌∷◌, arith, has, Distinct, length,
  Ptr, sym, ap, ◌∙◌,
}
use mixed_trust_zsrmv_public.Base.Int.{ℤ, pos, pred_ℤ}
use mixed_trust_zsrmv_public.Links.{visits}
use mixed_trust_zsrmv_public.Links.Seg.{Seg}
use mixed_trust_zsrmv_public.Reserve.{Table, modify, modify_self, modify_ne}
use mixed_trust_zsrmv_public.RmQueue.{RmQueue}
use mixed_trust_zsrmv_public.RmQueue.Order.{IsRmQueue}
use mixed_trust_zsrmv_public.RmQueue.Laws.{length-le_max}
use mixed_trust_zsrmv_public.Sched.Life.{
  min_priority, set_priority, priorities_from, calculate_rm_priorities,
}

-- along the list the priorities fall by one, from `top` on
abbrev pub Ranked : Table → ℤ → List ℕ → Type 0
Ranked table top [] = Unit
Ranked table top (x ∷ xs) = ((table x).priority ≡ top) × Ranked table (pred_ℤ top) xs

-- the new priorities, and no other reserve was written
abbrev pub Prioritised : Table → ℤ → List ℕ → Table → Type 0
Prioritised table top xs table' =
    Ranked table' top xs × ((j : ℕ) → has j xs ≡ false → table' j ≡ table j)

priorities_from-Prioritised :
    (link : ℕ → Ptr) (left : ℕ) (p : Ptr) (top : ℤ) (table : Table) (xs : List ℕ)
    → Seg link p xs
    → Distinct xs
    → length xs ≤ left
    → Prioritised table top xs (priorities_from link left p top table)
unfolding priorities_from
priorities_from-Prioritised link zero p top table [] c d l = (tt, λ j h. refl)
priorities_from-Prioritised link zero p top table (x ∷ xs) c d l = absurd (omega arith)
priorities_from-Prioritised link (suc left) none top table [] c d l = (tt, λ j h. refl)
priorities_from-Prioritised link (suc left) none top table (x ∷ xs) c d l = cc
priorities_from-Prioritised link (suc left) (some t) top table [] c d l = cc
priorities_from-Prioritised link (suc left) (some t) top table (x ∷ xs) c d l =
    subst (λ p. Prioritised table top (x ∷ xs) (priorities_from link (suc left) p top table))
      (sym c.0)
      (let table1 = modify table x (set_priority top) in
        let (ranked, same) =
          priorities_from-Prioritised link left (link x) (pred_ℤ top) table1 xs c.1 d.1
            (omega arith) in
        let own : (table1 x).priority ≡ top =
          unfold set_priority in ap (λ r. r.priority) (modify_self table x (set_priority top)) in
        (
          (ap (λ r. r.priority) (same x d.0) ∙ own, ranked),
          λ j h. same j (ground arith) ∙ modify_ne table x j (set_priority top) (ground arith),
        ))

-- If the rate-monotonic queue stands for a list of reserves, then the priorities that are computed
-- fall by one along the list, from the lowest priority plus the length of the list, and no reserve
-- outside the list is written.
pub calculate_rm_priorities-Prioritised :
    (table : Table) (rm : RmQueue) (xs : List ℕ)
    → IsRmQueue table rm xs
    → Prioritised table (pos (min_priority + length xs)) xs (calculate_rm_priorities rm table)
unfolding calculate_rm_priorities
calculate_rm_priorities-Prioritised table rm xs q =
    let full = length-le_max table xs q.distinct q.reserves in
    rw q.size (
      priorities_from-Prioritised rm.queue.link visits rm.queue.head
        (pos (min_priority + length xs)) table xs q.chain q.distinct (omega arith))
