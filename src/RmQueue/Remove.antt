-- ===== src/RmQueue/Remove.antt =====
-- del_rm_queue of src/zsrmv.c removes a reserve from the list that the queue stands for.
use mathlib.Core.Path.{subst}
use mixed_trust_zsrmv_public.Base.{
  ℕ, ◌≡◌, refl, inl, inr, true, false, none, some, List, [], ◌∷◌, arith, ◌==◌, has, Distinct, All,
  Bool-cases, Ptr, sym, ap, ◌∙◌, points_to, ==→eq,
}
use mixed_trust_zsrmv_public.Base.Int.{pred_ℤ}
use mixed_trust_zsrmv_public.Links.{visits, walk, unlink_after}
use mixed_trust_zsrmv_public.Links.Seg.{Seg}
use mixed_trust_zsrmv_public.Links.Walk.{walk-stop_at}
use mixed_trust_zsrmv_public.Links.Remove.{
  until, erase, until-points_to, unlink_after_lem, Distinct-erase, length-erase, erase_absent,
}
use mixed_trust_zsrmv_public.Reserve.{Table}
use mixed_trust_zsrmv_public.RmQueue.{RmQueue, del_behind, del_from, del_rm_queue}
use mixed_trust_zsrmv_public.RmQueue.Order.{IsReserve, IsRmQueue, All-erase, erase-IsSorted}
use mixed_trust_zsrmv_public.RmQueue.Laws.{length-le_max}

module _ (table : Table) (s : RmQueue) (r : ℕ) where
  -- what `del_rm_queue` did to a queue with `r` in it
  abbrev Removed : List ℕ → RmQueue → Type 0
  Removed xs s' = Seg s'.queue.link s'.queue.head xs × (s'.rm_queue_size ≡ pred_ℤ s.rm_queue_size)

  abbrev unlinked : ℕ → RmQueue
  unlinked t = record s {
    queue = record { head = s.queue.head; link = unlink_after s.queue.link r t };
    rm_queue_size = pred_ℤ s.rm_queue_size;
  }

  del_behind-unlinked :
      (t : ℕ) → points_to (s.queue.link t) r ≡ true → del_behind s r t ≡ unlinked t
  unfolding del_behind
  del_behind-unlinked t e = rw e

  del_behind-same : (t : ℕ) → points_to (s.queue.link t) r ≡ false → del_behind s r t ≡ s
  unfolding del_behind
  del_behind-same t e = rw e

  del_from-Removed :
      (p : Ptr) (xs : List ℕ)
      → p ≡ s.queue.head
      → Seg s.queue.link p xs
      → Distinct xs
      → All (IsReserve table) xs
      → has r xs ≡ true
      → Removed (erase r xs) (del_from s r p)
  unfolding del_from
  del_from-Removed none [] h c d a i = cc
  del_from-Removed (some x') [] h c d a i = cc
  del_from-Removed none (x ∷ xs) h c d a i = cc
  del_from-Removed (some x') (x ∷ xs) h c d a i =
      let same : some x' ≡ some x = c.0 in
      let hd : some x ≡ s.queue.head = rw (← same) h in
      subst (λ p. Removed (erase r (x ∷ xs)) (del_from s r p)) (sym same)
        (elim (Bool-cases (x == r)) [
          | inl b ↦
              let at : s.queue.link x ≡ s.queue.link r = ap s.queue.link (==→eq x r b) in
              rw b (subst (λ p. Seg s.queue.link p xs) at c.1, refl)
          | inr b ↦
              let present : has r xs ≡ true = ground arith in
              let full = length-le_max table (x ∷ xs) d a in
              let w = walk s.queue.link (until r) visits x in
              let stop = (walk-stop_at s.queue.link (until r) visits x xs c.1 (omega arith)).0 in
              let at : points_to (s.queue.link w.0) r ≡ true =
                rw stop (until-points_to s.queue.link r x xs c.1 ∙ present) in
              let rest = unlink_after_lem s.queue.link r x w.0 xs stop c.1 d present in
              rw b (
                subst (Removed (x ∷ erase r xs)) (sym (del_behind-unlinked w.0 at))
                  ((sym hd, rest), refl))
        ])

  del_from-same :
      (p : Ptr) (xs : List ℕ)
      → Seg s.queue.link p xs
      → Distinct xs
      → All (IsReserve table) xs
      → has r xs ≡ false
      → del_from s r p ≡ s
  unfolding del_from
  del_from-same none xs c d a i = refl
  del_from-same (some x') [] c d a i = cc
  del_from-same (some x') (x ∷ xs) c d a i =
      let same : some x' ≡ some x = c.0 in
      subst (λ p. del_from s r p ≡ s) (sym same)
        (let absent : (x == r) ≡ false = ground arith in
          let full = length-le_max table (x ∷ xs) d a in
          let w = walk s.queue.link (until r) visits x in
          let stop = (walk-stop_at s.queue.link (until r) visits x xs c.1 (omega arith)).0 in
          let at : points_to (s.queue.link w.0) r ≡ false =
            rw stop (until-points_to s.queue.link r x xs c.1 ∙ ground arith) in
          rw absent (del_behind-same w.0 at))

  -- Deleting a reserve from the rate-monotonic queue removes it from the list that the queue stands
  -- for, and leaves a queue without it as it was.
  pub del_rm_queue-IsRmQueue :
      (xs : List ℕ) → IsRmQueue table s xs → IsRmQueue table (del_rm_queue s r) (erase r xs)
  unfolding del_rm_queue
  del_rm_queue-IsRmQueue xs q = elim (Bool-cases (has r xs)) [
    | inl b ↦
        let (chain, size) = del_from-Removed s.queue.head xs refl q.chain q.distinct q.reserves b in
        record {
          chain = chain;
          distinct = Distinct-erase r xs q.distinct;
          reserves = All-erase (IsReserve table) r xs q.reserves;
          sorted = erase-IsSorted table r xs q.sorted;
          size = ground (arith, length-erase r xs, q.size);
        }
    | inr b ↦
        let same = del_from-same s.queue.head xs q.chain q.distinct q.reserves b in
        rw (same, erase_absent r xs b) q
  ]
