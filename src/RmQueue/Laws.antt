-- ===== src/RmQueue/Laws.antt =====
-- add_rm_queue of src/zsrmv.c implements sorted insertion on the list that the queue stands for.
use mathlib.Core.Path.{subst}
use mixed_trust_zsrmv_public.Base.{
  ℕ, ◌<◌, ◌≤◌, ◌≡◌, refl, inl, inr, Bool, true, false, none, some, List, [], ◌∷◌, arith, ltb, ◌==◌,
  has, Distinct, All, length, Bool-cases, Ptr, update, sym, ap, ◌∙◌,
}
use mixed_trust_zsrmv_public.Base.Int.{suc_ℤ}
use mixed_trust_zsrmv_public.Links.{Queue, max_reserves, visits, walk, link_after}
use mixed_trust_zsrmv_public.Links.Seg.{Seg, Seg-update}
use mixed_trust_zsrmv_public.Links.Walk.{stop_at, walk-stop_at, has-stop_at}
use mixed_trust_zsrmv_public.Links.Insert.{link_after_lem}
use mixed_trust_zsrmv_public.Reserve.{Table}
use mixed_trust_zsrmv_public.RmQueue.{RmQueue, rm_before, add_behind, add_to, add_rm_queue}
use mixed_trust_zsrmv_public.RmQueue.Order.{
  IsReserve, IsRmQueue, rm_insert, All-rm_insert, rm_insert-IsSorted, insert_after-rm_insert,
  length_of_Distinct, Distinct-rm_insert, length-rm_insert,
}

-- the indices of a queue fit into the table, so the bound on the visits is never met
pub length-le_max :
    (table : Table) (xs : List ℕ)
    → Distinct xs
    → All (IsReserve table) xs
    → length xs ≤ max_reserves
length-le_max table xs d h = length_of_Distinct max_reserves xs d (below xs h)
  where
    below : (ys : List ℕ) → All (IsReserve table) ys → All (λ i. i < max_reserves) ys
    below [] h = tt
    below (y ∷ ys) h = (h.0.0, below ys h.1)

-- the reserves of a queue have other rids than a reserve that is not in it
pub rid_ne :
    (table : Table) (r t : ℕ) (xs : List ℕ)
    → All (IsReserve table) xs
    → (table r).rid ≡ r
    → has r xs ≡ false
    → has t xs ≡ true
    → ((table t).rid == (table r).rid) ≡ false
rid_ne table r t [] h e out i = cc
rid_ne table r t (x ∷ xs) h e out i = elim (Bool-cases (x == t)) [
  | inl b ↦
      let same : x ≡ t = ground arith in
      let own : (table t).rid ≡ t = subst (λ k. (table k).rid ≡ k) same h.0.1 in ground arith
  | inr b ↦ rid_ne table r t xs h.1 e (ground arith) (ground arith)
]

module _ (table : Table) (s : RmQueue) (r : ℕ) where
  -- what `add_rm_queue` did to the queue: `r` went in at its place and the size was counted up
  abbrev Added : List ℕ → RmQueue × Bool → Type 0
  Added xs (s', done) =
      (done ≡ true)
      × Seg s'.queue.link s'.queue.head xs
      × (s'.rm_queue_size ≡ suc_ℤ s.rm_queue_size)

  -- the state after an insertion behind `t`
  abbrev inserted : Queue → ℕ → RmQueue × Bool
  inserted q t = (
    record s {
      queue = record q { link = link_after q.link r t };
      rm_queue_size = suc_ℤ s.rm_queue_size;
    },
    true,
  )

  add_behind-inserted :
      (q : Queue) (t left : ℕ)
      → ((table t).rid == (table r).rid) ≡ false
      → 0 < left
      → add_behind table s q r (t, left) ≡ inserted q t
  unfolding add_behind
  add_behind-inserted q t left e h = let room : (left == 0) ≡ false = ground arith in rw (e, room)

  add_behind-Added :
      (f : ℕ → Ptr) (x : ℕ) (xs : List ℕ)
      → Seg f (f x) xs
      → Distinct (x ∷ xs)
      → All (IsReserve table) (x ∷ xs)
      → (table r).rid ≡ r
      → has r (x ∷ xs) ≡ false
      → Added (x ∷ rm_insert table r xs) (
          add_behind table s
            (record { head = some x; link = f })
            r
            (walk f (rm_before table r) visits x))
  add_behind-Added f x xs c d h e out =
      let full = length-le_max table (x ∷ xs) d h in
      let (stop, room) = walk-stop_at f (rm_before table r) visits x xs c (omega arith) in
      let t = stop_at (rm_before table r) x xs in
      let other = rid_ne table r t (x ∷ xs) h e out (has-stop_at (rm_before table r) x xs) in
      let w = walk f (rm_before table r) visits x in
      let q : Queue = record { head = some x; link = f } in
      let eq : add_behind table s q r w ≡ inserted q t =
        add_behind-inserted q w.0 w.1 (rw stop other) room ∙ ap (inserted q) stop in
      let linked = link_after_lem f (rm_before table r) r x t xs refl c d out in
      subst (Added (x ∷ rm_insert table r xs)) (sym eq)
        (refl, (refl, rw (insert_after-rm_insert table r x xs h e out) at linked), refl)

  add_to-Added :
      (f : ℕ → Ptr) (p : Ptr) (xs : List ℕ)
      → Seg f p xs
      → Distinct xs
      → All (IsReserve table) xs
      → (table r).rid ≡ r
      → f r ≡ none
      → has r xs ≡ false
      → Added (rm_insert table r xs) (add_to table s (record { head = p; link = f }) r p)
  unfolding add_to rm_insert
  add_to-Added f none [] c d h e z out = (refl, (refl, z), refl)
  add_to-Added f (some x') [] c d h e z out = cc
  add_to-Added f none (x ∷ xs) c d h e z out = cc
  add_to-Added f (some x') (x ∷ xs) c d h e z out =
      let same : some x' ≡ some x = c.0 in
      subst
        (λ p.
          Added (rm_insert table r (x ∷ xs)) (add_to table s (record { head = p; link = f }) r p))
        (sym same)
        (elim (Bool-cases (ltb (table r).period_ns (table x).period_ns)) [
          | inl b ↦
              let at : update f r (some x) x ≡ f x = ground arith in
              let rest = Seg-update f (f x) xs r (some x) c.1 (ground arith) in
              rw b (
                refl,
                (refl, (ground arith, subst (λ p. Seg (update f r (some x)) p xs) (sym at) rest)),
                refl,
              )
          | inr b ↦ rw b (add_behind-Added f x xs c.1 d h e out)
        ])

  add_rm_queue-Added :
      (xs : List ℕ)
      → IsRmQueue table s xs
      → (table r).rid ≡ r
      → has r xs ≡ false
      → Added (rm_insert table r xs) (add_rm_queue table s r)
  unfolding add_rm_queue
  add_rm_queue-Added xs q e out =
      add_to-Added (update s.queue.link r none) s.queue.head xs
        (Seg-update s.queue.link s.queue.head xs r none q.chain out) q.distinct q.reserves e
        (ground arith) out

  -- Adding a reserve that is not in the rate-monotonic queue succeeds, and the linked queue then
  -- stands for the sorted list with the reserve inserted behind those of the same period.
  pub add_rm_queue-IsRmQueue :
      (xs : List ℕ)
      → IsRmQueue table s xs
      → IsReserve table r
      → has r xs ≡ false
      → ((add_rm_queue table s r).1 ≡ true)
        × IsRmQueue table (add_rm_queue table s r).0 (rm_insert table r xs)
  add_rm_queue-IsRmQueue xs q i out =
      let (done, chain, size) = add_rm_queue-Added xs q i.1 out in
      (
        done,
        record {
          chain = chain;
          distinct = Distinct-rm_insert table r xs q.distinct out;
          reserves = All-rm_insert (IsReserve table) table r xs i q.reserves;
          sorted = rm_insert-IsSorted table r xs q.sorted;
          size = ground (arith, length-rm_insert table r xs, q.size);
        },
      )
