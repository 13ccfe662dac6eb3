-- ===== src/Sched/Ready/Laws.antt =====
-- `start` and `stop` of src/zsrmv.c keep the ready queue sorted by priority.
use mathlib.Core.Path.{subst}
use mixed_trust_zsrmv_public.Base.{
  ℕ, ◌<◌, ◌≡◌, refl, inl, inr, true, false, none, some, List, [], ◌∷◌, arith, ◌==◌, has, Distinct,
  All, Bool-cases, Ptr, update, sym, ap, ◌∙◌,
}
use mixed_trust_zsrmv_public.Base.Int.{ltb_ℤ}
use mixed_trust_zsrmv_public.Links.{Queue, visits, walk, link_after}
use mixed_trust_zsrmv_public.Links.Seg.{Seg, Seg-update}
use mixed_trust_zsrmv_public.Links.Walk.{stop_at, walk-stop_at, has-stop_at, stop_at-ne}
use mixed_trust_zsrmv_public.Links.Insert.{link_after_lem}
use mixed_trust_zsrmv_public.Reserve.{Table}
use mixed_trust_zsrmv_public.RmQueue.Order.{IsReserve}
use mixed_trust_zsrmv_public.RmQueue.Laws.{length-le_max, rid_ne}
use mixed_trust_zsrmv_public.CritQueue.{put_behind}
use mixed_trust_zsrmv_public.CritQueue.Laws.{put_behind-link_after}
use mixed_trust_zsrmv_public.Sched.Ready.{ready_before, enqueue, enqueue_behind}
use mixed_trust_zsrmv_public.Sched.Ready.Order.{
  ready_insert, IsReady, ready_insert-IsSorted, insert_after-ready_insert, All-ready_insert,
  Distinct-ready_insert, has-ready_insert,
}

link_after-other :
    (f : ℕ → Ptr) (r t i : ℕ) → (r == i) ≡ false → (t == i) ≡ false → link_after f r t i ≡ f i
unfolding link_after
link_after-other f r t i h g = rw (g, h) refl

pub ne_of_inside : (t i : ℕ) (xs : List ℕ) → has t xs ≡ true → has i xs ≡ false → (t == i) ≡ false
ne_of_inside t i [] h g = cc
ne_of_inside t i (x ∷ xs) h g = ground (arith, ne_of_inside t i xs)

module _ (table : Table) (r : ℕ) where
  enqueue_behind-put_behind :
      (q : Queue) (t left : ℕ)
      → ((table t).rid == r) ≡ false
      → 0 < left
      → enqueue_behind table q r (t, left) ≡ some (put_behind q r t)
  unfolding enqueue_behind
  enqueue_behind-put_behind q t left e h =
      let room : (left == 0) ≡ false = ground arith in rw (room, e)

  -- `r` went in at its place, and no link but its own and those of the queue was changed
  abbrev Entered : (ℕ → Ptr) → List ℕ → Queue → Type 0
  Entered f xs q =
      Seg q.link q.head (ready_insert table r xs)
      × ((i : ℕ) → has i (r ∷ xs) ≡ false → q.link i ≡ f i)

  enqueue-behind :
      (f : ℕ → Ptr) (x : ℕ) (xs : List ℕ)
      → Seg f (f x) xs
      → Distinct (x ∷ xs)
      → All (IsReserve table) (x ∷ xs)
      → (table r).rid ≡ r
      → has r (x ∷ xs) ≡ false
      → let t = stop_at (ready_before table r) x xs in
        enqueue_behind table
          (record { head = some x; link = f })
          r
          (walk f (ready_before table r) visits x)
        ≡ some (record { head = some x; link = link_after f r t })
  enqueue-behind f x xs c d h e out =
      let full = length-le_max table (x ∷ xs) d h in
      let (stop, room) = walk-stop_at f (ready_before table r) visits x xs c (omega arith) in
      let t = stop_at (ready_before table r) x xs in
      let other = rid_ne table r t (x ∷ xs) h e out (has-stop_at (ready_before table r) x xs) in
      let other' : ((table t).rid == r) ≡ false = ground arith in
      let apart = stop_at-ne (ready_before table r) x xs r out in
      let w = walk f (ready_before table r) visits x in
      let q : Queue = record { head = some x; link = f } in
      enqueue_behind-put_behind q w.0 w.1 (rw stop other') room
      ∙ ap (λ k. some (put_behind q r k)) stop
      ∙ ap some (put_behind-link_after q r t apart)

  enqueue-Entered :
      (f : ℕ → Ptr) (p : Ptr) (xs : List ℕ)
      → Seg f p xs
      → Distinct xs
      → All (IsReserve table) xs
      → (table r).rid ≡ r
      → f r ≡ none
      → has r xs ≡ false
      → (q : Queue) × (enqueue table (record { head = p; link = f }) r p ≡ some q) × Entered f xs q
  unfolding enqueue ready_insert
  enqueue-Entered f none [] c d h e z out =
      (record { head = some r; link = f }, refl, ((refl, z), λ i g. refl))
  enqueue-Entered f (some x') [] c d h e z out = cc
  enqueue-Entered f none (x ∷ xs) c d h e z out = cc
  enqueue-Entered f (some x') (x ∷ xs) c d h e z out =
      subst
        (λ p.
          (q : Queue) × (enqueue table (record { head = p; link = f }) r p ≡ some q)
          × Entered f (x ∷ xs) q)
        (sym c.0)
        (elim (Bool-cases (ltb_ℤ (table x).priority (table r).priority)) [
          | inl b ↦
              let at : update f r (some x) x ≡ f x = ground arith in
              let rest = Seg-update f (f x) xs r (some x) c.1 (ground arith) in
              (
                record { head = some r; link = update f r (some x) },
                rw b refl,
                (
                  rw (b, Seg)
                      (
                        refl,
                        (ground arith, subst (λ p. Seg (update f r (some x)) p xs) (sym at) rest),
                      ),
                  λ i g. ground arith,
                ),
              )
          | inr b ↦
              let t = stop_at (ready_before table r) x xs in
              let linked = link_after_lem f (ready_before table r) r x t xs refl c.1 d out in
              (
                record { head = some x; link = link_after f r t },
                rw b (enqueue-behind f x xs c.1 d h e out),
                (
                  rw (b, Seg) (refl, rw (insert_after-ready_insert table r x xs h out) at linked),
                  λ i g. link_after-other f r t i (ground arith) (
                      ne_of_inside t i (x ∷ xs) (has-stop_at (ready_before table r) x xs)
                        (ground arith)),
                ),
              )
        ])

  pub enqueue-IsReady :
      (q : Queue) (xs : List ℕ)
      → IsReady table q xs
      → IsReserve table r
      → has r xs ≡ false
      → (q' : Queue) × (enqueue table q r q.head ≡ some q')
        × IsReady table q' (ready_insert table r xs)
  enqueue-IsReady q xs v i out =
      let (q', eq, (chain, same)) =
        enqueue-Entered q.link q.head xs v.chain v.distinct v.reserves i.1 (v.idle r out) out in
      (
        q',
        eq,
        record {
          chain = chain;
          distinct = Distinct-ready_insert table r xs v.distinct out;
          reserves = All-ready_insert (IsReserve table) table r xs i v.reserves;
          sorted = ready_insert-IsSorted table r xs v.sorted;
          idle = λ j g.
              let g' : has j (r ∷ xs) ≡ false = sym (has-ready_insert table r xs j) ∙ g in
              same j g' ∙ v.idle j (ground arith);
        },
      )
