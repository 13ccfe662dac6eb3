-- ===== src/CritQueue/Laws.antt =====
-- add_crit_blocked and add_crit_stack of src/zsrmv.c insert by falling criticality.
use mathlib.Core.Path.{subst, fun_ext}
use mixed_trust_zsrmv_public.Base.{
  ℕ, ◌<◌, ◌≡◌, refl, inl, inr, Bool, true, false, none, some, List, [], ◌∷◌, arith, ◌==◌, has,
  Distinct, All, Bool-cases, Ptr, update, sym, ap, ◌∙◌, is_null,
}
use mixed_trust_zsrmv_public.Base.Int.{ltb_ℤ}
use mixed_trust_zsrmv_public.Links.{Queue, visits, walk, link_after}
use mixed_trust_zsrmv_public.Links.Seg.{Seg, Seg-update}
use mixed_trust_zsrmv_public.Links.Walk.{stop_at, walk-stop_at, has-stop_at, stop_at-ne}
use mixed_trust_zsrmv_public.Links.Insert.{link_after_lem}
use mixed_trust_zsrmv_public.Reserve.{Table}
use mixed_trust_zsrmv_public.RmQueue.Order.{IsReserve}
use mixed_trust_zsrmv_public.RmQueue.Laws.{length-le_max, rid_ne}
use mixed_trust_zsrmv_public.CritQueue.{
  crit_before, put_behind, add_behind, add_to, add_crit, add_crit_blocked,
}
use mixed_trust_zsrmv_public.CritQueue.Order.{
  insert_behind, insert_after-insert_behind, crit_insert, IsCritQueue, crit_insert-IsSorted,
  All-crit_insert, Distinct-crit_insert,
}

pub put_behind-link_after :
    (q : Queue) (r t : ℕ)
    → (t == r) ≡ false
    → put_behind q r t ≡ record q { link = link_after q.link r t }
unfolding link_after
put_behind-link_after q r t ne = elim (Bool-cases (is_null (q.link t))) [
  | inl b ↦ rw b (
      let same : update (update q.link t (some r)) r none
          ≡ update (update q.link r (q.link t)) t (some r) =
        fun_ext λ j. ground arith in
      ap (λ f. let p : Queue = record { head = q.head; link = f } in p) same)
  | inr b ↦ rw b
]

module _ (table : Table) (r : ℕ) where
  add_behind-put_behind :
      (q : Queue) (t left : ℕ)
      → ((table r).rid == (table t).rid) ≡ false
      → 0 < left
      → add_behind table q r (t, left) ≡ (put_behind q r t, true)
  unfolding add_behind
  add_behind-put_behind q t left e h = let room : (left == 0) ≡ false = ground arith in rw (room, e)

  abbrev Added : List ℕ → Queue × Bool → Type 0
  Added xs (q, done) = (done ≡ true) × Seg q.link q.head xs

  add_behind-Added :
      (f : ℕ → Ptr) (x : ℕ) (xs : List ℕ)
      → Seg f (f x) xs
      → Distinct (x ∷ xs)
      → All (IsReserve table) (x ∷ xs)
      → (table r).rid ≡ r
      → has r (x ∷ xs) ≡ false
      → Added (x ∷ insert_behind table r xs) (
          add_behind table
            (record { head = some x; link = f })
            r
            (walk f (crit_before table r) visits x))
  add_behind-Added f x xs c d h e out =
      let full = length-le_max table (x ∷ xs) d h in
      let (stop, room) = walk-stop_at f (crit_before table r) visits x xs c (omega arith) in
      let t = stop_at (crit_before table r) x xs in
      let other = rid_ne table r t (x ∷ xs) h e out (has-stop_at (crit_before table r) x xs) in
      let other' : ((table r).rid == (table t).rid) ≡ false = ground arith in
      let apart = stop_at-ne (crit_before table r) x xs r out in
      let w = walk f (crit_before table r) visits x in
      let q : Queue = record { head = some x; link = f } in
      let eq : add_behind table q r w ≡ (record q { link = link_after q.link r t }, true) =
        add_behind-put_behind q w.0 w.1 (rw stop other') room
        ∙ ap (λ k. (put_behind q r k, true)) stop
        ∙ ap (λ p. (p, true)) (put_behind-link_after q r t apart) in
      let linked = link_after_lem f (crit_before table r) r x t xs refl c d out in
      subst (Added (x ∷ insert_behind table r xs)) (sym eq)
        (refl, (refl, rw (insert_after-insert_behind table r x xs h e out) at linked))

  add_to-Added :
      (f : ℕ → Ptr) (p : Ptr) (xs : List ℕ)
      → Seg f p xs
      → Distinct xs
      → All (IsReserve table) xs
      → (table r).rid ≡ r
      → f r ≡ none
      → has r xs ≡ false
      → Added (crit_insert table r xs) (add_to table (record { head = p; link = f }) r p)
  unfolding add_to crit_insert
  add_to-Added f none [] c d h e z out = (refl, (refl, z))
  add_to-Added f (some x') [] c d h e z out = cc
  add_to-Added f none (x ∷ xs) c d h e z out = cc
  add_to-Added f (some x') (x ∷ xs) c d h e z out =
      subst
        (λ p.
          Added (crit_insert table r (x ∷ xs)) (add_to table (record { head = p; link = f }) r p))
        (sym c.0)
        (elim (Bool-cases (ltb_ℤ (table x).criticality (table r).criticality)) [
          | inl b ↦
              let at : update f r (some x) x ≡ f x = ground arith in
              let rest = Seg-update f (f x) xs r (some x) c.1 (ground arith) in
              rw b (
                refl,
                (refl, (ground arith, subst (λ p. Seg (update f r (some x)) p xs) (sym at) rest)),
              )
          | inr b ↦ rw b (add_behind-Added f x xs c.1 d h e out)
        ])

  add_crit-IsCritQueue :
      (q : Queue) (xs : List ℕ)
      → IsCritQueue table q xs
      → IsReserve table r
      → has r xs ≡ false
      → ((add_crit table q r).1 ≡ true)
        × IsCritQueue table (add_crit table q r).0 (crit_insert table r xs)
  unfolding add_crit
  add_crit-IsCritQueue q xs v i out =
      let (done, chain) =
        add_to-Added (update q.link r none) q.head xs
          (Seg-update q.link q.head xs r none v.chain out) v.distinct v.reserves i.1 (ground arith)
          out in
      (
        done,
        record {
          chain = chain;
          distinct = Distinct-crit_insert table r xs v.distinct out;
          reserves = All-crit_insert (IsReserve table) table r xs i v.reserves;
          sorted = crit_insert-IsSorted table r xs v.sorted;
        },
      )

  -- Blocking a reserve that is not blocked succeeds, and the linked queue then stands for the list
  -- with the reserve inserted by criticality.
  pub add_crit_blocked-IsCritQueue :
      (q : Queue) (xs : List ℕ)
      → IsCritQueue table q xs
      → IsReserve table r
      → has r xs ≡ false
      → ((add_crit_blocked table q r).1 ≡ true)
        × IsCritQueue table (add_crit_blocked table q r).0 (crit_insert table r xs)
  unfolding add_crit_blocked
  add_crit_blocked-IsCritQueue = add_crit-IsCritQueue
