-- ===== src/Sched/Ready/Leave.antt =====
-- in_readyq and `stop` of src/zsrmv.c on the list that the ready queue stands for.
use mathlib.Core.Path.{subst}
use mixed_trust_zsrmv_public.Base.{
  ℕ, zero, suc, ◌≤◌, ◌≡◌, refl, inl, inr, true, false, none, some, List, [], ◌∷◌, arith, ◌==◌, has,
  Distinct, All, length, Bool-cases, Ptr, update, sym, ap, ◌∙◌, points_to, ==→eq, if◌then◌else◌,
}
use mixed_trust_zsrmv_public.Links.{Queue, visits, walk, unlink_after}
use mixed_trust_zsrmv_public.Links.Seg.{Seg, Seg-update}
use mixed_trust_zsrmv_public.Links.Walk.{stop_at, walk-stop_at, has-stop_at}
use mixed_trust_zsrmv_public.Links.Remove.{
  until, erase, erase_absent, until-points_to, unlink_after_lem, Distinct-erase, has-erase_ne,
}
use mixed_trust_zsrmv_public.Reserve.{Table}
use mixed_trust_zsrmv_public.RmQueue.Order.{IsReserve, All-erase}
use mixed_trust_zsrmv_public.RmQueue.Laws.{length-le_max}
use mixed_trust_zsrmv_public.Sched.Ready.{
  count_from, in_readyq, unlink_behind, dequeue_behind, dequeue_head,
}
use mixed_trust_zsrmv_public.Sched.Ready.Order.{IsReady, erase-IsSorted}
use mixed_trust_zsrmv_public.Sched.Ready.Laws.{ne_of_inside}

-- how often a reserve is in a list without duplicates
abbrev pub member_count : ℕ → List ℕ → ℕ
member_count r xs = if has r xs then 1 else 0

count_from-absent :
    (table : Table) (f : ℕ → Ptr) (r left : ℕ) (p : Ptr) (xs : List ℕ)
    → Seg f p xs
    → All (IsReserve table) xs
    → has r xs ≡ false
    → count_from table f r left p ≡ 0
unfolding count_from
count_from-absent table f r zero p xs c h out = refl
count_from-absent table f r (suc left) none xs c h out = refl
count_from-absent table f r (suc left) (some t) [] c h out = cc
count_from-absent table f r (suc left) (some t) (x ∷ xs) c h out =
    subst (λ p. count_from table f r (suc left) p ≡ 0) (sym c.0)
      (let other : ((table x).rid == r) ≡ false = ground (arith, h.0.1) in
        rw other (count_from-absent table f r left (f x) xs c.1 h.1 (ground arith)))

count_from-member_count :
    (table : Table) (f : ℕ → Ptr) (r left : ℕ) (p : Ptr) (xs : List ℕ)
    → Seg f p xs
    → Distinct xs
    → All (IsReserve table) xs
    → length xs ≤ left
    → count_from table f r left p ≡ member_count r xs
unfolding count_from
count_from-member_count table f r zero p [] c d h l = refl
count_from-member_count table f r zero p (x ∷ xs) c d h l = absurd (omega arith)
count_from-member_count table f r (suc left) none [] c d h l = refl
count_from-member_count table f r (suc left) none (x ∷ xs) c d h l = cc
count_from-member_count table f r (suc left) (some t) [] c d h l = cc
count_from-member_count table f r (suc left) (some t) (x ∷ xs) c d h l =
    subst (λ p. count_from table f r (suc left) p ≡ member_count r (x ∷ xs)) (sym c.0)
      (elim (Bool-cases (x == r)) [
        | inl b ↦
            let own : ((table x).rid == r) ≡ true = ground (arith, h.0.1) in
            let out : has r xs ≡ false = subst (λ k. has k xs ≡ false) (==→eq x r b) d.0 in
            rw (own, b) (ap suc (count_from-absent table f r left (f x) xs c.1 h.1 out))
        | inr b ↦
            let other : ((table x).rid == r) ≡ false = ground (arith, h.0.1) in
            rw (other, b)
              (count_from-member_count table f r left (f x) xs c.1 d.1 h.1 (omega arith))
      ])

-- If the ready queue stands for a list of reserves, then the count of a reserve in it is 1 if it is
-- in the list and 0 if not.
pub in_readyq-member_count :
    (table : Table) (q : Queue) (xs : List ℕ) (r : ℕ)
    → IsReady table q xs
    → in_readyq table q r ≡ member_count r xs
unfolding in_readyq
in_readyq-member_count table q xs r v =
    let full = length-le_max table xs v.distinct v.reserves in
    count_from-member_count table q.link r visits q.head xs v.chain v.distinct v.reserves
      (omega arith)

module _ (table : Table) (r : ℕ) where
  -- `r` left its place, and no link but its own and those of the queue was changed
  abbrev Left : (ℕ → Ptr) → List ℕ → Queue → Type 0
  Left f xs q =
      Seg q.link q.head (erase r xs)
      × (q.link r ≡ none)
      × ((i : ℕ) → has i xs ≡ false → (r == i) ≡ false → q.link i ≡ f i)

  -- what `stop` does to the queue
  abbrev pub dequeue : Queue → Queue
  dequeue q = if points_to q.head r then dequeue_head q r else dequeue_behind q r q.head

  unlink-other :
      (f : ℕ → Ptr) (t i : ℕ) → (r == i) ≡ false → (t == i) ≡ false → unlink_after f r t i ≡ f i
  unfolding unlink_after
  unlink-other f t i h g = rw (h, g) refl

  unlink_self : (f : ℕ → Ptr) (t : ℕ) → unlink_after f r t r ≡ none
  unfolding unlink_after
  unlink_self f t = let own : (r == r) ≡ true = ground arith in rw own refl

  dequeue_behind-unlinked :
      (q : Queue) (x : ℕ) (xs : List ℕ)
      → Seg q.link (q.link x) xs
      → Distinct (x ∷ xs)
      → All (IsReserve table) (x ∷ xs)
      → has r xs ≡ true
      → dequeue_behind q r (some x)
        ≡ record q { link = unlink_after q.link r (stop_at (until r) x xs) }
  unfolding dequeue_behind unlink_behind
  dequeue_behind-unlinked q x xs c d h present =
      let full = length-le_max table (x ∷ xs) d h in
      let w = walk q.link (until r) visits x in
      let stop = (walk-stop_at q.link (until r) visits x xs c (omega arith)).0 in
      let at : points_to (q.link w.0) r ≡ true =
        rw stop (until-points_to q.link r x xs c ∙ present) in
      rw at (
        ap (λ k. let p : Queue = record { head = q.head; link = unlink_after q.link r k } in p)
          stop)

  dequeue_behind-absent :
      (q : Queue) (x : ℕ) (xs : List ℕ)
      → Seg q.link (q.link x) xs
      → Distinct (x ∷ xs)
      → All (IsReserve table) (x ∷ xs)
      → has r xs ≡ false
      → dequeue_behind q r (some x) ≡ q
  unfolding dequeue_behind unlink_behind
  dequeue_behind-absent q x xs c d h absent =
      let full = length-le_max table (x ∷ xs) d h in
      let w = walk q.link (until r) visits x in
      let stop = (walk-stop_at q.link (until r) visits x xs c (omega arith)).0 in
      let at : points_to (q.link w.0) r ≡ false =
        rw stop (until-points_to q.link r x xs c ∙ absent) in
      rw at refl

  dequeue-Left :
      (q : Queue) (xs : List ℕ)
      → Seg q.link q.head xs
      → Distinct xs
      → All (IsReserve table) xs
      → has r xs ≡ true
      → Left q.link xs (dequeue q)
  unfolding dequeue_head
  dequeue-Left q [] c d h i = cc
  dequeue-Left q (x ∷ xs) c d h i = elim (Bool-cases (x == r)) [
    | inl b ↦
        let at : points_to q.head r ≡ true = rw c.0 b in
        let next : q.link x ≡ q.link r = ap q.link (==→eq x r b) in
        let out : has r xs ≡ false = subst (λ k. has k xs ≡ false) (==→eq x r b) d.0 in
        let own : (r == r) ≡ true = ground arith in
        let rest : Seg (update q.link r none) (q.link r) xs =
          subst (λ p. Seg (update q.link r none) p xs) next
            (Seg-update q.link (q.link x) xs r none c.1 out) in
        subst (Left q.link (x ∷ xs))
          (sym (let eq : dequeue q ≡ dequeue_head q r = rw at refl in eq))
          (rw (b, Seg) rest, rw own refl, λ j g n. rw n refl)
    | inr b ↦
        let at : points_to q.head r ≡ false = rw c.0 b in
        let present : has r xs ≡ true = ground arith in
        let t = stop_at (until r) x xs in
        let linked = unlink_after_lem q.link r x t xs refl c.1 d present in
        let eq : dequeue q ≡ record q { link = unlink_after q.link r t } =
          rw at (ap (dequeue_behind q r) c.0 ∙ dequeue_behind-unlinked q x xs c.1 d h present) in
        subst (Left q.link (x ∷ xs)) (sym eq) (
          rw (b, Seg) (c.0, linked),
          unlink_self q.link t,
          λ j g n.
              unlink-other q.link t j n (ne_of_inside t j (x ∷ xs) (has-stop_at (until r) x xs) g),
        )
  ]

  pub dequeue-IsReady :
      (q : Queue) (xs : List ℕ)
      → IsReady table q xs
      → has r xs ≡ true
      → IsReady table (dequeue q) (erase r xs)
  dequeue-IsReady q xs v i =
      let (chain, own, same) = dequeue-Left q xs v.chain v.distinct v.reserves i in
      record {
        chain = chain;
        distinct = Distinct-erase r xs v.distinct;
        reserves = All-erase (IsReserve table) r xs v.reserves;
        sorted = erase-IsSorted table r xs v.sorted;
        idle = λ j g. elim (Bool-cases (r == j)) [
          | inl b ↦ subst (λ k. (dequeue q).link k ≡ none) (==→eq r j b) own
          | inr b ↦
              let g' : has j xs ≡ false = sym (has-erase_ne r xs j b) ∙ g in
              same j g' b ∙ v.idle j g'
        ];
      }

  -- the same for a reserve that need not be in a queue that is not empty
  pub dequeue_any-IsReady :
      (q : Queue) (x : ℕ) (xs : List ℕ)
      → IsReady table q (x ∷ xs)
      → IsReady table (dequeue q) (erase r (x ∷ xs))
  dequeue_any-IsReady q x xs v = elim (Bool-cases (has r (x ∷ xs))) [
    | inl i ↦ dequeue-IsReady q (x ∷ xs) v i
    | inr i ↦
        let other : (x == r) ≡ false = ground arith in
        let absent : has r xs ≡ false = ground arith in
        let at : points_to q.head r ≡ false = rw v.chain.0 other in
        let same : dequeue q ≡ q = rw at (
          ap (dequeue_behind q r) v.chain.0
          ∙ dequeue_behind-absent q x xs v.chain.1 v.distinct v.reserves absent) in
        subst (λ p. IsReady table p (erase r (x ∷ xs))) (sym same)
          (subst (λ l. IsReady table q l) (sym (erase_absent r (x ∷ xs) i)) v)
  ]
