-- ===== src/RmQueue/Twice.antt =====
-- add_rm_queue of src/zsrmv.c on a reserve that is in the queue already: the guard returns 0, but
-- `r->rm_next = NULL` has run before it.
use mathlib.Core.Path.{subst}
use mixed_trust_zsrmv_public.Base.{
  ℕ, ◌≤◌, ◌≡◌, refl, inl, inr, Bool, true, false, none, some, List, [], ◌∷◌, arith, ltb, ◌==◌, has,
  Distinct, All, length, if◌then◌else◌, Bool-cases, Ptr, update, sym, ◌∙◌, ==→eq,
}
use mixed_trust_zsrmv_public.Links.{Queue, visits}
use mixed_trust_zsrmv_public.Links.Seg.{Seg}
use mixed_trust_zsrmv_public.Links.Walk.{stop_at, walk-stop_at}
use mixed_trust_zsrmv_public.Reserve.{Table}
use mixed_trust_zsrmv_public.RmQueue.{RmQueue, rm_before, add_behind, add_to, add_rm_queue}
use mixed_trust_zsrmv_public.RmQueue.Order.{IsReserve, IsSorted, IsRmQueue}
use mixed_trust_zsrmv_public.RmQueue.Laws.{length-le_max}

-- the list up to `r`
unfoldable pub cut_at : ℕ → List ℕ → List ℕ
cut_at r [] = []
cut_at r (x ∷ xs) = if x == r then x ∷ [] else x ∷ cut_at r xs

length-cut_at : (r : ℕ) (xs : List ℕ) → length (cut_at r xs) ≤ length xs
unfolding cut_at
length-cut_at r [] = omega arith
length-cut_at r (x ∷ xs) = ground (arith, length-cut_at r xs)

pub Seg-cut_at :
    (f : ℕ → Ptr) (p : Ptr) (r : ℕ) (xs : List ℕ)
    → Seg f p xs
    → Distinct xs
    → has r xs ≡ true
    → Seg (update f r none) p (cut_at r xs)
unfolding cut_at
Seg-cut_at f p r [] c d i = cc
Seg-cut_at f p r (x ∷ xs) c d i = elim (Bool-cases (x == r)) [
  | inl b ↦ rw (b, Seg) (c.0, ground arith)
  | inr b ↦
      let at : update f r none x ≡ f x = ground arith in
      rw (b, Seg)
        (
          c.0,
          subst (λ p. Seg (update f r none) p (cut_at r xs)) (sym at)
              (Seg-cut_at f (f x) r xs c.1 d.1 (ground arith)),
        )
]

pub All-at : (P : ℕ → Type 0) (r : ℕ) (xs : List ℕ) → All P xs → has r xs ≡ true → P r
All-at P r [] h i = cc
All-at P r (x ∷ xs) h i = elim (Bool-cases (x == r)) [
  | inl b ↦ subst P (==→eq x r b) h.0
  | inr b ↦ All-at P r xs h.1 (ground arith)
]

stop_at-cut_at :
    (table : Table) (r x : ℕ) (xs : List ℕ)
    → IsSorted table (x ∷ xs)
    → All (IsReserve table) (x ∷ xs)
    → has r xs ≡ true
    → (x == r) ≡ false
    → stop_at (rm_before table r) x (cut_at r xs) ≡ r
unfolding cut_at
stop_at-cut_at table r x [] s h i ne = cc
stop_at-cut_at table r x (y ∷ ys) s h i ne =
    let own : (table r).rid ≡ r = (All-at (IsReserve table) r (y ∷ ys) h.1 i).1 in
    elim (Bool-cases (y == r)) [
      | inl b ↦ ground arith
      | inr b ↦
          let later =
            All-at (λ k. (table y).period_ns ≤ (table k).period_ns) r ys s.1.0 (ground arith) in
          ground (arith, stop_at-cut_at table r y ys s.1 h.1)
    ]

module _ (table : Table) (s : RmQueue) (r : ℕ) where
  -- what a second `add_rm_queue` does: it reports 0 and leaves a shorter queue of the old size
  abbrev pub Cut : List ℕ → RmQueue × Bool → Type 0
  Cut xs out =
      (out.1 ≡ false)
      × Seg out.0.queue.link out.0.queue.head xs
      × (out.0.rm_queue_size ≡ s.rm_queue_size)

  add_behind-refused :
      (q : Queue) (t left : ℕ)
      → t ≡ r
      → add_behind table s q r (t, left) ≡ (record s { queue = q }, false)
  unfolding add_behind
  add_behind-refused q t left e =
      let same : ((table t).rid == (table r).rid) ≡ true = ground arith in rw same

  add_to-Cut :
      (f : ℕ → Ptr) (p : Ptr) (x : ℕ) (xs : List ℕ)
      → p ≡ some x
      → Seg f (f x) xs
      → Distinct (x ∷ xs)
      → IsSorted table (x ∷ xs)
      → All (IsReserve table) (x ∷ xs)
      → has r (x ∷ xs) ≡ true
      → let q : Queue = record { head = p; link = update f r none } in
        add_to table s q r p ≡ (record s { queue = q }, false)
  unfolding add_to cut_at
  add_to-Cut f none x xs e c d o h i = cc
  add_to-Cut f (some x') x xs e c d o h i =
      subst
        (λ p.
          let q : Queue = record { head = p; link = update f r none } in
          add_to table s q r p ≡ (record s { queue = q }, false))
        (sym e)
        (let full = length-le_max table (x ∷ xs) d h in
          let after = All-at (λ k. (table x).period_ns ≤ (table k).period_ns) in
          elim (Bool-cases (x == r)) [
            | inl b ↦
                let same : x ≡ r = ==→eq x r b in
                let first : ltb (table r).period_ns (table x).period_ns ≡ false = ground arith in
                let end : update f r none x ≡ none = ground arith in
                let (stop, _) =
                  walk-stop_at (update f r none) (rm_before table r) visits x [] end
                    (omega arith) in
                rw first (
                  add_behind-refused (record { head = some x; link = update f r none }) _ _
                    (stop ∙ same))
            | inr b ↦
                let inside : has r xs ≡ true = ground arith in
                let later = after r xs o.0 inside in
                let first : ltb (table r).period_ns (table x).period_ns ≡ false = ground arith in
                let at : update f r none x ≡ f x = ground arith in
                let rest : Seg (update f r none) (update f r none x) (cut_at r xs) =
                  subst (λ p. Seg (update f r none) p (cut_at r xs)) (sym at)
                    (Seg-cut_at f (f x) r xs c d.1 inside) in
                let (stop, _) =
                  walk-stop_at (update f r none) (rm_before table r) visits x (cut_at r xs) rest
                    (omega (arith, length-cut_at r xs)) in
                rw first (
                  add_behind-refused (record { head = some x; link = update f r none }) _ _
                    (stop ∙ stop_at-cut_at table r x xs o h inside b))
          ])

  -- Adding a reserve that is in the rate-monotonic queue already reports 0, but cuts the queue
  -- behind that reserve and leaves its size as it was.
  pub add_rm_queue-Cut :
      (xs : List ℕ)
      → IsRmQueue table s xs
      → has r xs ≡ true
      → Cut (cut_at r xs) (add_rm_queue table s r)
  unfolding add_rm_queue
  add_rm_queue-Cut [] q i = cc
  add_rm_queue-Cut (x ∷ xs) q i =
      subst (Cut (cut_at r (x ∷ xs)))
        (sym (
          add_to-Cut s.queue.link s.queue.head x xs q.chain.0 q.chain.1 q.distinct q.sorted
            q.reserves i))
        (refl, Seg-cut_at s.queue.link s.queue.head r (x ∷ xs) q.chain q.distinct i, refl)
