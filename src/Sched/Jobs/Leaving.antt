-- ===== src/Sched/Jobs/Leaving.antt =====
-- The end of critical mode in src/zsrmv.c for a job that has run for longer than its nominal time.
use mathlib.Core.Path.{subst, sym}
use mixed_trust_zsrmv_public.Base.{
  ℕ, zero, suc, ◌<◌, ◌≤◌, ◌≡◌, refl, inl, inr, true, false, List, [], ◌∷◌, arith, length, leb,
  if◌then◌else◌, Bool-cases, ap, points_to, eq→==,
}
use mixed_trust_zsrmv_public.Base.Int.{ℤ, pos, ltb_ℤ, leb_ℤ}
use mixed_trust_zsrmv_public.Links.{Queue, visits}
use mixed_trust_zsrmv_public.Links.Seg.{Seg}
use mixed_trust_zsrmv_public.Reserve.{Reserve, Table, modify_field, modify_self}
use mixed_trust_zsrmv_public.CritQueue.{pop_crit}
use mixed_trust_zsrmv_public.CritQueue.Order.{AtMost, IsCritQueue}
use mixed_trust_zsrmv_public.Sched.{Kernel, Sched, on}
use mixed_trust_zsrmv_public.Sched.Jobs.{drop_blocked, top_criticality, leave_critical}

-- the reserves of a list whose criticality is below `c`
abbrev pub below : Table → ℤ → List ℕ → List ℕ
below table c [] = []
below table c (x ∷ xs) =
    if ltb_ℤ (table x).criticality c then x ∷ below table c xs else below table c xs

-- the criticality of the first reserve of a list, 0 if there is none
abbrev pub first_criticality : Table → List ℕ → ℤ
first_criticality table [] = pos 0
first_criticality table (x ∷ xs) = (table x).criticality

below-AtMost :
    (table : Table) (c d : ℤ) (xs : List ℕ)
    → leb_ℤ c d ≡ false
    → AtMost table d xs
    → below table c xs ≡ xs
below-AtMost table c d [] e h = refl
below-AtMost table c d (x ∷ xs) e h =
    let lower : ltb_ℤ (table x).criticality c ≡ true = ground (arith, h.0) in
    rw lower (ap (λ l. x ∷ l) (below-AtMost table c d xs e h.1))

pop_crit-IsCritQueue :
    (table : Table) (q : Queue) (x : ℕ) (xs : List ℕ)
    → IsCritQueue table q (x ∷ xs)
    → IsCritQueue table (pop_crit q) xs
unfolding pop_crit
pop_crit-IsCritQueue table q x xs v =
    let next : pop_crit q ≡ record q { head = q.link x } = rw (v.chain.0, pop_crit) refl in
    subst (λ q. IsCritQueue table q xs) (sym next)
      (record {
        chain = v.chain.1;
        distinct = v.distinct.1;
        reserves = v.reserves.1;
        sorted = v.sorted.1;
      })

-- two tables with the same criticalities
abbrev SameCriticality : Table → Table → Type 0
SameCriticality t u = (i : ℕ) → (u i).criticality ≡ (t i).criticality

drop_blocked-below :
    (t u : Table) (c : ℤ) (left : ℕ) (q : Queue) (xs : List ℕ)
    → SameCriticality t u
    → IsCritQueue t q xs
    → length xs ≤ left
    → IsCritQueue t (drop_blocked u c left q) (below t c xs)
unfolding drop_blocked
drop_blocked-below t u c zero q [] same v l = v
drop_blocked-below t u c zero q (x ∷ xs) same v l = absurd (omega arith)
drop_blocked-below t u c (suc left) q [] same v l = rw (v.chain, drop_blocked) v
drop_blocked-below t u c (suc left) q (x ∷ xs) same v l =
    elim (Bool-cases (leb_ℤ c (t x).criticality)) [
      | inl b ↦
          let higher : ltb_ℤ (t x).criticality c ≡ false = ground arith in
          let tested : leb_ℤ c (u x).criticality ≡ true = rw (same x) b in
          let rest =
            drop_blocked-below t u c left (pop_crit q) xs same (pop_crit-IsCritQueue t q x xs v)
              (omega arith) in
          rw higher (rw (v.chain.0, drop_blocked) (rw (tested, drop_blocked) rest))
      | inr b ↦
          let lower : ltb_ℤ (t x).criticality c ≡ true = ground arith in
          let tested : leb_ℤ c (u x).criticality ≡ false = rw (same x) b in
          let all = below-AtMost t c (t x).criticality xs b v.sorted.0 in
          rw lower (rw all (rw (v.chain.0, drop_blocked) (rw (tested, drop_blocked) v)))
    ]

-- what leaving critical mode leaves, where `cs` are the critical reserves below the one that leaves
-- and `bs` the blocked ones
pub record Left (s : Sched) (rid : ℕ) (cs bs : List ℕ) (s' : Sched) : Type 0 where
  pub left : (s'.reserve_table rid).in_critical_mode ≡ false
  pub stack : IsCritQueue s.reserve_table s'.critical_reservesq cs
  pub criticality : s'.sys_criticality ≡ first_criticality s.reserve_table cs
  pub blocked :
      IsCritQueue s.reserve_table s'.crit_blockq
        (below s.reserve_table (first_criticality s.reserve_table cs) bs)
  pub ready : s'.readyq ≡ s.readyq

top-first :
    (t u : Table) (q : Queue) (xs : List ℕ)
    → SameCriticality t u
    → Seg q.link q.head xs
    → top_criticality u q.head ≡ first_criticality t xs
top-first t u q [] same c = rw c refl
top-first t u q (x ∷ xs) same c = rw c.0 (same x)

-- A reserve in critical mode, first on the stack of critical reserves, has run for longer than its
-- nominal time, and at most 101 reserves are blocked; the stack and the queue of blocked reserves
-- stand for lists, sorted by criticality. When its job ends, it leaves critical mode and the stack,
-- the system's criticality is that of the next critical reserve, or 0 if there is none, exactly the
-- blocked reserves of at least that criticality are taken out of their queue, those below stay in
-- order, and the ready queue is left as it was.
pub leave_critical-Left :
    (k : Kernel) (rid : ℕ) (s : Sched) (cs bs : List ℕ)
    → (s.reserve_table rid).in_critical_mode ≡ true
    → (s.reserve_table rid).nominal_exectime_ticks < (s.reserve_table rid).current_exectime_ticks
    → IsCritQueue s.reserve_table s.critical_reservesq (rid ∷ cs)
    → IsCritQueue s.reserve_table s.crit_blockq bs
    → length bs ≤ visits
    → Left s rid cs bs (leave_critical k rid s)
unfolding leave_critical on
leave_critical-Left k rid s cs bs crit over v w l =
    let f : Reserve → Reserve = λ r. record r { in_critical_mode = false } in
    let s1 = on rid f s in
    let same : SameCriticality s.reserve_table s1.reserve_table =
      λ i. modify_field s.reserve_table rid i f (λ r. r.criticality) (λ r. refl) in
    let self : s1.reserve_table rid ≡ f (s.reserve_table rid) = modify_self s.reserve_table rid f in
    let top : points_to s.critical_reservesq.head rid ≡ true = rw v.chain.0 (eq→== rid rid refl) in
    let q = pop_crit s.critical_reservesq in
    let vq = pop_crit-IsCritQueue s.reserve_table s.critical_reservesq rid cs v in
    let c = top_criticality s1.reserve_table q.head in
    let told : c ≡ first_criticality s.reserve_table cs =
      top-first s.reserve_table s1.reserve_table q cs same vq.chain in
    let longer : leb (s1.reserve_table rid).current_exectime_ticks
          (s1.reserve_table rid).nominal_exectime_ticks
        ≡ false =
      rw self (ground arith) in
    let u : Sched = record s1 {
      critical_reservesq = q;
      sys_criticality = c;
      crit_blockq = drop_blocked s1.reserve_table c visits s.crit_blockq;
    } in
    let dropped =
      drop_blocked-below s.reserve_table s1.reserve_table c visits s.crit_blockq bs same w l in
    let run : leave_critical k rid s ≡ u = rw (crit, top, longer) refl in
    subst (Left s rid cs bs) (sym run) (record {
      left = ap (λ (r : Reserve). r.in_critical_mode) self;
      stack = vq;
      criticality = told;
      blocked =
          subst (λ d. IsCritQueue s.reserve_table u.crit_blockq (below s.reserve_table d bs)) told
            dropped;
      ready = refl;
    })
