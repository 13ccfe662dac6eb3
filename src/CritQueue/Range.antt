-- ===== src/CritQueue/Range.antt =====
-- The queue of the blocked reserves of src/zsrmv.c leads to entries of the table only.
use mixed_trust_zsrmv_public.Base.{
  ℕ, ◌<◌, inl, inr, ◌&&◌, not, none, some, Bool-cases, Option-cases, Ptr, update, is_null, ◌==◌,
}
use mixed_trust_zsrmv_public.Base.Int.{ltb_ℤ}
use mixed_trust_zsrmv_public.Links.{Queue, max_reserves, walk, visits}
use mixed_trust_zsrmv_public.Reserve.{Table}
use mixed_trust_zsrmv_public.CritQueue.{
  crit_before, put_behind, add_behind, add_to, add_crit, add_crit_blocked, pop_crit,
}

-- a pointer is NULL or leads to a reserve of the table
abbrev pub InTable : Ptr → Type 0
InTable none = Unit
InTable (some i) = i < max_reserves

pub record QueueIn (q : Queue) : Type 0 where
  pub head : InTable q.head
  pub link : (i : ℕ) → InTable (q.link i)

pub pop_crit-QueueIn : (q : Queue) → QueueIn q → QueueIn (pop_crit q)
unfolding pop_crit
pop_crit-QueueIn q b = elim (Option-cases q.head) [
  | inl e ↦ rw (e, pop_crit) (record { head = tt; link = b.link })
  | inr (h, e) ↦ rw (e, pop_crit) (record { head = b.link h; link = b.link })
]

update-InTable :
    (f : ℕ → Ptr) (i : ℕ) (p : Ptr)
    → ((j : ℕ) → InTable (f j))
    → InTable p
    → (j : ℕ) → InTable (update f i p j)
update-InTable f i p h l j = elim (Bool-cases (i == j)) [ inl e ↦ rw e l | inr e ↦ rw e (h j) ]

module _ (table : Table) (r : ℕ) (l : r < max_reserves) where
  put_behind-QueueIn : (q : Queue) (t : ℕ) → QueueIn q → QueueIn (put_behind q r t)
  put_behind-QueueIn q t b = elim (Bool-cases (is_null (q.link t))) [
    | inl e ↦ rw e (record {
      head = b.head;
      link = update-InTable _ r none (update-InTable q.link t (some r) b.link l) tt;
    })
    | inr e ↦ rw e (record {
      head = b.head;
      link = update-InTable _ t (some r) (update-InTable q.link r (q.link t) b.link (b.link t)) l;
    })
  ]

  add_behind-QueueIn :
      (q : Queue) (stop : ℕ × ℕ) → QueueIn q → QueueIn (add_behind table q r stop).0
  unfolding add_behind
  add_behind-QueueIn q (t, left) b = elim (Bool-cases ((left == 0) && not (is_null (q.link t)))) [
    | inl e ↦ rw e b
    | inr e ↦ elim (Bool-cases ((table r).rid == (table t).rid)) [
      | inl d ↦ rw (e, d) b
      | inr d ↦ rw (e, d) (put_behind-QueueIn q t b)
    ]
  ]

  add_to-QueueIn : (q : Queue) (p : Ptr) → InTable p → QueueIn q → QueueIn (add_to table q r p).0
  unfolding add_to
  add_to-QueueIn q none p b = record { head = l; link = b.link }
  add_to-QueueIn q (some h) p b =
      elim (Bool-cases (ltb_ℤ (table h).criticality (table r).criticality)) [
        | inl e ↦ rw e (record { head = l; link = update-InTable q.link r (some h) b.link p })
        | inr e ↦ rw e (add_behind-QueueIn q (walk q.link (crit_before table r) visits h) b)
      ]

  pub add_crit_blocked-QueueIn : (q : Queue) → QueueIn q → QueueIn (add_crit_blocked table q r).0
  unfolding add_crit_blocked add_crit
  add_crit_blocked-QueueIn q b =
      add_to-QueueIn (record { head = q.head; link = update q.link r none }) q.head b.head
        (record { head = b.head; link = update-InTable q.link r none b.link tt })
