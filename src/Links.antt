-- ===== src/Links.antt =====
-- The singly linked queues of zsrmv.c: a head pointer, and one pointer field of the reserves in
-- reserve_table (`next`, `rm_next`, `crit_next` or `crit_block_next`) that links them.
pub mod Seg
pub mod Walk
pub mod Insert
pub mod Remove
use mixed_trust_zsrmv_public.Base.{
  ℕ, zero, suc, ◌+◌, ◌≡◌, Bool, true, false, ◌&&◌, not, Option, none, some, List, [], ◌∷◌, ltb, leb,
  if◌then◌else◌, Ptr, update, points_to, ◌==◌, Distinct,
}

pub record Queue : Type 0 where
  pub head : Ptr
  pub link : ℕ → Ptr

abbrev pub empty_queue : Queue
empty_queue = record { head = none; link = λ _. none }

-- #define MAX_RESERVES 100
abbrev pub max_reserves : ℕ
max_reserves = 100

-- The search loop of the queue operations, where `go t n` is the rest of the loop's condition for
-- `n = t->link`:
--   while (rsv_visited <= MAX_RESERVES && t->link != NULL && go) { t = t->link; rsv_visited++; }
-- It returns the node at which it stops and the rounds that are left of MAX_RESERVES + 1: none is
-- left just when rsv_visited > MAX_RESERVES.
unfoldable pub walk : (ℕ → Ptr) → (ℕ → ℕ → Bool) → ℕ → ℕ → ℕ × ℕ
walk f go zero t = (t, zero)
walk f go (suc left) t = elim (f t) [
  | none ↦ (t, suc left)
  | some n ↦ elim (go t n) [ true ↦ walk f go left n | false ↦ (t, suc left) ]
]

abbrev pub visits : ℕ
visits = 101

-- r->link = t->link; t->link = r
unfoldable pub link_after : (ℕ → Ptr) → ℕ → ℕ → ℕ → Ptr
link_after f r t = update (update f r (f t)) t (some r)

-- t->link = r->link; r->link = NULL
unfoldable pub unlink_after : (ℕ → Ptr) → ℕ → ℕ → ℕ → Ptr
unlink_after f r t = update (update f t (f r)) r none
