-- ===== src/Sched/Ready.antt =====
-- The ready queue of src/zsrmv.c: how `start` and `stop` change the links.
pub mod Order
pub mod Laws
pub mod Leave
use mixed_trust_zsrmv_public.Base.{
  ℕ, zero, suc, ◌≡◌, Bool, true, false, ◌&&◌, not, Option, none, some, ltb, leb, ◌==◌,
  if◌then◌else◌, Ptr, is_null, points_to, update,
}
use mixed_trust_zsrmv_public.Base.Int.{ltb_ℤ, leb_ℤ}
use mixed_trust_zsrmv_public.Links.{Queue, walk, visits, link_after, unlink_after}
use mixed_trust_zsrmv_public.Links.Remove.{until}
use mixed_trust_zsrmv_public.Reserve.{Table}
use mixed_trust_zsrmv_public.CritQueue.{put_behind}

-- the loop of in_readyq, which visits at most MAX_RESERVES + 1 nodes
unfoldable pub count_from : Table → (ℕ → Ptr) → ℕ → ℕ → Ptr → ℕ
count_from table link rid zero p = 0
count_from table link rid (suc left) none = 0
count_from table link rid (suc left) (some t) =
    let rest = count_from table link rid left (link t) in
    if (table t).rid == rid then suc rest else rest

unfoldable pub in_readyq : Table → Queue → ℕ → ℕ
unfolding count_from
in_readyq table q rid = count_from table q.link rid visits q.head

-- tmp->next->priority >= reserve_table[rid].priority && tmp->rid != rid
abbrev pub ready_before : Table → ℕ → ℕ → ℕ → Bool
ready_before table rid t n =
    leb_ℤ (table rid).priority (table n).priority && not ((table t).rid == rid)

-- behind the node at which the search stops; `none` where `start` returns at once
unfoldable pub enqueue_behind : Table → Queue → ℕ → ℕ × ℕ → Option Queue
enqueue_behind table q rid (t, left) =
    if (table t).rid == rid
    then none
    else if (left == 0) && not (is_null (q.link t))
    then none
    else some (put_behind q rid t)

-- the queue with `rid` in it, by `start` on a queue that `rid` is not in
unfoldable pub enqueue : Table → Queue → ℕ → Ptr → Option Queue
unfolding enqueue_behind walk
enqueue table q rid none = some (record q { head = some rid })
enqueue table q rid (some h) =
    if ltb_ℤ (table h).priority (table rid).priority
    then some (record { head = some rid; link = update q.link rid (some h) })
    else enqueue_behind table q rid (walk q.link (ready_before table rid) visits h)

-- t->next = reserve_table[rid].next; reserve_table[rid].next = NULL, if t->next is the reserve
unfoldable pub unlink_behind : Queue → ℕ → ℕ → Queue
unlink_behind q rid t =
    if points_to (q.link t) rid then record q { link = unlink_after q.link rid t } else q

-- the removal of a reserve that is not at the head
unfoldable pub dequeue_behind : Queue → ℕ → Ptr → Queue
unfolding unlink_behind walk
dequeue_behind q rid none = record q { link = update q.link rid none }
dequeue_behind q rid (some h) = unlink_behind q rid (walk q.link (until rid) visits h).0

-- readyq = readyq->next; reserve_table[rid].next = NULL, for `rid` at the head
unfoldable pub dequeue_head : Queue → ℕ → Queue
dequeue_head q rid = record { head = q.link rid; link = update q.link rid none }
