-- ===== src/RmQueue.antt =====
-- The rate-monotonic queue of src/zsrmv.c: rm_head, rm_next and rm_queue_size.
pub mod Laws
pub mod Remove
pub mod Order
pub mod Twice
use mixed_trust_zsrmv_public.Base.{
  ℕ, zero, suc, ◌+◌, ◌≡◌, Bool, true, false, ◌&&◌, not, Option, none, some, ltb, leb, if◌then◌else◌,
  Ptr, update, points_to, is_null, ◌==◌,
}
use mixed_trust_zsrmv_public.Base.Int.{ℤ, pos, negsuc, suc_ℤ, pred_ℤ}
use mixed_trust_zsrmv_public.Links.{Queue, walk, visits, link_after, unlink_after}
use mixed_trust_zsrmv_public.Links.Remove.{until}
use mixed_trust_zsrmv_public.Reserve.{Reserve, Table}

pub record RmQueue : Type 0 where
  pub queue : Queue
  pub rm_queue_size : ℤ

-- t->rm_next->period_ns <= r->period_ns && t->rid != r->rid
abbrev pub rm_before : Table → ℕ → ℕ → ℕ → Bool
rm_before table r t n =
    leb (table n).period_ns (table r).period_ns && not ((table t).rid == (table r).rid)

-- the insertion behind the node `t` at which the search has stopped
add_behind : Table → RmQueue → Queue → ℕ → ℕ × ℕ → RmQueue × Bool
add_behind table s q r (t, left) =
    if (table t).rid == (table r).rid
    then (record s { queue = q }, false)
    else if (left == 0) && not (is_null (q.link t))
    then (record s { queue = q }, false)
    else (
      record s {
        queue = record q { link = link_after q.link r t };
        rm_queue_size = suc_ℤ s.rm_queue_size;
      },
      true,
    )

add_to : Table → RmQueue → Queue → ℕ → Ptr → RmQueue × Bool
unfolding add_behind walk
add_to table s q r none =
    (record s { queue = record q { head = some r }; rm_queue_size = suc_ℤ s.rm_queue_size }, true)
add_to table s q r (some h) =
    if ltb (table r).period_ns (table h).period_ns
    then (
      record s {
        queue = record q { head = some r; link = update q.link r (some h) };
        rm_queue_size = suc_ℤ s.rm_queue_size;
      },
      true,
    )
    else add_behind table s q r (walk q.link (rm_before table r) visits h)

-- The result 1 is `true`, the result 0 of the two error branches is `false`.
unfoldable pub add_rm_queue : Table → RmQueue → ℕ → RmQueue × Bool
unfolding add_to
add_rm_queue table s r =
    add_to table s (record { head = s.queue.head; link = update s.queue.link r none }) r
      s.queue.head

del_behind : RmQueue → ℕ → ℕ → RmQueue
del_behind s r t =
    if points_to (s.queue.link t) r
    then record s {
      queue = record { head = s.queue.head; link = unlink_after s.queue.link r t };
      rm_queue_size = pred_ℤ s.rm_queue_size;
    }
    else s

del_from : RmQueue → ℕ → Ptr → RmQueue
unfolding del_behind walk
del_from s r none = s
del_from s r (some h) =
    if h == r
    then record s {
      queue = record { head = s.queue.link r; link = s.queue.link };
      rm_queue_size = pred_ℤ s.rm_queue_size;
    }
    else del_behind s r (walk s.queue.link (until r) visits h).0

unfoldable pub del_rm_queue : RmQueue → ℕ → RmQueue
unfolding del_from
del_rm_queue s r = del_from s r s.queue.head
