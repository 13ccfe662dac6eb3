-- ===== src/CritQueue.antt =====
-- The two criticality queues of src/zsrmv.c: the stack critical_reservesq (crit_next) of the
-- reserves that are in critical mode, and crit_blockq (crit_block_next) of those that zero-slack
-- enforcement has blocked. Both are kept by one algorithm, on different fields.
pub mod Order
pub mod Laws
pub mod Range
pub mod Twice
use mixed_trust_zsrmv_public.Base.{
  ℕ, zero, suc, ◌≡◌, Bool, true, false, ◌&&◌, not, none, some, if◌then◌else◌, Ptr, update, is_null,
  ◌==◌,
}
use mixed_trust_zsrmv_public.Base.Int.{ltb_ℤ}
use mixed_trust_zsrmv_public.Links.{Queue, walk, visits}
use mixed_trust_zsrmv_public.Reserve.{Reserve, Table}

-- t->next->criticality > r->criticality && r->rid != t->rid
abbrev pub crit_before : Table → ℕ → ℕ → ℕ → Bool
crit_before table r t n =
    ltb_ℤ (table r).criticality (table n).criticality && not ((table r).rid == (table t).rid)

-- the last `if`, behind the node `t`: r is the new last node, or goes in front of t's successor
abbrev pub put_behind : Queue → ℕ → ℕ → Queue
put_behind q r t =
    if is_null (q.link t)
    then record q { link = update (update q.link t (some r)) r none }
    else record q { link = update (update q.link r (q.link t)) t (some r) }

add_behind : Table → Queue → ℕ → ℕ × ℕ → Queue × Bool
add_behind table q r (t, left) =
    if (left == 0) && not (is_null (q.link t))
    then (q, false)
    else if (table r).rid == (table t).rid
    then (q, false)
    else (put_behind q r t, true)

add_to : Table → Queue → ℕ → Ptr → Queue × Bool
unfolding add_behind walk
add_to table q r none = (record q { head = some r }, true)
add_to table q r (some h) =
    if ltb_ℤ (table h).criticality (table r).criticality
    then (record { head = some r; link = update q.link r (some h) }, true)
    else add_behind table q r (walk q.link (crit_before table r) visits h)

-- The result 1 is `true`, the result 0 of the two error branches is `false`.
unfoldable pub add_crit : Table → Queue → ℕ → Queue × Bool
unfolding add_to
add_crit table q r = add_to table (record { head = q.head; link = update q.link r none }) r q.head

unfoldable pub add_crit_blocked : Table → Queue → ℕ → Queue × Bool
unfolding add_crit
add_crit_blocked table crit_blockq r = add_crit table crit_blockq r

unfoldable pub add_crit_stack : Table → Queue → ℕ → Queue × Bool
unfolding add_crit
add_crit_stack table critical_reservesq r = add_crit table critical_reservesq r

follow : Queue → Ptr → Queue
follow q none = q
follow q (some h) = record q { head = q.link h }

-- q = q->next, on a queue that is not empty
unfoldable pub pop_crit : Queue → Queue
unfolding follow
pop_crit q = follow q q.head
