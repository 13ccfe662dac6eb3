-- ===== src/Stack.antt =====
-- The two stacks of src/zsrmv.c: reschedule_stack of the reserves that the scheduler task is to
-- look at, and activate_stack of those that the activator task is to give a priority. Both have
-- the same operations; the spin lock makes those of the second one atomic.
pub mod Laws
use mixed_trust_zsrmv_public.Base.{ℕ, zero, suc, Bool, List, if◌then◌else◌, update}
use mixed_trust_zsrmv_public.Base.Int.{ℤ, pos, negsuc, suc_ℤ, ltb_ℤ, pos_part}
use mixed_trust_zsrmv_public.Links.{max_reserves}

pub record Stack : Type 0 where
  pub stack : ℕ → ℕ
  pub top : ℤ

-- int top = -1
abbrev pub empty_stack : Stack
empty_stack = record { stack = λ _. 0; top = negsuc 0 }

push : Stack → ℕ → Stack × ℤ
push s i =
    if ltb_ℤ (suc_ℤ s.top) (pos max_reserves)
    then (record { stack = update s.stack (pos_part (suc_ℤ s.top)) i; top = suc_ℤ s.top }, pos 0)
    else (s, negsuc 0)

pop_at : Stack → ℤ → Stack × ℤ
pop_at s (negsuc n) = (s, negsuc 0)
pop_at s (pos zero) = (record s { top = negsuc 0 }, pos (s.stack 0))
pop_at s (pos (suc n)) = (record s { top = pos n }, pos (s.stack (suc n)))

unfoldable pub push_to_reschedule : Stack → ℕ → Stack × ℤ
unfolding push
push_to_reschedule s i = push s i

unfoldable pub pop_to_reschedule : Stack → Stack × ℤ
unfolding pop_at
pop_to_reschedule s = pop_at s s.top

unfoldable pub push_to_activate : Stack → ℕ → Stack × ℤ
unfolding push
push_to_activate s i = push s i

unfoldable pub pop_to_activate : Stack → Stack × ℤ
unfolding pop_at
pop_to_activate s = pop_at s s.top
