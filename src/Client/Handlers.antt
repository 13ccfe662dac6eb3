-- ===== src/Client/Handlers.antt =====
-- The records of signal handlers of lib/libzsv.c: a circular doubly linked list, one record for each
-- reserve. The mutex makes each operation atomic; it is initialised from the start, and its failures
-- are only reported.
pub mod Segment
pub mod Find
pub mod Add
pub mod Remove
use mixed_trust_zsrmv_public.Base.{
  ℕ, zero, suc, Bool, true, false, ◌||◌, Option, none, some, if◌then◌else◌, Ptr, update, points_to,
}
use mixed_trust_zsrmv_public.Base.Int.{ℤ, eqb_ℤ}

-- what a record says besides its links; a handler and its parameter are named by numbers
pub record Handler : Type 0 where
  pub rid : ℤ
  pub zsv_user_enforcement_handler : ℕ
  pub zsv_user_enforcement_handler_param : ℕ
  pub zsv_enforcement_schedfd : ℤ

-- tsignal_handler_head, and the records by address
pub record Handlers : Type 0 where
  pub head : Ptr
  pub recs : ℕ → Handler
  pub next : ℕ → Ptr
  pub prev : ℕ → Ptr

-- while (tmp->next != head && tmp->rid != rid) tmp = tmp->next; and the test behind the loop.
-- `none` if the fuel is used up or tmp becomes NULL; otherwise the record, or NULL.
unfoldable pub find_from : Handlers → ℤ → ℕ → ℕ → ℕ → Option Ptr
find_from s rid head zero tmp = none
find_from s rid head (suc fuel) tmp =
    elim (points_to (s.next tmp) head || eqb_ℤ (s.recs tmp).rid rid) [
      | true ↦ some (if eqb_ℤ (s.recs tmp).rid rid then some tmp else none)
      | false ↦ elim (s.next tmp) [ none ↦ none | some n ↦ find_from s rid head fuel n ]
    ]

unfoldable pub get_threaded_signal_handler_record : ℕ → Handlers → ℤ → Option Ptr
get_threaded_signal_handler_record fuel s rid = elim s.head [
  | none ↦ some none
  | some h ↦ find_from s rid h fuel h
]

-- the first record
unfoldable pub add_first : ℕ → Handlers → Handlers
add_first r s = record s {
  head = some r;
  next = update s.next r (some r);
  prev = update s.prev r (some r);
}

-- the writes when the list has a head `h` and `n` is behind it
unfoldable pub splice : ℕ → ℕ → ℕ → Handlers → Handlers
splice r h n s = record s {
  head = some r;
  next = update (update s.next r (some n)) h (some r);
  prev = update (update s.prev n (some r)) r (some h);
}

-- `none` is an access through NULL
unfoldable pub add_threaded_signal_handler_record : ℕ → Handlers → Option Handlers
add_threaded_signal_handler_record r s = elim s.head [
  | none ↦ some (add_first r s)
  | some h ↦ elim (s.next h) [ none ↦ none | some n ↦ some (splice r h n s) ]
]

-- the links of the record itself are reset at the end
unfoldable pub clear_links : ℕ → Handlers → Handlers
clear_links r s = record s { next = update s.next r none; prev = update s.prev r none }

-- if (head == rec) head = head->next; then rec is bypassed
unfoldable pub bypass : ℕ → ℕ → ℕ → Handlers → Handlers
bypass r p n s = record s {
  head = if points_to s.head r then s.next r else s.head;
  prev = update s.prev n (some p);
  next = update s.next p (some n);
}

-- del_thraded_signal_handler_record
unfoldable pub del_threaded_signal_handler_record : ℕ → Handlers → Option Handlers
del_threaded_signal_handler_record r s =
    if points_to (s.next r) r
    then some (clear_links r (record s { head = none }))
    else elim (s.next r) [
      | none ↦ none
      | some n ↦ elim (s.prev r) [ none ↦ none | some p ↦ some (clear_links r (bypass r p n s)) ]
    ]
