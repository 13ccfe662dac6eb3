-- ===== src/Client/Handlers/Find.antt =====
-- The search of a record by the reserve's index.
use mixed_trust_zsrmv_public.Base.{
  ℕ, zero, suc, ◌<◌, ◌≡◌, inl, inr, false, none, some, List, [], ◌∷◌, arith, Ptr, has, length, ◌==◌,
  if◌then◌else◌, Bool-cases,
}
use mixed_trust_zsrmv_public.Base.Int.{ℤ, eqb_ℤ}
use mixed_trust_zsrmv_public.Client.Handlers.{
  Handler, Handlers, find_from, get_threaded_signal_handler_record,
}
use mixed_trust_zsrmv_public.Client.Handlers.Segment.{Between, IsRing}

-- the first record of a list that is for the reserve
abbrev pub first_for : (ℕ → Handler) → ℤ → List ℕ → Ptr
first_for recs rid [] = none
first_for recs rid (x ∷ xs) = if eqb_ℤ (recs x).rid rid then some x else first_for recs rid xs

find_from-first_for :
    (s : Handlers) (rid : ℤ) (h fuel a : ℕ) (xs : List ℕ)
    → Between s.next s.prev a xs h
    → has h xs ≡ false
    → length xs < fuel
    → find_from s rid h fuel a ≡ some (first_for s.recs rid (a ∷ xs))
unfolding find_from
find_from-first_for s rid h zero a xs b out l = absurd (omega arith)
find_from-first_for s rid h (suc fuel) a [] b out l = ground arith
find_from-first_for s rid h (suc fuel) a (x ∷ xs) b out l =
    let ne : (x == h) ≡ false = ground arith in
    elim (Bool-cases (eqb_ℤ (s.recs a).rid rid)) [
      | inl e ↦ ground arith
      | inr e ↦
          let ih = find_from-first_for s rid h fuel x xs b.1 (ground arith) (omega arith) in
          ground arith
    ]

-- On a well-formed ring of handler records, with fuel for its records, the search for a reserve ends
-- without reaching NULL and gives the first record, from the head on, that is for the reserve, or
-- NULL if there is none.
pub get-first_for :
    (s : Handlers) (xs : List ℕ) (rid : ℤ) (fuel : ℕ)
    → IsRing s xs
    → length xs < suc fuel
    → get_threaded_signal_handler_record fuel s rid ≡ some (first_for s.recs rid xs)
unfolding get_threaded_signal_handler_record
get-first_for s [] rid fuel h l = ground arith
get-first_for s (x ∷ xs) rid fuel h l =
    let found = find_from-first_for s rid x fuel x xs h.1 (ground arith) (omega arith) in
    ground arith
