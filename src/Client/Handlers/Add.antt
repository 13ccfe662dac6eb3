-- ===== src/Client/Handlers/Add.antt =====
-- The insertion of a record into the ring of handlers: it becomes the head, and the old head the last.
use mixed_trust_zsrmv_public.Base.{
  ℕ, ◌≡◌, refl, false, Option, none, some, List, [], ◌∷◌, ◌++◌, arith, update, has, ◌==◌,
}
use mixed_trust_zsrmv_public.Client.Handlers.{
  Handlers, add_first, splice, add_threaded_signal_handler_record,
}
use mixed_trust_zsrmv_public.Client.Handlers.Segment.{
  Between, IsRing, Between-next, Between-prev, Between-snoc, has-snoc, Distinct-snoc,
}

-- the list with a new record in front
abbrev pub add_record : ℕ → List ℕ → List ℕ
add_record r [] = r ∷ []
add_record r (x ∷ xs) = r ∷ (xs ++ x ∷ [])

-- The operation did not reach NULL, left the records as they were and made the ring that of `ys`.
abbrev pub Relinked : Handlers → List ℕ → Option Handlers → Type 0
Relinked s ys none = ⊥
Relinked s ys (some s') = IsRing s' ys × (s'.recs ≡ s.recs)

splice_alone :
    (s : Handlers) (r x : ℕ)
    → (x == r) ≡ false
    → IsRing s (x ∷ [])
    → IsRing (splice r x x s) (r ∷ x ∷ [])
unfolding splice
splice_alone s r x ne h =
    (refl, ((ground arith, ground arith), (ground arith, ground arith)), (ground arith, (refl, tt)))

splice_more :
    (s : Handlers) (r x y : ℕ) (ys : List ℕ)
    → has r (x ∷ y ∷ ys) ≡ false
    → IsRing s (x ∷ y ∷ ys)
    → IsRing (splice r x y s) (r ∷ y ∷ (ys ++ x ∷ []))
unfolding splice
splice_more s r x y ys out h =
    let f = s.next in
    let g = s.prev in
    let f1 = update f r (some y) in
    let g1 = update g y (some r) in
    let f2 = update f1 x (some r) in
    let g2 = update g1 r (some x) in
    let b0 : Between f g y ys x = h.1.1 in
    let b1 : Between f1 g y ys x = Between-next f g y ys x r (some y) b0 (ground arith) in
    let b2 : Between f2 g y ys x = Between-next f1 g y ys x x (some r) b1 (ground arith) in
    let b3 : Between f2 g1 y ys x = Between-prev f2 g y ys x y (some r) b2 (ground arith) in
    let b4 : Between f2 g2 y ys x = Between-prev f2 g1 y ys x r (some x) b3 (ground arith) in
    let away : has x (y ∷ ys) ≡ false = h.2.0 in
    (
      refl,
      ((ground arith, ground arith), Between-snoc f2 g2 y ys x r b4 (ground arith, ground arith)),
      (
        ground (arith, has-snoc r ys x),
        (ground (arith, has-snoc y ys x), Distinct-snoc ys x h.2.1.1 (ground arith)),
      ),
    )

-- A record that is not in a well-formed ring is added without reaching NULL: the ring stays
-- well-formed, with the record as its head, the records behind the old head in their order and the
-- old head last. What the records say is unchanged.
pub add_threaded_signal_handler_record-Relinked :
    (s : Handlers) (xs : List ℕ) (r : ℕ)
    → IsRing s xs
    → has r xs ≡ false
    → Relinked s (add_record r xs) (add_threaded_signal_handler_record r s)
unfolding add_threaded_signal_handler_record add_first splice
add_threaded_signal_handler_record-Relinked s [] r h out =
    rw h ((refl, (ground arith, ground arith), (refl, tt)), refl)
add_threaded_signal_handler_record-Relinked s (x ∷ []) r h out =
    rw h.0 (rw h.1.0 (splice_alone s r x (ground arith) h, refl))
add_threaded_signal_handler_record-Relinked s (x ∷ y ∷ ys) r h out =
    rw h.0 (rw h.1.0.0 (splice_more s r x y ys out h, refl))
