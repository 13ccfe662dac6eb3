-- ===== src/Client/Handlers/Remove.antt =====
-- The removal of a record from the ring of handlers.
use mathlib.Core.Path.{subst}
use mixed_trust_zsrmv_public.Base.{
  ℕ, ◌≡◌, refl, inl, inr, true, false, none, some, List, [], ◌∷◌, arith, Ptr, update, has, Distinct,
  ◌==◌, Bool-cases,
}
use mixed_trust_zsrmv_public.Links.Remove.{erase, Distinct-erase, ne_of_has}
use mixed_trust_zsrmv_public.Client.Handlers.{
  Handlers, clear_links, bypass, del_threaded_signal_handler_record,
}
use mixed_trust_zsrmv_public.Client.Handlers.Segment.{
  Between, IsRing, Between-next, Between-prev, prev-has, next-has,
}
use mixed_trust_zsrmv_public.Client.Handlers.Add.{Relinked}

-- the forward and the backward links after the removal of `r` between `p` and `n`
abbrev next_without : (ℕ → Ptr) → ℕ → ℕ → ℕ → ℕ → Ptr
next_without f r p n = update (update f p (some n)) r none

abbrev prev_without : (ℕ → Ptr) → ℕ → ℕ → ℕ → ℕ → Ptr
prev_without g r p n = update (update g n (some p)) r none

-- a way that the writes do not touch
kept :
    (f g : ℕ → Ptr) (r p n a : ℕ) (xs : List ℕ) (z : ℕ)
    → Between f g a xs z
    → has p (a ∷ xs) ≡ false
    → has r (a ∷ xs) ≡ false
    → has n (z ∷ xs) ≡ false
    → (z == r) ≡ false
    → Between (next_without f r p n) (prev_without g r p n) a xs z
kept f g r p n a xs z b hp hr hn ne =
    let b1 = Between-next f g a xs z p (some n) b hp in
    let b2 = Between-next (update f p (some n)) g a xs z r none b1 hr in
    let b3 = Between-prev (next_without f r p n) g a xs z n (some p) b2 hn in
    Between-prev (next_without f r p n) (update g n (some p)) a xs z r none b3 (ground arith)

around_at :
    (f g : ℕ → Ptr) (r a x : ℕ) (xs : List ℕ) (z : ℕ)
    → Between f g a (x ∷ xs) z
    → (x == r) ≡ true
    → Distinct (x ∷ xs)
    → (z == r) ≡ false
    → (p n : ℕ) × (g r ≡ some p) × (f r ≡ some n) × ((n == r) ≡ false)
around_at f g r a x [] z b e d ne = (a, z, ground arith, ground arith, ne)
around_at f g r a x (y ∷ ys) z b e d ne = (a, y, ground arith, ground arith, ground arith)

-- a node on the way has neighbours, and the next one is another node
around :
    (f g : ℕ → Ptr) (r a : ℕ) (xs : List ℕ) (z : ℕ)
    → Between f g a xs z
    → has r xs ≡ true
    → Distinct xs
    → (z == r) ≡ false
    → (p n : ℕ) × (g r ≡ some p) × (f r ≡ some n) × ((n == r) ≡ false)
around f g r a [] z b h d ne = cc
around f g r a (x ∷ xs) z b h d ne = elim (Bool-cases (x == r)) [
  | inl e ↦ around_at f g r a x xs z b e d ne
  | inr e ↦ around f g r x xs z b.1 (ground arith) d.1 ne
]

-- the node behind `a` is removed
unlink_here :
    (f g : ℕ → Ptr) (r p n a x : ℕ) (xs : List ℕ) (z : ℕ)
    → Between f g a (x ∷ xs) z
    → Distinct (a ∷ x ∷ xs)
    → (x == r) ≡ true
    → has z (x ∷ xs) ≡ false
    → g r ≡ some p
    → f r ≡ some n
    → Between (next_without f r p n) (prev_without g r p n) a xs z
unlink_here f g r p n a x [] z b d e hz ep en = (ground arith, ground arith)
unlink_here f g r p n a x (y ∷ ys) z b d e hz ep en =
    let pa : p ≡ a = ground arith in
    let ny : n ≡ y = ground arith in
    (
      (ground arith, ground arith),
      kept f g r p n y ys z b.1.1 (ground arith) (ground arith) (ground arith) (ground arith),
    )

-- a node on the way is removed
unlink_middle :
    (f g : ℕ → Ptr) (r p n a : ℕ) (xs : List ℕ) (z : ℕ)
    → Between f g a xs z
    → Distinct (a ∷ xs)
    → has r xs ≡ true
    → has z xs ≡ false
    → g r ≡ some p
    → f r ≡ some n
    → Between (next_without f r p n) (prev_without g r p n) a (erase r xs) z
unlink_middle f g r p n a [] z b d h hz ep en = cc
unlink_middle f g r p n a (x ∷ xs) z b d h hz ep en = elim (Bool-cases (x == r)) [
  | inl e ↦ rw e (unlink_here f g r p n a x xs z b d e hz ep en)
  | inr e ↦
      let inside : has r xs ≡ true = ground arith in
      let before = prev-has f g x xs z r p b.1 inside ep in
      let behind = next-has f g x xs z r n b.1 h en in
      let not_p = ne_of_has p a (x ∷ xs) before d.0 in
      let not_r = ne_of_has r a (x ∷ xs) h d.0 in
      let not_n : (x == n) ≡ false = ground (arith, ne_of_has n x (z ∷ xs) behind (ground arith)) in
      rw e (
        (ground arith, ground arith),
        unlink_middle f g r p n x xs z b.1 d.1 inside (ground arith) ep en,
      )
]

end-has :
    (f g : ℕ → Ptr) (a : ℕ) (xs : List ℕ) (z p : ℕ)
    → Between f g a xs z
    → g z ≡ some p
    → has p (a ∷ xs) ≡ true
end-has f g a [] z p b e = ground arith
end-has f g a (x ∷ xs) z p b e = ground (arith, end-has f g x xs z p b.1 e)

-- the end `r` of a way is removed, and the way ends at the node behind it
unlink_end :
    (f g : ℕ → Ptr) (r p n a : ℕ) (xs : List ℕ)
    → Between f g a xs r
    → Distinct (a ∷ xs)
    → has r (a ∷ xs) ≡ false
    → has n xs ≡ false
    → (n == r) ≡ false
    → g r ≡ some p
    → Between (next_without f r p n) (prev_without g r p n) a xs n
unlink_end f g r p n a [] b d h hn ne ep = (ground arith, ground arith)
unlink_end f g r p n a (x ∷ xs) b d h hn ne ep =
    let last = end-has f g x xs r p b.1 ep in
    let not_p = ne_of_has p a (x ∷ xs) last d.0 in
    (
      (ground arith, ground arith),
      unlink_end f g r p n x xs b.1 d.1 (ground arith) (ground arith) ne ep,
    )

erase_ne : (r x : ℕ) (xs : List ℕ) → (x == r) ≡ false → erase r (x ∷ xs) ≡ x ∷ erase r xs
erase_ne r x xs ne = rw ne refl

unlink_head :
    (s : Handlers) (x y p : ℕ) (ys : List ℕ)
    → IsRing s (x ∷ y ∷ ys)
    → s.prev x ≡ some p
    → IsRing (clear_links x (bypass x p y s)) (y ∷ ys)
unfolding clear_links bypass
unlink_head s x y p ys h ep = (
  ground (arith, h.0, h.1.0.0),
  unlink_end s.next s.prev x p y y ys h.1.1 h.2.1 h.2.0 h.2.1.0 (ground (arith, h.2.0)) ep,
  h.2.1,
)

unlink_other :
    (s : Handlers) (r x p n : ℕ) (xs : List ℕ)
    → IsRing s (x ∷ xs)
    → (x == r) ≡ false
    → has r xs ≡ true
    → s.prev r ≡ some p
    → s.next r ≡ some n
    → IsRing (clear_links r (bypass r p n s)) (x ∷ erase r xs)
unfolding clear_links bypass
unlink_other s r x p n xs h ne hr ep en = (
  ground (arith, h.0),
  unlink_middle s.next s.prev r p n x xs x h.1 h.2 hr h.2.0 ep en,
  subst (λ l. Distinct l) (erase_ne r x xs ne) (Distinct-erase r (x ∷ xs) h.2),
)

end_prev :
    (f g : ℕ → Ptr) (a : ℕ) (xs : List ℕ) (z : ℕ) → Between f g a xs z → (p : ℕ) × (g z ≡ some p)
end_prev f g a [] z b = (a, b.1)
end_prev f g a (x ∷ xs) z b = end_prev f g x xs z b.1

-- the record is not the only one, and the writes leave the ring `ys`
del_linked :
    (s : Handlers) (r p n : ℕ) (ys : List ℕ)
    → s.next r ≡ some n
    → (n == r) ≡ false
    → s.prev r ≡ some p
    → IsRing (clear_links r (bypass r p n s)) ys
    → Relinked s ys (del_threaded_signal_handler_record r s)
unfolding del_threaded_signal_handler_record clear_links bypass
del_linked s r p n ys en ne ep h = rw en (rw ne (rw ep (h, refl)))

del_only :
    (s : Handlers) (x : ℕ)
    → s.next x ≡ some x
    → Relinked s [] (del_threaded_signal_handler_record x s)
unfolding del_threaded_signal_handler_record clear_links
del_only s x self = let same : (x == x) ≡ true = ground arith in rw self (rw same (refl, refl))

-- A record of a well-formed ring is removed without reaching NULL: the ring stays well-formed, with
-- the other records in their order, the next one as the head if the head is removed, and what the
-- records say is unchanged.
pub del_threaded_signal_handler_record-Relinked :
    (s : Handlers) (xs : List ℕ) (r : ℕ)
    → IsRing s xs
    → has r xs ≡ true
    → Relinked s (erase r xs) (del_threaded_signal_handler_record r s)
del_threaded_signal_handler_record-Relinked s [] r h hr = cc
del_threaded_signal_handler_record-Relinked s (x ∷ []) r h hr =
    let q : r ≡ x = ground arith in
    let same : (x == x) ≡ true = ground arith in rw q (rw same (del_only s x h.1.0))
del_threaded_signal_handler_record-Relinked s (x ∷ y ∷ ys) r h hr = elim (Bool-cases (x == r)) [
  | inl e ↦
      let q : r ≡ x = ground arith in
      let same : (x == x) ≡ true = ground arith in
      let (p, ep) = end_prev s.next s.prev y ys x h.1.1 in
      let ne : (y == x) ≡ false = ground (arith, h.2.0) in
      rw q (rw same (del_linked s x p y (y ∷ ys) h.1.0.0 ne ep (unlink_head s x y p ys h ep)))
  | inr e ↦
      let inside : has r (y ∷ ys) ≡ true = ground arith in
      let (p, n, ep, en, ne) = around s.next s.prev r x (y ∷ ys) x h.1 inside h.2.1 e in
      rw e (
        del_linked s r p n (x ∷ erase r (y ∷ ys)) en ne ep
          (unlink_other s r x p n (y ∷ ys) h e inside ep en))
]
