-- ===== src/Links/Remove.antt =====
-- Removal of the node behind the one at which the search stops.
use mathlib.Core.Path.{subst}
use mixed_trust_zsrmv_public.Base.{
  ℕ, suc, ◌≡◌, refl, inl, inr, Bool, true, false, none, List, [], ◌∷◌, arith, Ptr, update, ◌==◌,
  has, Distinct, length, Bool-cases, sym, not, points_to, if◌then◌else◌,
}
use mixed_trust_zsrmv_public.Links.{unlink_after}
use mixed_trust_zsrmv_public.Links.Seg.{Seg, Seg-update}
use mixed_trust_zsrmv_public.Links.Walk.{stop_at, stop_at-ne}

-- t->link != r
abbrev pub until : ℕ → ℕ → ℕ → Bool
until r t n = not (n == r)

abbrev pub erase : ℕ → List ℕ → List ℕ
erase r [] = []
erase r (y ∷ ys) = if y == r then ys else y ∷ erase r ys

pub has-erase_ne : (r : ℕ) (ys : List ℕ) (a : ℕ) → (r == a) ≡ false → has a (erase r ys) ≡ has a ys
has-erase_ne r [] a h = refl
has-erase_ne r (y ∷ ys) a h = ground (arith, has-erase_ne r ys a)

pub has-erase_self : (r : ℕ) (ys : List ℕ) → Distinct ys → has r (erase r ys) ≡ false
has-erase_self r [] d = refl
has-erase_self r (y ∷ ys) d = ground (arith, has-erase_self r ys d.1)

pub erase_absent : (r : ℕ) (ys : List ℕ) → has r ys ≡ false → erase r ys ≡ ys
erase_absent r [] h = refl
erase_absent r (y ∷ ys) h = ground (arith, erase_absent r ys)

has-erase-false : (r : ℕ) (ys : List ℕ) (a : ℕ) → has a ys ≡ false → has a (erase r ys) ≡ false
has-erase-false r [] a h = refl
has-erase-false r (y ∷ ys) a h = ground (arith, has-erase-false r ys a)

pub Distinct-erase : (r : ℕ) (ys : List ℕ) → Distinct ys → Distinct (erase r ys)
Distinct-erase r [] d = tt
Distinct-erase r (y ∷ ys) d = elim (Bool-cases (y == r)) [
  | inl e ↦ rw (e, Distinct) d.1
  | inr e ↦ rw (e, Distinct) (has-erase-false r ys y d.0, Distinct-erase r ys d.1)
]

pub length-erase : (r : ℕ) (ys : List ℕ) → has r ys ≡ true → suc (length (erase r ys)) ≡ length ys
length-erase r [] h = cc
length-erase r (y ∷ ys) h = ground (arith, length-erase r ys)

-- the search stops in front of `r` just when `r` is in the queue
pub until-points_to :
    (f : ℕ → Ptr) (r x : ℕ) (ys : List ℕ)
    → Seg f (f x) ys
    → points_to (f (stop_at (until r) x ys)) r ≡ has r ys
until-points_to f r x [] s = ground arith
until-points_to f r x (y ∷ ys) s = elim (Bool-cases (y == r)) [
  | inl e ↦ ground arith
  | inr e ↦ ground (arith, until-points_to f r y ys s.1)
]

-- a node that does not occur in a list is none of those that do
pub ne_of_has : (r x : ℕ) (ys : List ℕ) → has r ys ≡ true → has x ys ≡ false → (x == r) ≡ false
ne_of_has r x [] h out = cc
ne_of_has r x (y ∷ ys) h out = ground (arith, ne_of_has r x ys)

-- the writes behind the stop `t` turn the segment into the list without `r`
pub unlink_after_lem :
    (f : ℕ → Ptr) (r x t : ℕ) (ys : List ℕ)
    → t ≡ stop_at (until r) x ys
    → Seg f (f x) ys
    → Distinct (x ∷ ys)
    → has r ys ≡ true
    → Seg (unlink_after f r t) (unlink_after f r t x) (erase r ys)
unfolding unlink_after
unlink_after_lem f r x t [] e s d h = cc
unlink_after_lem f r x t (y ∷ ys) e s d h = elim (Bool-cases (y == r)) [
  | inl b ↦
      let at : update (update f t (f r)) r none x ≡ f y = ground arith in
      let front = Seg-update f (f y) ys t (f r) s.1 (ground arith) in
      rw (b, Seg)
        (subst (λ p. Seg (unlink_after f r t) p ys) (sym at)
          (Seg-update (update f t (f r)) (f y) ys r none front (ground arith)))
  | inr b ↦
      let e' : t ≡ stop_at (until r) y ys = ground arith in
      let apart = ne_of_has r x (y ∷ ys) h d.0 in
      rw (b, Seg)
        (
          ground (arith, stop_at-ne (until r) y ys x),
          unlink_after_lem f r y t ys e' s.1 d.1 (ground arith),
        )
]
